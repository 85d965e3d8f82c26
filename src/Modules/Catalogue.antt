-- ===== src/Modules/Catalogue.antt =====
-- The catalogue of modules: apps/api/app/modules/aidflow_modules.py.
pub mod Shape
pub mod Reports
pub mod Layers
pub mod Sources
use aidflow.Prelude.{List, ◌++◌}
use aidflow.Modules.{ModuleSpec}
use Reports.{reports_modules}
use Layers.{layers_modules}
use Sources.{sources_modules}

-- `MODULES`
unfoldable pub catalogue : List ModuleSpec
catalogue = reports_modules ++ (layers_modules ++ sources_modules)
