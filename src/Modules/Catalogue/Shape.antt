-- ===== src/Modules/Catalogue/Shape.antt =====
-- The shape of an entry of apps/api/app/modules/aidflow_modules.py. The descriptions are left out: no
-- code of the API reads them but to show them.
use aidflow.Prelude.{String, Bool, Option, List, [], ◌∷◌}
use aidflow.Modules.{ModuleSpec}

abbrev pub spec :
    String
    → String
    → String
    → String
    → List String
    → List String
    → Bool
    → Bool
    → List String
    → Option String
    → Option String
    → ModuleSpec
spec id name domain module_type surfaces hazards default_enabled core deps layer_key source =
    record {
      id = id;
      name = name;
      domain = domain;
      module_type = module_type;
      surfaces = surfaces;
      applicable_hazards = hazards;
      default_enabled = default_enabled;
      core = core;
      dependencies = deps;
      layer_key = layer_key;
      source = source;
    }

abbrev pub both : List String
both = "public" ∷ "console" ∷ []

abbrev pub public_only : List String
public_only = "public" ∷ []

abbrev pub console_only : List String
console_only = "console" ∷ []

abbrev pub every : List String
every = "*" ∷ []

-- WATER and SLOPE
abbrev pub water : List String
water = "typhoon" ∷ "heavy_rain" ∷ "flood" ∷ "barrier_lake" ∷ "landslide" ∷ []

abbrev pub slope : List String
slope = "heavy_rain" ∷ "landslide" ∷ "typhoon" ∷ "earthquake" ∷ []
