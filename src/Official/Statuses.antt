-- ===== src/Official/Statuses.antt =====
-- `layer_statuses` of apps/api/app/services/official_data_service.py.
use aidflow.Prelude.{
  String, Option, none, some, List, [], ◌∷◌, any, is_text, text_or, or_none, ◌⧺◌, join, starts_with,
  if◌then◌else◌,
}
use aidflow.Modules.{ModuleSpec, Registry, layer_by_key}
use aidflow.Official.Sources.{ConnectorDef, connector_of, find_fetchers, layer_fetchers}
use aidflow.Official.Fetching.{LayerResult, Upstream, join_plus}
use aidflow.Official.Cached.{Cache}

pub record LayerStatus : Type 0 where
  pub layer : String
  pub module_id : String
  pub name : String
  pub kind : String
  pub source : Option String
  pub status : String
  pub detail : Option String

-- The last entry whose key starts so.
abbrev cached_value : String → Cache → Option LayerResult → Option LayerResult
cached_value prefix [] found = found
cached_value prefix ((k, e) ∷ rest) found =
    cached_value prefix rest (if starts_with k prefix then e.value else found)

abbrev key_of : Option ConnectorDef → Option String
key_of none = none
key_of (some c) = c.key_env

abbrev wanted_keys : List String → List String
wanted_keys [] = []
wanted_keys (c ∷ cs) =
    let rest = wanted_keys cs in
    if is_text (key_of (connector_of c))
    then ("需設定 " ⧺ text_or (key_of (connector_of c)) "") ∷ rest
    else rest

-- The status and the detail of an official layer.
abbrev official_status : Upstream → List String → Option LayerResult → String × Option String
official_status up cids (some v) = (v.status, v.detail)
official_status up cids none =
    if any up.is_live cids
    then ("ready", none)
    else ("disabled", some (text_or (or_none (join (wanted_keys cids))) "未設定來源"))

abbrev status_row :
    Upstream → Cache → Option String → String → ModuleSpec → Option (List String) → LayerStatus
status_row up cache county key spec none = record {
  layer = key;
  module_id = spec.id;
  name = spec.name;
  kind = "internal";
  source = none;
  status = "ok";
  detail = none;
}
status_row up cache county key spec (some cids) =
    let (status, detail) =
      official_status up cids (cached_value (key ⧺ "|" ⧺ text_or county "" ⧺ "|") cache none) in
    record {
      layer = key;
      module_id = spec.id;
      name = spec.name;
      kind = "official";
      source = some (join_plus cids);
      status = status;
      detail = detail;
    }

unfoldable pub layer_statuses :
    Upstream → Registry → Cache → Option String → List String → List LayerStatus
unfolding layer_by_key
layer_statuses up reg cache county [] = []
layer_statuses up reg cache county (key ∷ keys) =
    let rest = layer_statuses up reg cache county keys in
    elim (layer_by_key reg key) [
      | none ↦ rest
      | some spec ↦ status_row up cache county key spec (find_fetchers layer_fetchers key) ∷ rest
    ]
