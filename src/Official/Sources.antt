-- ===== src/Official/Sources.antt =====
-- The connectors of services/official_data_service.py (apps/api/app), without the texts that describe
-- them, and the connectors of each layer.
use aidflow.Prelude.{
  String, Bool, true, false, Option, none, some, List, [], ◌∷◌, first, str_eq, if◌then◌else◌,
}
use aidflow.Models.{Payload}

-- A GeoFeature is a dict.
abbrev pub GeoFeature : Type 0
GeoFeature = Payload

-- What a fetcher returns, or the exception that it raises: `ConnectorDisabled`, `ConnectorError`, or
-- another by the name of its class.
pub data Fetched : Type 0 where
  got : List GeoFeature → Fetched
  disabled unavailable broken : String → Fetched

pub record ConnectorDef : Type 0 where
  pub id : String
  pub name : String
  pub layers : List String
  pub requires_key : Bool
  pub key_env : Option String

-- `CONNECTORS`
abbrev pub connectors : List ConnectorDef
connectors =
    record {
      id = "nantou_open_data_connector";
      name = "南投縣政府資料開放平台";
      layers = "fire_station" ∷ [];
      requires_key = false;
      key_env = none;
    }
    ∷ record {
      id = "moi_shelter_connector";
      name = "避難收容處所點位檔";
      layers = "shelter" ∷ [];
      requires_key = false;
      key_env = none;
    }
    ∷ record {
      id = "wra_connector";
      name = "水利資料開放平台";
      layers = "water" ∷ "reservoir" ∷ [];
      requires_key = false;
      key_env = none;
    }
    ∷ record {
      id = "ardswc_connector";
      name = "土石流及大規模崩塌防災資訊網";
      layers = "debris_flow" ∷ "landslide_zone" ∷ [];
      requires_key = false;
      key_env = none;
    }
    ∷ record {
      id = "tdx_connector";
      name = "TDX 運輸資料流通服務";
      layers = "road_traffic" ∷ [];
      requires_key = true;
      key_env = some "TDX_CLIENT_ID";
    }
    ∷ record {
      id = "moi_population_connector";
      name = "戶政司人口統計";
      layers = "population" ∷ [];
      requires_key = false;
      key_env = none;
    }
    ∷ record {
      id = "taipower_connector";
      name = "台電計畫性工作停電";
      layers = "power_outage" ∷ [];
      requires_key = false;
      key_env = none;
    }
    ∷ record {
      id = "cwa_connector";
      name = "氣象資料開放平台";
      layers = "rainfall" ∷ "official_alert" ∷ "radar" ∷ [];
      requires_key = true;
      key_env = some "CWA_API_KEY";
    }
    ∷ record {
      id = "ncdr_connector";
      name = "民生示警公開資料平台 (CAP)";
      layers = "official_alert" ∷ [];
      requires_key = true;
      key_env = some "NCDR_CAP_FEED_URL";
    }
    ∷ []

-- `CONNECTORS[cid]`
abbrev pub connector_of : String → Option ConnectorDef
connector_of id = first (λ c. str_eq c.id id) connectors

-- `_LAYER_FETCHERS`, by the connectors; the fetcher of a connector for a layer comes from outside.
abbrev pub layer_fetchers : List (String × List String)
layer_fetchers =
    ("shelter", "moi_shelter_connector" ∷ [])
    ∷ ("fire_station", "nantou_open_data_connector" ∷ [])
    ∷ ("water", "wra_connector" ∷ [])
    ∷ ("rainfall", "cwa_connector" ∷ [])
    ∷ ("official_alert", "cwa_connector" ∷ "ncdr_connector" ∷ [])
    ∷ ("radar", "cwa_connector" ∷ [])
    ∷ ("debris_flow", "ardswc_connector" ∷ [])
    ∷ ("landslide_zone", "ardswc_connector" ∷ [])
    ∷ ("road_traffic", "tdx_connector" ∷ [])
    ∷ ("reservoir", "wra_connector" ∷ [])
    ∷ ("population", "moi_population_connector" ∷ [])
    ∷ ("power_outage", "taipower_connector" ∷ [])
    ∷ []

abbrev pub find_fetchers : List (String × List String) → String → Option (List String)
find_fetchers [] layer = none
find_fetchers ((l, cids) ∷ rest) layer =
    let later = find_fetchers rest layer in if str_eq l layer then some cids else later
