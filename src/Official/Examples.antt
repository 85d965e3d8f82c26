-- ===== src/Official/Examples.antt =====
-- The layer of official alerts, with one source that delivers and one that is not configured.
use aidflow.Prelude.{
  ◌+◌, ◌≤◌, min, ◌≡◌, refl, ◌++◌, String, true, false, none, some, List, [], ◌∷◌, length, str_eq,
  if◌then◌else◌,
}
use aidflow.Platforms.Rows.{PlatformRow}
use aidflow.Platforms.Examples.{row}
use aidflow.Models.{Json}
use aidflow.Official.Sources.{GeoFeature, got, disabled}
use aidflow.Official.Fetching.{Upstream, LayerResult, fetch_layer}
use aidflow.Official.Cached.{Cache, cache_key, get_layer}
use aidflow.Official.Gathering.{
  answers, all_delivered, quake_features, expected_status, fetch_layer_lem,
}
use aidflow.Official.Spacing.{Fetch, Reached, start, asked, newest_fetch, logged, get_layer_lem}

abbrev alert : GeoFeature
alert = ("headline", Json.text "豪雨特報") ∷ []

abbrev up : Upstream
up = record {
  fetch =
      λ cid layer county. if str_eq cid "cwa_connector" then got (alert ∷ []) else disabled "NCDR";
  earthquakes = got [];
  is_live = λ cid. true;
  attribution = λ cid. cid;
}

abbrev sources : List String
sources = "cwa_connector" ∷ "ncdr_connector" ∷ []

fetch_layer_lem_example :
    (v : LayerResult) × (fetch_layer up "official_alert" none ("earthquake" ∷ []) 5 ≡ some v)
    × (v.features
        ≡ all_delivered (answers up "official_alert" none sources)
          ++ quake_features up "official_alert" ("earthquake" ∷ []))
    × (v.count ≡ length v.features)
    × (v.status ≡ expected_status (answers up "official_alert" none sources))
fetch_layer_lem_example =
    fetch_layer_lem up "official_alert" none ("earthquake" ∷ []) 5 sources refl refl

abbrev platform : PlatformRow
platform = record (row 1 10 []) { layers = "official_alert" ∷ [] }

-- A first fetch, kept for five minutes, and a call ten minutes later.
abbrev first_cache : Cache
first_cache = (get_layer up 300000000 platform "official_alert" false 10 20 5 []).cache

abbrev first_log : List Fetch
first_log =
    logged (get_layer up 300000000 platform "official_alert" false 10 20 5 [])
      (cache_key platform "official_alert") 20 []

first_Reached : Reached 300000000 first_cache first_log
first_Reached = asked up platform "official_alert" false 10 20 5 start

again :
    (get_layer up 300000000 platform "official_alert" false 600000000 600000001 6
      first_cache).fetched
    ≡ true
unfolding get_layer
again = refl

fetched_once : (f : Fetch) × (newest_fetch (cache_key platform "official_alert") first_log ≡ some f)
unfolding get_layer
fetched_once = (_, refl)

get_layer_lem_example :
    (fetched_once.0.value.status ≡ "ok" → fetched_once.0.at + 300000000 ≤ 600000000)
    × ((fetched_once.0.value.status ≡ "ok" → ⊥)
        → fetched_once.0.at + min 300000000 60000000 ≤ 600000000)
get_layer_lem_example =
    get_layer_lem up platform "official_alert" 600000000 600000001 6 fetched_once.0 first_Reached
      fetched_once.1 again
