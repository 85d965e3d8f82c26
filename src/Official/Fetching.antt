-- ===== src/Official/Fetching.antt =====
-- `_fetch_layer` of apps/api/app/services/official_data_service.py. What a connector fetches comes from
-- outside, and so do its attribution and whether it is configured.
use aidflow.Prelude.{
  ℕ, String, Bool, false, ◌&&◌, Option, none, some, List, [], ◌∷◌, ◌++◌, length, member, str_eq,
  or_none, ◌⧺◌, join, unseen, if◌then◌else◌,
}
use aidflow.Models.{Time}
use aidflow.Official.Sources.{
  ConnectorDef, Fetched, GeoFeature, broken, connector_of, disabled, find_fetchers, got,
  layer_fetchers, unavailable,
}

-- The connectors: what each fetches for a layer and a county, the earthquakes of the weather service,
-- and what is configured.
pub record Upstream : Type 0 where
  pub fetch : String → String → Option String → Fetched
  pub earthquakes : Fetched
  pub is_live : String → Bool
  pub attribution : String → String

pub record LayerResult : Type 0 where
  pub layer : String
  pub source : String
  pub status : String
  pub detail : Option String
  pub attribution : Option String
  pub fetched_at : Time
  pub cached : Bool
  pub count : ℕ
  pub features : List GeoFeature

-- What the loop of `_fetch_layer` has gathered.
pub record Gathered : Type 0 where
  pub features : List GeoFeature
  pub statuses : List String
  pub details : List String
  pub sources : List String
  pub attribution : List String

abbrev pub nothing : Gathered
nothing = record { features = []; statuses = []; details = []; sources = []; attribution = [] }

abbrev name_of : Option ConnectorDef → String
name_of none = ""
name_of (some c) = c.name

-- A round of the loop, with what the fetcher returned or raised.
abbrev pub gather : Upstream → String → Fetched → Gathered → Gathered
gather up cid (got fs) g = record g {
  features = g.features ++ fs;
  statuses = g.statuses ++ "ok" ∷ [];
  sources = g.sources ++ cid ∷ [];
  attribution = g.attribution ++ up.attribution cid ∷ [];
}
gather up cid (disabled reason) g = record g {
  statuses = g.statuses ++ "disabled" ∷ [];
  details = g.details ++ (name_of (connector_of cid) ⧺ "：" ⧺ reason) ∷ [];
}
gather up cid (unavailable reason) g = record g {
  statuses = g.statuses ++ "unavailable" ∷ [];
  details = g.details ++ (name_of (connector_of cid) ⧺ "：" ⧺ reason) ∷ [];
}
gather up cid (broken kind) g = record g {
  statuses = g.statuses ++ "unavailable" ∷ [];
  details = g.details ++ (name_of (connector_of cid) ⧺ "：資料格式異常（" ⧺ kind ⧺ "）") ∷ [];
}

unfoldable pub gather_all : Upstream → String → Option String → List String → Gathered → Gathered
gather_all up layer county [] g = g
gather_all up layer county (cid ∷ cids) g =
    gather_all up layer county cids (gather up cid (up.fetch cid layer county) g)

-- The earthquakes; an exception of another class goes on to the caller.
abbrev pub quakes : Fetched → Gathered → Option Gathered
quakes (got fs) g = some (record g { features = g.features ++ fs })
quakes (disabled reason) g = some (record g { details = g.details ++ ("中央氣象署地震報告：" ⧺ reason) ∷ [] })
quakes (unavailable reason) g =
    some (record g { details = g.details ++ ("中央氣象署地震報告：" ⧺ reason) ∷ [] })
quakes (broken kind) g = none

unfoldable pub with_quakes : Upstream → String → List String → Gathered → Option Gathered
with_quakes up layer hazards g =
    if str_eq layer "official_alert" && member "earthquake" hazards && up.is_live "cwa_connector"
    then quakes up.earthquakes g
    else some g

unfoldable pub status_of : List String → String
status_of statuses =
    if member "ok" statuses
    then "ok"
    else if member "unavailable" statuses
    then "unavailable"
    else "disabled"

-- `"+".join(parts)`
abbrev pub join_plus : List String → String
join_plus [] = ""
join_plus (p ∷ []) = p
join_plus (p ∷ q ∷ rest) = p ⧺ "+" ⧺ join_plus (q ∷ rest)

abbrev source_of : List String → List String → String
source_of [] [] = ""
source_of [] (c ∷ cids) = c
source_of (s ∷ ss) cids = join_plus (s ∷ ss)

unfoldable pub fetched_result : String → List String → Time → Gathered → LayerResult
unfolding status_of
fetched_result layer cids now g = record {
  layer = layer;
  source = source_of g.sources cids;
  status = status_of g.statuses;
  detail = or_none (join g.details);
  attribution = or_none (join (unseen [] g.attribution));
  fetched_at = now;
  cached = false;
  count = length g.features;
  features = g.features;
}

abbrev pub without : String → String → String → Time → LayerResult
without layer status detail now = record {
  layer = layer;
  source = "none";
  status = status;
  detail = some detail;
  attribution = none;
  fetched_at = now;
  cached = false;
  count = 0;
  features = [];
}

abbrev pub result_of : String → List String → Time → Option Gathered → Option LayerResult
result_of layer cids now none = none
result_of layer cids now (some g) = some (fetched_result layer cids now g)

abbrev pub fetch_from :
    Upstream
    → String
    → Option String
    → List String
    → Time
    → Option (List String)
    → Option LayerResult
fetch_from up layer county hazards now none = some (without layer "unsupported" "不是官方資料圖層" now)
fetch_from up layer county hazards now (some cids) =
    result_of layer cids now
      (with_quakes up layer hazards (gather_all up layer county cids nothing))

-- `_fetch_layer`; `none` is an exception.
unfoldable pub fetch_layer :
    Upstream → String → Option String → List String → Time → Option LayerResult
unfolding gather_all with_quakes fetched_result
fetch_layer up layer county hazards now =
    fetch_from up layer county hazards now (find_fetchers layer_fetchers layer)
