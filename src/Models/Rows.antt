-- ===== src/Models/Rows.antt =====
-- The rows of apps/api/app/db/models.py.
use aidflow.Prelude.{ℕ, String, Bool, Option, List, [], ◌∷◌, str_eq, if◌then◌else◌}
use aidflow.CaseStates.{CaseStatus}

-- A double by its bit pattern; its operations are those of Geo.Float.
abbrev pub Double : Type 0
Double = ℕ

-- A moment, in microseconds.
abbrev pub Time : Type 0
Time = ℕ

-- The values of the JSON payloads that the services write.
pub data Json : Type 0 where
  null : Json
  flag : Bool → Json
  number : ℕ → Json
  uuid : ℕ → Json
  text : String → Json
  texts : List String → Json
  -- a cluster policy: its required reporters, radius, window, and whether it counts anonymous ones
  limits : (required radius window : ℕ) → Bool → Json
  -- the centre and the zoom of a map
  view : (lat lon : Double) → ℕ → Json
  -- any other value, with its truth
  opaque : ℕ → Bool → Json
  -- a dict of texts, some of them `None`
  changes : List (String × Option String) → Json
  -- the `changes` of `update_user`: the new name, role and activity, where the dict has the key, and
  -- whether it has `password_reset`
  account : Option String → Option String → Option Bool → Bool → Json

abbrev pub Payload : Type 0
Payload = List (String × Json)

-- `payload[key] = value` on a dict
abbrev pub put_key : String → Json → Payload → Payload
put_key key value [] = (key, value) ∷ []
put_key key value ((k, v) ∷ rest) =
    let later = put_key key value rest in if str_eq k key then (k, value) ∷ rest else (k, v) ∷ later

-- `d.get(key)`, with `null` also for a missing key
abbrev pub get_key : String → Payload → Json
get_key key [] = null
get_key key ((k, v) ∷ rest) = let later = get_key key rest in if str_eq k key then v else later

-- `d.pop(key, None)`; a dict has a key once.
abbrev pub drop_key : String → Payload → Payload
drop_key key [] = []
drop_key key ((k, v) ∷ rest) =
    let later = drop_key key rest in if str_eq k key then later else (k, v) ∷ later

-- `{**base, **extra}`
abbrev pub merge : Payload → Payload → Payload
merge base [] = base
merge base ((k, v) ∷ extra) = merge (put_key k v base) extra

-- `null` for `None`
abbrev pub json_text : Option String → Json
json_text Option.none = null
json_text (Option.some s) = text s

pub data ReportStatus : Type 0 where
  received clustered promoted rejected : ReportStatus

abbrev pub is_rejected : ReportStatus → Bool
is_rejected rejected = Bool.true
is_rejected _ = Bool.false

-- Left out: `raw_payload` and `updated_at`, which no modelled operation reads.
pub record Report : Type 0 where
  pub id : ℕ
  pub platform_id : ℕ
  pub category : String
  pub description : Option String
  pub severity : String
  pub triage_severity : String
  pub lat : Option Double
  pub lon : Option Double
  pub town : Option String
  pub address : Option String
  pub reporter_role : String
  pub reporter_name : Option String
  pub reporter_contact : Option String
  pub reporter_email : Option String
  pub notify_opt_in : Bool
  pub notify_token : Option String
  pub reporter_key : Option String
  pub status : ReportStatus
  pub cluster_id : Option ℕ
  pub case_id : Option ℕ
  pub photo_count : ℕ
  pub source : String
  pub created_at : Time

pub data ClusterStatus : Type 0 where
  open_cluster promoted_cluster closed_cluster dismissed_cluster : ClusterStatus

-- Left out: `created_at` and `updated_at`.
pub record ReportCluster : Type 0 where
  pub id : ℕ
  pub platform_id : ℕ
  pub category : String
  pub severity : String
  pub centroid_lat : Double
  pub centroid_lon : Double
  pub town : Option String
  pub report_count : ℕ
  pub unique_reporter_count : ℕ
  pub status : ClusterStatus
  pub case_id : Option ℕ
  pub first_reported_at : Time
  pub last_reported_at : Time

-- Left out: `updated_at`.
pub record IncidentCase : Type 0 where
  pub id : ℕ
  pub platform_id : ℕ
  pub cluster_id : Option ℕ
  pub case_number : String
  pub title : String
  pub category : String
  pub severity : String
  pub status : CaseStatus
  pub track : Option String
  pub lat : Double
  pub lon : Double
  pub town : Option String
  pub location_label : Option String
  pub report_count : ℕ
  pub unique_reporter_count : ℕ
  pub assigned_unit : Option String
  pub public_summary : Option String
  pub reviewed_by : Option String
  pub reviewed_at : Option Time
  pub emic_case_no : Option String
  pub emic_status : Option String
  pub emic_reported_at : Option Time
  pub emic_synced_at : Option Time
  pub emic_channel : Option String
  pub community_submitted_at : Option Time
  pub threshold_reached_at : Option Time
  pub resolved_at : Option Time
  pub closed_at : Option Time
  pub created_at : Time

pub record CaseEvent : Type 0 where
  pub id : ℕ
  pub case_id : ℕ
  pub platform_id : ℕ
  pub event_type : String
  pub from_status : Option CaseStatus
  pub to_status : Option CaseStatus
  pub actor_role : String
  pub actor_name : Option String
  pub note : Option String
  pub is_public : Bool
  pub payload : Payload
  pub created_at : Time

-- Left out: `created_at` and `processed_at`, which the database sets.
pub record EventOutbox : Type 0 where
  pub id : ℕ
  pub event_type : String
  pub aggregate_id : Option ℕ
  pub payload : Payload
  pub processed : Bool

-- Left out: the storage metadata, which media_service writes.
pub record ReportPhoto : Type 0 where
  pub id : ℕ
  pub report_id : Option ℕ
  pub case_id : Option ℕ
  pub platform_id : ℕ
  pub kind : String
  pub source : String
  pub content_type : String
  pub size_bytes : ℕ
  pub caption : Option String
  pub is_public : Bool
  pub created_at : Time

-- The columns of a platform that the report pipeline reads; `case_prefix` is the entry of its
-- configuration.
pub record Platform : Type 0 where
  pub id : ℕ
  pub slug : String
  pub name : String
  pub county : Option String
  pub is_archived : Bool
  pub case_prefix : Option String
