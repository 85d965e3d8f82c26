-- ===== src/Reports.antt =====
-- The intake of citizen reports: `create_report`, `reject_report` and what they call, of
-- apps/api/app/services/report_service.py. The notifications after the commit are left out: they
-- never change a row.
pub mod Rows
pub mod Intake
pub mod Listing
pub mod Examples
use aidflow.Prelude.{
  ℕ, ◌+◌, String, Bool, true, false, not, ◌&&◌, Option, none, some, List, [], ◌∷◌, ◌++◌, map,
  select, member, is_text, text_or, if◌then◌else◌,
}
use aidflow.Models.{
  Db, Report, ReportStatus, ReportCluster, IncidentCase, Platform, Double, Time, Json, json_text,
  enqueue_event,
}
use aidflow.Models.Table.{get, save}
use aidflow.Geo.{Float, haversine_m}
use aidflow.Categories.{ReportCategory, categories, find_category, reporter_role_keys, escalate}
use aidflow.Privacy.{reporter_key}
use aidflow.Cases.Creation.{case_of}
use aidflow.Cases.Creation.Basis.{TextTools}
use aidflow.Clusters.Policy.{ClusterPolicy, policy_from_dict}
use aidflow.Clusters.Process.{Processed, recount, process_report}
use aidflow.Reports.Rows.{
  IntakeResult, ReportCreate, Secrets, Setup, failed, invalid_category, platform_not_accepting,
  refused, stored,
}

abbrev pub known : Option ReportCategory → Bool
known none = false
known (some _) = true

abbrev pub or_list : List String → List String → List String
or_list [] d = d
or_list (x ∷ xs) d = x ∷ xs

unfoldable pub allowed_categories : Setup → List String
allowed_categories su =
    or_list (select (λ k. known (find_category k)) su.category_keys) (map (λ c. c.key) categories)

module _ (f : Float) where
  abbrev nearer :
      Double
      → Double
      → Option (Double × String)
      → String × Double × Double
      → Option (Double × String)
  nearer lat lon none (name, tlat, tlon) = some (haversine_m f lat lon tlat tlon, name)
  nearer lat lon (some (d, best)) (name, tlat, tlon) =
      if f.lt (haversine_m f lat lon tlat tlon) d
      then some (haversine_m f lat lon tlat tlon, name)
      else some (d, best)

  nearest_from :
      Double → Double → Option (Double × String) → List (String × Double × Double) → Option String
  nearest_from lat lon none [] = none
  nearest_from lat lon (some (d, best)) [] = some best
  nearest_from lat lon best (t ∷ ts) = nearest_from lat lon (nearer lat lon best t) ts

  unfoldable pub nearest_town : Setup → Option Double → Option Double → Option String
  unfolding nearest_from
  nearest_town su (some lat) (some lon) = nearest_from lat lon none su.towns
  nearest_town su _ _ = none

abbrev default_severity_of : Option ReportCategory → String
default_severity_of none = ""
default_severity_of (some c) = c.default_severity

-- `a or b`
abbrev or_else : Option String → Option String → Option String
or_else a b = if is_text a then a else b

abbrev pub role_or_citizen : String → String
role_or_citizen role = if member role reporter_role_keys then role else "citizen"

abbrev pub stated_severity : ReportCreate → String
stated_severity p = text_or p.severity (default_severity_of (find_category p.category))

abbrev pub wants_mail : ReportCreate → Bool
wants_mail p = p.notify_opt_in && is_text p.reporter_email

-- The row, with its triage.
unfoldable pub report_row :
    Secrets
    → ℕ
    → Platform
    → ReportCreate
    → Option String
    → Option String
    → String
    → String
    → Time
    → Report
report_row secrets id platform p town client_key source triaged at = record {
  id = id;
  platform_id = platform.id;
  category = p.category;
  description = p.description;
  severity = stated_severity p;
  triage_severity = triaged;
  lat = p.lat;
  lon = p.lon;
  town = town;
  address = p.address;
  reporter_role = role_or_citizen p.reporter_role;
  reporter_name = p.reporter_name;
  reporter_contact = p.reporter_contact;
  reporter_email = p.reporter_email;
  notify_opt_in = wants_mail p;
  notify_token = if wants_mail p then some (secrets.token 24) else none;
  reporter_key =
      reporter_key secrets.hashing (or_else p.reporter_contact p.reporter_email) client_key;
  status = ReportStatus.received;
  cluster_id = none;
  case_id = none;
  photo_count = 0;
  source = source;
  created_at = at;
}

abbrev pub is_located : Option Double → Bool
is_located none = false
is_located (some _) = true

-- The insert, and its audit event.
unfoldable pub insert_report : Report → Db → Db
unfolding enqueue_event
insert_report r db =
    enqueue_event "report.created" (some r.id)
      (("platform_id", Json.uuid r.platform_id)
        ∷ ("report_id", Json.uuid r.id)
        ∷ ("category", Json.text r.category)
        ∷ ("triage_severity", Json.text r.triage_severity)
        ∷ ("reporter_role", Json.text r.reporter_role)
        ∷ ("geolocated", Json.flag (is_located r.lat))
        ∷ ("source", Json.text r.source)
        ∷ [])
      (record db { reports = db.reports ++ r ∷ []; next_id = db.next_id + 1 })

module _ (f : Float) where
  processed_or_failed : ℕ → Option Processed → IntakeResult
  processed_or_failed id none = refused failed
  processed_or_failed id (some out) = stored id out

  -- The last steps, with what triage returned.
  unfoldable pub intake :
      TextTools
      → Secrets
      → Time
      → ClusterPolicy
      → Setup
      → ReportCreate
      → Option String
      → String
      → Db
      → Option String
      → IntakeResult
  unfolding report_row insert_report processed_or_failed process_report
  intake tools secrets now base su p client_key source db none = refused failed
  intake tools secrets now base su p client_key source db (some triaged) =
      let town = if is_text p.town then p.town else nearest_town f su p.lat p.lon in
      let r = report_row secrets db.next_id su.platform p town client_key source triaged now in
      processed_or_failed r.id (
        process_report f tools now su.platform (policy_from_dict base su.policy) r
          (insert_report r db))

  -- `now` is the moment of the report.
  unfoldable pub create_report :
      TextTools
      → Secrets
      → Time
      → ClusterPolicy
      → Setup
      → ReportCreate
      → Option String
      → String
      → Db
      → IntakeResult
  unfolding intake allowed_categories
  create_report tools secrets now base su p client_key source db =
      if su.platform.is_archived
      then refused platform_not_accepting
      else if not (member p.category (allowed_categories su))
      then refused (invalid_category p.category (allowed_categories su))
      else intake tools secrets now base su p client_key source db
          (escalate (stated_severity p) p.category (some (role_or_citizen p.reporter_role)))

abbrev pub rejected_report : Report → Report
rejected_report r = record r { status = ReportStatus.rejected }

abbrev pub count_case : ReportCluster → IncidentCase → IncidentCase
count_case c case = record case {
  report_count = c.report_count;
  unique_reporter_count = c.unique_reporter_count;
}

abbrev pub count_in_case : ReportCluster → Db → Db
count_in_case c db = elim (case_of c.case_id db) [
  | none ↦ db
  | some case ↦ record db { cases = save (λ x. x.id) (count_case c case) db.cases }
]

abbrev pub cluster_of : Option ℕ → Db → Option ReportCluster
cluster_of none db = none
cluster_of (some k) db = get (λ c. c.id) k db.clusters

-- The report is written, and the event follows.
unfoldable pub mark_rejected : Option String → Report → Db → Db
unfolding enqueue_event
mark_rejected note r db =
    enqueue_event "report.rejected" (some r.id)
      (("platform_id", Json.uuid r.platform_id)
        ∷ ("report_id", Json.uuid r.id)
        ∷ ("note", json_text note)
        ∷ [])
      (record db { reports = save (λ x. x.id) (rejected_report r) db.reports })

module _ (f : Float) where
  abbrev pub recount_in : ClusterPolicy → ReportCluster → Db → Db
  recount_in policy c db =
      let counted = recount f policy c db in
      count_in_case counted (record db { clusters = save (λ x. x.id) counted db.clusters })

  unfoldable pub reject_report : ClusterPolicy → Setup → Option String → Report → Db → Db
  unfolding mark_rejected
  reject_report base su note r db =
      let db' = mark_rejected note r db in
      elim (cluster_of r.cluster_id db') [
        | none ↦ db'
        | some c ↦ recount_in (policy_from_dict base su.policy) c db'
      ]
