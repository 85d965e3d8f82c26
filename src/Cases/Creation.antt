-- ===== src/Cases/Creation.antt =====
-- How a case comes to be: `create_case_from_cluster`, `attach_report_to_case` and
-- `promote_cluster` of apps/api/app/services/case_service.py.
pub mod Basis
use aidflow.Prelude.{
  ℕ, zero, suc, ◌+◌, String, Bool, true, false, not, ◌&&◌, Option, none, some, List, [], ◌∷◌, map,
  ltb, text_or, if◌then◌else◌, ◌⧺◌, decimal,
}
use aidflow.CaseStates.{pending_review}
use aidflow.Categories.{category_label, severity_rank}
use aidflow.Models.{
  Db, Report, ReportCluster, IncidentCase, ReportPhoto, Platform, Json, Time, promoted_cluster,
  ReportStatus,
}
use aidflow.Models.Table.{get, save}
use aidflow.Cases.Session.{Session}
use aidflow.Cases.Lifecycle.{EventArgs, event, is_none}
use aidflow.Cases.Numbering.{insert_case}
use aidflow.Cases.Creation.Basis.{
  TextTools, by_time, is_id, last_time, location_label, or_town, reports_for,
}

-- A photo of the report that belongs to no case yet joins the case.
link_photo : ℕ → ℕ → ReportPhoto → ReportPhoto
link_photo report_id case_id p =
    if is_id p.report_id report_id && is_none p.case_id
    then record p { case_id = some case_id }
    else p

unfoldable pub link_photos : ℕ → ℕ → Db → Db
unfolding link_photo
link_photos report_id case_id db = record db {
  photos = map (link_photo report_id case_id) db.photos;
}

-- The event of a report that reaches a case.
abbrev pub received_args : ℕ → Report → EventArgs
received_args n r = record {
  event_type = "report.received";
  actor_role = "citizen";
  actor_name = none;
  note = some ("第 " ⧺ decimal n ⧺ " 筆民眾回報");
  is_public = true;
  from_status = none;
  to_status = none;
  payload =
      ("report_id", Json.uuid r.id)
      ∷ ("reporter_role", Json.text r.reporter_role)
      ∷ ("category", Json.text r.category)
      ∷ [];
  at = some r.created_at;
}

abbrev pub in_case : ℕ → Report → Report
in_case case_id r = record r { case_id = some case_id; status = ReportStatus.promoted }

-- One round of the loop over the reports of a new case.
unfoldable pub receive : Time → ℕ → Report → Session → Session
unfolding link_photos event
receive now n r s =
    let joined : Db = record s.db {
      reports = save (λ x. x.id) (in_case s.case.id r) s.db.reports;
    } in
    (event now (received_args n r)
      (record { case = s.case; db = link_photos r.id s.case.id joined })).1

unfoldable pub receive_all : Time → ℕ → List Report → Session → Session
unfolding receive
receive_all now n [] s = s
receive_all now n (r ∷ rs) s = receive_all now (n + 1) rs (receive now n r s)

-- Why a case is made: enough people agree, or an officer says so.
pub data Trigger : Type 0 where
  threshold : Trigger
  manual : Trigger

abbrev pub is_threshold : Trigger → Bool
is_threshold threshold = true
is_threshold manual = false

abbrev pub created_args : String → Option String → String → String → Time → EventArgs
created_args role name remark trigger at = record {
  event_type = "case.created";
  actor_role = role;
  actor_name = name;
  note = some remark;
  is_public = true;
  from_status = none;
  to_status = some pending_review;
  payload = ("trigger", Json.text trigger) ∷ [];
  at = some at;
}

abbrev required_note : Option ℕ → String
required_note none = ""
required_note (some zero) = ""
required_note (some (suc n)) = "（門檻 " ⧺ decimal (suc n) ⧺ " 人）"

abbrev pub threshold_args : ReportCluster → Option ℕ → Time → EventArgs
threshold_args cluster required at = record {
  event_type = "threshold_reached";
  actor_role = "system";
  actor_name = none;
  note =
      some ("同地點 " ⧺ decimal cluster.unique_reporter_count ⧺ " 位不同民眾回報" ⧺ required_note required);
  is_public = true;
  from_status = none;
  to_status = none;
  payload = ("unique_reporters", Json.number cluster.unique_reporter_count) ∷ [];
  at = some at;
}

-- The last events of a new case; times are in microseconds.
unfoldable pub announce :
    Time → Trigger → ReportCluster → Option ℕ → Option String → Time → Session → Session
unfolding event
announce now threshold cluster required actor last_at s =
    let told = (event now (threshold_args cluster required (last_at + 1000)) s).1 in
    (event now (created_args "system" none "成案，等待承辦人員審核處理方式" "threshold" (last_at + 2000)) told).1
announce now manual cluster required actor last_at s =
    (event now (created_args "operator" actor "承辦人員人工成案，等待審核" "manual" now) s).1

-- The case before it has a number.
unfoldable pub draft_case :
    TextTools → Time → ℕ → Platform → ReportCluster → Trigger → List Report → IncidentCase
unfolding location_label
draft_case tools now id p cluster trigger reports =
    let last_at = last_time now reports in
    let town = or_town cluster.town reports in
    record {
      id = id;
      platform_id = p.id;
      cluster_id = some cluster.id;
      case_number = "";
      title = text_or town "" ⧺ category_label cluster.category;
      category = cluster.category;
      severity = cluster.severity;
      status = pending_review;
      track = none;
      lat = cluster.centroid_lat;
      lon = cluster.centroid_lon;
      town = town;
      location_label = some (location_label tools reports town);
      report_count = cluster.report_count;
      unique_reporter_count = cluster.unique_reporter_count;
      assigned_unit = none;
      public_summary = none;
      reviewed_by = none;
      reviewed_at = none;
      emic_case_no = none;
      emic_status = none;
      emic_reported_at = none;
      emic_synced_at = none;
      emic_channel = none;
      community_submitted_at = none;
      threshold_reached_at = if is_threshold trigger then some last_at else none;
      resolved_at = none;
      closed_at = none;
      created_at = if is_threshold trigger then last_at else now;
    }

abbrev pub promoted_by : ℕ → ReportCluster → ReportCluster
promoted_by case_id c = record c { case_id = some case_id; status = promoted_cluster }

-- After the insert: the cluster and its reports are promoted, and the events are written.
unfoldable pub populate :
    Time
    → ReportCluster
    → Trigger
    → Option ℕ
    → Option String
    → List Report
    → IncidentCase × Db
    → Session
unfolding receive_all announce
populate now cluster trigger required actor reports (case, db) =
    let promoted : Db = record db {
      clusters = save (λ c. c.id) (promoted_by case.id cluster) db.clusters;
    } in
    announce now trigger cluster required actor (last_time now reports)
      (receive_all now 1 reports (record { case = case; db = promoted }))

-- `none` is the RuntimeError of `_insert_case`.
unfoldable pub create_case_from_cluster :
    TextTools
    → Time
    → Platform
    → ReportCluster
    → Trigger
    → Option ℕ
    → Option String
    → Db
    → Option Session
unfolding draft_case populate insert_case
create_case_from_cluster tools now p cluster trigger required actor db =
    let reports = by_time (reports_for cluster.id db) in
    let case = draft_case tools now db.next_id p cluster trigger reports in
    let reserved : Db = record db { next_id = db.next_id + 1 } in
    elim (insert_case tools.upper reserved p case case.created_at) [
      | none ↦ none
      | some r ↦ some (populate now cluster trigger required actor reports r)
    ]

-- A further report of a case: the counts follow the cluster, and the severity only rises.
unfoldable pub attach_report_to_case : Time → IncidentCase → Report → ReportCluster → Db → Session
unfolding link_photos event
attach_report_to_case now case report cluster db =
    let joined : Db = record db {
      reports = save (λ r. r.id) (in_case case.id report) db.reports;
    } in
    let counted : IncidentCase = record case {
      report_count = cluster.report_count;
      unique_reporter_count = cluster.unique_reporter_count;
      severity =
          if ltb (severity_rank case.severity) (severity_rank report.triage_severity)
          then report.triage_severity
          else case.severity;
    } in
    (event now (received_args cluster.report_count report)
      (record { case = counted; db = link_photos report.id case.id joined })).1

abbrev pub case_of : Option ℕ → Db → Option IncidentCase
case_of none db = none
case_of (some k) db = get (λ c. c.id) k db.cases

-- An officer makes a case of a cluster; one that has a case keeps it.
unfoldable pub promote_cluster :
    TextTools → Time → Platform → ReportCluster → Option String → Db → Option Session
unfolding create_case_from_cluster
promote_cluster tools now p cluster actor db = elim (case_of cluster.case_id db) [
  | some case ↦ some (record { case = case; db = db })
  | none ↦ create_case_from_cluster tools now p cluster manual none actor db
]
