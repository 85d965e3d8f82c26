-- ===== src/Console/Records.antt =====
-- The records of the console with personal data: `get_case`, `_detail`, `get_report` and
-- `reject_report` of apps/api/app/routers/cases.py, and `report_internal` and `has_pii` of
-- apps/api/app/services/presenters.py. Photos, the cases nearby and the settings of EMIC, which
-- `_detail` adds, are left out.
use aidflow.Prelude.{
  ℕ, String, Bool, true, false, not, ◌&&◌, ◌||◌, Option, none, some, List, [], ◌∷◌, any, map, count,
  select, is_text, if◌then◌else◌,
}
use aidflow.Models.{
  Db, Report, ReportStatus, IncidentCase, Double, Time, Payload, Json, enqueue_event,
}
use aidflow.Models.Table.{get}
use aidflow.Permissions.{view_console, view_pii, review_cases}
use aidflow.Accounts.Rows.{User}
use aidflow.Access.{Request, Principal, can}
use aidflow.Cases.Creation.Basis.{is_id}
use aidflow.Cases.Queries.{get_case, timeline, reports_of}
use aidflow.Geo.{Float}
use aidflow.Clusters.Policy.{ClusterPolicy}
use aidflow.Reports.{reject_report, rejected_report}
use aidflow.Reports.Rows.{Setup}
use aidflow.Platforms.Rows.{Site}
use aidflow.Privacy.{Patterns, mask_address}
use aidflow.Situation.Counting.{Counts, group}
use aidflow.Console.{Api, done, Outcome, refuse, guarded, with_case, actor_name}
use aidflow.Console.Items.{CaseItem, case_item, EventItem, event_item}

pub record ReportInternal : Type 0 where
  pub id : ℕ
  pub platform_id : ℕ
  pub category : String
  pub description : Option String
  pub severity : String
  pub triage_severity : String
  pub lat : Option Double
  pub lon : Option Double
  pub town : Option String
  pub address : Option String
  pub reporter_role : String
  pub reporter_name : Option String
  pub reporter_contact : Option String
  pub reporter_email : Option String
  pub pii_hidden : Bool
  pub notify_opt_in : Bool
  pub has_identity : Bool
  pub status : ReportStatus
  pub cluster_id : Option ℕ
  pub case_id : Option ℕ
  pub photo_count : ℕ
  pub source : String
  pub created_at : Time

unfoldable pub has_pii : Report → Bool
has_pii r = is_text r.reporter_name || is_text r.reporter_contact || is_text r.reporter_email

abbrev only_if : Bool → Option String → Option String
only_if b value = if b then value else none

abbrev is_there : Option String → Bool
is_there none = false
is_there (some s) = true

unfoldable pub report_internal : Patterns → Bool → Report → ReportInternal
unfolding has_pii mask_address
report_internal tools include_pii r = record {
  id = r.id;
  platform_id = r.platform_id;
  category = r.category;
  description = r.description;
  severity = r.severity;
  triage_severity = r.triage_severity;
  lat = r.lat;
  lon = r.lon;
  town = r.town;
  address = if include_pii then r.address else mask_address tools r.address;
  reporter_role = r.reporter_role;
  reporter_name = only_if include_pii r.reporter_name;
  reporter_contact = only_if include_pii r.reporter_contact;
  reporter_email = only_if include_pii r.reporter_email;
  pii_hidden = not include_pii && has_pii r;
  notify_opt_in = r.notify_opt_in;
  has_identity = is_there r.reporter_key;
  status = r.status;
  cluster_id = r.cluster_id;
  case_id = r.case_id;
  photo_count = r.photo_count;
  source = r.source;
  created_at = r.created_at;
}

pub record CaseDetailResponse : Type 0 where
  pub case : CaseItem
  pub reports : List ReportInternal
  pub events : List EventItem
  pub reporter_roles : Counts
  pub pii_visible : Bool

-- `str(principal.user_id) if principal.user_id else None`
abbrev user_json : Option User → Json
user_json none = Json.null
user_json (some u) = Json.uuid u.id

-- `cluster_reporter_breakdown` of apps/api/app/services/cluster_service.py, if there is a cluster
unfoldable pub breakdown : Db → Option ℕ → Counts
unfolding group
breakdown db none = []
breakdown db (some k) =
    group
      (map (λ r. some r.reporter_role) (select (λ (r : Report). is_id r.cluster_id k) db.reports))

-- The entry in the audit log, where somebody sees personal data of a case.
abbrev pub case_viewed : Principal → IncidentCase → List Report → Payload
case_viewed principal c reports =
    ("platform_id", Json.uuid c.platform_id)
    ∷ ("case_id", Json.uuid c.id)
    ∷ ("case_number", Json.text c.case_number)
    ∷ ("user_id", user_json principal.user)
    ∷ ("username", Json.text (actor_name principal))
    ∷ ("reports", Json.number (count has_pii reports))
    ∷ []

abbrev pub report_viewed : Principal → Report → Payload
report_viewed principal r =
    ("platform_id", Json.uuid r.platform_id)
    ∷ ("report_id", Json.uuid r.id)
    ∷ ("user_id", user_json principal.user)
    ∷ ("username", Json.text (actor_name principal))
    ∷ []

-- `enqueue_event` and `commit`, under a test
abbrev pub audited : Bool → ℕ → Payload → Site → Site
audited b id payload s =
    if b then record s { db = enqueue_event "pii.viewed" (some id) payload s.db } else s

module _ (tools : Patterns) where
  -- `_detail`
  unfoldable pub detail : Site → Principal → IncidentCase → Outcome CaseDetailResponse
  unfolding report_internal case_item event_item breakdown has_pii
  detail s principal c =
      let reports = reports_of s.db c.id in
      let show_pii = can principal view_pii in
      record {
        answer = done (record {
          case = case_item c;
          reports = map (report_internal tools show_pii) reports;
          events = map event_item (timeline s.db c.id false);
          reporter_roles = breakdown s.db c.cluster_id;
          pii_visible = show_pii;
        });
        site = audited (show_pii && any has_pii reports) c.id (case_viewed principal c reports) s;
        sent = [];
      }

  unfoldable pub view_case : Api → Request → Site → ℕ → Outcome CaseDetailResponse
  unfolding detail
  view_case api req s case_id =
      guarded api (view_console ∷ []) req s
        (λ principal. with_case s (get_case s.db case_id) (detail s principal))

  abbrev pub report_detail : Site → Principal → Report → Outcome ReportInternal
  report_detail s principal r =
      let show_pii = can principal view_pii in
      record {
        answer = done (report_internal tools show_pii r);
        site = audited (show_pii && has_pii r) r.id (report_viewed principal r) s;
        sent = [];
      }

  abbrev pub with_report : {A : Type 0} → Site → Option Report → (Report → Outcome A) → Outcome A
  with_report s none f = refuse s 404
  with_report s (some r) f = f r

  unfoldable pub view_report : Api → Request → Site → ℕ → Outcome ReportInternal
  unfolding report_internal has_pii
  view_report api req s report_id = guarded api (view_console ∷ []) req s (λ principal.
      with_report s (get (λ r. r.id) report_id s.db.reports) (report_detail s principal))

  -- `reject_report` of the router, with the policy and the setup of the report's platform
  abbrev rejection :
      Float
      → ClusterPolicy
      → Setup
      → Option String
      → Site
      → Principal
      → Report
      → Outcome ReportInternal
  rejection f base su note s principal r = record {
    answer = done (report_internal tools (can principal view_pii) (rejected_report r));
    site = record s { db = reject_report f base su note r s.db };
    sent = [];
  }

  unfoldable pub reject :
      Float
      → ClusterPolicy
      → Setup
      → Api
      → Request
      → Site
      → ℕ
      → Option String
      → Outcome ReportInternal
  unfolding report_internal reject_report
  reject f base su api req s report_id note = guarded api (review_cases ∷ []) req s (λ principal.
      with_report s (get (λ r. r.id) report_id s.db.reports) (rejection f base su note s principal))
