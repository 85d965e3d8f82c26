-- ===== src/Portal/Features.antt =====
-- The situation map: `case_feature`, `cluster_feature`, `report_feature` and `map_collection` of
-- apps/api/app/services/situation_service.py. A feature is a record with the entries of its dicts;
-- identifiers and moments stay what they are, without the text that JSON gives them, and the column
-- `updated_at` is left out. Rows of one moment keep the order of the table.
use aidflow.Prelude.{
  ℕ, String, Bool, true, false, not, ◌&&◌, Option, none, some, List, [], ◌++◌, any, map, select,
  take, leb, ◌==◌, sort_with, if◌then◌else◌,
}
use aidflow.Models.{
  Db, Report, ReportStatus, ReportCluster, ClusterStatus, IncidentCase, Double, Time, is_rejected,
  open_cluster,
}
use aidflow.CaseStates.{CaseStatus, value, public_label, phase_of}
use aidflow.Categories.{category_label, layer_for}
use aidflow.Cases.Creation.Basis.{is_id}
use aidflow.Cases.Listing.{is_finished, is_since}
use aidflow.Privacy.{Patterns, PublicReport, public_coords, public_report_properties}

pub record CaseProperties : Type 0 where
  pub layer : String
  pub category_layer : String
  pub case_id : ℕ
  pub case_number : String
  pub title : String
  pub category : String
  pub category_label : String
  pub severity : String
  pub status : CaseStatus
  pub status_label : String
  pub phase : String
  pub track : Option String
  pub emic_status : Option String
  pub town : Option String
  pub location_label : Option String
  pub report_count : ℕ
  pub unique_reporter_count : ℕ
  pub assigned_unit : Option String
  pub created_at : Time

pub record ClusterProperties : Type 0 where
  pub layer : String
  pub category_layer : String
  pub cluster_id : ℕ
  pub category : String
  pub category_label : String
  pub severity : String
  pub status : ClusterStatus
  pub town : Option String
  pub report_count : ℕ
  pub unique_reporter_count : ℕ
  pub case_id : Option ℕ
  pub first_reported_at : Time
  pub last_reported_at : Time

pub record InternalReport : Type 0 where
  pub report_id : ℕ
  pub category : String
  pub severity : String
  pub status : ReportStatus
  pub town : Option String
  pub address : Option String
  pub description : Option String
  pub reporter_role : String
  pub photo_count : ℕ
  pub case_id : Option ℕ
  pub cluster_id : Option ℕ
  pub created_at : Time

-- The entries of a report: those that the public may see, or those of the console.
pub data ReportProperties : Type 0 where
  masked : PublicReport → ReportProperties
  internal : InternalReport → ReportProperties

pub data Properties : Type 0 where
  incident_cases : CaseProperties → Properties
  report_clusters : ClusterProperties → Properties
  -- with the layer and the label of the category
  citizen_reports : String → String → ReportProperties → Properties

-- A point, `lat` and `lon`, with its properties.
pub record Feature : Type 0 where
  pub lat : Option Double
  pub lon : Option Double
  pub properties : Properties

abbrev case_properties : IncidentCase → CaseProperties
case_properties c = record {
  layer = "incident_cases";
  category_layer = layer_for c.category;
  case_id = c.id;
  case_number = c.case_number;
  title = c.title;
  category = c.category;
  category_label = category_label c.category;
  severity = c.severity;
  status = c.status;
  status_label = public_label (value c.status);
  phase = phase_of (value c.status);
  track = c.track;
  emic_status = c.emic_status;
  town = c.town;
  location_label = c.location_label;
  report_count = c.report_count;
  unique_reporter_count = c.unique_reporter_count;
  assigned_unit = c.assigned_unit;
  created_at = c.created_at;
}

abbrev cluster_properties : ReportCluster → ClusterProperties
cluster_properties c = record {
  layer = "report_clusters";
  category_layer = layer_for c.category;
  cluster_id = c.id;
  category = c.category;
  category_label = category_label c.category;
  severity = c.severity;
  status = c.status;
  town = c.town;
  report_count = c.report_count;
  unique_reporter_count = c.unique_reporter_count;
  case_id = c.case_id;
  first_reported_at = c.first_reported_at;
  last_reported_at = c.last_reported_at;
}

abbrev internal_report : Report → InternalReport
internal_report r = record {
  report_id = r.id;
  category = r.category;
  severity = r.triage_severity;
  status = r.status;
  town = r.town;
  address = r.address;
  description = r.description;
  reporter_role = r.reporter_role;
  photo_count = r.photo_count;
  case_id = r.case_id;
  cluster_id = r.cluster_id;
  created_at = r.created_at;
}

module _ (tools : Patterns) where
  abbrev coords : Bool → Option Double → Option Double → Option Double × Option Double
  coords is_public lat lon = if is_public then public_coords tools lat lon else (lat, lon)

  unfoldable pub case_feature : Bool → IncidentCase → Feature
  unfolding public_coords
  case_feature is_public c =
      let (lat, lon) = coords is_public (some c.lat) (some c.lon) in
      record { lat = lat; lon = lon; properties = incident_cases (case_properties c) }

  unfoldable pub cluster_feature : Bool → ReportCluster → Feature
  unfolding public_coords
  cluster_feature is_public c =
      let (lat, lon) = coords is_public (some c.centroid_lat) (some c.centroid_lon) in
      record { lat = lat; lon = lon; properties = report_clusters (cluster_properties c) }

  abbrev labelled : Report → ReportProperties → Properties
  labelled r p = citizen_reports (layer_for r.category) (category_label r.category) p

  unfoldable pub report_feature : Bool → Report → Feature
  unfolding public_report_properties
  report_feature true r =
      let props = public_report_properties tools r in
      record { lat = props.lat; lon = props.lon; properties = labelled r (masked props) }
  report_feature false r = record {
    lat = r.lat;
    lon = r.lon;
    properties = labelled r (internal (internal_report r));
  }

abbrev pub is_some : {A : Type 0} → Option A → Bool
is_some none = false
is_some (some a) = true

abbrev pub is_open : ClusterStatus → Bool
is_open open_cluster = true
is_open _ = false

-- `Report.case_id.not_in(finished)`
abbrev pub has_finished_case : Db → ℕ → Report → Bool
has_finished_case db pid r =
    any (λ (c : IncidentCase). c.platform_id == pid && is_finished c.status && is_id r.case_id c.id)
      db.cases

-- The three WHERE clauses.
unfoldable pub on_map_case : Bool → Option Time → ℕ → IncidentCase → Bool
on_map_case is_public since pid c =
    c.platform_id == pid && not (is_public && is_finished c.status) && is_since since c.created_at

unfoldable pub on_map_cluster : Option Time → ℕ → ReportCluster → Bool
on_map_cluster since pid c =
    c.platform_id == pid && is_open c.status && is_since since c.last_reported_at

unfoldable pub on_map_report : Db → Bool → Option Time → ℕ → Report → Bool
on_map_report db is_public since pid r =
    r.platform_id == pid
    && is_some r.lat
    && not (is_rejected r.status)
    && not (is_public && has_finished_case db pid r)
    && is_since since r.created_at

-- `order_by(key.desc()).limit(limit)`
unfoldable pub newest : {A : Type 0} → (A → Time) → ℕ → List A → List A
unfolding sort_with
newest key limit xs = take limit (sort_with (λ a b. leb (key b) (key a)) xs)

unfoldable pub map_collection : Patterns → Db → ℕ → Bool → Option Time → Bool → List Feature
unfolding newest case_feature cluster_feature report_feature on_map_case on_map_cluster
    on_map_report
map_collection tools db pid is_public since include_reports =
    map (case_feature tools is_public)
      (newest (λ c. c.created_at) 2000 (select (on_map_case is_public since pid) db.cases))
    ++ map (cluster_feature tools is_public)
        (newest (λ c. c.last_reported_at) 2000 (select (on_map_cluster since pid) db.clusters))
    ++ (if include_reports
        then map (report_feature tools is_public) (
            newest (λ r. r.created_at) 5000
              (select (on_map_report db is_public since pid) db.reports))
        else [])
