-- ===== src/Portal/Alike.antt =====
-- Databases that the public cannot tell apart: what the tables share, row by row, is what the portal
-- may show. Everything else may differ.
use aidflow.Prelude.{◌≡◌, true, Pointwise}
use aidflow.Models.{Db, Report, ReportCluster, IncidentCase, CaseEvent, ReportPhoto}
use aidflow.Privacy.{Patterns, public_coords, mask_address, redact_text, public_report_properties}
use aidflow.Views.{event_label}
use aidflow.Portal.Features.{case_feature, cluster_feature, report_feature, is_some}
use aidflow.Portal.Pages.{public_case, timeline_item, photo_item}

-- Free are the exact place, the text of the summary before it is redacted, who reviewed the case, its
-- EMIC number, its cluster, and the moments that the public does not see.
pub record CaseAlike (tools : Patterns) (c d : IncidentCase) : Type 0 where
  pub id : c.id ≡ d.id
  pub platform_id : c.platform_id ≡ d.platform_id
  pub case_number : c.case_number ≡ d.case_number
  pub title : c.title ≡ d.title
  pub category : c.category ≡ d.category
  pub severity : c.severity ≡ d.severity
  pub status : c.status ≡ d.status
  pub track : c.track ≡ d.track
  pub lat : tools.round_coord c.lat ≡ tools.round_coord d.lat
  pub lon : tools.round_coord c.lon ≡ tools.round_coord d.lon
  pub town : c.town ≡ d.town
  pub location_label : c.location_label ≡ d.location_label
  pub report_count : c.report_count ≡ d.report_count
  pub unique_reporter_count : c.unique_reporter_count ≡ d.unique_reporter_count
  pub assigned_unit : c.assigned_unit ≡ d.assigned_unit
  pub emic_status : c.emic_status ≡ d.emic_status
  pub public_summary : redact_text tools c.public_summary ≡ redact_text tools d.public_summary
  pub created_at : c.created_at ≡ d.created_at
  pub reviewed_at : c.reviewed_at ≡ d.reviewed_at
  pub closed_at : c.closed_at ≡ d.closed_at

-- Free are the reporter's name, contact, address of mail and key, the subscription and its token, the
-- exact place, the house number, the description before it is redacted, the severity that was stated,
-- and the source.
pub record ReportAlike (tools : Patterns) (r q : Report) : Type 0 where
  pub id : r.id ≡ q.id
  pub platform_id : r.platform_id ≡ q.platform_id
  pub category : r.category ≡ q.category
  pub triage_severity : r.triage_severity ≡ q.triage_severity
  pub status : r.status ≡ q.status
  pub town : r.town ≡ q.town
  pub address : mask_address tools r.address ≡ mask_address tools q.address
  pub description : redact_text tools r.description ≡ redact_text tools q.description
  pub reporter_role : r.reporter_role ≡ q.reporter_role
  pub photo_count : r.photo_count ≡ q.photo_count
  pub case_id : r.case_id ≡ q.case_id
  pub cluster_id : r.cluster_id ≡ q.cluster_id
  pub created_at : r.created_at ≡ q.created_at
  pub located : is_some r.lat ≡ is_some q.lat
  pub coords : public_coords tools r.lat r.lon ≡ public_coords tools q.lat q.lon

-- Free is the exact place.
pub record ClusterAlike (tools : Patterns) (c d : ReportCluster) : Type 0 where
  pub id : c.id ≡ d.id
  pub platform_id : c.platform_id ≡ d.platform_id
  pub category : c.category ≡ d.category
  pub severity : c.severity ≡ d.severity
  pub lat : tools.round_coord c.centroid_lat ≡ tools.round_coord d.centroid_lat
  pub lon : tools.round_coord c.centroid_lon ≡ tools.round_coord d.centroid_lon
  pub town : c.town ≡ d.town
  pub report_count : c.report_count ≡ d.report_count
  pub unique_reporter_count : c.unique_reporter_count ≡ d.unique_reporter_count
  pub status : c.status ≡ d.status
  pub case_id : c.case_id ≡ d.case_id
  pub first_reported_at : c.first_reported_at ≡ d.first_reported_at
  pub last_reported_at : c.last_reported_at ≡ d.last_reported_at

-- What is shown of a public event.
pub record EventShown (tools : Patterns) (e f : CaseEvent) : Type 0 where
  pub event_type : e.event_type ≡ f.event_type
  pub to_status : e.to_status ≡ f.to_status
  pub remark : redact_text tools e.note ≡ redact_text tools f.note
  pub created_at : e.created_at ≡ f.created_at
  pub id : e.id ≡ f.id

-- Free are who acted and with what payload, and of internal events all but their case.
pub record EventAlike (tools : Patterns) (e f : CaseEvent) : Type 0 where
  pub case_id : e.case_id ≡ f.case_id
  pub is_public : e.is_public ≡ f.is_public
  pub seen : f.is_public ≡ true → EventShown tools e f

-- What is shown of a public photo. Free is its platform.
pub record PhotoShown (p q : ReportPhoto) : Type 0 where
  pub id : p.id ≡ q.id
  pub report_id : p.report_id ≡ q.report_id
  pub case_id : p.case_id ≡ q.case_id
  pub kind : p.kind ≡ q.kind
  pub source : p.source ≡ q.source
  pub content_type : p.content_type ≡ q.content_type
  pub size_bytes : p.size_bytes ≡ q.size_bytes
  pub caption : p.caption ≡ q.caption
  pub created_at : p.created_at ≡ q.created_at

-- Free is of internal photos all but their case.
pub record PhotoAlike (p q : ReportPhoto) : Type 0 where
  pub case_id : p.case_id ≡ q.case_id
  pub is_public : p.is_public ≡ q.is_public
  pub seen : q.is_public ≡ true → PhotoShown p q

-- The outbox and the next identifier are free.
pub record Alike (tools : Patterns) (db db' : Db) : Type 0 where
  pub cases : Pointwise (CaseAlike tools) db.cases db'.cases
  pub reports : Pointwise (ReportAlike tools) db.reports db'.reports
  pub clusters : Pointwise (ClusterAlike tools) db.clusters db'.clusters
  pub events : Pointwise (EventAlike tools) db.events db'.events
  pub photos : Pointwise PhotoAlike db.photos db'.photos

pub photo_item-shown : (p q : ReportPhoto) → PhotoShown p q → photo_item p ≡ photo_item q
unfolding photo_item
photo_item-shown p q h = cc

module _ (tools : Patterns) where
  pub public_case-alike :
      (c d : IncidentCase) → CaseAlike tools c d → public_case tools c ≡ public_case tools d
  unfolding public_case public_coords
  public_case-alike c d h = cc

  pub timeline_item-shown :
      (e f : CaseEvent) → EventShown tools e f → timeline_item tools e ≡ timeline_item tools f
  unfolding timeline_item event_label
  timeline_item-shown e f h = cc

  pub properties-alike :
      (r q : Report)
      → ReportAlike tools r q
      → public_report_properties tools r ≡ public_report_properties tools q
  unfolding public_report_properties
  properties-alike r q h = cc

  pub case_feature-alike :
      (c d : IncidentCase)
      → CaseAlike tools c d
      → case_feature tools true c ≡ case_feature tools true d
  unfolding case_feature public_coords
  case_feature-alike c d h = cc

  pub cluster_feature-alike :
      (c d : ReportCluster)
      → ClusterAlike tools c d
      → cluster_feature tools true c ≡ cluster_feature tools true d
  unfolding cluster_feature public_coords
  cluster_feature-alike c d h = cc

  pub report_feature-alike :
      (r q : Report)
      → ReportAlike tools r q
      → report_feature tools true r ≡ report_feature tools true q
  unfolding report_feature
  report_feature-alike r q h = cc (properties-alike r q h)
