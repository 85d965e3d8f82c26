-- ===== src/Portal/Pages.antt =====
-- The pages of the portal: the read endpoints of apps/api/app/routers/public.py, with `public_case`
-- and `public_timeline_item` of apps/api/app/services/presenters.py. Photos and official layers are
-- left out, and so is the column `updated_at`.
use aidflow.Prelude.{
  sort_with, no_later, ◌&&◌, true, ℕ, ◌-◌, ◌*◌, zero, suc, String, Bool, not, ◌||◌, Option, none,
  some, List, [], ◌∷◌, map, select, str_eq, is_text, text_or, ◌==◌, if◌then◌else◌,
}
use aidflow.Models.{ReportPhoto, Db, IncidentCase, CaseEvent, Double, Time, is_rejected}
use aidflow.CaseStates.{CaseStatus, value, same, public_label, phase_of, community_open, dismissed}
use aidflow.Categories.{category_label}
use aidflow.Cases.Creation.Basis.{is_id}
use aidflow.Cases.Listing.{Listing, list_cases}
use aidflow.Cases.Queries.{get_case, timeline, reports_of}
use aidflow.Reports.Listing.{ReportListing, list_reports}
use aidflow.Platforms.Rows.{Site, PlatformRow, get_by_slug}
use aidflow.Privacy.{Patterns, PublicReport, public_coords, redact_text, public_report_properties}
use aidflow.Portal.Features.{Feature, map_collection, has_finished_case}
use aidflow.Views.{Step, event_label, progress}

pub record PublicCase : Type 0 where
  pub id : ℕ
  pub case_number : String
  pub title : String
  pub category : String
  pub category_label : String
  pub severity : String
  pub status : CaseStatus
  pub status_label : String
  pub phase : String
  pub track : Option String
  pub track_label : Option String
  pub lat : Option Double
  pub lon : Option Double
  pub town : Option String
  pub location_label : Option String
  pub report_count : ℕ
  pub unique_reporter_count : ℕ
  pub assigned_unit : Option String
  pub emic_status : Option String
  pub public_summary : Option String
  pub created_at : Time
  pub reviewed_at : Option Time
  pub closed_at : Option Time

pub record TimelineItem : Type 0 where
  pub event_type : String
  pub label : String
  pub note : Option String
  pub to_status : Option CaseStatus
  pub at : Time

-- The dict of `to_item`; `url` is made of the identifier.
pub record PhotoItem : Type 0 where
  pub id : ℕ
  pub report_id : Option ℕ
  pub case_id : Option ℕ
  pub kind : String
  pub source : String
  pub content_type : String
  pub size_bytes : ℕ
  pub caption : Option String
  pub created_at : Time

pub record CaseDetail : Type 0 where
  pub case : PublicCase
  pub timeline : List TimelineItem
  pub reports : List PublicReport
  pub photos : List PhotoItem
  pub progress : List Step
  pub can_assist : Bool

-- `TRACK_LABELS.get(case.track or "")`
abbrev pub track_label : Option String → Option String
track_label track =
    if str_eq (text_or track "") "emic"
    then some "上報 EMIC"
    else if str_eq (text_or track "") "community"
    then some "民間可處理"
    else none

unfoldable pub public_case : Patterns → IncidentCase → PublicCase
unfolding public_coords redact_text
public_case tools c =
    let (lat, lon) = public_coords tools (some c.lat) (some c.lon) in
    record {
      id = c.id;
      case_number = c.case_number;
      title = c.title;
      category = c.category;
      category_label = category_label c.category;
      severity = c.severity;
      status = c.status;
      status_label = public_label (value c.status);
      phase = phase_of (value c.status);
      track = c.track;
      track_label = track_label c.track;
      lat = lat;
      lon = lon;
      town = c.town;
      location_label = c.location_label;
      report_count = c.report_count;
      unique_reporter_count = c.unique_reporter_count;
      assigned_unit = c.assigned_unit;
      emic_status = c.emic_status;
      public_summary = redact_text tools c.public_summary;
      created_at = c.created_at;
      reviewed_at = c.reviewed_at;
      closed_at = c.closed_at;
    }

unfoldable pub timeline_item : Patterns → CaseEvent → TimelineItem
unfolding redact_text event_label
timeline_item tools e = record {
  event_type = e.event_type;
  label = event_label e;
  note = redact_text tools e.note;
  to_status = e.to_status;
  at = e.created_at;
}

unfoldable pub photo_item : ReportPhoto → PhotoItem
photo_item p = record {
  id = p.id;
  report_id = p.report_id;
  case_id = p.case_id;
  kind = p.kind;
  source = p.source;
  content_type = p.content_type;
  size_bytes = p.size_bytes;
  caption = p.caption;
  created_at = p.created_at;
}

-- The WHERE clauses of `photos_for_case`.
abbrev pub is_photo_of : ℕ → Bool → ReportPhoto → Bool
is_photo_of case_id public_only p =
    is_id p.case_id case_id && (if public_only then p.is_public else true)

unfoldable pub photos_for_case : Db → ℕ → Bool → List ReportPhoto
unfolding sort_with
photos_for_case db case_id public_only =
    sort_with (no_later (λ p. p.created_at)) (select (is_photo_of case_id public_only) db.photos)

-- An answer, or the status 404.
pub data Page (A : Type 0) : Type 0 where
  shown : A → Page A
  not_found : Page A

abbrev pub on_platform : {A : Type 0} → (PlatformRow → Page A) → Option PlatformRow → Page A
on_platform page none = not_found
on_platform page (some p) = page p

-- The query parameters of `list_cases`.
pub record CaseQuery : Type 0 where
  pub phase : Option String
  pub status_filter : Option String
  pub category : Option String
  pub town : Option String
  pub severity : Option String
  pub since_hours : Option ℕ
  pub sort : String
  pub limit : ℕ
  pub offset : ℕ

-- `now - timedelta(hours=since_hours) if since_hours else None`
abbrev pub since_of : Time → Option ℕ → Option Time
since_of now none = none
since_of now (some zero) = none
since_of now (some (suc h)) = some (now - suc h * 3600000000)

abbrev one_status : Option String → List String
one_status s = if is_text s then text_or s "" ∷ [] else []

abbrev pub public_listing : Time → CaseQuery → Listing
public_listing now q = record {
  statuses = one_status q.status_filter;
  phase = q.phase;
  track = none;
  category = q.category;
  town = q.town;
  severity = q.severity;
  since = since_of now q.since_hours;
  public_only = true;
  sort = q.sort;
  limit = q.limit;
  offset = q.offset;
}

abbrev pub public_reports : Option String → Option String → ℕ → ReportListing
public_reports category town limit = record {
  category = category;
  town = town;
  status = none;
  severity = none;
  since = none;
  limit = limit;
  offset = 0;
}

module _ (tools : Patterns) where
  unfoldable pub get_map : Time → Site → String → Option ℕ → Bool → Page (List Feature)
  unfolding get_by_slug
  get_map now s slug since_hours include_reports =
      on_platform
        (λ p.
          shown (map_collection tools s.db p.id true (since_of now since_hours) include_reports))
        (get_by_slug s slug true)

  abbrev pub case_list : (ℕ → Time) → Db → ℕ → Listing → List PublicCase × ℕ
  case_list updated_at db pid l =
      let (rows, total) = list_cases updated_at db pid l in (map (public_case tools) rows, total)

  unfoldable pub public_cases :
      (ℕ → Time) → Time → Site → String → CaseQuery → Page (List PublicCase × ℕ)
  unfolding get_by_slug
  public_cases updated_at now s slug q =
      on_platform (λ p. shown (case_list updated_at s.db p.id (public_listing now q)))
        (get_by_slug s slug true)

  unfoldable pub case_detail : Db → IncidentCase → CaseDetail
  unfolding public_case photo_item photos_for_case
  case_detail db c =
      let events = timeline db c.id true in
      record {
        case = public_case tools c;
        timeline = map (timeline_item tools) events;
        reports =
            map (public_report_properties tools)
              (select (λ r. not (is_rejected r.status)) (reports_of db c.id));
        photos = map photo_item (photos_for_case db c.id true);
        progress = progress c events;
        can_assist = same c.status community_open;
      }

  unfoldable pub detail_page : Db → ℕ → Option IncidentCase → Page CaseDetail
  unfolding case_detail
  detail_page db pid none = not_found
  detail_page db pid (some c) =
      if not (c.platform_id == pid) || same c.status dismissed
      then not_found
      else shown (case_detail db c)

  unfoldable pub public_case_page : Site → String → ℕ → Page CaseDetail
  unfolding get_by_slug detail_page
  public_case_page s slug case_id =
      on_platform (λ p. detail_page s.db p.id (get_case s.db case_id)) (get_by_slug s slug true)

  abbrev pub report_list : Db → ℕ → ReportListing → List PublicReport × ℕ
  report_list db pid l =
      let (rows, total) = list_reports db pid l in
      (
        map (public_report_properties tools)
            (select (λ r. not (is_rejected r.status) && not (has_finished_case db pid r)) rows),
        total,
      )

  unfoldable pub public_reports_page :
      Site → String → ℕ → Option String → Option String → Page (List PublicReport × ℕ)
  unfolding get_by_slug
  public_reports_page s slug limit category town =
      on_platform (λ p. shown (report_list s.db p.id (public_reports category town limit)))
        (get_by_slug s slug true)
