-- ===== src/Portal/Examples.antt =====
-- A published platform with a case and a report, and a site that differs in what is not public.
use aidflow.Prelude.{
  false, ℕ, ◌≡◌, refl, ◌↔◌, ◌*◌, ◌/◌, String, true, Option, none, some, [], ◌∷◌, arith, In,
}
use aidflow.Models.{ReportPhoto, Db, empty_db, Report}
use aidflow.Cases.Examples.{report}
use aidflow.Notices.Examples.{case}
use aidflow.Platforms.Rows.{Site, PlatformRow, published}
use aidflow.Platforms.Examples.{row}
use aidflow.Privacy.{Patterns, mask_address, public_coords}
use aidflow.Prelude.{Bool}
use aidflow.Portal.Features.{
  on_map_case, on_map_cluster, on_map_report, case_feature, map_collection,
}
use aidflow.Portal.Pages.{CaseQuery, get_map, public_cases, public_case_page, public_reports_page}
use aidflow.Portal.Live.{OnMap, map_collection_lem}
use aidflow.Portal.Alike.{PhotoAlike, ReportAlike, CaseAlike}
use aidflow.Portal.Blind.{SiteAlike, portal_lem}

-- Patterns of a town with one road, and a grid of 1,000 units.
abbrev pub patterns : Patterns
patterns = record {
  drop_floor = λ s. s;
  drop_house_no = λ s. "中正路";
  drop_lane_alley = λ s. s;
  drop_trailing = λ s. s;
  redact_email = λ s. s;
  redact_tw_id = λ s. s;
  redact_phone = λ s. s;
  redact_name_hint = λ s. s;
  round_coord = λ d. d / 1000 * 1000;
}

abbrev public_platform : PlatformRow
public_platform = record (row 0 10 []) { slug = "rain"; status = published }

abbrev told : Report
told = record (report 11 (some "a")) {
  platform_id = 0;
  case_id = some 4;
  address = some "中正路123號";
  reporter_name = some "王小明";
}

-- By somebody else, next door.
abbrev other : Report
other = record told {
  address = some "中正路125號";
  lat = some 24;
  reporter_name = none;
  reporter_email = some "b@c.tw";
  reporter_key = some "b";
}

-- A photo that is not public.
abbrev photo : ReportPhoto
photo = record {
  id = 70;
  report_id = none;
  case_id = some 4;
  platform_id = 0;
  kind = "scene";
  source = "agency";
  content_type = "image/jpeg";
  size_bytes = 1000;
  caption = none;
  is_public = false;
  created_at = 5;
}

abbrev rows : Db
rows = record empty_db { cases = case ∷ []; reports = told ∷ []; photos = photo ∷ [] }

abbrev pub here : Site
here = record { platforms = public_platform ∷ []; configs = []; groups = []; db = rows }

abbrev there : Site
there = record here {
  db = record rows {
    cases = record case { emic_case_no = some "E-1"; reviewed_by = some "林" } ∷ [];
    reports = other ∷ [];
    photos = record photo { caption = some "林宅"; kind = "after" } ∷ [];
  };
}

masked : mask_address patterns (some "中正路123號") ≡ some "中正路一帶"
unfolding mask_address
masked = refl

reports-ReportAlike : ReportAlike patterns told other
unfolding mask_address public_coords
reports-ReportAlike = record {
  id = refl;
  platform_id = refl;
  category = refl;
  triage_severity = refl;
  status = refl;
  town = refl;
  address = refl;
  description = refl;
  reporter_role = refl;
  photo_count = refl;
  case_id = refl;
  cluster_id = refl;
  created_at = refl;
  located = refl;
  coords = refl;
}

cases-CaseAlike :
    CaseAlike patterns case (record case { emic_case_no = some "E-1"; reviewed_by = some "林" })
cases-CaseAlike = record {
  id = refl;
  platform_id = refl;
  case_number = refl;
  title = refl;
  category = refl;
  severity = refl;
  status = refl;
  track = refl;
  lat = refl;
  lon = refl;
  town = refl;
  location_label = refl;
  report_count = refl;
  unique_reporter_count = refl;
  assigned_unit = refl;
  emic_status = refl;
  public_summary = refl;
  created_at = refl;
  reviewed_at = refl;
  closed_at = refl;
}

photos-PhotoAlike : PhotoAlike photo (record photo { caption = some "林宅"; kind = "after" })
photos-PhotoAlike = record {
  case_id = refl;
  is_public = refl;
  seen = λ e. absurd (ground (arith, e));
}

sites-SiteAlike : SiteAlike patterns here there
sites-SiteAlike = record {
  platforms = refl;
  rows = record {
    cases = (cases-CaseAlike, tt);
    reports = (reports-ReportAlike, tt);
    clusters = tt;
    events = tt;
    photos = (photos-PhotoAlike, tt);
  };
}

portal_lem_example :
    ((since : Option ℕ) (include : Bool)
      → get_map patterns 9 here "rain" since include
        ≡ get_map patterns 9 there "rain" since include)
    × ((q : CaseQuery)
        → public_cases patterns (λ id. id) 9 here "rain" q
          ≡ public_cases patterns (λ id. id) 9 there "rain" q)
    × ((id : ℕ)
        → public_case_page patterns here "rain" id ≡ public_case_page patterns there "rain" id)
    × ((limit : ℕ) (category town : Option String)
        → public_reports_page patterns here "rain" limit category town
          ≡ public_reports_page patterns there "rain" limit category town)
portal_lem_example = portal_lem patterns (λ id. id) 9 here there "rain" sites-SiteAlike

map_collection_lem_example :
    In (case_feature patterns true case) (map_collection patterns rows 0 true none true)
    ↔ OnMap patterns rows 0 none true (case_feature patterns true case)
unfolding on_map_case on_map_cluster on_map_report
map_collection_lem_example =
    map_collection_lem patterns rows 0 none true (case_feature patterns true case) (omega arith)
      (omega arith) (omega arith)
