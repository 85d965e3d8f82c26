-- ===== src/Notices/Examples.antt =====
-- Reports of one case, two of them from the same address, and the platform of Line.Examples.
use aidflow.Prelude.{ℕ, String, ◌≡◌, refl, true, false, none, some, [], ◌∷◌, All}
use aidflow.Models.{Db, empty_db, Report, IncidentCase}
use aidflow.Models.Table.{get, alter}
use aidflow.Cases.Examples.{report, no_patterns}
use aidflow.CaseStates.{community_open}
use aidflow.Platforms.Rows.{PlatformRow, get_platform}
use aidflow.Platforms.Create.{create_platform}
use aidflow.Line.{owner, bind}
use aidflow.Line.Examples.{bound_site, bound-History, bound-IsSilent, is_bound, has_platform}
use aidflow.Notices.Delivery.{Outside, staff}
use aidflow.Notices.Mail.{notify_reporters}
use aidflow.Notices.Reporters.{IsNotified, notify_reporters_lem}
use aidflow.Notices.Staff.{staff_lem}

abbrev pub outside : Outside
outside = record {
  line_configured = true;
  mail_configured = true;
  web = "https://aid.example";
  uuid = λ n. "id";
  stamp = λ t. "2026/01/01 00:00";
  patterns = no_patterns;
  lower = λ t. t;
}

abbrev mailed : ℕ → String → Report
mailed id mail = record (report id none) {
  case_id = some 4;
  notify_opt_in = true;
  reporter_email = some mail;
}

abbrev reports_db : Db
reports_db = record empty_db {
  reports =
      mailed 1 "a@b.tw"
      ∷ mailed 2 " a@b.tw "
      ∷ record (mailed 3 "c@d.tw") { notify_opt_in = false }
      ∷ mailed 4 "e@f.tw"
      ∷ [];
}

abbrev pub case : IncidentCase
case = record {
  id = 4;
  platform_id = 0;
  cluster_id = none;
  case_number = "NT-1";
  title = "道路阻斷";
  category = "road_blocked";
  severity = "medium";
  status = community_open;
  track = some "community";
  lat = 23;
  lon = 120;
  town = none;
  location_label = none;
  report_count = 4;
  unique_reporter_count = 2;
  assigned_unit = none;
  public_summary = none;
  reviewed_by = none;
  reviewed_at = none;
  emic_case_no = none;
  emic_status = none;
  emic_reported_at = none;
  emic_synced_at = none;
  emic_channel = none;
  community_submitted_at = none;
  threshold_reached_at = none;
  resolved_at = none;
  closed_at = none;
  created_at = 0;
}

two_mails : (notify_reporters outside reports_db has_platform.0 case).1 ≡ 2
unfolding notify_reporters
two_mails = refl

notify_reporters_lem_example :
    IsNotified outside has_platform.0 case reports_db
      (notify_reporters outside reports_db has_platform.0 case)
notify_reporters_lem_example = notify_reporters_lem outside has_platform.0 case reports_db

still_there : (p : PlatformRow) × (get_platform bound_site 0 ≡ some p)
unfolding bind create_platform get_platform get alter
still_there = (_, refl)

staff_lem_example :
    All
      (λ j. (g : String) × (j.to ≡ some g) × (owner bound_site g ≡ some 0))
      (staff outside still_there.0 "test" "測試" none none).jobs
staff_lem_example =
    staff_lem 0 still_there.0 outside "test" "測試" none none
      (bound-History has_platform.0 has_platform.1 is_bound)
      (bound-IsSilent has_platform.0 has_platform.1 is_bound) still_there.1
