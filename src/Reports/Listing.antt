-- ===== src/Reports/Listing.antt =====
-- `list_reports` of apps/api/app/services/report_service.py.
use aidflow.Prelude.{
  ℕ, String, Bool, ◌&&◌, Option, some, List, select, take, drop, length, leb, ◌==◌, sort_with,
}
use aidflow.Models.{Db, Report, ReportStatus, Time}
use aidflow.Models.{received, clustered, promoted, rejected}
use aidflow.Cases.Listing.{is_text_of, is_since}

abbrev pub report_status_text : ReportStatus → String
report_status_text received = "received"
report_status_text clustered = "clustered"
report_status_text promoted = "promoted"
report_status_text rejected = "rejected"

-- The keyword arguments of `list_reports`.
pub record ReportListing : Type 0 where
  pub category : Option String
  pub town : Option String
  pub status : Option String
  pub severity : Option String
  pub since : Option Time
  pub limit : ℕ
  pub offset : ℕ

unfoldable pub is_report_listed : ℕ → ReportListing → Report → Bool
is_report_listed platform_id l r =
    r.platform_id == platform_id
    && is_text_of l.category (some r.category)
    && is_text_of l.town r.town
    && is_text_of l.status (some (report_status_text r.status))
    && is_text_of l.severity (some r.triage_severity)
    && is_since l.since r.created_at

abbrev pub newer_report : Report → Report → Bool
newer_report a b = leb b.created_at a.created_at

unfoldable pub list_reports : Db → ℕ → ReportListing → List Report × ℕ
unfolding is_report_listed sort_with
list_reports db platform_id l =
    let rows = select (is_report_listed platform_id l) db.reports in
    (take l.limit (drop l.offset (sort_with newer_report rows)), length rows)
