-- ===== src/Portal/Blind/Lists.antt =====
-- The lists of cases and of reports, on databases that are alike.
use aidflow.Prelude.{
  ℕ, String, ◌≡◌, ap, Bool, not, ◌&&◌, map, select, ◌==◌, map-Pointwise, length-Pointwise,
  take-Pointwise, drop-Pointwise, select-Pointwise, any-Pointwise, sort_with-Pointwise,
}
use aidflow.Models.{Db, Report, IncidentCase, Time, is_rejected}
use aidflow.Cases.Creation.Basis.{is_id}
use aidflow.Cases.Listing.{Listing, is_listed, comes_before, list_cases, is_finished}
use aidflow.Reports.Listing.{ReportListing, is_report_listed, newer_report, list_reports}
use aidflow.Privacy.{Patterns, public_report_properties}
use aidflow.Portal.Features.{has_finished_case}
use aidflow.Portal.Pages.{public_case, case_list, report_list}
use aidflow.Portal.Alike.{CaseAlike, ReportAlike, Alike, public_case-alike, properties-alike}

module _ (tools : Patterns) where
  listed-alike :
      (pid : ℕ) (l : Listing) (c d : IncidentCase)
      → CaseAlike tools c d
      → is_listed pid l c ≡ is_listed pid l d
  unfolding is_listed
  listed-alike pid l c d h =
      rw (h.platform_id, h.status, h.track, h.category, h.town, h.severity, h.created_at)

  order-alike :
      (updated_at : ℕ → Time) (sort : String) (a b c d : IncidentCase)
      → CaseAlike tools a c
      → CaseAlike tools b d
      → comes_before updated_at sort a b ≡ comes_before updated_at sort c d
  unfolding comes_before
  order-alike updated_at sort a b c d h k = cc (
    h.severity, k.severity, h.created_at, k.created_at, h.id, k.id, h.unique_reporter_count,
    k.unique_reporter_count,
  )

  module _ (db db' : Db) (same : Alike tools db db') where
    pub case_list-alike :
        (updated_at : ℕ → Time) (pid : ℕ) (l : Listing)
        → case_list tools updated_at db pid l ≡ case_list tools updated_at db' pid l
    unfolding list_cases
    case_list-alike updated_at pid l =
        let rows =
          select-Pointwise (CaseAlike tools) (is_listed pid l) (listed-alike pid l) _ _
            same.cases in
        let sorted =
          sort_with-Pointwise (CaseAlike tools) (comes_before updated_at l.sort)
            (order-alike updated_at l.sort) _ _ rows in
        cc (
          map-Pointwise (CaseAlike tools) (public_case tools) (public_case-alike tools) _ _ (
              take-Pointwise (CaseAlike tools) l.limit _ _
                (drop-Pointwise (CaseAlike tools) l.offset _ _ sorted)),
          length-Pointwise (CaseAlike tools) _ _ rows,
        )

    report_listed-alike :
        (pid : ℕ) (l : ReportListing) (r q : Report)
        → ReportAlike tools r q
        → is_report_listed pid l r ≡ is_report_listed pid l q
    unfolding is_report_listed
    report_listed-alike pid l r q h =
        rw (h.platform_id, h.status, h.category, h.town, h.triage_severity, h.created_at)

    -- The test may be asked of either database.
    pub finished-either :
        (pid : ℕ) (r : Report) → has_finished_case db pid r ≡ has_finished_case db' pid r
    finished-either pid r =
        any-Pointwise (CaseAlike tools)
          (λ (c : IncidentCase).
            c.platform_id == pid && is_finished c.status && is_id r.case_id c.id)
          (λ x y k. rw (k.platform_id, k.status, k.id)) _ _ same.cases

    pub report_list-alike :
        (pid : ℕ) (l : ReportListing) → report_list tools db pid l ≡ report_list tools db' pid l
    unfolding list_reports
    report_list-alike pid l =
        let rows =
          select-Pointwise (ReportAlike tools) (is_report_listed pid l) (report_listed-alike pid l)
            _ _ same.reports in
        let cut = take-Pointwise (ReportAlike tools) l.limit _ _ (
          drop-Pointwise (ReportAlike tools) l.offset _ _ (
            sort_with-Pointwise (ReportAlike tools) newer_report
              (λ x y u v h k. cc (h.created_at, k.created_at)) _ _ rows)) in
        let seen =
          select-Pointwise (ReportAlike tools)
            (λ r. not (is_rejected r.status) && not (has_finished_case db' pid r))
            (λ x y h. rw (h.status, h.case_id)) _ _ cut in
        cc (
          ap
              (λ (p : Report → Bool).
                map (public_report_properties tools) (select p (list_reports db pid l).0))
              (λ i r. not (is_rejected r.status) && not (finished-either pid r i)),
          map-Pointwise (ReportAlike tools) (public_report_properties tools)
              (properties-alike tools) _ _ seen,
          length-Pointwise (ReportAlike tools) _ _ rows,
        )
