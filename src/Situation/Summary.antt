-- ===== src/Situation/Summary.antt =====
-- `situation` of apps/api/app/services/situation_service.py.
use aidflow.Prelude.{
  ℕ, ◌+◌, ◌-◌, ◌*◌, String, Bool, true, not, ◌&&◌, Option, none, some, List, [], ◌∷◌, map, count,
  select, str_eq, leb, ◌==◌, if◌then◌else◌, max,
}
use aidflow.Models.{Db, Report, ReportCluster, IncidentCase, CaseEvent, Time, is_rejected}
use aidflow.CaseStates.{
  CaseStatus, value, same, all_statuses, public_label, pending_statuses, emic_statuses,
  community_statuses, done_statuses, community_submitted, dismissed,
}
use aidflow.Categories.{category_label}
use aidflow.Cases.Listing.{is_finished}
use aidflow.Portal.Features.{is_open}
use aidflow.Situation.Counting.{
  Counts, Entry, count_of, group, ordered, ordered_by, severity_tiers, sum_of,
}
use aidflow.Situation.Buckets.{Bucket, cases_in, hour, reports_in, trend_buckets, trend_direction}

-- The dict of `situation`; `generated_at` and what it repeats of the platform are left out.
pub record Picture : Type 0 where
  pub last_report_at : Option Time
  pub last_update_at : Option Time
  pub cases_total : ℕ
  pub cases_open : ℕ
  pub cases_pending : ℕ
  pub cases_active : ℕ
  pub cases_community : ℕ
  pub cases_community_submitted : ℕ
  pub cases_done : ℕ
  pub cases_high_risk : ℕ
  pub reports_total : ℕ
  pub reports_last_hour : ℕ
  pub reports_last_24h : ℕ
  pub clusters_open : ℕ
  pub trend_direction : String
  pub by_category : List Entry
  pub by_town : List Entry
  pub by_status : List Entry
  pub by_severity : List Entry
  pub trend : List Bucket

-- `sum(status_counts.get(s.value, 0) for s in statuses)`
unfoldable pub sum_for : Counts → List CaseStatus → ℕ
unfolding count_of
sum_for counts [] = 0
sum_for counts (s ∷ ss) = count_of (value s) counts + sum_for counts ss

-- `func.max`
abbrev latest : List Time → Option Time
latest [] = none
latest (t ∷ ts) = elim (latest ts) [ none ↦ some t | some u ↦ some (max t u) ]

abbrev later_of : Option Time → Option Time → Option Time
later_of none u = u
later_of (some t) none = some t
later_of (some t) (some u) = some (max t u)

abbrev is_high : IncidentCase → Bool
is_high c = if str_eq c.severity "high" then true else str_eq c.severity "critical"

abbrev pub not_dismissed : IncidentCase → Bool
not_dismissed c = not (same c.status dismissed)

abbrev pub not_finished : IncidentCase → Bool
not_finished c = not (is_finished c.status)

abbrev pub in_last : Time → ℕ → Report → Bool
in_last now span r = leb (now - span) r.created_at

-- The counts of the statuses of a platform's cases.
unfoldable pub status_counts : Db → ℕ → Counts
unfolding group
status_counts db pid = group (map (λ c. some (value c.status)) (cases_in pid db))

unfoldable pub open_severities : Db → ℕ → Counts
unfolding group
open_severities db pid = group (map (λ c. some c.severity) (select not_finished (cases_in pid db)))

unfoldable pub situation : Db → ℕ → Time → Picture
unfolding status_counts open_severities sum_for sum_of ordered ordered_by severity_tiers
    trend_buckets trend_direction
situation db pid now =
    let counts = status_counts db pid in
    let total = sum_of counts in
    let done = sum_for counts done_statuses in
    let dropped = count_of (value dismissed) counts in
    let last_report = latest (map (λ r. r.created_at) (reports_in pid db)) in
    let last_event =
      latest
        (map (λ e. e.created_at) (select (λ (e : CaseEvent). e.platform_id == pid) db.events)) in
    record {
      last_report_at = last_report;
      last_update_at = later_of last_report last_event;
      cases_total = total - dropped;
      cases_open = total - done - dropped;
      cases_pending = sum_for counts pending_statuses;
      cases_active = sum_for counts emic_statuses;
      cases_community = sum_for counts community_statuses;
      cases_community_submitted = count_of (value community_submitted) counts;
      cases_done = done;
      cases_high_risk = count (λ c. is_high c && not_finished c) (cases_in pid db);
      reports_total = count (λ r. not (is_rejected r.status)) (reports_in pid db);
      reports_last_hour = count (in_last now hour) (reports_in pid db);
      reports_last_24h = count (in_last now (24 * hour)) (reports_in pid db);
      clusters_open =
          count (λ (c : ReportCluster). c.platform_id == pid && is_open c.status) db.clusters;
      trend_direction = trend_direction (trend_buckets db pid now 24);
      by_category =
          ordered (group (map (λ c. some c.category) (select not_dismissed (cases_in pid db))))
            category_label;
      by_town =
          ordered (group (map (λ c. c.town) (select not_dismissed (cases_in pid db)))) (λ k. k);
      by_status = ordered_by counts public_label (map value all_statuses);
      by_severity = severity_tiers (open_severities db pid);
      trend = trend_buckets db pid now 24;
    }
