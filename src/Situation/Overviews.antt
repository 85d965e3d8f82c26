-- ===== src/Situation/Overviews.antt =====
-- `console_overview` and `global_overview` of apps/api/app/services/situation_service.py. The medians,
-- which are doubles, are left out.
use aidflow.Prelude.{
  ℕ, ◌-◌, ◌*◌, String, Bool, not, ◌&&◌, some, List, [], ◌∷◌, map, length, count, select, str_eq,
  leb, if◌then◌else◌,
}
use aidflow.Models.{Db, IncidentCase, Time, is_rejected}
use aidflow.CaseStates.{elem, same, emic_statuses, community_statuses, pending_review}
use aidflow.Portal.Features.{is_some}
use aidflow.Situation.Counting.{Entry, group, ordered, severity_tiers}
use aidflow.Situation.Buckets.{cases_in, hour, reports_in}
use aidflow.Situation.Summary.{Picture, in_last, not_finished, situation}

-- What `console_overview` adds, without the medians.
pub record Overview : Type 0 where
  pub base : Picture
  pub cases_new_last_hour : ℕ
  pub reports_unclustered : ℕ
  pub reports_rejected : ℕ
  pub reports_subscribed : ℕ
  pub pending_by_severity : List Entry
  pub by_reporter_role : List Entry

abbrev role_labels : List (String × String)
role_labels =
    ("citizen", "一般民眾")
    ∷ ("village_chief", "村里長")
    ∷ ("disaster_officer", "防災士")
    ∷ ("volunteer", "志工")
    ∷ ("community_org", "社區組織")
    ∷ ("agency", "公務單位")
    ∷ []

abbrev label_of : List (String × String) → String → String
label_of [] k = k
label_of ((j, l) ∷ rest) k = let later = label_of rest k in if str_eq j k then l else later

unfoldable pub console_overview : Db → ℕ → Time → Overview
unfolding situation
console_overview db pid now = record {
  base = situation db pid now;
  cases_new_last_hour =
      count (λ (c : IncidentCase). leb (now - hour) c.created_at) (cases_in pid db);
  reports_unclustered =
      count (λ r. not (is_some r.cluster_id) && not (is_rejected r.status)) (reports_in pid db);
  reports_rejected = count (λ r. is_rejected r.status) (reports_in pid db);
  reports_subscribed = count (λ r. r.notify_opt_in) (reports_in pid db);
  pending_by_severity = severity_tiers (
      group (
        map (λ c. some c.severity) (select (λ c. same c.status pending_review) (cases_in pid db))));
  by_reporter_role =
      ordered (group (map (λ r. some r.reporter_role) (reports_in pid db))) (label_of role_labels);
}

-- `global_overview`; the platforms are given by whether each is published.
pub record GlobalOverview : Type 0 where
  pub platforms_total : ℕ
  pub platforms_published : ℕ
  pub cases_open : ℕ
  pub cases_pending_review : ℕ
  pub cases_active : ℕ
  pub cases_community : ℕ
  pub reports_last_24h : ℕ

unfoldable pub global_overview : List Bool → Db → Time → GlobalOverview
global_overview published db now = record {
  platforms_total = length published;
  platforms_published = count (λ p. p) published;
  cases_open = count not_finished db.cases;
  cases_pending_review = count (λ c. same c.status pending_review) db.cases;
  cases_active = count (λ c. elem c.status emic_statuses) db.cases;
  cases_community = count (λ c. elem c.status community_statuses) db.cases;
  reports_last_24h = count (in_last now (24 * hour)) db.reports;
}
