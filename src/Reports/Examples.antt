-- ===== src/Reports/Examples.antt =====
-- Runs of the theorems on apps/api/app/services/report_service.py.
use aidflow.Prelude.{ℕ, ◌≡◌, refl, true, false, some, [], ◌∷◌, any, member, ◌==◌}
use aidflow.Models.{ReportCluster}
use aidflow.Categories.{find_category}
use aidflow.Cases.Creation.Basis.{reports_for}
use aidflow.Cases.Examples.{platform, report, db}
use aidflow.Clusters.Policy.{default_policy, policy_from_dict}
use aidflow.Clusters.Examples.{flat, raw}
use aidflow.Reports.{cluster_of, allowed_categories, reject_report}
use aidflow.Reports.Rows.{Setup}
use aidflow.Reports.Intake.{Recounted, reject_report_lem}

-- A platform whose scenario lists a category that the program does not have.
abbrev setup : Setup
setup = record {
  platform = platform;
  category_keys = "volcano" ∷ "flooding" ∷ [];
  policy = raw;
  towns = ("埔里鎮", 23, 120) ∷ [];
}

flooding_allowed : member "flooding" (allowed_categories setup) ≡ true
unfolding allowed_categories find_category
flooding_allowed = refl

reject_report_lem_example :
    ((k : ℕ)
      → any
          (λ x. x.id == 11)
          (reports_for k (
            reject_report flat default_policy setup (some "false alarm") (report 11 (some "a")) db))
        ≡ false)
    × ((c : ReportCluster)
        → cluster_of (report 11 (some "a")).cluster_id db ≡ some c
        → Recounted flat (policy_from_dict default_policy raw) c db (
            reject_report flat default_policy setup (some "false alarm") (report 11 (some "a")) db))
reject_report_lem_example =
    reject_report_lem flat default_policy setup (some "false alarm") (report 11 (some "a")) db
