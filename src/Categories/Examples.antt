-- ===== src/Categories/Examples.antt =====
-- Runs of the theorems on apps/api/app/domain/categories.py.
use aidflow.Prelude.{◌+◌, ◌≤◌, max, String, ◌≡◌, true, false, some, member}
use aidflow.Categories.{
  escalate, severities, severity_rank, is_trusted, is_life_safety, find_category,
}
use aidflow.Categories.Severity.{escalate_lem}

-- A village chief reports a medium flood.
escalate_lem_example :
    (s : String) × (escalate "medium" "flooding" (some "village_chief") ≡ some s)
    × (member s severities ≡ true)
    × (severity_rank "medium" ≤ severity_rank s)
    × (severity_rank s ≡ 3 → severity_rank "medium" ≡ 3)
    × (is_trusted (some "village_chief") ≡ false
        → is_life_safety (find_category "flooding") ≡ false
        → severity_rank s ≡ severity_rank "medium")
    × (is_trusted (some "village_chief") ≡ true
        → is_life_safety (find_category "flooding") ≡ false
        → severity_rank s ≤ severity_rank "medium" + 1)
    × (is_life_safety (find_category "flooding") ≡ true
        → severity_rank s ≡ max (severity_rank "medium") 2)
escalate_lem_example = escalate_lem "medium" "flooding" (some "village_chief")
