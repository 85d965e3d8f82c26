-- ===== src/Situation/Counting.antt =====
-- `_group`, `_ordered` and `_severity_tiers` of apps/api/app/services/situation_service.py. `GROUP BY`
-- and equal counts leave the order of a dict open: it is that of the rows.
use aidflow.Prelude.{
  ℕ, ◌+◌, String, Bool, Option, none, some, List, [], ◌∷◌, map, str_eq, leb, if◌then◌else◌, sort_by,
  sort_with, index_in,
}

-- A dict from texts to counts.
abbrev pub Counts : Type 0
Counts = List (String × ℕ)

unfoldable pub bump : String → Counts → Counts
bump k [] = (k, 1) ∷ []
bump k ((j, n) ∷ m) = let later = bump k m in if str_eq j k then (j, n + 1) ∷ m else (j, n) ∷ later

-- `_group`, of the values of a column
unfoldable pub group : List (Option String) → Counts
unfolding bump
group [] = []
group (none ∷ ks) = group ks
group (some k ∷ ks) = bump k (group ks)

-- `counts.get(key, 0)`
unfoldable pub count_of : String → Counts → ℕ
count_of k [] = 0
count_of k ((j, n) ∷ m) = let later = count_of k m in if str_eq j k then n else later

-- `sum(counts.values())`
unfoldable pub sum_of : Counts → ℕ
sum_of [] = 0
sum_of ((k, n) ∷ m) = n + sum_of m

pub record Entry : Type 0 where
  pub key : String
  pub label : String
  pub count : ℕ

abbrev entry : (String → String) → String × ℕ → Entry
entry labeler (k, n) = record { key = k; label = labeler k; count = n }

-- `-counts[k]` as a stable order
abbrev more : String × ℕ → String × ℕ → Bool
more (j, n) (k, m) = leb m n

-- `_ordered` without an order, and with one
unfoldable pub ordered : Counts → (String → String) → List Entry
unfolding sort_with
ordered counts labeler = map (entry labeler) (sort_with more counts)

unfoldable pub ordered_by : Counts → (String → String) → List String → List Entry
unfolding sort_with
ordered_by counts labeler order =
    map (entry labeler) (sort_by (λ (c : String × ℕ). index_in order c.0) counts)

-- `_SEVERITY_LABELS` in `_SEVERITY_ORDER`
abbrev tiers : List (String × String)
tiers = ("critical", "極高") ∷ ("high", "高") ∷ ("medium", "中") ∷ ("low", "低") ∷ []

abbrev tier : Counts → String × String → Entry
tier counts (k, l) = record { key = k; label = l; count = count_of k counts }

unfoldable pub severity_tiers : Counts → List Entry
unfolding count_of
severity_tiers counts = map (tier counts) tiers
