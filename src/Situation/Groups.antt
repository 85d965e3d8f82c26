-- ===== src/Situation/Groups.antt =====
-- The counts of a group.
use aidflow.Prelude.{
  ◌+◌, ◌≡◌, refl, String, Bool, true, false, Option, none, some, List, [], ◌∷◌, arith, count,
  str_eq, eq_iff, if◌then◌else◌,
}
use aidflow.Situation.Counting.{Counts, bump, group, count_of, sum_of}

-- Whether a value of a column is a key.
abbrev pub is_key : String → Option String → Bool
is_key k none = false
is_key k (some j) = str_eq j k

abbrev pub is_value : Option String → Bool
is_value none = false
is_value (some k) = true

count_of-bump :
    (k j : String) (m : Counts)
    → count_of k (bump j m) ≡ (if str_eq j k then count_of k m + 1 else count_of k m)
unfolding count_of bump
count_of-bump k j [] = ground arith
count_of-bump k j ((i, n) ∷ m) =
    ground (arith, count_of-bump k j m, eq_iff i j, eq_iff i k, eq_iff j k)

sum_of-bump : (j : String) (m : Counts) → sum_of (bump j m) ≡ sum_of m + 1
unfolding sum_of bump
sum_of-bump j [] = refl
sum_of-bump j ((i, n) ∷ m) = ground (arith, sum_of-bump j m)

-- A group counts each value as often as it stands in the column.
pub count_of-group :
    (k : String) (ks : List (Option String)) → count_of k (group ks) ≡ count (is_key k) ks
unfolding group count_of
count_of-group k [] = refl
count_of-group k (none ∷ ks) = count_of-group k ks
count_of-group k (some j ∷ ks) = ground (arith, count_of-bump k j (group ks), count_of-group k ks)

pub sum_of-group : (ks : List (Option String)) → sum_of (group ks) ≡ count is_value ks
unfolding group sum_of
sum_of-group [] = refl
sum_of-group (none ∷ ks) = sum_of-group ks
sum_of-group (some j ∷ ks) = ground (arith, sum_of-bump j (group ks), sum_of-group ks)
