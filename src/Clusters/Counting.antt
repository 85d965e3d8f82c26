-- ===== src/Clusters/Counting.antt =====
-- `count_unique_reporters` of apps/api/app/services/cluster_service.py.
use aidflow.Prelude.{
  ℕ, ◌+◌, ◌≤◌, String, ◌≡◌, refl, ap, Bool, true, false, not, ◌&&◌, ◌||◌, Option, none, some, List,
  [], ◌∷◌, arith, length, count, member, str_eq, eq_iff, is_text, is_empty, if◌then◌else◌,
  Bool-cases, inl, inr,
}

-- A set of texts, as the list of its members in the order in which they came.
abbrev add_text : String → List String → List String
add_text k ks = if member k ks then ks else k ∷ ks

-- {k for k in keys if k}
unfoldable pub keyed : List (Option String) → List String
keyed [] = []
keyed (none ∷ keys) = keyed keys
keyed (some k ∷ keys) = let rest = keyed keys in if is_empty k then rest else add_text k rest

unfoldable pub count_unique_reporters : List (Option String) → Bool → ℕ
unfolding keyed
count_unique_reporters keys count_anonymous =
    length (keyed keys) + (if count_anonymous then count (λ k. not (is_text k)) keys else 0)

-- A list without repetitions.
abbrev pub is_distinct : List String → Bool
is_distinct [] = true
is_distinct (k ∷ ks) = not (member k ks) && is_distinct ks

-- The key stands among the keys.
abbrev pub among : String → List (Option String) → Bool
among k [] = false
among k (none ∷ keys) = among k keys
among k (some j ∷ keys) = str_eq k j || among k keys

distinct_keyed : (keys : List (Option String)) → is_distinct (keyed keys) ≡ true
unfolding keyed
distinct_keyed [] = refl
distinct_keyed (none ∷ keys) = distinct_keyed keys
distinct_keyed (some k ∷ keys) = ground (arith, distinct_keyed keys)

is_empty-eq : (k j : String) → str_eq k j ≡ true → is_empty k ≡ is_empty j
is_empty-eq k j e = ap (λ (t : String). is_empty t) ((eq_iff k j).0 e)

member-add_text :
    (k j : String) (ks : List String) → member k (add_text j ks) ≡ (str_eq k j || member k ks)
member-add_text k j ks = elim (Bool-cases (member j ks)) [
  | inl e ↦ rw e (ground (arith, same_member k j ks e))
  | inr e ↦ rw e
]
  where
    same_member :
        (k j : String) (ks : List String)
        → member j ks ≡ true
        → str_eq k j ≡ true
        → member k ks ≡ true
    same_member k j ks e h = rw ((eq_iff k j).0 h) e

member-keyed :
    (k : String) (keys : List (Option String))
    → member k (keyed keys) ≡ (not (is_empty k) && among k keys)
unfolding keyed
member-keyed k [] = ground arith
member-keyed k (none ∷ keys) = member-keyed k keys
member-keyed k (some j ∷ keys) =
    ground (arith, member-add_text k j (keyed keys), member-keyed k keys, is_empty-eq k j)

-- The count is the number of distinct non-empty keys among the reports, and, where the policy
-- says so, one more for each report without a key.
pub count_unique_reporters_lem :
    (keys : List (Option String)) (anonymous : Bool)
    → (ks : List String) × (is_distinct ks ≡ true)
      × ((k : String) → member k ks ≡ (not (is_empty k) && among k keys))
      × (count_unique_reporters keys anonymous
          ≡ length ks + (if anonymous then count (λ k. not (is_text k)) keys else 0))
unfolding count_unique_reporters
count_unique_reporters_lem keys anonymous =
    (keyed keys, distinct_keyed keys, λ k. member-keyed k keys, refl)

abbrev pub text_of : Option String → String
text_of none = ""
text_of (some s) = s

-- One more report: it adds nothing if its person is known, and one if the person is new or if it
-- is anonymous and such reports count.
pub count-unique-cons :
    (key : Option String) (keys : List (Option String)) (anonymous : Bool)
    → count_unique_reporters (key ∷ keys) anonymous
      ≡ count_unique_reporters keys anonymous
        + (if is_text key
            then (if among (text_of key) keys then 0 else 1)
            else if anonymous
            then 1
            else 0)
unfolding count_unique_reporters keyed
count-unique-cons none keys anonymous = ground arith
count-unique-cons (some k) keys anonymous = ground (arith, member-keyed k keys)

-- Never more people than reports.
pub count-unique-le :
    (keys : List (Option String)) (anonymous : Bool)
    → count_unique_reporters keys anonymous ≤ length keys
unfolding count_unique_reporters keyed
count-unique-le [] anonymous = ground arith
count-unique-le (key ∷ keys) anonymous =
    ground (arith, count-unique-cons key keys anonymous, count-unique-le keys anonymous)
