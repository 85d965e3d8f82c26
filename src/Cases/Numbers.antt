-- ===== src/Cases/Numbers.antt =====
-- The case numbers that `_insert_case` of apps/api/app/services/case_service.py gives out.
use aidflow.Prelude.{
  ℕ, zero, suc, ◌+◌, ◌≤◌, ◌<◌, String, ◌≡◌, refl, ◌⊎◌, inl, inr, Bool, true, false, ◌&&◌, ◌||◌,
  Option, none, some, List, [], ◌∷◌, ◌++◌, arith, ◌==◌, str_eq, str_eq_comm, Bool-cases, ==_iff,
}
use aidflow.Models.{Db, IncidentCase, Platform, Time}
use aidflow.Cases.Numbering.{next_case_number, taken, insert_from, insert_case, numbers_unique}

taken-append :
    (p : ℕ) (n : String) (cs : List IncidentCase) (c : IncidentCase)
    → taken p n (cs ++ c ∷ []) ≡ (taken p n cs || (c.platform_id == p && str_eq c.case_number n))
taken-append p n [] c = ground arith
taken-append p n (x ∷ cs) c = ground (arith, taken-append p n cs c)

unique_snoc :
    (cs : List IncidentCase) (c : IncidentCase)
    → numbers_unique cs ≡ true
    → taken c.platform_id c.case_number cs ≡ false
    → numbers_unique (cs ++ c ∷ []) ≡ true
unique_snoc [] c h k = refl
unique_snoc (x ∷ cs) c h k = ground (
  arith,
  taken-append x.platform_id x.case_number cs c,
  str_eq_comm c.case_number x.case_number,
  unique_snoc cs c,
)

-- What an insert leaves: the case with its number at the end of the table, and nothing else.
pub record Inserted (case : IncidentCase) (db : Db) (out : IncidentCase × Db) : Type 0 where
  pub number : String
  pub numbered : out.0 ≡ record case { case_number = number }
  pub stored : out.1 ≡ record db { cases = db.cases ++ out.0 ∷ [] }
  pub free : taken case.platform_id number db.cases ≡ false

module _ (upper : String → String) (p : Platform) (at : Time) (case : IncidentCase) (db : Db) where
  abbrev pub is_taken : ℕ → Bool
  is_taken k = taken case.platform_id (next_case_number upper db p at k) db.cases

  -- `left` attempts from `attempt` on insert the case, or all their numbers are taken.
  abbrev pub Outcome : ℕ → ℕ → Option (IncidentCase × Db) → Type 0
  Outcome left attempt r =
      ((out : IncidentCase × Db) × (r ≡ some out) × Inserted case db out)
      ⊎ ((r ≡ none) × ((k : ℕ) → attempt ≤ k → k < attempt + left → is_taken k ≡ true))

  later :
      (left attempt : ℕ) (r : Option (IncidentCase × Db))
      → is_taken attempt ≡ true
      → Outcome left (attempt + 1) r
      → Outcome (suc left) attempt r
  later left attempt r e (inl done) = inl done
  later left attempt r e (inr (n, h)) = inr (n, all_taken)
    where
      all_taken : (k : ℕ) → attempt ≤ k → k < attempt + suc left → is_taken k ≡ true
      all_taken k lo hi = elim (Bool-cases (k == attempt)) [
        | inl q ↦ rw ((==_iff k attempt).0 q) e
        | inr q ↦ h k (ground arith) (omega arith)
      ]

  pub insert_from_lem :
      (left attempt : ℕ) → Outcome left attempt (insert_from upper p at left attempt case db)
  unfolding insert_from
  insert_from_lem zero attempt = inr (refl, λ k h l. absurd (omega arith))
  insert_from_lem (suc left) attempt = elim (Bool-cases (is_taken attempt)) [
    | inl e ↦ rw e (
        later left attempt (insert_from upper p at left (attempt + 1) case db) e
          (insert_from_lem left (attempt + 1)))
    | inr e ↦ rw e (
        inl (
          first_try attempt,
          refl,
          record {
            number = next_case_number upper db p at attempt;
            numbered = refl;
            stored = refl;
            free = e;
          },
        ))
  ]
    where
      first_try : ℕ → IncidentCase × Db
      first_try k =
          let numbered : IncidentCase = record case {
            case_number = next_case_number upper db p at k;
          } in
          (numbered, record db { cases = db.cases ++ numbered ∷ [] })

  -- The insert succeeds unless all five numbers that it tries are taken. Then the case is stored
  -- under a number that no other case of its platform has, so that numbers stay unique; no other
  -- row changes.
  pub insert_case_lem :
      numbers_unique db.cases ≡ true
      → ((r : IncidentCase × Db) × (insert_case upper db p case at ≡ some r)
          × Inserted case db r
          × (numbers_unique r.1.cases ≡ true))
        ⊎ ((insert_case upper db p case at ≡ none) × ((k : ℕ) → k < 5 → is_taken k ≡ true))
  unfolding insert_case
  insert_case_lem u = elim (insert_from_lem 5 0) [
    | inl (out, e, i) ↦ inl (out, e, i, unique out i)
    | inr (e, h) ↦ inr (e, λ k l. h k (omega arith) (omega arith))
  ]
    where
      unique : (out : IncidentCase × Db) → Inserted case db out → numbers_unique out.1.cases ≡ true
      unique out i = rw (i.stored) (unique_snoc db.cases out.0 u (rw (i.numbered) (i.free)))
