-- ===== src/Categories/Severity.antt =====
-- Triage of apps/api/app/domain/categories.py: what `escalate` and `max_severity` return.
use aidflow.Prelude.{
  ℕ, zero, suc, ◌+◌, ◌≤◌, max, String, ◌≡◌, refl, ◌∙◌, sym, ◌⊎◌, inl, inr, Bool, true, false,
  Option, some, List, [], ◌∷◌, arith, ltb, All, In, member, if◌then◌else◌,
}
use aidflow.Categories.{
  rank_or, severity_rank, severity_at, max_severity, max_from, triage_rank, escalate, severities,
  find_category, is_trusted, is_life_safety,
}

rank_or-le : (v : String) → rank_or 1 v ≤ 3
unfolding rank_or
rank_or-le v = ground arith

severity_at-rank :
    (n : ℕ)
    → n ≤ 3
    → (s : String) × (severity_at n ≡ some s) × (severity_rank s ≡ n) × (member s severities ≡ true)
unfolding severity_at severity_rank
severity_at-rank zero h = ("low", refl, refl, refl)
severity_at-rank (suc zero) h = ("medium", refl, refl, refl)
severity_at-rank (suc (suc zero)) h = ("high", refl, refl, refl)
severity_at-rank (suc (suc (suc zero))) h = ("critical", refl, refl, refl)
severity_at-rank (suc (suc (suc (suc n)))) h = absurd (omega arith)

triage_rank-le :
    (severity category : String) (role : Option String) → triage_rank severity category role ≤ 3
unfolding triage_rank
triage_rank-le severity category role = ground (arith, rank_or-le severity)

triage_rank_lem :
    (severity category : String) (role : Option String)
    → let stated = rank_or 1 severity in
      let life = is_life_safety (find_category category) in
      let rank = triage_rank severity category role in
      (stated ≤ rank)
      × (rank ≡ 3 → stated ≡ 3)
      × (is_trusted role ≡ false → life ≡ false → rank ≡ stated)
      × (is_trusted role ≡ true → life ≡ false → rank ≤ stated + 1)
      × (life ≡ true → rank ≡ max stated 2)
unfolding triage_rank
triage_rank_lem severity category role =
    (ground arith, λ h. ground arith, λ h k. ground arith, λ h k. ground arith, λ h. ground arith)

-- Triage never fails and returns one of the four severities. It never lowers a report, it raises
-- it by trust by at most one notch and never to critical, it leaves an untrusted report of no
-- life-safety category as stated, and a life-safety category is at least high.
pub escalate_lem :
    (severity category : String) (role : Option String)
    → let stated = severity_rank severity in
      let life = is_life_safety (find_category category) in
      (s : String) × (escalate severity category role ≡ some s)
      × (member s severities ≡ true)
      × (stated ≤ severity_rank s)
      × (severity_rank s ≡ 3 → stated ≡ 3)
      × (is_trusted role ≡ false → life ≡ false → severity_rank s ≡ stated)
      × (is_trusted role ≡ true → life ≡ false → severity_rank s ≤ stated + 1)
      × (life ≡ true → severity_rank s ≡ max stated 2)
unfolding escalate severity_rank
escalate_lem severity category role =
    let (s, found, rank, listed) =
      severity_at-rank (triage_rank severity category role)
        (triage_rank-le severity category role) in
    let bounds = triage_rank_lem severity category role in
    (
      s,
      found,
      listed,
      omega (arith, bounds.0),
      ground (arith, bounds.1),
      ground (arith, bounds.2),
      ground (arith, bounds.3),
      ground (arith, bounds.4),
    )

-- `r` is the worst of `best` and `vs`; a text that is no severity counts as "low".
abbrev pub WorstOf : String → List String → String → Type 0
WorstOf best vs r =
    (rank_or 0 best ≤ rank_or 0 r)
    × All (λ v. rank_or 0 v ≤ rank_or 0 r) vs
    × ((r ≡ best) ⊎ In r vs)

WorstOf-cons :
    {best v c r : String} (vs : List String)
    → rank_or 0 best ≤ rank_or 0 c
    → rank_or 0 v ≤ rank_or 0 c
    → (c ≡ best) ⊎ (c ≡ v)
    → WorstOf c vs r
    → WorstOf best (v ∷ vs) r
WorstOf-cons vs h k o (up, all, one) = (omega arith, (omega arith, all), chosen vs o one)
  where
    chosen :
        {best v c r : String} (vs : List String)
        → (c ≡ best) ⊎ (c ≡ v)
        → (r ≡ c) ⊎ In r vs
        → (r ≡ best) ⊎ In r (v ∷ vs)
    chosen vs (inl p) (inl q) = inl (q ∙ p)
    chosen vs (inr p) (inl q) = inr (inl (sym (q ∙ p)))
    chosen vs p (inr q) = inr (inr q)

max_from_lem : (best : String) (vs : List String) → WorstOf best vs (max_from best vs)
unfolding max_from
max_from_lem best [] = (omega arith, tt, inl refl)
max_from_lem best (v ∷ vs) =
    WorstOf-cons {c = if ltb (rank_or 0 best) (rank_or 0 v) then v else best} vs (ground arith)
      (ground arith) (pick (ltb (rank_or 0 best) (rank_or 0 v)))
      (max_from_lem (if ltb (rank_or 0 best) (rank_or 0 v) then v else best) vs)
  where
    pick : (b : Bool) → ((if b then v else best) ≡ best) ⊎ ((if b then v else best) ≡ v)
    pick true = inr refl
    pick false = inl refl

-- `max_severity` returns the worst of the values, and "low" where none is worse than that.
pub max_severity_lem : (vs : List String) → WorstOf "low" vs (max_severity vs)
unfolding max_severity
max_severity_lem vs = max_from_lem "low" vs
