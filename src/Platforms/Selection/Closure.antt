-- ===== src/Platforms/Selection/Closure.antt =====
-- The loop of `resolve_selection` that closes a selection over the declared dependencies.
use aidflow.Prelude.{
  ℕ, zero, suc, ◌+◌, ◌≤◌, ◌<◌, String, ◌≡◌, refl, ap, ◌∙◌, inl, inr, Bool, true, false, not, ◌&&◌,
  ◌||◌, some, List, [], ◌∷◌, ◌++◌, length, count, member, str_eq, eq_iff, eq_refl, Bool-cases,
  and_split, arith,
}
use aidflow.Modules.{Registry, is_registered}
use aidflow.Platforms.Selection.{
  Round, dependencies_of, add_dependency, add_dependencies, complete_all, close, close_fuel,
}

pub member-append :
    (x : String) (xs ys : List String) → member x (xs ++ ys) ≡ (member x xs || member x ys)
member-append x [] ys = refl
member-append x (y ∷ xs) ys = ground (arith, member-append x xs ys)

-- The modules that the loop can still add.
abbrev missing : Registry → List String → ℕ
missing reg sel = count (λ m. not (member m.id sel)) reg

abbrev bit : Bool → ℕ
bit true = 1
bit false = 0

missing-snoc-le :
    (reg : Registry) (sel : List String) (d : String)
    → missing reg (sel ++ d ∷ []) ≤ missing reg sel
missing-snoc-le [] sel d = omega arith
missing-snoc-le (m ∷ ms) sel d =
    ground (arith, missing-snoc-le ms sel d, member-append m.id sel (d ∷ []))

missing-snoc-lt :
    (reg : Registry) (sel : List String) (d : String)
    → is_registered reg d ≡ true
    → member d sel ≡ false
    → missing reg (sel ++ d ∷ []) < missing reg sel
missing-snoc-lt [] sel d h k = absurd (ground (arith, h))
missing-snoc-lt (m ∷ ms) sel d h k = elim (Bool-cases (str_eq m.id d)) [
  | inl e ↦ ground (
    arith,
    missing-snoc-le ms sel d,
    member-append m.id sel (d ∷ []),
    e,
    k,
    ap (λ x. member x sel) ((eq_iff m.id d).0 e),
  )
  | inr e ↦
      ground (
        arith,
        missing-snoc-lt ms sel d (ground (arith, h, e)) k,
        member-append m.id sel (d ∷ []),
        e,
      )
]

-- What a piece of a round does to the flag and the set.
record Grows (reg : Registry) (r r' : Round) : Type 0 where
  pub kept : (x : String) → member x r.1 ≡ true → member x r'.1 ≡ true
  pub still : r'.0 ≡ false → (r.0 ≡ false) × (r'.1 ≡ r.1)
  pub fewer : bit r'.0 + missing reg r'.1 ≤ bit r.0 + missing reg r.1

Grows-trans : {reg : Registry} {a b c : Round} → Grows reg a b → Grows reg b c → Grows reg a c
Grows-trans f g = record {
  kept = λ x h. g.kept x (f.kept x h);
  still = λ h. ((f.still (g.still h).0).0, (g.still h).1 ∙ (f.still (g.still h).0).1);
  fewer = omega (arith, f.fewer, g.fewer);
}

Grows-refl : {reg : Registry} (r : Round) → Grows reg r r
Grows-refl r = record { kept = λ x h. h; still = λ h. (h, refl); fewer = omega arith }

add_dependency-Grows :
    (reg : Registry) (r : Round) (d : String) → Grows reg r (add_dependency reg r d)
unfolding add_dependency
add_dependency-Grows reg (c, sel) d = elim (Bool-cases (member d sel)) [
  | inl e ↦ rw e (Grows-refl (c, sel))
  | inr e ↦ elim (Bool-cases (is_registered reg d)) [
    | inr k ↦ rw (e, k) (Grows-refl (c, sel))
    | inl k ↦
        rw (e, k)
          (record {
            kept = λ x h. ground (arith, h, member-append x sel (d ∷ []));
            still = λ h. absurd (ground (arith, h));
            fewer = omega (arith, missing-snoc-lt reg sel d k e);
          })
  ]
]

add_dependencies-Grows :
    (reg : Registry) (r : Round) (ds : List String) → Grows reg r (add_dependencies reg r ds)
unfolding add_dependencies
add_dependencies-Grows reg r [] = Grows-refl r
add_dependencies-Grows reg r (d ∷ ds) =
    Grows-trans (add_dependency-Grows reg r d)
      (add_dependencies-Grows reg (add_dependency reg r d) ds)

complete_all-Grows :
    (reg : Registry) (r : Round) (ids : List String) → Grows reg r (complete_all reg r ids)
unfolding complete_all
complete_all-Grows reg r [] = Grows-refl r
complete_all-Grows reg r (id ∷ ids) =
    Grows-trans (add_dependencies-Grows reg r (dependencies_of reg id))
      (complete_all-Grows reg (add_dependencies reg r (dependencies_of reg id)) ids)

-- What a selection needs: its own modules, and the registered dependencies of what it needs.
pub data Needs (reg : Registry) (sel : List String) : String → Type 0 where
  named : {x : String} → member x sel ≡ true → Needs reg sel x
  required :
      {x d : String}
      → Needs reg sel x
      → member d (dependencies_of reg x) ≡ true
      → is_registered reg d ≡ true
      → Needs reg sel d

Needs-Needs :
    {reg : Registry} {sel sel' : List String}
    → ((x : String) → member x sel' ≡ true → Needs reg sel x)
    → (x : String) → Needs reg sel' x
    → Needs reg sel x
Needs-Needs f x (named h) = f x h
Needs-Needs f d (required {x = x} n e k) = required (Needs-Needs f x n) e k

-- A round adds nothing but needed modules.
abbrev IsNeeded : Registry → List String → List String → Type 0
IsNeeded reg sel ids = (x : String) → member x ids ≡ true → Needs reg sel x

add_dependency-IsNeeded :
    (reg : Registry) (sel : List String) (r : Round) (d : String)
    → IsNeeded reg sel r.1
    → (is_registered reg d ≡ true → Needs reg sel d)
    → IsNeeded reg sel (add_dependency reg r d).1
unfolding add_dependency
add_dependency-IsNeeded reg sel (c, ids) d h n x m =
    elim (Bool-cases (not (member d ids) && is_registered reg d)) [
      | inr e ↦ h x (ground (arith, m, e))
      | inl e ↦ elim (Bool-cases (member x ids)) [
        | inl k ↦ h x k
        | inr k ↦
            let p = (eq_iff x d).0 (ground (arith, m, e, k, member-append x ids (d ∷ []))) in
            rw p (n (and_split (not (member d ids)) (is_registered reg d) e).1)
      ]
    ]

add_dependencies-IsNeeded :
    (reg : Registry) (sel : List String) (r : Round) (ds : List String)
    → IsNeeded reg sel r.1
    → ((d : String) → member d ds ≡ true → is_registered reg d ≡ true → Needs reg sel d)
    → IsNeeded reg sel (add_dependencies reg r ds).1
unfolding add_dependencies
add_dependencies-IsNeeded reg sel r [] h n = h
add_dependencies-IsNeeded reg sel r (d ∷ ds) h n =
    add_dependencies-IsNeeded reg sel (add_dependency reg r d) ds
      (add_dependency-IsNeeded reg sel r d h (n d (ground (arith, eq_refl d))))
      (λ x m. n x (ground (arith, m)))

complete_all-IsNeeded :
    (reg : Registry) (sel : List String) (r : Round) (ids : List String)
    → IsNeeded reg sel r.1
    → IsNeeded reg sel ids
    → IsNeeded reg sel (complete_all reg r ids).1
unfolding complete_all
complete_all-IsNeeded reg sel r [] h n = h
complete_all-IsNeeded reg sel r (id ∷ ids) h n =
    complete_all-IsNeeded reg sel (add_dependencies reg r (dependencies_of reg id)) ids
      (add_dependencies-IsNeeded reg sel r (dependencies_of reg id) h
        (λ d. required (n id (ground (arith, eq_refl id)))))
      (λ x m. n x (ground (arith, m)))

-- After a pass over the dependencies they are selected, if they are registered.
added :
    (reg : Registry) (r : Round) (d : String)
    → is_registered reg d ≡ true
    → member d (add_dependency reg r d).1 ≡ true
unfolding add_dependency
added reg (c, sel) d h = ground (arith, h, member-append d sel (d ∷ []), eq_refl d)

all_added :
    (reg : Registry) (r : Round) (ds : List String) (d : String)
    → member d ds ≡ true
    → is_registered reg d ≡ true
    → member d (add_dependencies reg r ds).1 ≡ true
unfolding add_dependencies
all_added reg r [] d m h = cc
all_added reg r (e ∷ ds) d m h = elim (Bool-cases (str_eq d e)) [
  | inl k ↦
      (add_dependencies-Grows reg (add_dependency reg r e) ds).kept d
        (let p = (eq_iff d e).0 k in rw p (added reg r e (cc (p, h))))
  | inr k ↦ all_added reg (add_dependency reg r e) ds d (ground (arith, m, k)) h
]

-- After a round, the registered dependencies of what it went through are selected.
completed :
    (reg : Registry) (r : Round) (ids : List String) (x d : String)
    → member x ids ≡ true
    → member d (dependencies_of reg x) ≡ true
    → is_registered reg d ≡ true
    → member d (complete_all reg r ids).1 ≡ true
unfolding complete_all
completed reg r [] x d m e h = cc
completed reg r (y ∷ ids) x d m e h = elim (Bool-cases (str_eq x y)) [
  | inl k ↦
      (complete_all-Grows reg (add_dependencies reg r (dependencies_of reg y)) ids).kept d
        (all_added reg r (dependencies_of reg y) d (let p = (eq_iff x y).0 k in cc (p, e)) h)
  | inr k ↦
      completed reg (add_dependencies reg r (dependencies_of reg y)) ids x d (ground (arith, m, k))
        e h
]

-- A selection that a round leaves as it is holds all that it needs.
IsClosed-Needs :
    (reg : Registry) (sel : List String)
    → (complete_all reg (false, sel) sel).0 ≡ false
    → (x : String) → Needs reg sel x
    → member x sel ≡ true
IsClosed-Needs reg sel h x (named m) = m
IsClosed-Needs reg sel h d (required {x = x} n e k) =
    let p = ((complete_all-Grows reg (false, sel) sel).still h).1 in
    let q = completed reg (false, sel) sel x d (IsClosed-Needs reg sel h x n) e k in cc (p, q)

-- What `close` promises.
pub record IsClosure (reg : Registry) (sel out : List String) : Type 0 where
  pub whole : (x : String) → Needs reg sel x → member x out ≡ true
  pub least : (x : String) → member x out ≡ true → Needs reg sel x

close_enough :
    (reg : Registry) (fuel : ℕ) (sel : List String)
    → missing reg sel < fuel
    → (out : List String) × (close reg fuel sel ≡ some out) × IsClosure reg sel out
unfolding close
close_enough reg zero sel h = absurd (omega (arith, h))
close_enough reg (suc fuel) sel h = elim (Bool-cases (complete_all reg (false, sel) sel).0) [
  | inr e ↦
      let p = ((complete_all-Grows reg (false, sel) sel).still e).1 in
      (
        sel,
        (rw e (rw p refl)),
        (record { whole = IsClosed-Needs reg sel e; least = λ x m. named m }),
      )
  | inl e ↦
      let (out, eq, c) =
        close_enough reg fuel (complete_all reg (false, sel) sel).1
          (let g = (complete_all-Grows reg (false, sel) sel).fewer in ground (arith, g, e, h)) in
      (
        out,
        rw e eq,
        record {
          whole = λ x n.
              c.whole x (
                Needs-Needs (λ y m. named ((complete_all-Grows reg (false, sel) sel).kept y m)) x
                  n);
          least = λ x m.
              Needs-Needs (complete_all-IsNeeded reg sel (false, sel) sel (λ y. named) (λ y. named))
                x (c.least x m);
        },
      )
]

missing-le : (reg : Registry) (sel : List String) → missing reg sel ≤ length reg
missing-le [] sel = omega arith
missing-le (m ∷ ms) sel = ground (arith, missing-le ms sel)

-- The loop ends, and leaves the least set that has the selection and, with each module, its
-- registered dependencies.
pub close_lem :
    (reg : Registry) (sel : List String)
    → (out : List String) × (close reg (close_fuel reg) sel ≡ some out) × IsClosure reg sel out
close_lem reg sel = close_enough reg (close_fuel reg) sel (omega (arith, missing-le reg sel))
