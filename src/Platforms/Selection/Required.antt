-- ===== src/Platforms/Selection/Required.antt =====
-- The modules that a selection requires, and those that the loop of `resolve_selection` needs.
use aidflow.Prelude.{
  String, ◌≡◌, refl, ap, ◌∙◌, inl, inr, true, ◌&&◌, ◌||◌, none, some, List, [], ◌∷◌, ◌++◌, member,
  str_eq, str_eq_comm, eq_iff, eq_refl, Bool-cases, Option-cases, arith, unseen, some_inj,
}
use aidflow.Modules.{
  ModuleSpec, Registry, is_registered, is_layer, has_layer_key, layer_by_key, core_ids, unknown_id,
}
use aidflow.Platforms.Selection.{dependencies_of, start, layer_ids, ordered_modules}
use aidflow.Platforms.Selection.Closure.{Needs, named, required, member-append}

-- The modules that a selection requires: those that are named, the core ones, those of the layers,
-- and the registered dependencies of a required one.
pub data Required (reg : Registry) (modules keys : List String) : String → Type 0 where
  wanted : {x : String} → member x modules ≡ true → Required reg modules keys x
  core : {x : String} → member x (core_ids reg) ≡ true → Required reg modules keys x
  layer :
      (k : String) {m : ModuleSpec}
      → member k keys ≡ true
      → layer_by_key reg k ≡ some m
      → Required reg modules keys m.id
  dependency :
      {x d : String}
      → Required reg modules keys x
      → member d (dependencies_of reg x) ≡ true
      → is_registered reg d ≡ true
      → Required reg modules keys d

pub member-unseen :
    (x : String) (seen xs : List String)
    → (member x (unseen seen xs) || member x seen) ≡ (member x xs || member x seen)
member-unseen x seen [] = refl
member-unseen x seen (y ∷ xs) = elim (Bool-cases (str_eq x y)) [
  | inl e ↦
      ground (arith, member-unseen x (y ∷ seen) xs, e, ap (λ z. member z seen) ((eq_iff x y).0 e))
  | inr e ↦ ground (arith, member-unseen x (y ∷ seen) xs, e)
]

pub member-layer_ids :
    (reg : Registry) (ks : List String) (x : String)
    → member x (layer_ids reg ks) ≡ true
    → (k : String) × (m : ModuleSpec) × (member k ks ≡ true)
      × (layer_by_key reg k ≡ some m)
      × (x ≡ m.id)
unfolding layer_by_key
member-layer_ids reg [] x h = cc
member-layer_ids reg (k ∷ ks) x h = elim (Option-cases (layer_by_key reg k)) [
  | inl e ↦
      let (j, m, p, q, r) = member-layer_ids reg ks x (cc (e, h)) in (j, m, ground (arith, p), q, r)
  | inr (m, e) ↦ elim (Bool-cases (str_eq x m.id)) [
    | inl s ↦ (k, m, ground (arith, eq_refl k), e, (eq_iff x m.id).0 s)
    | inr s ↦
        let (j, n, p, q, r) = member-layer_ids reg ks x (ground (arith, e, h, s)) in
        (j, n, ground (arith, p), q, r)
  ]
]

pub layer_ids-member :
    (reg : Registry) (ks : List String) (k : String) (m : ModuleSpec)
    → member k ks ≡ true
    → layer_by_key reg k ≡ some m
    → member m.id (layer_ids reg ks) ≡ true
layer_ids-member reg [] k m h e = cc
layer_ids-member reg (j ∷ ks) k m h e = elim (Bool-cases (str_eq k j)) [
  | inl p ↦
      let q = e ∙ refl in
      let r = ap (layer_by_key reg) ((eq_iff k j).0 p) in ground (arith, e, r, eq_refl m.id)
  | inr p ↦ elim (Option-cases (layer_by_key reg j)) [
    | inl q ↦ ground (arith, q, layer_ids-member reg ks k m (ground (arith, h, p)) e)
    | inr (n, q) ↦ ground (arith, q, layer_ids-member reg ks k m (ground (arith, h, p)) e)
  ]
]

pub member-ordered_modules :
    (reg : Registry) (sel : List String) (x : String)
    → member x (ordered_modules reg sel) ≡ (is_registered reg x && member x sel)
member-ordered_modules [] sel x = refl
member-ordered_modules (m ∷ ms) sel x = elim (Bool-cases (str_eq x m.id)) [
  | inl e ↦ ground (
    arith,
    member-ordered_modules ms sel x,
    e,
    str_eq_comm x m.id,
    ap (λ y. member y sel) ((eq_iff x m.id).0 e),
  )
  | inr e ↦ ground (arith, member-ordered_modules ms sel x, e, str_eq_comm x m.id)
]

pub member-start :
    (reg : Registry) (modules keys : List String) (x : String)
    → member x (start reg modules keys)
      ≡ (member x modules || (member x (core_ids reg) || member x (layer_ids reg keys)))
member-start reg modules keys x = ground (
  arith,
  member-unseen x [] (modules ++ core_ids reg ++ layer_ids reg keys),
  member-append x (modules ++ core_ids reg) (layer_ids reg keys),
  member-append x modules (core_ids reg),
)

-- The start of the loop has the named modules, the core ones and those of the layers.
pub start-Required :
    (reg : Registry) (modules keys : List String) (x : String)
    → member x (start reg modules keys) ≡ true
    → Required reg modules keys x
start-Required reg modules keys x h = elim (Bool-cases (member x modules)) [
  | inl e ↦ wanted e
  | inr e ↦ elim (Bool-cases (member x (core_ids reg))) [
    | inl k ↦ core k
    | inr k ↦
        let (j, m, p, q, r) =
          member-layer_ids reg keys x (ground (arith, h, e, k, member-start reg modules keys x)) in
        rw r (layer j p q)
  ]
]

pub Needs-Required :
    (reg : Registry) (modules keys : List String) {x : String}
    → Needs reg (start reg modules keys) x
    → Required reg modules keys x
Needs-Required reg modules keys (named {x} h) = start-Required reg modules keys x h
Needs-Required reg modules keys (required n e k) =
    dependency (Needs-Required reg modules keys n) e k

pub Required-Needs :
    (reg : Registry) (modules keys : List String) {x : String}
    → Required reg modules keys x
    → Needs reg (start reg modules keys) x
Required-Needs reg modules keys (wanted {x} h) =
    named (ground (arith, h, member-start reg modules keys x))
Required-Needs reg modules keys (core {x} h) =
    named (ground (arith, h, member-start reg modules keys x))
Required-Needs reg modules keys (layer k {m} h e) =
    named (ground (arith, layer_ids-member reg keys k m h e, member-start reg modules keys m.id))
Required-Needs reg modules keys (dependency r e k) =
    required (Required-Needs reg modules keys r) e k

pub core_id-is_registered :
    (reg : Registry) (x : String) → member x (core_ids reg) ≡ true → is_registered reg x ≡ true
core_id-is_registered [] x h = cc
core_id-is_registered (m ∷ ms) x h = elim (Bool-cases (str_eq x m.id)) [
  | inl e ↦ ground (arith, e, str_eq_comm x m.id)
  | inr e ↦ elim (Bool-cases m.core) [
    | inl c ↦ ground (arith, core_id-is_registered ms x (ground (arith, h, e, c)))
    | inr c ↦ ground (arith, core_id-is_registered ms x (ground (arith, h, e, c)))
  ]
]

pub layer_by_key-is_registered :
    (reg : Registry) (k : String) (m : ModuleSpec)
    → layer_by_key reg k ≡ some m
    → is_registered reg m.id ≡ true
unfolding layer_by_key
layer_by_key-is_registered [] k m h = cc
layer_by_key-is_registered (n ∷ reg) k m h = elim (Bool-cases (is_layer n && has_layer_key k n)) [
  | inl e ↦
      let h' : some n ≡ some m = cc (e, h) in
      ground (arith, e, some_inj h', ap (λ z. z.id) (some_inj h'), eq_refl m.id)
  | inr e ↦ ground (arith, layer_by_key-is_registered reg k m (cc (e, h)))
]

pub unknown_id-none :
    (reg : Registry) (ids : List String) (x : String)
    → unknown_id reg ids ≡ none
    → member x ids ≡ true
    → is_registered reg x ≡ true
unfolding unknown_id
unknown_id-none reg [] x h m = cc
unknown_id-none reg (y ∷ ids) x h m = elim (Bool-cases (is_registered reg y)) [
  | inr e ↦ cc (e, h)
  | inl e ↦ elim (Bool-cases (str_eq x y)) [
    | inl p ↦ let q = (eq_iff x y).0 p in rw q e
    | inr p ↦ unknown_id-none reg ids x (cc (e, h)) (ground (arith, m, p))
  ]
]
