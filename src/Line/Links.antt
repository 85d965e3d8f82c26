-- ===== src/Line/Links.antt =====
-- The links between platforms and LINE groups that apps/api/app/services/line_service.py keeps, in
-- two records: the row of the group and the configuration of the platform.
use aidflow.Prelude.{
  ℕ, String, ◌≡◌, sym, ap, ◌∙◌, inl, inr, Bool, true, false, Option, none, some, str_eq, eq_iff,
  eq_refl, ◌==◌, is_empty, Bool-cases, some_inj, arith, if◌then◌else◌,
}
use aidflow.Platforms.Rows.{Site}
use aidflow.Line.{is_group, owner, target}

-- The row of a group names a platform exactly when the configuration of that platform names the group.
pub record IsLinked (s : Site) : Type 0 where
  pub names : (j : ℕ) (g : String) → target s j ≡ some g → owner s g ≡ some j
  pub held : (j : ℕ) (g : String) → owner s g ≡ some j → target s j ≡ some g
  pub real : (j : ℕ) (g : String) → target s j ≡ some g → is_empty g ≡ false

abbrev pub is_platform : Option ℕ → ℕ → Bool
is_platform none j = false
is_platform (some i) j = i == j

abbrev pub unless {ℓ} : {A : Type ℓ} → Bool → Option A → Option A
unless b o = if b then none else o

-- What a change of one platform, or of the rows of one group, leaves of a link.
abbrev pub without_group : String → Option String → Option String
without_group g o = unless (is_group o g) o

abbrev pub without_platform : ℕ → Option ℕ → Option ℕ
without_platform id o = unless (is_platform o id) o

pub eq_of : {i j : ℕ} → (i == j) ≡ true → i ≡ j
eq_of {i} {j} e = ground (arith, e)

-- What `bind` leaves, link by link.
pub record Binds (id : ℕ) (g : String) (s s' : Site) : Type 0 where
  pub target_same : target s' id ≡ some g
  pub target_other :
      (j : ℕ)
      → (j == id) ≡ false
      → target s' j
        ≡ (if is_platform (owner s g) j then without_group g (target s j) else target s j)
  pub owner_same : owner s' g ≡ some id
  pub owner_other : (h : String) → str_eq h g ≡ false → owner s' h ≡ without_platform id (owner s h)

pub without_group-some :
    (g h : String) (o : Option String)
    → without_group g o ≡ some h
    → (o ≡ some h) × (str_eq h g ≡ false)
without_group-some g h none e = cc
without_group-some g h (some x) e = elim (Bool-cases (str_eq x g)) [
  | inl k ↦ absurd (ground (arith, k, e))
  | inr k ↦ let q : some x ≡ some h = rw k at e in (q, ap (λ y. str_eq y g) (sym (some_inj q)) ∙ k)
]

pub without_platform-some :
    (i j : ℕ) (o : Option ℕ) → without_platform i o ≡ some j → (o ≡ some j) × ((j == i) ≡ false)
without_platform-some i j none e = cc
without_platform-some i j (some x) e = elim (Bool-cases (x == i)) [
  | inl k ↦ absurd (ground (arith, k, e))
  | inr k ↦ let q : some x ≡ some j = rw k at e in (q, ap (λ y. y == i) (sym (some_inj q)) ∙ k)
]

-- The branches of `target_other`.
kept_target :
    (c : Bool) (g h : String) (o : Option String)
    → (if c then without_group g o else o) ≡ some h
    → (o ≡ some h) × (c ≡ true → str_eq h g ≡ false)
kept_target true g h o e = let (p, q) = without_group-some g h o e in (p, λ _. q)
kept_target false g h o e = (e, λ k. absurd (cc k))

keeps_target :
    (c : Bool) (g h : String) (o : Option String)
    → o ≡ some h
    → str_eq h g ≡ false
    → (if c then without_group g o else o) ≡ some h
keeps_target c g h o e k = ground (arith, e, k)

-- Such links are one to one again.
pub Binds-IsLinked :
    {id : ℕ} {g : String} {s s' : Site}
    → is_empty g ≡ false
    → IsLinked s
    → Binds id g s s'
    → IsLinked s'
Binds-IsLinked {id} {g} {s} {s'} r l b = record { names = names; held = held; real = real }
  where
    names : (j : ℕ) (h : String) → target s' j ≡ some h → owner s' h ≡ some j
    names j h t = elim (Bool-cases (j == id)) [
      | inl e ↦
          let q : some g ≡ some h = sym b.target_same ∙ ap (target s') (sym (eq_of e)) ∙ t in
          ap (owner s') (sym (some_inj q)) ∙ b.owner_same ∙ ap some (sym (eq_of e))
      | inr e ↦
          let (t', k) =
            kept_target (is_platform (owner s g) j) g h (target s j)
              (sym (b.target_other j e) ∙ t) in
          let o = l.names j h t' in
          elim (Bool-cases (str_eq h g)) [
            | inl m ↦
                let n = k (
                  ap (λ x. is_platform (owner s x) j) (sym ((eq_iff h g).0 m))
                  ∙ ap (λ y. is_platform y j) o
                  ∙ ground arith) in
                cc (m, n)
            | inr m ↦ b.owner_other h m ∙ ap (without_platform id) o ∙ ap (λ x. unless x (some j)) e
          ]
    ]

    held : (j : ℕ) (h : String) → owner s' h ≡ some j → target s' j ≡ some h
    held j h o = elim (Bool-cases (str_eq h g)) [
      | inl k ↦
          let p = (eq_iff h g).0 k in
          let q : some id ≡ some j = sym b.owner_same ∙ ap (owner s') (sym p) ∙ o in
          ap (target s') (sym (some_inj q)) ∙ b.target_same ∙ ap some (sym p)
      | inr k ↦
          let (o', e) = without_platform-some id j (owner s h) (sym (b.owner_other h k) ∙ o) in
          b.target_other j e
          ∙ keeps_target (is_platform (owner s g) j) g h (target s j) (l.held j h o') k
    ]

    real : (j : ℕ) (h : String) → target s' j ≡ some h → is_empty h ≡ false
    real j h t = elim (Bool-cases (j == id)) [
      | inl e ↦
          let q : some g ≡ some h = sym b.target_same ∙ ap (target s') (sym (eq_of e)) ∙ t in
          ap is_empty (sym (some_inj q)) ∙ r
      | inr e ↦
          let (t', k) =
            kept_target (is_platform (owner s g) j) g h (target s j)
              (sym (b.target_other j e) ∙ t) in
          l.real j h t'
    ]

-- What an operation leaves that takes a platform and its group apart.
pub record Frees (id : ℕ) (g : String) (s s' : Site) : Type 0 where
  pub target_same : target s' id ≡ none
  pub target_other : (j : ℕ) → (j == id) ≡ false → target s' j ≡ target s j
  pub owner_same : owner s' g ≡ none
  pub owner_other : (h : String) → str_eq h g ≡ false → owner s' h ≡ owner s h

pub Frees-IsLinked :
    {id : ℕ} {g : String} {s s' : Site}
    → IsLinked s
    → target s id ≡ some g
    → Frees id g s s'
    → IsLinked s'
Frees-IsLinked {id} {g} {s} {s'} l t f = record { names = names; held = held; real = real }
  where
    real : (j : ℕ) (h : String) → target s' j ≡ some h → is_empty h ≡ false
    real j h u = elim (Bool-cases (j == id)) [
      | inl e ↦ let q = sym f.target_same ∙ ap (target s') (sym (eq_of e)) ∙ u in cc q
      | inr e ↦ l.real j h (sym (f.target_other j e) ∙ u)
    ]

    names : (j : ℕ) (h : String) → target s' j ≡ some h → owner s' h ≡ some j
    names j h u = elim (Bool-cases (j == id)) [
      | inl e ↦ let q = sym f.target_same ∙ ap (target s') (sym (eq_of e)) ∙ u in cc q
      | inr e ↦
          let o = l.names j h (sym (f.target_other j e) ∙ u) in
          elim (Bool-cases (str_eq h g)) [
            | inl k ↦
                let q = some_inj (sym o ∙ ap (owner s) ((eq_iff h g).0 k) ∙ l.names id g t) in
                absurd (ground (arith, q, e))
            | inr k ↦ f.owner_other h k ∙ o
          ]
    ]

    held : (j : ℕ) (h : String) → owner s' h ≡ some j → target s' j ≡ some h
    held j h o = elim (Bool-cases (str_eq h g)) [
      | inl k ↦ let q = sym f.owner_same ∙ ap (owner s') (sym ((eq_iff h g).0 k)) ∙ o in cc q
      | inr k ↦
          let u = l.held j h (sym (f.owner_other h k) ∙ o) in
          elim (Bool-cases (j == id)) [
            | inl e ↦
                let q = some_inj (sym u ∙ ap (target s) (eq_of e) ∙ t) in
                let n = ap (λ x. str_eq x g) q ∙ eq_refl g in cc (k, n)
            | inr e ↦ f.target_other j e ∙ u
          ]
    ]

-- What an operation leaves that touches no link.
pub record Same (s s' : Site) : Type 0 where
  pub targets : (j : ℕ) → target s' j ≡ target s j
  pub owners : (h : String) → owner s' h ≡ owner s h

pub Same-IsLinked : {s s' : Site} → IsLinked s → Same s s' → IsLinked s'
Same-IsLinked l e = record {
  names = λ j g t. e.owners g ∙ l.names j g (sym (e.targets j) ∙ t);
  held = λ j g o. e.targets j ∙ l.held j g (sym (e.owners g) ∙ o);
  real = λ j g t. l.real j g (sym (e.targets j) ∙ t);
}
