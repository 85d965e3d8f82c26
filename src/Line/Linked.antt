-- ===== src/Line/Linked.antt =====
-- The two records of a binding, the row of the group and the configuration of the platform.
use aidflow.Prelude.{
  ℕ, String, ◌≡◌, refl, sym, ap, ◌∙◌, inl, inr, true, false, Option, none, some, List, [], ◌∷◌,
  ◌++◌, map, str_eq, str_eq_comm, eq_iff, eq_refl, ◌==◌, Bool-cases, Option-cases, some_inj, arith,
  if◌then◌else◌,
}
use aidflow.Models.{Payload, Json, text, put_key, get_key, drop_key}
use aidflow.Models.Table.{get, alter}
use aidflow.Platforms.Rows.{
  PlatformRow, LineGroup, GroupStatus, Site, change_platform, get_platform,
}
use aidflow.Line.{
  row_for, as_text, group_of, clear_group, set_group, with_row, row_owner, owner, named_by, new_row,
  or_new, target,
}

pub get_key-drop_key :
    (k j : String) (c : Payload)
    → get_key k (drop_key j c) ≡ (if str_eq k j then Json.null else get_key k c)
get_key-drop_key k j [] = ground arith
get_key-drop_key k j ((i, v) ∷ c) = elim (Bool-cases (str_eq i j)) [
  | inl e ↦
      ground (arith, get_key-drop_key k j c, e, ap (str_eq k) ((eq_iff i j).0 e), str_eq_comm i k)
  | inr e ↦ elim (Bool-cases (str_eq i k)) [
    | inl h ↦ ground (arith, get_key-drop_key k j c, e, h, ap (λ x. str_eq x j) ((eq_iff i k).0 h))
    | inr h ↦ ground (arith, get_key-drop_key k j c, e, h)
  ]
]

pub get_key-put_key :
    (k j : String) (v : Json) (c : Payload)
    → get_key k (put_key j v c) ≡ (if str_eq k j then v else get_key k c)
get_key-put_key k j v [] = ground (arith, str_eq_comm j k)
get_key-put_key k j v ((i, w) ∷ c) = elim (Bool-cases (str_eq i j)) [
  | inl e ↦
      ground (arith, get_key-put_key k j v c, e, ap (str_eq k) ((eq_iff i j).0 e), str_eq_comm i k)
  | inr e ↦ elim (Bool-cases (str_eq i k)) [
    | inl h ↦ ground (arith, get_key-put_key k j v c, e, h, ap (λ x. str_eq x j) ((eq_iff i k).0 h))
    | inr h ↦ ground (arith, get_key-put_key k j v c, e, h)
  ]
]

pub group_of-clear_group : (p : PlatformRow) → group_of (clear_group p) ≡ none
unfolding clear_group
group_of-clear_group p = ap as_text (
    get_key-drop_key "line_group_id" "line_bound_at" (drop_key "line_group_id" p.configuration)
    ∙ get_key-drop_key "line_group_id" "line_group_id" p.configuration)

pub group_of-set_group : (g at : String) (p : PlatformRow) → group_of (set_group g at p) ≡ some g
unfolding set_group
group_of-set_group g at p = ap as_text (
    get_key-put_key "line_group_id" "line_bound_at" (text at)
      (put_key "line_group_id" (text g) p.configuration)
    ∙ get_key-put_key "line_group_id" "line_group_id" (text g) p.configuration)

-- What a change of the rows does to the owner of a group.
pub owner-map :
    (f : LineGroup → LineGroup) (e : Option ℕ → Option ℕ) (g : String) (rs : List LineGroup)
    → ((r : LineGroup) → (f r).group_id ≡ r.group_id)
    → ((r : LineGroup) → str_eq r.group_id g ≡ true → (f r).platform_id ≡ e r.platform_id)
    → (row_for g rs ≡ none → e none ≡ none)
    → row_owner (row_for g (map f rs)) ≡ e (row_owner (row_for g rs))
owner-map f e g [] h k n = sym (n refl)
owner-map f e g (r ∷ rs) h k n = elim (Bool-cases (str_eq r.group_id g)) [
  | inl p ↦ rw (h r, p) (k r p)
  | inr p ↦ rw (h r, p) (owner-map f e g rs h k (λ q. n (rw p q)))
]

-- What a change of a platform does to the groups that platforms name.
pub get-alter_same :
    (f : PlatformRow → PlatformRow) (id : ℕ) (ps : List PlatformRow) {p : PlatformRow}
    → ((p : PlatformRow) → (f p).id ≡ p.id)
    → get (λ p. p.id) id ps ≡ some p
    → get (λ p. p.id) id (alter (λ p. p.id) id f ps) ≡ some (f p)
unfolding get alter
get-alter_same f id [] h e = cc
get-alter_same f id (q ∷ ps) {p} h e = elim (Bool-cases (q.id == id)) [
  | inl k ↦ let e' : some q ≡ some p = rw k at e in ground (arith, k, h q, ap f (some_inj e'))
  | inr k ↦
      (let e' : get (λ p. p.id) id ps ≡ some p = rw k at e in
        ground (arith, k, h q, get-alter_same f id ps h e'))
]

pub get-alter_other :
    (f : PlatformRow → PlatformRow) (id j : ℕ) (ps : List PlatformRow)
    → ((p : PlatformRow) → (f p).id ≡ p.id)
    → (j == id) ≡ false
    → get (λ p. p.id) j (alter (λ p. p.id) id f ps) ≡ get (λ p. p.id) j ps
unfolding get alter
get-alter_other f id j [] h e = refl
get-alter_other f id j (q ∷ ps) h e = elim (Bool-cases (q.id == id)) [
  | inl k ↦ ground (arith, k, h q, e, get-alter_other f id j ps h e)
  | inr k ↦ ground (arith, k, h q, e, get-alter_other f id j ps h e)
]

pub target-same :
    (f : PlatformRow → PlatformRow) (id : ℕ) (s : Site) {p : PlatformRow}
    → ((p : PlatformRow) → (f p).id ≡ p.id)
    → get_platform s id ≡ some p
    → target (change_platform id f s) id ≡ group_of (f p)
unfolding target get_platform
target-same f id s h e = ap named_by (get-alter_same f id s.platforms h e)

pub target-other :
    (f : PlatformRow → PlatformRow) (id j : ℕ) (s : Site)
    → ((p : PlatformRow) → (f p).id ≡ p.id)
    → (j == id) ≡ false
    → target (change_platform id f s) j ≡ target s j
unfolding target get_platform
target-other f id j s h e = ap named_by (get-alter_other f id j s.platforms h e)

pub target-get :
    (s : Site) (id : ℕ) {p : PlatformRow} → get_platform s id ≡ some p → target s id ≡ group_of p
unfolding target
target-get s id e = ap named_by e

pub row_for-append :
    (g : String) (rs qs : List LineGroup)
    → row_for g rs ≡ none
    → row_for g (rs ++ qs) ≡ row_for g qs
row_for-append g [] qs h = refl
row_for-append g (r ∷ rs) qs h = elim (Bool-cases (str_eq r.group_id g)) [
  | inl k ↦ absurd (ground (arith, k, h))
  | inr k ↦ ground (arith, k, row_for-append g rs qs (ground (arith, k, h)))
]

owner-append :
    (g : String) (rs : List LineGroup) (q : LineGroup)
    → q.platform_id ≡ none
    → row_owner (row_for g (rs ++ q ∷ [])) ≡ row_owner (row_for g rs)
owner-append g [] q h = ground (arith, h)
owner-append g (r ∷ rs) q h = ground (arith, owner-append g rs q h)

-- A row that is added without a platform changes no owner.
pub owner-with_row :
    (h g : String) (st : GroupStatus) (s : Site) → owner (with_row g st s) h ≡ owner s h
owner-with_row h g st s = elim (Option-cases (row_for g s.groups)) [
  | inr (r, e) ↦ ap (λ o. row_owner (row_for h (or_new o g st s).groups)) e
  | inl e ↦
      ap (λ o. row_owner (row_for h (or_new o g st s).groups)) e
      ∙ owner-append h s.groups (new_row s.db.next_id g st) refl
]

pub or_new-platforms :
    (o : Option LineGroup) (g : String) (st : GroupStatus) (s : Site)
    → (or_new o g st s).platforms ≡ s.platforms
or_new-platforms none g st s = refl
or_new-platforms (some r) g st s = refl

-- The group that the changed row names.
pub row_for-with_row :
    (g : String) (st : GroupStatus) (s : Site)
    → (r : LineGroup) × (row_for g (with_row g st s).groups ≡ some r)
row_for-with_row g st s = elim (Option-cases (row_for g s.groups)) [
  | inr (r, e) ↦ (r, ap (λ o. row_for g (or_new o g st s).groups) e ∙ e)
  | inl e ↦ (
    new_row s.db.next_id g st,
    ap (λ o. row_for g (or_new o g st s).groups) e
        ∙ row_for-append g s.groups (new_row s.db.next_id g st ∷ []) e
        ∙ ground (arith, eq_refl g),
  )
]

get-alter-none :
    (f : PlatformRow → PlatformRow) (id : ℕ) (ps : List PlatformRow)
    → get (λ p. p.id) id ps ≡ none
    → get (λ p. p.id) id (alter (λ p. p.id) id f ps) ≡ none
unfolding get alter
get-alter-none f id [] e = refl
get-alter-none f id (q ∷ ps) e = elim (Bool-cases (q.id == id)) [
  | inl k ↦ absurd (ground (arith, k, e))
  | inr k ↦
      let e' : get (λ p. p.id) id ps ≡ none = rw k at e in
      ground (arith, k, get-alter-none f id ps e')
]

pub target-map :
    (f : PlatformRow → PlatformRow) (e : Option String → Option String) (id : ℕ) (s : Site)
    → ((p : PlatformRow) → (f p).id ≡ p.id)
    → ((p : PlatformRow) → group_of (f p) ≡ e (group_of p))
    → e none ≡ none
    → target (change_platform id f s) id ≡ e (target s id)
unfolding target get_platform
target-map f e id s h k n = elim (Option-cases (get (λ p. p.id) id s.platforms)) [
  | inl q ↦ ap named_by (get-alter-none f id s.platforms q) ∙ sym (ap (λ o. e (named_by o)) q ∙ n)
  | inr (p, q) ↦
      ap named_by (get-alter_same f id s.platforms h q) ∙ k p ∙ sym (ap (λ o. e (named_by o)) q)
]

pub row_for-map :
    (f : LineGroup → LineGroup) (g : String) (rs : List LineGroup)
    → ((r : LineGroup) → (f r).group_id ≡ r.group_id)
    → row_for g (map f rs) ≡ none
    → row_for g rs ≡ none
row_for-map f g [] h e = refl
row_for-map f g (r ∷ rs) h e = elim (Bool-cases (str_eq r.group_id g)) [
  | inl c ↦ absurd (ground (arith, c, h r, e))
  | inr c ↦ ground (arith, c, row_for-map f g rs h (ground (arith, c, h r, e)))
]
