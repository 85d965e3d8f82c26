-- ===== src/Line/Bound.antt =====
-- What `bind` of apps/api/app/services/line_service.py does to the links.
use aidflow.Prelude.{
  ℕ, String, ◌≡◌, ◌≢◌, refl, sym, ap, ◌∙◌, inl, inr, false, Option, none, some, List, str_eq,
  eq_iff, eq_refl, ◌==◌, Bool-cases, arith, if◌then◌else◌,
}
use aidflow.Models.{Time}
use aidflow.Models.Table.{get}
use aidflow.Platforms.Rows.{PlatformRow, LineGroup, joined, Site, change_platform, get_platform}
use aidflow.Line.{
  row_for, in_row, change_row, group_of, is_group, clear_group, set_group, release_other,
  release_others, is_other, with_row, row_owner, owner, clear_if, clear_previous, bound_to, bind,
  target, named_by,
}
use aidflow.Line.Linked.{
  group_of-clear_group, group_of-set_group, owner-map, target-same, target-other, target-map,
  owner-with_row, or_new-platforms, row_for-with_row, row_for-map, get-alter_other,
}
use aidflow.Line.Links.{is_platform, without_group, without_platform, eq_of, Binds}

pub group_of-clear_if :
    (g : String) (p : PlatformRow) → group_of (clear_if g p) ≡ without_group g (group_of p)
group_of-clear_if g p = elim (Bool-cases (is_group (group_of p) g)) [
  | inl e ↦ rw e (group_of-clear_group p)
  | inr e ↦ rw e refl
]

pub clear_if-id : (g : String) (p : PlatformRow) → (clear_if g p).id ≡ p.id
unfolding clear_group
clear_if-id g p = elim (Bool-cases (is_group (group_of p) g)) [
  | inl e ↦ rw e refl
  | inr e ↦ rw e refl
]

target-clear_previous :
    (o : Option ℕ) (id : ℕ) (g : String) (s : Site) (j : ℕ)
    → (j == id) ≡ false
    → target (clear_previous o id g s) j
      ≡ (if is_platform o j then without_group g (target s j) else target s j)
target-clear_previous none id g s j h = refl
target-clear_previous (some i) id g s j h = elim (Bool-cases (i == id)) [
  | inl e ↦ ground (arith, e, h)
  | inr e ↦ elim (Bool-cases (i == j)) [
    | inl k ↦
        ap (λ b. target (if b then s else change_platform i (clear_if g) s) j) e
        ∙ ap (λ x. target (change_platform i (clear_if g) s) x) (sym (eq_of k))
        ∙ target-map (clear_if g) (without_group g) i s (clear_if-id g) (group_of-clear_if g) refl
        ∙ ap (λ x. without_group g (target s x)) (eq_of k)
        ∙ ap (λ b. if b then without_group g (target s j) else target s j) (sym k)
    | inr k ↦
        ap (λ b. target (if b then s else change_platform i (clear_if g) s) j) e
        ∙ target-other (clear_if g) i j s (clear_if-id g) (ground (arith, k))
        ∙ ap (λ b. if b then without_group g (target s j) else target s j) (sym k)
  ]
]

release_other-group :
    (id : ℕ) (g : String) (r : LineGroup) → (release_other id g r).group_id ≡ r.group_id
release_other-group id g r = elim (Bool-cases (is_other id g r)) [
  | inl e ↦ rw e refl
  | inr e ↦ rw e refl
]

release_other-platform :
    (id : ℕ) (g : String) (r : LineGroup)
    → (release_other id g r).platform_id
      ≡ (if str_eq r.group_id g then r.platform_id else without_platform id r.platform_id)
release_other-platform id g r = go r.platform_id refl
  where
    go :
        (o : Option ℕ)
        → r.platform_id ≡ o
        → (release_other id g r).platform_id
          ≡ (if str_eq r.group_id g then r.platform_id else without_platform id r.platform_id)
    go none e = ground (arith, e)
    go (some p) e = ground (arith, e)

-- The rows after the other groups of the platform were released.
owner-release_others :
    (id : ℕ) (g h : String) (rs : List LineGroup)
    → row_owner (row_for h (release_others id g rs)) ≡ (
        if str_eq h g
        then row_owner (row_for h rs)
        else without_platform id (row_owner (row_for h rs)))
owner-release_others id g h rs = elim (Bool-cases (str_eq h g)) [
  | inl e ↦ rw e (
      owner-map (release_other id g) (λ o. o) h rs (release_other-group id g)
        (λ r k.
          release_other-platform id g r
          ∙ ground (arith, e, ap (λ x. str_eq x g) ((eq_iff r.group_id h).0 k)))
        (λ _. refl))
  | inr e ↦ rw e (
      owner-map (release_other id g) (without_platform id) h rs (release_other-group id g)
        (λ r k.
          release_other-platform id g r
          ∙ ground (arith, e, ap (λ x. str_eq x g) ((eq_iff r.group_id h).0 k)))
        (λ _. refl))
]

clear_previous-groups :
    (o : Option ℕ) (id : ℕ) (g : String) (s : Site) → (clear_previous o id g s).groups ≡ s.groups
clear_previous-groups none id g s = refl
clear_previous-groups (some j) id g s = elim (Bool-cases (j == id)) [
  | inl e ↦ ap (λ b. (if b then s else change_platform j (clear_if g) s).groups) e
  | inr e ↦ ap (λ b. (if b then s else change_platform j (clear_if g) s).groups) e
]

get-clear_previous :
    (o : Option ℕ) (id : ℕ) (g : String) (s : Site)
    → get_platform (clear_previous o id g s) id ≡ get_platform s id
unfolding get_platform
get-clear_previous none id g s = refl
get-clear_previous (some j) id g s = elim (Bool-cases (j == id)) [
  | inl e ↦ ap (λ b. get_platform (if b then s else change_platform j (clear_if g) s) id) e
  | inr e ↦
      ap (λ b. get_platform (if b then s else change_platform j (clear_if g) s) id) e
      ∙ get-alter_other (clear_if g) j id s.platforms (clear_if-id g) (ground (arith, e))
]

-- A site with other rows for its groups, and its platforms as they are.
abbrev pub with_groups : List LineGroup → Site → Site
with_groups rs s = record s { groups = rs }

pub target-platforms : (j : ℕ) (s s' : Site) → s.platforms ≡ s'.platforms → target s j ≡ target s' j
unfolding target get_platform
target-platforms j s s' e = ap (λ ps. named_by (get (λ p. p.id) j ps)) e

in_row-group :
    (g : String) (f : LineGroup → LineGroup) (r : LineGroup)
    → ((r : LineGroup) → (f r).group_id ≡ r.group_id)
    → (in_row g f r).group_id ≡ r.group_id
in_row-group g f r h = elim (Bool-cases (str_eq r.group_id g)) [
  | inl e ↦ rw e (h r)
  | inr e ↦ rw e refl
]

-- A change of the row of one group, for that group and for the others.
pub owner-change_row_same :
    (g : String) (f : LineGroup → LineGroup) (o : Option ℕ) (rs : List LineGroup)
    → ((r : LineGroup) → (f r).group_id ≡ r.group_id)
    → ((r : LineGroup) → (f r).platform_id ≡ o)
    → (row_for g rs ≡ none → o ≡ none)
    → row_owner (row_for g (change_row g f rs)) ≡ o
owner-change_row_same g f o rs h k n =
    owner-map (in_row g f) (λ _. o) g rs (λ r. in_row-group g f r h) (λ r e. rw e (k r)) n

pub owner-change_row_other :
    (g h : String) (f : LineGroup → LineGroup) (rs : List LineGroup)
    → ((r : LineGroup) → (f r).group_id ≡ r.group_id)
    → str_eq h g ≡ false
    → row_owner (row_for h (change_row g f rs)) ≡ row_owner (row_for h rs)
owner-change_row_other g h f rs k e =
    owner-map (in_row g f) (λ o. o) h rs (λ r. in_row-group g f r k)
      (λ r q. rw (ap (λ x. str_eq x g) ((eq_iff r.group_id h).0 q) ∙ e) refl) (λ _. refl)

module _ (iso : Time → String) (now : Time) (id : ℕ) (g : String) (actor : Option String)
    (s : Site) where
  -- The stages of `bind`.
  abbrev known : Site
  known = with_row g joined s

  abbrev others : Site
  others = with_groups (release_others id g known.groups) known

  abbrev cleared : Site
  cleared = clear_previous (owner others g) id g others

  abbrev tied : Site
  tied = with_groups (change_row g (bound_to now id) cleared.groups) cleared

  owner-others :
      (h : String)
      → owner others h ≡ (if str_eq h g then owner s h else without_platform id (owner s h))
  owner-others h =
      owner-release_others id g h known.groups
      ∙ ap (λ o. if str_eq h g then o else without_platform id o) (owner-with_row h g joined s)

  owner-others_same : owner others g ≡ owner s g
  owner-others_same =
      owner-others g
      ∙ ap (λ b. if b then owner s g else without_platform id (owner s g)) (eq_refl g)

  get-tied : {p : PlatformRow} → get_platform s id ≡ some p → get_platform tied id ≡ some p
  unfolding get_platform
  get-tied h =
      get-clear_previous (owner others g) id g others
      ∙ ap (λ ps. get (λ p. p.id) id ps) (or_new-platforms (row_for g s.groups) g joined s)
      ∙ h

  has_row : row_for g cleared.groups ≢ none
  has_row e =
      let (r, k) = row_for-with_row g joined s in
      let n =
        row_for-map (release_other id g) g known.groups (release_other-group id g)
          (ap (row_for g) (sym (clear_previous-groups (owner others g) id g others)) ∙ e) in
      cc (k, n)

  pub bind-Binds :
      {p : PlatformRow} → get_platform s id ≡ some p → Binds id g s (bind iso now id g actor s)
  unfolding bind target get_platform set_group
  bind-Binds {p} h = record {
    target_same =
        target-same (set_group g (iso now)) id tied (λ _. refl) (get-tied h)
        ∙ group_of-set_group g (iso now) p;
    target_other = λ j e.
        target-other (set_group g (iso now)) id j tied (λ _. refl) e
        ∙ target-clear_previous (owner others g) id g others j e
        ∙ ap (λ o. if is_platform o j then without_group g (target others j) else target others j)
            owner-others_same
        ∙ ap (λ t. if is_platform (owner s g) j then without_group g t else t)
            (target-platforms j others s (or_new-platforms (row_for g s.groups) g joined s));
    owner_same =
        owner-change_row_same g (bound_to now id) (some id) cleared.groups (λ _. refl) (λ _. refl)
          (λ e. absurd (has_row e));
    owner_other = λ h' k.
        owner-change_row_other g h' (bound_to now id) cleared.groups (λ _. refl) k
        ∙ ap (λ rs. row_owner (row_for h' rs)) (clear_previous-groups (owner others g) id g others)
        ∙ owner-others h'
        ∙ ap (λ b. if b then owner s h' else without_platform id (owner s h')) k;
  }
