-- ===== src/Line/Keeps.antt =====
-- The links between platforms and groups through the calls of
-- apps/api/app/services/line_service.py from the console.
use mathlib.Core.Path.{subst}
use aidflow.Prelude.{
  ℕ, String, ◌≡◌, refl, sym, ap, ◌∙◌, inl, inr, Bool, true, false, Option, none, some, ◌==◌,
  is_empty, Bool-cases, Option-cases, some_inj, arith, strip, if◌then◌else◌,
}
use aidflow.Models.{Time, text}
use aidflow.Platforms.Rows.{PlatformRow, Site, change_platform, get_platform}
use aidflow.Line.{
  row_for, change_row, group_of, as_text, clear_group, released, row_owner, bind, bind_group,
  is_group_id, target, release_named, unbind, bind_code, set_code, or_fresh, kept_code, code_in_use,
}
use aidflow.Line.Linked.{group_of-clear_group, target-other, target-map, get_key-put_key}
use aidflow.Line.Links.{eq_of, IsLinked, Binds-IsLinked, Frees, Frees-IsLinked, Same, Same-IsLinked}
use aidflow.Line.Bound.{bind-Binds, with_groups, owner-change_row_same, owner-change_row_other}

is_group_id-is_empty : (g : String) → is_group_id g ≡ true → is_empty g ≡ false
unfolding is_group_id
is_group_id-is_empty String.[] h = cc
is_group_id-is_empty (String.◌∷◌ c s) h = refl

-- A group is bound to one platform in both records, whatever each was bound to before.
pub bind_group-IsLinked :
    (iso : Time → String) (now : Time) (id : ℕ) (group_id : String) (actor : Option String)
    (s : Site) {p : PlatformRow} {s' : Site}
    → IsLinked s
    → get_platform s id ≡ some p
    → bind_group iso now id group_id actor s ≡ some s'
    → IsLinked s'
unfolding bind_group
bind_group-IsLinked iso now id group_id actor s {s' = s'} l h e =
    elim (Bool-cases (is_group_id (strip group_id))) [
      | inl k ↦
          let q : some (bind iso now id (strip group_id) actor s) ≡ some s' = rw k at e in
          let r =
            Binds-IsLinked (is_group_id-is_empty (strip group_id) k) l
              (bind-Binds iso now id (strip group_id) actor s h) in
          subst IsLinked (some_inj q) r
      | inr k ↦ absurd (ground (arith, k, e))
    ]

target-unbind_same : (id : ℕ) (s : Site) → target (change_platform id clear_group s) id ≡ none
unfolding clear_group
target-unbind_same id s =
    target-map clear_group (λ _. none) id s (λ _. refl) group_of-clear_group refl

unbind-Frees :
    (id : ℕ) (actor : Option String) (s : Site) {g : String}
    → is_empty g ≡ false
    → target s id ≡ some g
    → Frees id g s (unbind id actor s)
unfolding unbind target get_platform clear_group
unbind-Frees id actor s {g} n t = record {
  target_same = target-unbind_same id (with_groups (release_named (target s id) s.groups) s);
  target_other = λ j e.
      target-other clear_group id j (with_groups (release_named (target s id) s.groups) s)
        (λ _. refl) e;
  owner_same =
      ap (λ o. row_owner (row_for g (release_named o s.groups))) t
      ∙ ap (λ b. row_owner (row_for g (if b then s.groups else change_row g released s.groups))) n
      ∙ owner-change_row_same g released none s.groups (λ _. refl) (λ _. refl) (λ _. refl);
  owner_other = λ h k.
      ap (λ o. row_owner (row_for h (release_named o s.groups))) t
      ∙ ap (λ b. row_owner (row_for h (if b then s.groups else change_row g released s.groups))) n
      ∙ owner-change_row_other g h released s.groups (λ _. refl) k;
}

-- A platform that names no group: `unbind` touches no link.
unbind-Same :
    (id : ℕ) (actor : Option String) (s : Site) → target s id ≡ none → Same s (unbind id actor s)
unfolding unbind target get_platform clear_group
unbind-Same id actor s t = record {
  targets = λ j. elim (Bool-cases (j == id)) [
    | inl e ↦
        ap (target (unbind id actor s)) (eq_of e)
        ∙ target-unbind_same id (with_groups (release_named (target s id) s.groups) s)
        ∙ sym t
        ∙ ap (target s) (sym (eq_of e))
    | inr e ↦
        target-other clear_group id j (with_groups (release_named (target s id) s.groups) s)
          (λ _. refl) e
  ];
  owners = λ h. ap (λ o. row_owner (row_for h (release_named o s.groups))) t;
}

pub unbind-IsLinked :
    (id : ℕ) (actor : Option String) (s : Site) → IsLinked s → IsLinked (unbind id actor s)
unbind-IsLinked id actor s l = elim (Option-cases (target s id)) [
  | inl t ↦ Same-IsLinked l (unbind-Same id actor s t)
  | inr (g, t) ↦ Frees-IsLinked l t (unbind-Frees id actor s (l.real id g t) t)
]

group_of-set_code : (c : String) (p : PlatformRow) → group_of (set_code c p) ≡ group_of p
group_of-set_code c p =
    ap as_text (get_key-put_key "line_group_id" "line_bind_code" (text c) p.configuration)

-- A change of a platform that keeps the group it names touches no link.
pub change_platform-Same :
    (id : ℕ) (f : PlatformRow → PlatformRow) (s : Site)
    → ((p : PlatformRow) → (f p).id ≡ p.id)
    → ((p : PlatformRow) → group_of (f p) ≡ group_of p)
    → Same s (change_platform id f s)
change_platform-Same id f s h k = record {
  targets = λ j. elim (Bool-cases (j == id)) [
    | inl e ↦
        ap (target (change_platform id f s)) (eq_of e)
        ∙ target-map f (λ o. o) id s h k refl
        ∙ ap (target s) (sym (eq_of e))
    | inr e ↦ target-other f id j s h e
  ];
  owners = λ g. refl;
}

or_fresh-IsLinked :
    (o : Option String) (fresh : String) (id : ℕ) (s : Site)
    → IsLinked s
    → IsLinked (or_fresh o fresh id s).0
or_fresh-IsLinked (some c) fresh id s l = l
or_fresh-IsLinked none fresh id s l =
    Same-IsLinked l
      (change_platform-Same id (set_code fresh) s (λ _. refl) (group_of-set_code fresh))

pub bind_code-IsLinked :
    (fresh : String) (id : ℕ) (regenerate : Bool) (s : Site)
    → IsLinked s
    → IsLinked (bind_code fresh id regenerate s).0
unfolding bind_code
bind_code-IsLinked fresh id regenerate s l =
    or_fresh-IsLinked (kept_code (code_in_use (get_platform s id)) regenerate) fresh id s l
