-- ===== src/Line/Webhook/Safe.antt =====
-- The links between platforms and groups through `handle_webhook`.
use mathlib.Core.Path.{subst}
use aidflow.Prelude.{
  ℕ, String, ◌≡◌, refl, sym, ap, ◌∙◌, inl, inr, Bool, true, false, Option, none, some, List, [],
  ◌∷◌, first, str_eq, eq_iff, eq_refl, ◌==◌, is_empty, Bool-cases, Option-cases, some_inj, arith,
  if◌then◌else◌,
}
use aidflow.Models.{Time}
use aidflow.Models.Table.{get}
use aidflow.Platforms.Rows.{
  PlatformRow, LineGroup, GroupStatus, joined, left, bound, Site, get_platform,
}
use aidflow.Line.{row_for, in_row, change_row, row_owner, owner, clear_if, bind_group, target}
use aidflow.Line.Linked.{target-other, target-map, owner-map, owner-with_row, or_new-platforms}
use aidflow.Line.Links.{without_group, unless, IsLinked, Frees, Frees-IsLinked, Same, Same-IsLinked}
use aidflow.Line.Bound.{
  with_groups, owner-change_row_same, owner-change_row_other, group_of-clear_if, clear_if-id,
  target-platforms,
}
use aidflow.Line.Keeps.{bind_group-IsLinked}
use aidflow.Line.Webhook.{
  LineEvent, EventType, join, leave, another, message, code_in, rejoined, gone, join_group, forget,
  leave_group, bind_by_code, handle_code, after_bind, group_or_room, handle_group, handle_event,
  handle_webhook, Handled,
}

rejoined-same :
    (r : LineGroup)
    → ((rejoined r).group_id ≡ r.group_id) × ((rejoined r).platform_id ≡ r.platform_id)
rejoined-same r = go r.status refl
  where
    go :
        (s : GroupStatus)
        → r.status ≡ s
        → ((rejoined r).group_id ≡ r.group_id) × ((rejoined r).platform_id ≡ r.platform_id)
    go joined e = rw e (refl, refl)
    go bound e = rw e (refl, refl)
    go left e = rw e (refl, refl)

in_row-rejoined :
    (g : String) (r : LineGroup)
    → ((in_row g rejoined r).group_id ≡ r.group_id)
      × ((in_row g rejoined r).platform_id ≡ r.platform_id)
in_row-rejoined g r = elim (Bool-cases (str_eq r.group_id g)) [
  | inl e ↦ rw e (rejoined-same r)
  | inr e ↦ rw e (refl, refl)
]

join_group-Same : (g : String) (s : Site) → Same s (join_group g s)
unfolding target get_platform
join_group-Same g s = record {
  targets = λ j. target-platforms j (join_group g s) s (
      or_new-platforms (row_for g (change_row g rejoined s.groups)) g joined
        (with_groups (change_row g rejoined s.groups) s));
  owners = λ h.
      owner-with_row h g joined (with_groups (change_row g rejoined s.groups) s)
      ∙ owner-map (in_row g rejoined) (λ o. o) h s.groups (λ r. (in_row-rejoined g r).0)
          (λ r e. (in_row-rejoined g r).1) (λ _. refl);
}

-- `leave_group`, for the owner that it finds.
abbrev leave_from : Option ℕ → String → Site → Site
leave_from o g s = with_groups (change_row g gone (forget o g s).groups) (forget o g s)

leave_none-Same : (g : String) (s : Site) → owner s g ≡ none → Same s (leave_from none g s)
unfolding target get_platform
leave_none-Same g s e = record {
  targets = λ j. refl;
  owners = λ h. elim (Bool-cases (str_eq h g)) [
    | inl k ↦
        ap (λ x. row_owner (row_for x (change_row g gone s.groups))) ((eq_iff h g).0 k)
        ∙ owner-change_row_same g gone none s.groups (λ _. refl) (λ _. refl) (λ _. refl)
        ∙ sym e
        ∙ ap (owner s) (sym ((eq_iff h g).0 k))
    | inr k ↦ owner-change_row_other g h gone s.groups (λ _. refl) k
  ];
}

leave_some-Frees :
    (j : ℕ) (g : String) (s : Site) → target s j ≡ some g → Frees j g s (leave_from (some j) g s)
unfolding target get_platform
leave_some-Frees j g s t = record {
  target_same =
      target-map (clear_if g) (without_group g) j s (clear_if-id g) (group_of-clear_if g) refl
      ∙ ap (without_group g) t
      ∙ ap (λ b. unless b (some g)) (eq_refl g);
  target_other = λ i e. target-other (clear_if g) j i s (clear_if-id g) e;
  owner_same = owner-change_row_same g gone none s.groups (λ _. refl) (λ _. refl) (λ _. refl);
  owner_other = λ h k. owner-change_row_other g h gone s.groups (λ _. refl) k;
}

leave_group-IsLinked : (g : String) (s : Site) → IsLinked s → IsLinked (leave_group g s)
leave_group-IsLinked g s l = elim (Option-cases (owner s g)) [
  | inl e ↦
      subst (λ o. IsLinked (leave_from o g s)) (sym e) (Same-IsLinked l (leave_none-Same g s e))
  | inr (j, e) ↦
      subst (λ o. IsLinked (leave_from o g s)) (sym e)
        (Frees-IsLinked l (l.held j g e) (leave_some-Frees j g s (l.held j g e)))
]

-- A platform that is found is one of the table.
get_platform-first :
    (q : PlatformRow → Bool) (ps : List PlatformRow) {p : PlatformRow}
    → first q ps ≡ some p
    → (p' : PlatformRow) × (get (λ x. x.id) p.id ps ≡ some p')
unfolding get
get_platform-first q [] h = cc
get_platform-first q (x ∷ ps) {p} h = elim (Bool-cases (q x)) [
  | inl e ↦
      let h' : some x ≡ some p = rw e at h in
      (
        x,
        ap (λ y. if x.id == y.id then some x else get (λ x. x.id) y.id ps) (sym (some_inj h'))
            ∙ ground arith,
      )
  | inr e ↦
      let h' : first q ps ≡ some p = rw e at h in
      let (p', k) = get_platform-first q ps h' in
      elim (Bool-cases (x.id == p.id)) [
        | inl m ↦ (x, ap (λ b. if b then some x else get (λ x. x.id) p.id ps) m)
        | inr m ↦ (p', ap (λ b. if b then some x else get (λ x. x.id) p.id ps) m ∙ k)
      ]
]

either-IsLinked :
    (b : Bool) (x y : Handled)
    → IsLinked x.site
    → IsLinked y.site
    → IsLinked (if b then x else y).site
either-IsLinked true x y l m = l
either-IsLinked false x y l m = m

module _ (iso : Time → String) (upper : String → String) (now : Time) (configured : Bool) where
  bind_by_code-IsLinked :
      (ev : LineEvent) (g : String) (o : Option PlatformRow) (s : Site)
      → ((p : PlatformRow) → o ≡ some p → (p' : PlatformRow) × (get_platform s p.id ≡ some p'))
      → IsLinked s
      → IsLinked (bind_by_code iso upper now configured ev g o s).site
  unfolding bind_by_code
  bind_by_code-IsLinked ev g none s h l = l
  bind_by_code-IsLinked ev g (some p) s h l =
      elim (Option-cases (bind_group iso now p.id g (some "LINE 群組綁定") s)) [
        | inl e ↦
            subst (λ o. IsLinked (after_bind iso upper now configured ev p s o).site) (sym e) l
        | inr (s', e) ↦
            let (p', k) = h p refl in
            subst (λ o. IsLinked (after_bind iso upper now configured ev p s o).site) (sym e)
              (bind_group-IsLinked iso now p.id g (some "LINE 群組綁定") s l k e)
      ]

  handle_code-IsLinked :
      (ev : LineEvent) (g : String) (o : Option String) (s : Site)
      → IsLinked s
      → IsLinked (handle_code iso upper now configured ev g o s).site
  unfolding handle_code get_platform
  handle_code-IsLinked ev g none s l = l
  handle_code-IsLinked ev g (some c) s l =
      bind_by_code-IsLinked ev g _ s (λ p k. get_platform-first _ s.platforms k) l

  handle_group-IsLinked :
      (ev : LineEvent) (g : String) (t : EventType) (s : Site)
      → IsLinked s
      → IsLinked (handle_group iso upper now configured ev g t s).site
  unfolding handle_group
  handle_group-IsLinked ev g join s l = Same-IsLinked l (join_group-Same g s)
  handle_group-IsLinked ev g leave s l = leave_group-IsLinked g s l
  handle_group-IsLinked ev g another s l = l
  handle_group-IsLinked ev g (message t) s l = handle_code-IsLinked ev g (code_in t) s l

  handle_event-IsLinked :
      (ev : LineEvent) (s : Site)
      → IsLinked s
      → IsLinked (handle_event iso upper now configured ev s).site
  unfolding handle_event
  handle_event-IsLinked ev s l =
      either-IsLinked (is_empty (group_or_room ev)) _ _ l
        (handle_group-IsLinked ev (group_or_room ev) ev.type s l)

  -- Whatever events a request of LINE has, the links stay one to one.
  pub handle_webhook-IsLinked :
      (evs : List LineEvent) (s : Site)
      → IsLinked s
      → IsLinked (handle_webhook iso upper now configured evs s).site
  unfolding handle_webhook handle_event
  handle_webhook-IsLinked [] s l = l
  handle_webhook-IsLinked (ev ∷ evs) s l =
      handle_webhook-IsLinked evs (handle_event iso upper now configured ev s).site
        (handle_event-IsLinked ev s l)
