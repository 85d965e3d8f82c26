-- ===== src/CaseStates/Flow.antt =====
-- Where a case can go: paths through `TRANSITIONS` of apps/api/app/domain/case_states.py.
use aidflow.Prelude.{
  String, ◌≡◌, ◌≢◌, refl, ap, inl, inr, ◌↔◌, Bool, true, false, Option, none, some, List, [], ◌∷◌,
  map, select, arith, str_eq, eq_iff, eq_refl, member, Bool-ext, Bool-cases,
}
use aidflow.CaseStates.{
  CaseStatus, all_statuses, allowed, next_values, same, value, of_value, of_value-value, elem,
  transitions, can_transition, next_statuses, emic_statuses, pending_review, reported_emic,
  emic_processing, community_open, community_submitted, closed, dismissed,
}

-- A sequence of declared transitions.
pub data Reaches : CaseStatus → CaseStatus → Type 0 where
  here : {s : CaseStatus} → Reaches s s
  next : {s t u : CaseStatus} → elem t (transitions s) ≡ true → Reaches t u → Reaches s u

abbrev pub is_final : CaseStatus → Bool
is_final s = elem s (closed ∷ dismissed ∷ [])

-- From every status that is not final some sequence of declared transitions closes the case.
pub Reaches-closed : (s : CaseStatus) → is_final s ≡ false → Reaches s closed
unfolding transitions
Reaches-closed pending_review h = next {t = reported_emic} refl (next {t = closed} refl here)
Reaches-closed reported_emic h = next {t = closed} refl here
Reaches-closed emic_processing h = next {t = closed} refl here
Reaches-closed community_open h = next {t = closed} refl here
Reaches-closed community_submitted h = next {t = closed} refl here
Reaches-closed closed h = here
Reaches-closed dismissed h = cc

pub final_step : (s t : CaseStatus) → is_final s ≡ true → elem t (transitions s) ≡ false
unfolding transitions
final_step closed t h = refl
final_step dismissed t h = refl
final_step _ t h = cc

-- A closed or dismissed case never changes its status again.
pub Reaches-final : {s t : CaseStatus} → is_final s ≡ true → Reaches s t → t ≡ s
Reaches-final h here = refl
Reaches-final {s} h (next {t = t} e r) = cc (final_step s t h)

pending_step : (s t : CaseStatus) → elem t (transitions s) ≡ true → t ≢ pending_review
unfolding transitions
pending_step s pending_review h = ground arith
pending_step s _ h = ground arith

-- No sequence of declared transitions returns a case to the review queue.
pub Reaches-pending : {s t : CaseStatus} → Reaches s t → t ≡ pending_review → s ≡ pending_review
Reaches-pending here h = h
Reaches-pending (next {s = s} {t = t} e r) h = absurd (pending_step s t e (Reaches-pending r h))

abbrev on_emic : CaseStatus → Bool
on_emic s = elem s (reported_emic ∷ emic_processing ∷ closed ∷ [])

emic_step : (s t : CaseStatus) → on_emic s ≡ true → elem t (transitions s) ≡ true → on_emic t ≡ true
unfolding transitions
emic_step reported_emic t h e = ground arith
emic_step emic_processing t h e = ground arith
emic_step closed t h e = ground arith
emic_step _ t h e = cc

-- A case that was reported to EMIC stays with EMIC until it is closed: it can neither be
-- dismissed nor be handed to the community.
pub Reaches-emic :
    {s t : CaseStatus}
    → elem s emic_statuses ≡ true
    → Reaches s t
    → elem t (reported_emic ∷ emic_processing ∷ closed ∷ []) ≡ true
Reaches-emic {s} h r = go (emic_starts s h) r
  where
    emic_starts : (s : CaseStatus) → elem s emic_statuses ≡ true → on_emic s ≡ true
    emic_starts s h = ground arith

    go : {s t : CaseStatus} → on_emic s ≡ true → Reaches s t → on_emic t ≡ true
    go h here = h
    go h (next {s = s} {t = t} e r) = go (emic_step s t h e) r

pub value-find : (text : String) (s : CaseStatus) → of_value text ≡ some s → text ≡ value s
unfolding of_value
value-find text s h = ground (
  arith,
  eq_iff "pending_review" text,
  eq_iff "reported_emic" text,
  eq_iff "emic_processing" text,
  eq_iff "community_open" text,
  eq_iff "community_submitted" text,
  eq_iff "closed" text,
  eq_iff "dismissed" text,
)

allowed_inv :
    (a b : Option CaseStatus)
    → allowed a b ≡ true
    → (s : CaseStatus) × (t : CaseStatus) × (a ≡ some s)
      × (b ≡ some t)
      × (elem t (transitions s) ≡ true)
unfolding allowed
allowed_inv (some s) (some t) h = (s, t, refl, refl, h)
allowed_inv (some s) none h = cc
allowed_inv none b h = cc

-- A move is allowed exactly when both texts are the values of statuses and the table lists it.
pub can_transition_iff :
    (frm to : String)
    → (can_transition frm to ≡ true) ↔ (
        (s : CaseStatus) × (t : CaseStatus) × (frm ≡ value s)
        × (to ≡ value t)
        × (elem t (transitions s) ≡ true))
unfolding can_transition
can_transition_iff frm to = (
  λ h.
      let (s, t, p, q, e) = allowed_inv (of_value frm) (of_value to) h in
      (s, t, value-find frm s p, value-find to t q, e),
  λ (s, t, p, q, e). rw (p, q, of_value-value, of_value-value) e,
)

same→eq : (s t : CaseStatus) → same s t ≡ true → s ≡ t
same→eq s t h = ground arith

pub value_inj : {s t : CaseStatus} → value s ≡ value t → s ≡ t
value_inj {s} {t} h = cc (of_value-value s, of_value-value t, ap of_value h)

-- The values tell the statuses apart as the enum does.
pub str_eq-value : (s t : CaseStatus) → str_eq (value s) (value t) ≡ same s t
str_eq-value s t =
    Bool-ext (str_eq (value s) (value t)) (same s t)
      (λ h. rw (value_inj {s = s} {t = t} ((eq_iff (value s) (value t)).0 h)) (ground arith))
      (λ h. rw (same→eq s t h) (eq_refl (value t)))

member-map : (t : CaseStatus) (l : List CaseStatus) → member (value t) (map value l) ≡ elem t l
member-map t [] = refl
member-map t (s ∷ l) = rw (str_eq-value, member-map t l)

elem-next : (f t : CaseStatus) → member (value t) (next_values (some f)) ≡ elem t (transitions f)
unfolding next_values
elem-next f t = rw member-map (elem-select f t)
  where
    elem-select :
        (f t : CaseStatus)
        → elem t (select (λ s. elem s (transitions f)) all_statuses) ≡ elem t (transitions f)
    elem-select pending_review t = ground arith
    elem-select _ t = ground arith

value-ne : (to : String) (s : CaseStatus) → of_value to ≡ none → str_eq to (value s) ≡ false
value-ne to s h = elim (Bool-cases (str_eq to (value s))) [
  | inl e ↦ cc (of_value-value s, ap of_value ((eq_iff to (value s)).0 e))
  | inr e ↦ e
]

member-map-none :
    (to : String) (l : List CaseStatus) → of_value to ≡ none → member to (map value l) ≡ false
member-map-none to [] h = refl
member-map-none to (s ∷ l) h = rw (value-ne to s h, member-map-none to l h)

-- `next_statuses` lists exactly the texts to which `can_transition` allows a move.
pub member-next_statuses : (frm to : String) → member to (next_statuses frm) ≡ can_transition frm to
unfolding can_transition next_statuses
member-next_statuses frm to = go (of_value frm) (of_value to) refl
  where
    go : (a b : Option CaseStatus) → of_value to ≡ b → member to (next_values a) ≡ allowed a b
    go none b q = ground arith
    go (some f) none q = member-map-none to (select (λ s. elem s (transitions f)) all_statuses) q
    go (some f) (some t) q = rw (value-find to t q) (elem-next f t)

pub can_transition-value :
    (f t : CaseStatus) → can_transition (value f) (value t) ≡ elem t (transitions f)
unfolding can_transition allowed
can_transition-value f t = rw (of_value-value f, of_value-value t)
