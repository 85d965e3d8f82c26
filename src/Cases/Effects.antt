-- ===== src/Cases/Effects.antt =====
-- What the operations of case_service do to a case, on each branch.
use mathlib.Core.Path.{subst}
use aidflow.Prelude.{
  ℕ, ◌+◌, String, ◌≡◌, refl, ap, ◌⊎◌, inl, inr, Bool, true, false, not, Option, some, List, [], ◌∷◌,
  ◌++◌, arith, length, length-append, if◌then◌else◌, member,
}
use aidflow.CaseStates.{
  CaseStatus, value, same, elem, transitions, can_transition, pending_review, reported_emic,
  community_open, community_submitted, dismissed, emic_statuses,
}
use aidflow.CaseStates.Flow.{is_final, final_step}
use aidflow.Models.{Db, IncidentCase, CaseEvent, EventOutbox, Time, enqueue_event}
use aidflow.Privacy.{Patterns}
use aidflow.Cases.Session.{
  CaseError, invalid_transition, Result, ok, err, Session, Action, pure, continue, ◌>>◌,
}
use aidflow.Cases.Lifecycle.{
  event, event_row, change_args, or_now, Change, transition, apply_change, assert_transition, move,
  end_cluster,
}
use aidflow.Cases.Actions.{
  Emic, report_to_emic, submit_case, review, decide, decided, community_submit, community_confirm,
}
use aidflow.Cases.EmicUpdate.{EmicEntry, update_emic}
use aidflow.Cases.History.{
  Asserted, asserted, refused, granted, assert_transition-value, status-move, id-move,
  events-end_cluster,
}

abbrev pub is_ok : {A : Type 0} → Result A → Bool
is_ok (ok _) = true
is_ok (err _) = false

-- A declared move is carried out.
pub transition-value :
    (now : Time) (t : CaseStatus) (ch : Change) (s : Session)
    → elem t (transitions s.case.status) ≡ true
    → transition now (value t) ch s ≡ apply_change now t ch s
unfolding transition
transition-value now t ch s e = rw (assert_transition-value s.case.status t e, transition)

-- Any text that `can_transition` refuses leaves the case and the database as they were.
pub transition_refused :
    (now : Time) (to : String) (ch : Change) (s : Session)
    → can_transition (value s.case.status) to ≡ false
    → transition now to ch s ≡ (err (invalid_transition (value s.case.status) to), s)
unfolding transition assert_transition
transition_refused now to ch s h = rw (h, transition, assert_transition)

-- What a status change leaves behind.
pub record Changed (t : CaseStatus) (ch : Change) (s : Session) (out : Result CaseEvent × Session)
    : Type 0 where
  pub row : CaseEvent
  pub returned : out.0 ≡ ok row
  pub status : out.1.case.status ≡ t
  pub logged : out.1.db.events ≡ s.db.events ++ row ∷ []
  pub from_old : row.from_status ≡ some s.case.status
  pub to_new : row.to_status ≡ some t
  pub of_case : row.case_id ≡ s.case.id
  pub visible : row.is_public ≡ ch.is_public
  pub audited : length out.1.db.outbox ≡ length s.db.outbox + 1
  pub reports_kept : out.1.db.reports ≡ s.db.reports

kept_by_end :
    (t : CaseStatus) (c : IncidentCase) (db : Db)
    → ((end_cluster t c db).outbox ≡ db.outbox) × ((end_cluster t c db).reports ≡ db.reports)
unfolding end_cluster
kept_by_end t c db = ground arith

changed :
    (now : Time) (t : CaseStatus) (ch : Change) (s : Session)
    → Changed t ch s (apply_change now t ch s)
unfolding apply_change event enqueue_event
changed now t ch s =
    let c : IncidentCase = move t (or_now ch.at now) ch.actor_name s.case in
    let ended : Db = end_cluster t c s.db in
    record {
      row = event_row ended.next_id now c (change_args s.case.status t ch);
      returned = refl;
      status = status-move t (or_now ch.at now) ch.actor_name s.case;
      logged = rw events-end_cluster;
      from_old = refl;
      to_new = refl;
      of_case = id-move t (or_now ch.at now) ch.actor_name s.case;
      visible = refl;
      audited =
          rw length-append (ap (λ (l : List EventOutbox). length l + 1) (kept_by_end t c s.db).0);
      reports_kept = (kept_by_end t c s.db).1;
    }

-- A declared move succeeds: it sets the status and adds exactly one row to the timeline and one to
-- the outbox. The row is the answer, it names the old and the new status, and it is as public as
-- the caller asked. Any other text is refused, and then nothing changes at all.
pub transition_lem :
    (now : Time) (to : String) (ch : Change) (s : Session)
    → ((t : CaseStatus) × (to ≡ value t)
        × (elem t (transitions s.case.status) ≡ true)
        × Changed t ch s (transition now to ch s))
      ⊎ ((can_transition (value s.case.status) to ≡ false)
          × (transition now to ch s ≡ (err (invalid_transition (value s.case.status) to), s)))
transition_lem now to ch s = go (asserted s.case.status to)
  where
    go :
        Asserted s.case.status to
        → ((t : CaseStatus) × (to ≡ value t)
            × (elem t (transitions s.case.status) ≡ true)
            × Changed t ch s (transition now to ch s))
          ⊎ ((can_transition (value s.case.status) to ≡ false)
              × (transition now to ch s ≡ (err (invalid_transition (value s.case.status) to), s)))
    go (refused d p) = inr (d, transition_refused now to ch s d)
    go (granted t q e p) = inl (t, q, e, rw (q, transition-value now t ch s e) (changed now t ch s))

final_refuses :
    (f : CaseStatus) (to : String) → is_final f ≡ true → can_transition (value f) to ≡ false
final_refuses f to h = go (asserted f to)
  where
    go : Asserted f to → can_transition (value f) to ≡ false
    go (refused d p) = d
    go (granted t q e p) = cc (final_step f t h)

-- The operation raised, and left the case and the database as they were.
abbrev pub Refused : {A : Type 0} → Result A × Session → Session → Type 0
Refused out s = (is_ok out.0 ≡ false) × (out.1 ≡ s)

Refused-by_guard :
    {A : Type 0} (b : Bool) (e : CaseError) (out : Result A × Session) (s : Session)
    → b ≡ true
    → Refused (if b then (err e, s) else out) s
Refused-by_guard true e out s h = (refl, refl)
Refused-by_guard false e out s h = cc

final_ne : (f g : CaseStatus) → is_final f ≡ true → is_final g ≡ false → not (same f g) ≡ true
final_ne f g h k = ground arith

not_emic : (f : CaseStatus) → is_final f ≡ true → not (elem f emic_statuses) ≡ true
not_emic f h = ground arith

-- A closed or dismissed case accepts no operation on its status: every one of them raises, and the
-- case and the database stay as they were.
pub final_case_lem :
    (s : Session)
    → is_final s.case.status ≡ true
    → (emic : Emic) (patterns : Patterns) (now : Time) (text : String)
      (actor remark : Option String) (at : Option Time) (e : EmicEntry) (n : ℕ) (ch : Change)
      (approve : Bool)
    → Refused (transition now text ch s) s
      × Refused (review emic now text actor remark at s) s
      × Refused (update_emic now e actor remark (some text) at s) s
      × Refused (community_submit patterns now remark actor n at s) s
      × Refused (community_confirm now approve actor remark at s) s
unfolding review update_emic community_submit community_confirm
final_case_lem s h emic patterns now text actor remark at e n ch approve = (
  rw (transition_refused now text ch s (final_refuses s.case.status text h)) (refl, refl),
  Refused-by_guard _ _ _ s (final_ne s.case.status pending_review h refl),
  Refused-by_guard _ _ _ s (not_emic s.case.status h),
  Refused-by_guard _ _ _ s (final_ne s.case.status community_open h refl),
  Refused-by_guard _ _ _ s (final_ne s.case.status community_submitted h refl),
)

abbrev pub Decided : {A : Type 0} → CaseStatus → Result A × Session → Type 0
Decided t out = (is_ok out.0 ≡ true) × (out.1.case.status ≡ t)

Decided-change :
    (now : Time) (t : CaseStatus) (ch : Change) (s : Session)
    → elem t (transitions s.case.status) ≡ true
    → Decided t (transition now (value t) ch s)
Decided-change now t ch s e =
    rw (transition-value now t ch s e)
      (rw ((changed now t ch s).returned) refl, (changed now t ch s).status)

submit_case_lem :
    (emic : Emic) (now : Time) (s : Session) → Decided s.case.status (submit_case emic now s)
unfolding submit_case event
submit_case_lem emic now s = ground arith

pending_moves :
    (f : CaseStatus)
    → f ≡ pending_review
    → (elem reported_emic (transitions f) ≡ true)
      × (elem community_open (transitions f) ≡ true)
      × (elem dismissed (transitions f) ≡ true)
unfolding transitions
pending_moves f p = ground arith

Decided-bind :
    {A B : Type 0} (t : CaseStatus) (out : Result A × Session) (f : A → Action B)
    → Decided t out
    → ((a : A) (s : Session) → s.case.status ≡ t → Decided t (f a s))
    → Decided t (continue out.0 f out.1)
Decided-bind t (ok a, s) f h k = k a s h.1
Decided-bind t (err e, s) f h k = cc h.0

Decided-emic :
    (emic : Emic) (now : Time) (actor remark : Option String) (at : Option Time) (s : Session)
    → elem reported_emic (transitions s.case.status) ≡ true
    → Decided reported_emic (report_to_emic emic now actor remark at s)
unfolding report_to_emic
Decided-emic emic now actor remark at s e =
    Decided-bind reported_emic (transition now (value reported_emic) _ s) _
      (Decided-change now reported_emic _ s e)
      (λ a s' p.
        subst
          (λ t. Decided t (
            submit_case emic now
              (record s' { case = record s'.case { emic_channel = some "manual" } })))
          p
          (submit_case_lem emic now
            (record s' { case = record s'.case { emic_channel = some "manual" } })))

Decided-move :
    (now : Time) (t : CaseStatus) (ch : Change) (s : Session) (word : String)
    → elem t (transitions s.case.status) ≡ true
    → Decided t ((do transition now (value t) ch; pure (decided word)) s)
Decided-move now t ch s word e =
    Decided-bind t (transition now (value t) ch s) (λ _. pure (decided word))
      (Decided-change now t ch s e) (λ a s' p. (refl, p))

review-decide :
    (emic : Emic) (now : Time) (decision : String) (actor remark : Option String) (at : Option Time)
    (s : Session)
    → s.case.status ≡ pending_review
    → review emic now decision actor remark at s ≡ decide emic now decision actor remark at s
unfolding review
review-decide emic now decision actor remark at s p = rw p

-- The review of a pending case: the three decisions move it to EMIC, to the community, or out, and
-- succeed whatever the EMIC endpoint replies; any other text is refused and changes nothing.
pub review_lem :
    (emic : Emic) (now : Time) (decision : String) (actor remark : Option String) (at : Option Time)
    (s : Session)
    → s.case.status ≡ pending_review
    → (decision ≡ "emic" → Decided reported_emic (review emic now decision actor remark at s))
      × (decision ≡ "community"
          → Decided community_open (review emic now decision actor remark at s))
      × (decision ≡ "dismiss" → Decided dismissed (review emic now decision actor remark at s))
      × (member decision ("emic" ∷ "community" ∷ "dismiss" ∷ []) ≡ false
          → Refused (review emic now decision actor remark at s) s)
unfolding decide
review_lem emic now decision actor remark at s p =
    let (to_emic, to_community, to_dismissed) = pending_moves s.case.status p in
    rw (review-decide emic now decision actor remark at s p) (
      λ q. rw q (Decided-emic emic now actor remark at s to_emic),
      λ q. rw q (Decided-move now community_open _ s "community" to_community),
      λ q. rw q (Decided-move now dismissed _ s "dismiss" to_dismissed),
      λ q. ground arith,
    )
