-- ===== src/Cases/History.antt =====
-- The state of a case beside its timeline, along `transition` and `_event` of
-- apps/api/app/services/case_service.py.
use aidflow.Prelude.{String, ◌≡◌, refl, inl, inr, true, false, Option, none, arith, Bool-cases}
use aidflow.CaseStates.{CaseStatus, value, of_value-value, elem, transitions, can_transition}
use aidflow.CaseStates.Flow.{can_transition_iff, can_transition-value, value_inj}
use aidflow.Models.{IncidentCase, Time, Db, enqueue_event}
use aidflow.Cases.Session.{invalid_transition, ok, err, Session, modify}
use aidflow.Cases.Lifecycle.{
  EventArgs, event, event_row, Change, transition, assert_transition, apply_change, move,
  end_cluster, or_now,
}
use aidflow.Cases.Timeline.{at_status, replay, replay-moved, replay-noted}
use aidflow.Cases.Sound.{IsSound, move-IsSound}
use aidflow.Cases.Keeps.{Keeps}

-- The case is sound, and its timeline replays to its status.
pub record IsConsistent (s : Session) : Type 0 where
  pub sound : IsSound s.case
  pub history : replay s.case.id s.db.events ≡ at_status s.case.status

pub assert_transition-value :
    (f t : CaseStatus) → elem t (transitions f) ≡ true → assert_transition f (value t) ≡ ok t
unfolding assert_transition
assert_transition-value f t e = rw (can_transition-value f t, e, of_value-value t)

-- The outcome of a test that was passed to `transition`.
pub data Asserted (f : CaseStatus) (to : String) : Type 0 where
  refused :
      can_transition (value f) to ≡ false
      → assert_transition f to ≡ err (invalid_transition (value f) to)
      → Asserted f to
  granted :
      (t : CaseStatus)
      → to ≡ value t
      → elem t (transitions f) ≡ true
      → assert_transition f to ≡ ok t
      → Asserted f to

pub asserted : (f : CaseStatus) (to : String) → Asserted f to
asserted f to = elim (Bool-cases (can_transition (value f) to)) [
  | inl allowed ↦ grant ((can_transition_iff (value f) to).0 allowed)
  | inr denied ↦ refused denied (unfold assert_transition in rw denied)
]
  where
    grant :
        ((s : CaseStatus) × (t : CaseStatus) × (value f ≡ value s)
          × (to ≡ value t)
          × (elem t (transitions s) ≡ true))
        → Asserted f to
    grant (s, t, p, q, e) =
        let e' : elem t (transitions f) ≡ true = rw (value_inj {s = f} {t = s} p) e in
        granted t q e' (rw q (assert_transition-value f t e'))

pub events-end_cluster :
    (t : CaseStatus) (c : IncidentCase) (db : Db) → (end_cluster t c db).events ≡ db.events
unfolding end_cluster
events-end_cluster t c db = ground arith

pub id-move :
    (t : CaseStatus) (stamp : Time) (actor : Option String) (c : IncidentCase)
    → (move t stamp actor c).id ≡ c.id
unfolding move
id-move t stamp actor c = ground arith

pub status-move :
    (t : CaseStatus) (stamp : Time) (actor : Option String) (c : IncidentCase)
    → (move t stamp actor c).status ≡ t
unfolding move
status-move t stamp actor c = ground arith

apply_change-IsConsistent :
    (now : Time) (t : CaseStatus) (ch : Change) (s : Session)
    → elem t (transitions s.case.status) ≡ true
    → IsConsistent s
    → IsConsistent (apply_change now t ch s).1
unfolding apply_change event enqueue_event
apply_change-IsConsistent now t ch s e h = record {
  sound = move-IsSound t (or_now ch.at now) ch.actor_name s.case e h.sound;
  history = rw status-move (
      replay-moved (end_cluster t (move t (or_now ch.at now) ch.actor_name s.case) s.db).events _
        {f = s.case.status} (rw (events-end_cluster, id-move) h.history) refl refl refl e);
}

-- Whether a status change is made or refused, the case stays consistent.
pub transition-IsConsistent :
    (now : Time) (to : String) (ch : Change) → Keeps IsConsistent (transition now to ch)
unfolding transition
transition-IsConsistent now to ch = record { at = λ s h. go s h (asserted s.case.status to) }
  where
    go :
        (s : Session)
        → IsConsistent s
        → Asserted s.case.status to
        → IsConsistent (transition now to ch s).1
    go s h (refused d p) = rw (p, transition) h
    go s h (granted t q e p) = rw (p, transition) (apply_change-IsConsistent now t ch s e h)

-- An event that changes no status.
pub event-IsConsistent :
    (now : Time) (a : EventArgs) → a.to_status ≡ none → Keeps IsConsistent (event now a)
unfolding event enqueue_event
event-IsConsistent now a n = record {
  at = λ s h. record {
    sound = h.sound;
    history =
        rw (replay-noted s.case.id s.db.events (event_row s.db.next_id now s.case a) n) h.history;
  };
}

-- A change of attributes that the invariant does not mention.
pub record Harmless (f : IncidentCase → IncidentCase) : Type 0 where
  pub id : (c : IncidentCase) → (f c).id ≡ c.id
  pub status : (c : IncidentCase) → (f c).status ≡ c.status
  pub sound : (c : IncidentCase) → IsSound c → IsSound (f c)

pub modify-IsConsistent :
    (f : IncidentCase → IncidentCase) → Harmless f → Keeps IsConsistent (modify f)
modify-IsConsistent f k = record {
  at = λ s h. record { sound = k.sound s.case h.sound; history = rw (k.id, k.status) h.history };
}
