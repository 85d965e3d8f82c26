-- ===== src/Cases/Timeline.antt =====
-- The timeline of a case (`CaseEvent` rows) replayed through the transition table of
-- apps/api/app/domain/case_states.py.
use aidflow.Prelude.{
  ℕ, ◌≡◌, refl, true, false, ◌&&◌, Option, none, some, List, [], ◌∷◌, ◌++◌, arith, ◌==◌, ◌<◌, All,
  if◌then◌else◌,
}
use aidflow.CaseStates.{CaseStatus, same, elem, transitions}
use aidflow.Models.{CaseEvent}

-- The replay meets an event of another case, an event that changes no status, the event that
-- creates the case, or a declared move out of the status that was reached; at any other event the
-- history is broken and stays so.
pub data Replay : Type 0 where
  unborn : Replay
  at_status : CaseStatus → Replay
  broken : Replay

abbrev born : Replay → CaseStatus → Replay
born unborn t = at_status t
born _ t = broken

abbrev moved : Replay → CaseStatus → CaseStatus → Replay
moved (at_status s) f t = if same s f && elem t (transitions f) then at_status t else broken
moved _ f t = broken

abbrev read_status : Replay → Option CaseStatus → Option CaseStatus → Replay
read_status r f none = r
read_status r none (some t) = born r t
read_status r (some f) (some t) = moved r f t

unfoldable pub replay_event : ℕ → Replay → CaseEvent → Replay
replay_event case_id r e =
    if e.case_id == case_id then read_status r e.from_status e.to_status else r

unfoldable pub replay_from : ℕ → Replay → List CaseEvent → Replay
replay_from case_id r [] = r
replay_from case_id r (e ∷ es) = replay_from case_id (replay_event case_id r e) es

-- The status that the timeline of a case tells.
unfoldable pub replay : ℕ → List CaseEvent → Replay
unfolding replay_from
replay case_id = replay_from case_id unborn

replay_from-snoc :
    (k : ℕ) (r : Replay) (es : List CaseEvent) (e : CaseEvent)
    → replay_from k r (es ++ e ∷ []) ≡ replay_event k (replay_from k r es) e
unfolding replay_from
replay_from-snoc k r [] e = refl
replay_from-snoc k r (x ∷ es) e = replay_from-snoc k (replay_event k r x) es e

pub replay-snoc :
    (k : ℕ) (es : List CaseEvent) (e : CaseEvent)
    → replay k (es ++ e ∷ []) ≡ replay_event k (replay k es) e
unfolding replay
replay-snoc k es e = replay_from-snoc k unborn es e

same_refl : (s : CaseStatus) → same s s ≡ true
same_refl s = ground arith

-- A declared move out of the status that was reached is the next status.
pub replay-moved :
    (es : List CaseEvent) (e : CaseEvent) {k : ℕ} {f t : CaseStatus}
    → replay k es ≡ at_status f
    → e.case_id ≡ k
    → e.from_status ≡ some f
    → e.to_status ≡ some t
    → elem t (transitions f) ≡ true
    → replay k (es ++ e ∷ []) ≡ at_status t
unfolding replay_event
replay-moved es e {k} {f} {t} h i j l m = rw replay-snoc (ground (arith, same_refl f))

-- An event that changes no status leaves the history as it is.
pub replay-noted :
    (k : ℕ) (es : List CaseEvent) (e : CaseEvent)
    → e.to_status ≡ none
    → replay k (es ++ e ∷ []) ≡ replay k es
unfolding replay_event
replay-noted k es e h = rw replay-snoc (ground arith)

-- The event that creates a case starts its history.
pub replay-born :
    (es : List CaseEvent) (e : CaseEvent) {k : ℕ} {t : CaseStatus}
    → replay k es ≡ unborn
    → e.case_id ≡ k
    → e.from_status ≡ none
    → e.to_status ≡ some t
    → replay k (es ++ e ∷ []) ≡ at_status t
unfolding replay_event
replay-born es e h i j l = rw replay-snoc (ground arith)

replay_from-unknown :
    (k : ℕ) (es : List CaseEvent) → All (λ e. e.case_id < k) es → replay_from k unborn es ≡ unborn
unfolding replay_from replay_event
replay_from-unknown k [] h = refl
replay_from-unknown k (e ∷ es) (l, h) = rw (not_of e.case_id k l) (replay_from-unknown k es h)
  where
    not_of : (a b : ℕ) → a < b → (a == b) ≡ false
    not_of a b l = ground arith

-- An identifier that is still to be given out has no history.
pub replay-unknown :
    (k : ℕ) (es : List CaseEvent) → All (λ e. e.case_id < k) es → replay k es ≡ unborn
unfolding replay
replay-unknown k es h = replay_from-unknown k es h
