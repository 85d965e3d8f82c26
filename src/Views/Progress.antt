-- ===== src/Views/Progress.antt =====
-- What `progress` shows of a sound case.
use aidflow.Prelude.{
  String, ◌≡◌, refl, inl, inr, Bool, true, ◌&&◌, Option, none, some, List, [], ◌∷◌, map, select,
  arith, if◌then◌else◌,
}
use aidflow.Models.{CaseEvent}
use aidflow.CaseStates.{
  CaseStatus, value, elem, of_value, track_of, public_label, pending_review, reported_emic,
  emic_processing, community_open, community_submitted, closed, dismissed,
}
use aidflow.Cases.Sound.{TrackFits}
use aidflow.Cases.Session.{Session}
use aidflow.Cases.Life.{Life, Life-IsConsistent}
use aidflow.Views.{Step, is_there, index_of, steps, path_for, progress}

-- Up to the current step every step is reached.
abbrev pub is_filled : List Step → Bool
is_filled [] = true
is_filled (s ∷ ss) = s.reached && (if s.current then true else is_filled ss)

-- The steps behind the current one.
abbrev pub behind : List Step → List Step
behind [] = []
behind (s ∷ ss) = if s.current then ss else behind ss

-- A step that is reached only by an event.
abbrev pub ByEvent : List Step → Type 0
ByEvent [] = Unit
ByEvent (s ∷ ss) = (s.reached ≡ is_there s.at) × ByEvent ss

pub record Shows (status : CaseStatus) (shown : List Step) : Type 0 where
  pub current : map (λ s. s.key) (select (λ s. s.current) shown) ≡ value status ∷ []
  pub filled : is_filled shown ≡ true
  pub open_end : ByEvent (behind shown)

abbrev shown : List CaseEvent → CaseStatus → Option String → List Step
shown events s track = steps events (index_of s (path_for s track)) 0 (path_for s track)

emic-Shows :
    (events : List CaseEvent) (s : CaseStatus)
    → elem s (reported_emic ∷ emic_processing ∷ closed ∷ []) ≡ true
    → Shows s (shown events s (some "emic"))
unfolding path_for public_label track_of of_value
emic-Shows events reported_emic h = record {
  current = refl;
  filled = ground arith;
  open_end = ground arith;
}
emic-Shows events emic_processing h = record {
  current = refl;
  filled = ground arith;
  open_end = ground arith;
}
emic-Shows events closed h = record { current = refl; filled = ground arith; open_end = tt }
emic-Shows events _ h = cc

community-Shows :
    (events : List CaseEvent) (s : CaseStatus)
    → elem s (community_open ∷ community_submitted ∷ closed ∷ []) ≡ true
    → Shows s (shown events s (some "community"))
unfolding path_for public_label track_of of_value
community-Shows events community_open h = record {
  current = refl;
  filled = ground arith;
  open_end = ground arith;
}
community-Shows events community_submitted h = record {
  current = refl;
  filled = ground arith;
  open_end = ground arith;
}
community-Shows events closed h = record { current = refl; filled = ground arith; open_end = tt }
community-Shows events _ h = cc

pending-Shows : (events : List CaseEvent) → Shows pending_review (shown events pending_review none)
unfolding path_for public_label track_of of_value
pending-Shows events = record { current = refl; filled = ground arith; open_end = ground arith }

dismissed-Shows :
    (events : List CaseEvent) (t : Option String) → Shows dismissed (shown events dismissed t)
unfolding path_for public_label track_of of_value
dismissed-Shows events t = record { current = refl; filled = ground arith; open_end = tt }

fits-Shows :
    (events : List CaseEvent) (s : CaseStatus) (t : Option String)
    → TrackFits s t
    → Shows s (shown events s t)
fits-Shows events pending_review t h = rw h (pending-Shows events)
fits-Shows events reported_emic t h = rw h (emic-Shows events reported_emic refl)
fits-Shows events emic_processing t h = rw h (emic-Shows events emic_processing refl)
fits-Shows events community_open t h = rw h (community-Shows events community_open refl)
fits-Shows events community_submitted t h = rw h (community-Shows events community_submitted refl)
fits-Shows events closed t (inl h) = rw h (emic-Shows events closed refl)
fits-Shows events closed t (inr h) = rw h (community-Shows events closed refl)
fits-Shows events dismissed t h = dismissed-Shows events t

-- Whatever calls of the service a case has been through, and whatever events are given, the portal
-- shows exactly one current step of the case, that of its status; the step and all before it count as
-- reached, and a later one only if an event reached it.
pub progress_lem :
    {s : Session} (events : List CaseEvent) → Life s → Shows s.case.status (progress s.case events)
unfolding progress
progress_lem {s} events l =
    fits-Shows events s.case.status s.case.track (Life-IsConsistent l).sound.track
