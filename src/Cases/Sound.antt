-- ===== src/Cases/Sound.antt =====
-- The invariant of a case between two operations of apps/api/app/services/case_service.py: its
-- timestamps and its track agree with its status.
use aidflow.Prelude.{String, ◌≡◌, ◌⊎◌, true, false, not, Option, none, some, [], ◌∷◌, arith}
use aidflow.CaseStates.{
  CaseStatus, pending_review, reported_emic, emic_processing, community_open, community_submitted,
  closed, dismissed, same, elem, transitions, of_value, emic_statuses,
}
use aidflow.Models.{IncidentCase, Time}
use aidflow.Cases.Lifecycle.{move, is_none}

abbrev pub TrackFits : CaseStatus → Option String → Type 0
TrackFits pending_review t = t ≡ none
TrackFits reported_emic t = t ≡ some "emic"
TrackFits emic_processing t = t ≡ some "emic"
TrackFits community_open t = t ≡ some "community"
TrackFits community_submitted t = t ≡ some "community"
TrackFits closed t = (t ≡ some "emic") ⊎ (t ≡ some "community")
TrackFits dismissed t = (t ≡ none) ⊎ (t ≡ some "community")

-- `reviewed_at` is empty exactly in the review queue; `closed_at` and `resolved_at` are there
-- exactly for a closed case; a submitted case knows when; a case with EMIC knows since when, and
-- a case that is pending, with the community or dismissed was never reported to EMIC.
pub record IsSound (c : IncidentCase) : Type 0 where
  pub reviewed : is_none c.reviewed_at ≡ same c.status pending_review
  pub ended : is_none c.closed_at ≡ not (same c.status closed)
  pub resolved : is_none c.resolved_at ≡ not (same c.status closed)
  pub submitted :
      same c.status community_submitted ≡ true → is_none c.community_submitted_at ≡ false
  pub reported : elem c.status emic_statuses ≡ true → is_none c.emic_reported_at ≡ false
  pub unreported :
      elem c.status (pending_review ∷ community_open ∷ community_submitted ∷ dismissed ∷ []) ≡ true
      → is_none c.emic_reported_at ≡ true
  pub track : TrackFits c.status c.track

-- What `transition` writes to a sound case along a declared move, at any moment and for any actor,
-- leaves the case sound.
pub move-IsSound :
    (t : CaseStatus) (stamp : Time) (actor : Option String) (c : IncidentCase)
    → elem t (transitions c.status) ≡ true
    → IsSound c
    → IsSound (move t stamp actor c)
unfolding move transitions of_value
move-IsSound pending_review stamp actor c e h = ground arith
move-IsSound _ stamp actor c e h = ground arith
