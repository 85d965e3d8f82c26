-- ===== src/CaseStates/Tables.antt =====
-- The tables of apps/api/app/domain/case_states.py beside the transitions: progress paths, phases and
-- tracks.
use mathlib.Core.Path.{subst}
use aidflow.Prelude.{
  some_inj, String, ◌≡◌, refl, Bool, true, false, ◌&&◌, Option, none, some, List, [], ◌∷◌, str_eq,
  member,
}
use aidflow.CaseStates.{
  CaseStatus, value, of_value, elem, transitions, phases, phase_of, phase_or_pending, track_of,
  progress_path, pending_review, reported_emic, emic_processing, community_open,
  community_submitted, closed, dismissed,
}

-- Each status of the list can move to the next one.
abbrev pub is_chain : List CaseStatus → Bool
is_chain [] = true
is_chain (s ∷ []) = true
is_chain (s ∷ t ∷ rest) = elem t (transitions s) && is_chain (t ∷ rest)

abbrev OnPath : CaseStatus → String → Type 0
OnPath s track =
    (path : List CaseStatus) × (progress_path (some track) ≡ some (pending_review ∷ path))
    × (is_chain (pending_review ∷ path) ≡ true)
    × (elem s path ≡ true)
    × (elem closed path ≡ true)

on_emic_path :
    (s : CaseStatus) (track : String)
    → some "emic" ≡ some track
    → elem s (reported_emic ∷ emic_processing ∷ closed ∷ []) ≡ true
    → OnPath s track
unfolding transitions
on_emic_path s track h e =
    subst (OnPath s) (some_inj h)
      (reported_emic ∷ emic_processing ∷ closed ∷ [], refl, refl, e, refl)

on_community_path :
    (s : CaseStatus) (track : String)
    → some "community" ≡ some track
    → elem s (community_open ∷ community_submitted ∷ closed ∷ []) ≡ true
    → OnPath s track
unfolding transitions
on_community_path s track h e =
    subst (OnPath s) (some_inj h)
      (community_open ∷ community_submitted ∷ closed ∷ [], refl, refl, e, refl)

none_ne_some : (t : String) → none ≡ some t → ⊥
none_ne_some t h = cc

-- For a status on a track: the progress path of its track exists, starts in the review queue, ends
-- closed, goes by declared transitions only, and passes through the status.
pub progress_path_lem :
    (s : CaseStatus) (track : String)
    → track_of (value s) ≡ some track
    → (path : List CaseStatus) × (progress_path (some track) ≡ some (pending_review ∷ path))
      × (is_chain (pending_review ∷ path) ≡ true)
      × (elem s path ≡ true)
      × (elem closed path ≡ true)
unfolding track_of of_value transitions
progress_path_lem reported_emic track h = on_emic_path reported_emic track h refl
progress_path_lem emic_processing track h = on_emic_path emic_processing track h refl
progress_path_lem community_open track h = on_community_path community_open track h refl
progress_path_lem community_submitted track h = on_community_path community_submitted track h refl
progress_path_lem pending_review track h = absurd (none_ne_some track h)
progress_path_lem closed track h = absurd (none_ne_some track h)
progress_path_lem dismissed track h = absurd (none_ne_some track h)

abbrev pub is_some_text : String → Option String → Bool
is_some_text text none = false
is_some_text text (some t) = str_eq t text

-- The public phase of a status and its track name the same handling: the phase is active
-- exactly on the EMIC track, and community exactly on the community track.
pub phase_of-track_of :
    (s : CaseStatus)
    → (str_eq (phase_of (value s)) "active" ≡ is_some_text "emic" (track_of (value s)))
      × (str_eq (phase_of (value s)) "community" ≡ is_some_text "community" (track_of (value s)))
unfolding phase_of track_of of_value
phase_of-track_of pending_review = (refl, refl)
phase_of-track_of _ = (refl, refl)

phase_listed : (o : Option CaseStatus) → member (phase_or_pending o) phases ≡ true
unfolding phase_or_pending
phase_listed none = refl
phase_listed (some pending_review) = refl
phase_listed (some _) = refl

pub member-phase_of : (text : String) → member (phase_of text) phases ≡ true
unfolding phase_of
member-phase_of text = phase_listed (of_value text)
