-- ===== src/CaseStates/Examples.antt =====
-- Runs of the theorems on the state machine of apps/api/app/domain/case_states.py.
use aidflow.Prelude.{String, ◌≡◌, refl, true, some, [], ◌∷◌}
use aidflow.CaseStates.{
  value, of_value, elem, transitions, track_of, pending_review, reported_emic, emic_processing,
  community_open, community_submitted, closed,
}
use aidflow.CaseStates.Flow.{Reaches, here, next, Reaches-closed, Reaches-emic}

-- A case that EMIC takes over from the community.
reopened : Reaches community_open emic_processing
unfolding transitions
reopened = next {t = reported_emic} refl (next {t = emic_processing} refl here)

processed : Reaches reported_emic closed
unfolding transitions
processed = next {t = emic_processing} refl (next {t = closed} refl here)

Reaches-closed_example : Reaches community_submitted closed
Reaches-closed_example = Reaches-closed community_submitted refl

in_queue : Reaches pending_review pending_review
in_queue = here

Reaches-emic_example : elem closed (reported_emic ∷ emic_processing ∷ closed ∷ []) ≡ true
Reaches-emic_example = Reaches-emic {s = reported_emic} {t = closed} refl processed

abbrev from_text : String
from_text = "community_open"

abbrev to_text : String
to_text = "reported_emic"

tracked : track_of (value community_submitted) ≡ some "community"
unfolding track_of of_value
tracked = refl
