-- ===== src/CaseStates/Values.antt =====
-- `CaseStatus` of apps/api/app/domain/case_states.py: a closed enum whose members are texts.
use aidflow.Prelude.{
  ℕ, String, ◌≡◌, refl, Bool, Option, none, some, List, [], ◌∷◌, ◌==◌, str_eq, if◌then◌else◌,
}

pub data CaseStatus : Type 0 where
  pending_review : CaseStatus
  reported_emic : CaseStatus
  emic_processing : CaseStatus
  community_open : CaseStatus
  community_submitted : CaseStatus
  closed : CaseStatus
  dismissed : CaseStatus

-- The enum in its order of declaration.
abbrev pub all_statuses : List CaseStatus
all_statuses =
    pending_review ∷ reported_emic ∷ emic_processing ∷ community_open ∷ community_submitted ∷ closed
    ∷ dismissed ∷ []

-- The position in that order, by which two members are told apart.
abbrev pub ordinal : CaseStatus → ℕ
ordinal pending_review = 0
ordinal reported_emic = 1
ordinal emic_processing = 2
ordinal community_open = 3
ordinal community_submitted = 4
ordinal closed = 5
ordinal dismissed = 6

abbrev pub same : CaseStatus → CaseStatus → Bool
same s t = ordinal s == ordinal t

-- `s.value`
unfoldable pub value : CaseStatus → String
value pending_review = "pending_review"
value reported_emic = "reported_emic"
value emic_processing = "emic_processing"
value community_open = "community_open"
value community_submitted = "community_submitted"
value closed = "closed"
value dismissed = "dismissed"

find_value : String → List CaseStatus → Option CaseStatus
unfolding value
find_value text [] = none
find_value text (s ∷ rest) =
    let later = find_value text rest in if str_eq (value s) text then some s else later

-- `CaseStatus(text)`; `none` is the `ValueError`.
unfoldable pub of_value : String → Option CaseStatus
unfolding find_value
of_value text = find_value text all_statuses

-- Reading the text of a status gives the status back.
pub of_value-value : (s : CaseStatus) → of_value (value s) ≡ some s
unfolding of_value
of_value-value pending_review = refl
of_value-value reported_emic = refl
of_value-value emic_processing = refl
of_value-value community_open = refl
of_value-value community_submitted = refl
of_value-value closed = refl
of_value-value dismissed = refl
