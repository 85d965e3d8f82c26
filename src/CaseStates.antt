-- ===== src/CaseStates.antt =====
-- The state machine of an incident case: apps/api/app/domain/case_states.py.
mod Values
pub mod Flow
pub mod Tables
pub mod Examples
pub use Values.{CaseStatus, all_statuses, ordinal, same}
pub use Values.{pending_review, reported_emic, emic_processing, community_open}
pub use Values.{community_submitted, closed, dismissed, of_value-value}
unfoldable pub use Values.{value, of_value}
use aidflow.Prelude.{
  String, Bool, false, not, Option, none, some, List, [], ◌∷◌, map, any, select, if◌then◌else◌,
  str_eq,
}

abbrev pub elem : CaseStatus → List CaseStatus → Bool
elem s = any (same s)

unfoldable pub transitions : CaseStatus → List CaseStatus
transitions pending_review = reported_emic ∷ community_open ∷ dismissed ∷ []
transitions reported_emic = emic_processing ∷ closed ∷ []
transitions emic_processing = closed ∷ []
transitions community_open = community_submitted ∷ reported_emic ∷ closed ∷ dismissed ∷ []
transitions community_submitted = closed ∷ community_open ∷ reported_emic ∷ []
transitions closed = []
transitions dismissed = []

abbrev pub emic_statuses : List CaseStatus
emic_statuses = reported_emic ∷ emic_processing ∷ []

abbrev pub community_statuses : List CaseStatus
community_statuses = community_open ∷ community_submitted ∷ []

abbrev pub open_statuses : List CaseStatus
open_statuses = select (λ s. not (elem s (closed ∷ dismissed ∷ []))) all_statuses

abbrev pub done_statuses : List CaseStatus
done_statuses = closed ∷ []

abbrev pub pending_statuses : List CaseStatus
pending_statuses = pending_review ∷ []

-- the union of the two tracks
abbrev pub queued_statuses : List CaseStatus
queued_statuses = reported_emic ∷ emic_processing ∷ community_open ∷ community_submitted ∷ []

abbrev public_labels : CaseStatus → String
public_labels pending_review = "審核中"
public_labels reported_emic = "已上報 EMIC"
public_labels emic_processing = "處理中"
public_labels community_open = "開放民眾協助"
public_labels community_submitted = "處理完成確認中"
public_labels closed = "已結案"
public_labels dismissed = "不成案"

abbrev pub public_phase : CaseStatus → String
public_phase pending_review = "pending"
public_phase reported_emic = "active"
public_phase emic_processing = "active"
public_phase community_open = "community"
public_phase community_submitted = "community"
public_phase closed = "done"
public_phase dismissed = "dismissed"

abbrev pub phases : List String
phases = "pending" ∷ "active" ∷ "community" ∷ "done" ∷ "dismissed" ∷ []

-- `None` where the reviewer has not decided, and after the end
abbrev pub track_table : CaseStatus → Option String
track_table pending_review = none
track_table reported_emic = some "emic"
track_table emic_processing = some "emic"
track_table community_open = some "community"
track_table community_submitted = some "community"
track_table closed = none
track_table dismissed = none

allowed : Option CaseStatus → Option CaseStatus → Bool
unfolding transitions
allowed (some f) (some t) = elem t (transitions f)
allowed _ _ = false

-- A text that is no status has no transition: the `except ValueError` branch.
unfoldable pub can_transition : String → String → Bool
unfolding allowed
can_transition frm to = allowed (of_value frm) (of_value to)

next_values : Option CaseStatus → List String
unfolding transitions
next_values none = []
next_values (some f) = map value (select (λ s. elem s (transitions f)) all_statuses)

unfoldable pub next_statuses : String → List String
unfolding next_values
next_statuses frm = next_values (of_value frm)

phase_or_pending : Option CaseStatus → String
phase_or_pending none = "pending"
phase_or_pending (some s) = public_phase s

unfoldable pub phase_of : String → String
unfolding phase_or_pending
phase_of status = phase_or_pending (of_value status)

label_or : String → Option CaseStatus → String
label_or text none = text
label_or text (some s) = public_labels s

unfoldable pub public_label : String → String
unfolding label_or
public_label status = label_or status (of_value status)

track_or_none : Option CaseStatus → Option String
track_or_none none = none
track_or_none (some s) = track_table s

unfoldable pub track_of : String → Option String
unfolding track_or_none
track_of status = track_or_none (of_value status)

-- PROGRESS_PATHS for the two tracks and for `None`
abbrev pub progress_path : Option String → Option (List CaseStatus)
progress_path none = some (pending_review ∷ closed ∷ [])
progress_path (some track) =
    if str_eq track "emic"
    then some (pending_review ∷ reported_emic ∷ emic_processing ∷ closed ∷ [])
    else if str_eq track "community"
    then some (pending_review ∷ community_open ∷ community_submitted ∷ closed ∷ [])
    else none
