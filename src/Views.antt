-- ===== src/Views.antt =====
-- The progress of a case on the portal: `progress` and `event_label` of
-- apps/api/app/services/presenters.py.
pub mod Progress
pub mod Examples
use aidflow.Prelude.{
  ℕ, ◌+◌, String, Bool, true, false, ◌||◌, Option, none, some, List, [], ◌∷◌, first, str_eq,
  is_text, leb, ◌==◌, if◌then◌else◌,
}
use aidflow.Models.{IncidentCase, CaseEvent, Time}
use aidflow.CaseStates.{
  CaseStatus, value, same, public_label, track_of, progress_path, pending_review, closed, dismissed,
}

-- `_EVENT_LABELS`
abbrev event_labels : List (String × String)
event_labels =
    ("report.received", "民眾回報")
    ∷ ("threshold_reached", "達到多人回報門檻")
    ∷ ("case.created", "成案")
    ∷ ("status_changed", "狀態更新")
    ∷ ("public_update", "處理進度")
    ∷ ("internal_note", "內部備註")
    ∷ ("emic_updated", "EMIC 資訊更新")
    ∷ ("emic_submitted", "已上報 EMIC")
    ∷ ("emic_submit_failed", "EMIC 自動上報失敗")
    ∷ []

abbrev label_in : List (String × String) → String → String
label_in [] t = t
label_in ((k, l) ∷ rest) t = let later = label_in rest t in if str_eq k t then l else later

abbrev status_label : Option CaseStatus → String → String
status_label none t = label_in event_labels t
status_label (some s) t =
    if str_eq t "status_changed" then public_label (value s) else label_in event_labels t

unfoldable pub event_label : CaseEvent → String
unfolding public_label
event_label e = status_label e.to_status e.event_type

-- A step of the progress.
pub record Step : Type 0 where
  pub key : String
  pub label : String
  pub reached : Bool
  pub current : Bool
  pub at : Option Time

abbrev pub moves_to : CaseStatus → CaseEvent → Bool
moves_to s e = elim e.to_status [ none ↦ false | some t ↦ same s t ]

abbrev time_of : Option CaseEvent → Option Time
time_of none = none
time_of (some e) = some e.created_at

-- `reached_at.get(key)`: when an event first reached the status.
abbrev pub reached_at : List CaseEvent → CaseStatus → Option Time
reached_at events s = time_of (first (moves_to s) events)

abbrev pub is_there : Option Time → Bool
is_there none = false
is_there (some t) = true

-- `case.track or track_of(case.status)`
abbrev or_track : Option String → Option String → Option String
or_track t d = if is_text t then t else d

abbrev or_default : Option (List CaseStatus) → List CaseStatus
or_default none = pending_review ∷ closed ∷ []
or_default (some path) = path

-- `path`, by the status and the track of the case
unfoldable pub path_for : CaseStatus → Option String → List CaseStatus
unfolding track_of
path_for s track =
    if same s dismissed
    then pending_review ∷ dismissed ∷ []
    else or_default (progress_path (or_track track (track_of (value s))))

-- `order.index(status)`, where it is in it
abbrev pub index_of : CaseStatus → List CaseStatus → Option ℕ
index_of s [] = none
index_of s (t ∷ ts) =
    let later = index_of s ts in
    if same s t then some 0 else elim later [ none ↦ none | some n ↦ some (n + 1) ]

abbrev pub up_to : ℕ → Option ℕ → Bool
up_to i none = false
up_to i (some n) = leb i n

abbrev pub is_at : ℕ → Option ℕ → Bool
is_at i none = false
is_at i (some n) = i == n

abbrev pub steps : List CaseEvent → Option ℕ → ℕ → List CaseStatus → List Step
steps events current i [] = []
steps events current i (s ∷ ss) =
    record {
      key = value s;
      label = public_label (value s);
      reached = is_there (reached_at events s) || up_to i current;
      current = is_at i current;
      at = reached_at events s;
    }
    ∷ steps events current (i + 1) ss

unfoldable pub progress : IncidentCase → List CaseEvent → List Step
unfolding path_for public_label
progress c events =
    let path = path_for c.status c.track in steps events (index_of c.status path) 0 path
