-- ===== src/Console/Items.antt =====
-- `case_item` and `event_item` of apps/api/app/services/presenters.py.
use aidflow.Prelude.{ℕ, String, Bool, Option, none, some, List, text_or}
use aidflow.Models.{IncidentCase, CaseEvent, Time, get_key, Json}
use aidflow.CaseStates.{CaseStatus, value, public_label, phase_of, next_statuses}
use aidflow.Categories.{category_label}
use aidflow.Portal.Pages.{track_label}
use aidflow.Views.{event_label}

-- The entries of `case_item` that are not columns of the row, which it copies.
pub record CaseItem : Type 0 where
  pub row : IncidentCase
  pub category_label : String
  pub status_label : String
  pub phase : String
  pub track_label : Option String
  pub next_statuses : List String

unfoldable pub case_item : IncidentCase → CaseItem
case_item c = record {
  row = c;
  category_label = category_label c.category;
  status_label = public_label (value c.status);
  phase = phase_of (value c.status);
  track_label = track_label c.track;
  next_statuses = next_statuses (value c.status);
}

pub record EventItem : Type 0 where
  pub id : ℕ
  pub event_type : String
  pub label : String
  pub from_status : Option CaseStatus
  pub to_status : Option CaseStatus
  pub to_status_label : Option String
  pub actor_role : String
  pub actor_name : Option String
  pub note : Option String
  pub is_public : Bool
  pub created_at : Time

abbrev label_or_none : Option CaseStatus → Option String
label_or_none none = none
label_or_none (some s) = some (public_label (value s))

-- `(ev.payload or {}).get("internal_note")`, if it is a text that is not empty, or else the note
abbrev internal_or : Json → Option String → Option String
internal_or (Json.text t) note = some (text_or (some t) (text_or note ""))
internal_or _ note = note

unfoldable pub event_item : CaseEvent → EventItem
unfolding event_label
event_item e = record {
  id = e.id;
  event_type = e.event_type;
  label = event_label e;
  from_status = e.from_status;
  to_status = e.to_status;
  to_status_label = label_or_none e.to_status;
  actor_role = e.actor_role;
  actor_name = e.actor_name;
  note = internal_or (get_key "internal_note" e.payload) e.note;
  is_public = e.is_public;
  created_at = e.created_at;
}
