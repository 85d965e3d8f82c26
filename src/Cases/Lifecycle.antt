-- ===== src/Cases/Lifecycle.antt =====
-- State changes of a case: `_event`, `transition` and the operations built on it, of
-- apps/api/app/services/case_service.py. `now` is what `_now()` returns during the call.
use aidflow.Prelude.{
  ℕ, ◌+◌, String, Bool, true, false, not, ◌&&◌, ◌||◌, Option, none, some, [], ◌∷◌, ◌++◌,
  if◌then◌else◌, ◌⧺◌, text_or, is_empty, starts_with,
}
use aidflow.CaseStates.{
  CaseStatus, pending_review, reported_emic, community_submitted, closed, dismissed, value,
  of_value, same, can_transition, track_of, public_label,
}
use aidflow.Models.{
  Db, IncidentCase, ReportCluster, ClusterStatus, CaseEvent, Payload, Json, Time, closed_cluster,
  dismissed_cluster, merge, json_text, enqueue_event,
}
use aidflow.Models.Table.{save, alter}
use aidflow.Cases.Session.{invalid_transition, Result, ok, err, Action}

abbrev pub is_none : {A : Type 0} → Option A → Bool
is_none none = true
is_none (some _) = false

-- The keyword arguments of `_event`.
pub record EventArgs : Type 0 where
  pub event_type : String
  pub actor_role : String
  pub actor_name : Option String
  pub note : Option String
  pub is_public : Bool
  pub from_status : Option CaseStatus
  pub to_status : Option CaseStatus
  pub payload : Payload
  pub at : Option Time

abbrev pub or_now : Option Time → Time → Time
or_now none now = now
or_now (some t) now = t

abbrev status_json : Option CaseStatus → Json
status_json none = Json.null
status_json (some s) = Json.text (value s)

-- The type of the audit event that mirrors a case event.
abbrev outbox_type : String → String
outbox_type event_type =
    if not (starts_with event_type "case.") then "case." ⧺ event_type else event_type

outbox_payload : IncidentCase → EventArgs → Payload
outbox_payload c a =
    merge
      (("platform_id", Json.uuid c.platform_id)
        ∷ ("case_id", Json.uuid c.id)
        ∷ ("case_number", Json.text c.case_number)
        ∷ ("title", Json.text c.title)
        ∷ ("from_status", status_json a.from_status)
        ∷ ("to_status", status_json a.to_status)
        ∷ ("actor_role", Json.text a.actor_role)
        ∷ ("actor_name", json_text a.actor_name)
        ∷ ("public", Json.flag a.is_public)
        ∷ [])
      a.payload

-- The row that `_event` adds.
abbrev pub event_row : ℕ → Time → IncidentCase → EventArgs → CaseEvent
event_row id now c a = record {
  id = id;
  case_id = c.id;
  platform_id = c.platform_id;
  event_type = a.event_type;
  from_status = a.from_status;
  to_status = a.to_status;
  actor_role = a.actor_role;
  actor_name = a.actor_name;
  note = a.note;
  is_public = a.is_public;
  payload = a.payload;
  created_at = or_now a.at now;
}

-- `db.flush()` writes the live case with the new event, and the outbox row follows.
unfoldable pub event : Time → EventArgs → Action CaseEvent
unfolding outbox_payload
event now a s =
    let ev = event_row s.db.next_id now s.case a in
    let flushed : Db = record s.db {
      cases = save (λ c. c.id) s.case s.db.cases;
      events = s.db.events ++ ev ∷ [];
      next_id = s.db.next_id + 1;
    } in
    (
      ok ev,
      record s {
        db =
            enqueue_event (outbox_type a.event_type) (some s.case.id) (outbox_payload s.case a)
              flushed;
      },
    )

abbrev set_track : Option String → IncidentCase → IncidentCase
set_track none c = c
set_track (some t) c = if is_empty t then c else record c { track = some t }

abbrev set_reviewed : Bool → Time → Option String → IncidentCase → IncidentCase
set_reviewed frm_pending stamp actor c =
    if frm_pending then record c { reviewed_at = some stamp; reviewed_by = actor } else c

abbrev set_reported : Bool → Time → IncidentCase → IncidentCase
set_reported to_emic stamp c =
    if to_emic && is_none c.emic_reported_at then record c { emic_reported_at = some stamp } else c

abbrev set_submitted : Bool → Time → IncidentCase → IncidentCase
set_submitted to_submitted stamp c =
    if to_submitted then record c { community_submitted_at = some stamp } else c

abbrev set_closed : Bool → Time → IncidentCase → IncidentCase
set_closed to_closed stamp c =
    if to_closed
    then record c { closed_at = some stamp; resolved_at = some (or_now c.resolved_at stamp) }
    else c

-- What `transition` writes to the case before its event: the new status and its timestamps.
unfoldable pub move : CaseStatus → Time → Option String → IncidentCase → IncidentCase
unfolding track_of
move to stamp actor c =
    let frm = c.status in
    set_closed (same to closed) stamp (
      set_submitted (same to community_submitted) stamp (
        set_reported (same to reported_emic) stamp (
          set_reviewed (same frm pending_review) stamp actor
            (set_track (track_of (value to)) (record c { status = to })))))

abbrev set_cluster_status : ClusterStatus → ReportCluster → ReportCluster
set_cluster_status st c = record c { status = st }

-- The cluster of a case that ends leaves the open clusters.
unfoldable pub end_cluster : CaseStatus → IncidentCase → Db → Db
end_cluster to c db =
    if same to closed || same to dismissed
    then elim c.cluster_id [
      | none ↦ db
      | some k ↦ record db {
        clusters =
            alter (λ r. r.id) k
              (set_cluster_status (if same to closed then closed_cluster else dismissed_cluster))
              db.clusters;
      }
    ]
    else db

-- The keyword arguments of `transition`.
pub record Change : Type 0 where
  pub actor_role : String
  pub actor_name : Option String
  pub note : Option String
  pub is_public : Bool
  pub at : Option Time
  pub payload : Payload

-- The defaults of `transition`, with an actor, a note and a moment.
abbrev pub by_operator : Option String → Option String → Option Time → Change
by_operator actor note at = record {
  actor_role = "operator";
  actor_name = actor;
  note = note;
  is_public = true;
  at = at;
  payload = [];
}

-- The event of a status change.
abbrev pub change_args : CaseStatus → CaseStatus → Change → EventArgs
change_args frm to ch = record {
  event_type = "status_changed";
  actor_role = ch.actor_role;
  actor_name = ch.actor_name;
  note = some (text_or ch.note (public_label (value to)));
  is_public = ch.is_public;
  from_status = some frm;
  to_status = some to;
  payload = ch.payload;
  at = ch.at;
}

-- `transition` after its test.
unfoldable pub apply_change : Time → CaseStatus → Change → Action CaseEvent
unfolding move end_cluster event
apply_change now to ch s =
    let case' = move to (or_now ch.at now) ch.actor_name s.case in
    event now (change_args s.case.status to ch)
      (record { case = case'; db = end_cluster to case' s.db })

-- `assert_transition`: the status that the text names, if the move is declared.
unfoldable pub assert_transition : CaseStatus → String → Result CaseStatus
unfolding can_transition
assert_transition frm to =
    if can_transition (value frm) to
    then elim (of_value to) [ none ↦ err (invalid_transition (value frm) to) | some t ↦ ok t ]
    else err (invalid_transition (value frm) to)

unfoldable pub transition : Time → String → Change → Action CaseEvent
unfolding assert_transition apply_change
transition now to ch s = elim (assert_transition s.case.status to) [
  | err e ↦ (err e, s)
  | ok t ↦ apply_change now t ch s
]
