-- ===== src/Cases/EmicUpdate.antt =====
-- `update_emic` of apps/api/app/services/case_service.py: what EMIC says about a case.
use aidflow.Prelude.{
  String, Bool, true, false, not, ◌&&◌, Option, none, some, List, [], ◌∷◌, ◌++◌, str_eq,
  if◌then◌else◌, ◌⧺◌, strip, or_none, is_text, text_or, is_empty, join,
}
use aidflow.CaseStates.{elem, emic_statuses}
use aidflow.Models.{IncidentCase, CaseEvent, Json, Time}
use aidflow.Cases.Session.{case_action, ok, err, Action, pure, ◌>>=◌, ◌>>◌, modify}
use aidflow.Cases.Lifecycle.{by_operator, event, transition, or_now}
use aidflow.Cases.Actions.{add_update}

-- The three texts that an officer may enter.
pub record EmicEntry : Type 0 where
  pub emic_case_no : Option String
  pub emic_status : Option String
  pub assigned_unit : Option String

-- `new is not None and new.strip() != (old or "")`
abbrev differs : Option String → Option String → Bool
differs none old = false
differs (some new) old = not (str_eq (strip new) (text_or old ""))

-- `new.strip() or None`, where the text differs
abbrev entered : Option String → Option String → Option String
entered none old = old
entered (some new) old = if str_eq (strip new) (text_or old "") then old else or_none (strip new)

unfoldable pub entered_case : EmicEntry → IncidentCase → IncidentCase
entered_case e c = record c {
  emic_case_no = entered e.emic_case_no c.emic_case_no;
  emic_status = entered e.emic_status c.emic_status;
  assigned_unit = entered e.assigned_unit c.assigned_unit;
}

abbrev change_of : String → Option String → Option String → List (String × Option String)
change_of key new old = if differs new old then (key, entered new old) ∷ [] else []

pub changes_of : EmicEntry → IncidentCase → List (String × Option String)
changes_of e c =
    change_of "emic_case_no" e.emic_case_no c.emic_case_no
    ++ (change_of "emic_status" e.emic_status c.emic_status
        ++ change_of "assigned_unit" e.assigned_unit c.assigned_unit)

-- A part of the note: the field changed and is not empty now.
abbrev part : String → Option String → Option String → List String
part label new old =
    if differs new old && is_text (entered new old)
    then (label ⧺ text_or (entered new old) "") ∷ []
    else []

public_parts : EmicEntry → IncidentCase → List String
public_parts e c =
    part "EMIC 處理狀態：" e.emic_status c.emic_status ++ part "處理單位：" e.assigned_unit c.assigned_unit

-- The EMIC case number is internal.
all_parts : EmicEntry → IncidentCase → List String
unfolding public_parts
all_parts e c = public_parts e c ++ part "EMIC 案號 " e.emic_case_no c.emic_case_no

abbrev pub is_empty_list : {A : Type 0} → List A → Bool
is_empty_list [] = true
is_empty_list (_ ∷ _) = false

abbrev or_text : String → String → String
or_text s d = if is_empty s then d else s

-- What changes are written; `old` is the case before.
unfoldable pub write_changes :
    Time → EmicEntry → IncidentCase → Option String → Option Time → Action (Option CaseEvent)
unfolding changes_of public_parts all_parts entered_case
write_changes now e old actor at = do
  modify (λ c. record (entered_case e c) { emic_synced_at = some (or_now at now) })
  ev ← event now (record {
    event_type = "emic_updated";
    actor_role = "system";
    actor_name = actor;
    note = some (or_text (join (public_parts e old)) "已登錄 EMIC 案號");
    is_public = not (is_empty_list (public_parts e old));
    from_status = none;
    to_status = none;
    payload =
        ("changes", Json.changes (changes_of e old))
        ∷ ("internal_note", Json.text (join (all_parts e old)))
        ∷ [];
    at = at;
  })
  pure (some ev)

unfoldable pub record_changes :
    Time → EmicEntry → Option String → Option Time → Action (Option CaseEvent)
unfolding write_changes
record_changes now e actor at s =
    if is_empty_list (changes_of e s.case)
    then (ok none, s)
    else write_changes now e s.case actor at s

unfoldable pub add_note : Time → Option String → Option String → Option Time → Action (Unit {0})
add_note now note actor at =
    if is_text note then (do add_update now (text_or note "") true actor at; pure tt) else pure tt

unfoldable pub move_to :
    Time
    → Option String
    → Option String
    → Option Time
    → Option CaseEvent
    → Action (Option CaseEvent)
move_to now to_status actor at ev =
    if is_text to_status
    then (do
      moved ← transition now (text_or to_status "") (by_operator actor none at)
      pure (some moved))
    else pure ev

unfoldable pub update_steps :
    Time
    → EmicEntry
    → Option String
    → Option String
    → Option String
    → Option Time
    → Action (Option CaseEvent)
unfolding record_changes add_note move_to
update_steps now e actor note to_status at = do
  ev ← record_changes now e actor at
  add_note now note actor at
  move_to now to_status actor at ev

unfoldable pub update_emic :
    Time
    → EmicEntry
    → Option String
    → Option String
    → Option String
    → Option Time
    → Action (Option CaseEvent)
unfolding update_steps
update_emic now e actor note to_status at s =
    if not (elem s.case.status emic_statuses)
    then (err (case_action "只有已上報 EMIC 的案件可以更新 EMIC 資訊"), s)
    else update_steps now e actor note to_status at s
