-- ===== src/Cases/Actions.antt =====
-- What officers and citizens do with a case: `review`, `report_to_emic`, `update_emic`,
-- `community_submit`, `community_confirm` and `add_update` of
-- apps/api/app/services/case_service.py.
use aidflow.Prelude.{
  ℕ, String, Bool, true, false, not, Option, none, some, List, [], ◌∷◌, str_eq, if◌then◌else◌, ◌⧺◌,
  strip, or_none, is_text, text_or,
}
use aidflow.CaseStates.{
  pending_review, reported_emic, community_open, community_submitted, closed, dismissed, value,
  same,
}
use aidflow.Models.{Db, IncidentCase, CaseEvent, Json, Time, json_text}
use aidflow.Privacy.{Patterns, redact_text}
use aidflow.Cases.Session.{case_action, ok, err, Action, pure, raise, ◌>>◌, modify}
use aidflow.Cases.Lifecycle.{by_operator, EventArgs, event, transition}

-- What `emic.submit` of apps/api/app/connectors/emic.py returns, or the reason of its
-- `ConnectorError`.
pub data EmicReply : Type 0 where
  accepted : Option String → Option String → EmicReply
  failed : String → EmicReply

-- The EMIC connector: `mode() == "api"`, and the reply of the endpoint to a case. Both come from
-- outside: a setting, and an HTTP service.
pub record Emic : Type 0 where
  pub is_api : Bool
  pub submit : IncidentCase → Db → EmicReply

-- The dict that `review` and `report_to_emic` return.
pub record ReviewResult : Type 0 where
  pub decision : String
  pub mode : Option String
  pub submitted : Bool
  pub detail : Option String

abbrev pub decided : String → ReviewResult
decided decision = record { decision = decision; mode = none; submitted = false; detail = none }

abbrev note_or : Option String → String → Option String
note_or note text = some (text_or note text)

abbrev pub keep_or : Option String → Option String → Option String
keep_or new old = if is_text new then new else old

-- An event of the system that the public does not see.
abbrev internal : String → String → List (String × Json) → EventArgs
internal event_type note payload = record {
  event_type = event_type;
  actor_role = "system";
  actor_name = none;
  note = some note;
  is_public = false;
  from_status = none;
  to_status = none;
  payload = payload;
  at = none;
}

abbrev suffix : String → Option String → String → String
suffix before o after = if is_text o then before ⧺ text_or o "" ⧺ after else ""

-- The endpoint took the case; `old_no` is the EMIC number that the case had.
unfoldable pub record_accepted :
    Time → Option String → Option String → Option String → Action ReviewResult
record_accepted now case_no status old_no = do
  modify (λ c. record c {
    emic_channel = some "api";
    emic_case_no = keep_or case_no c.emic_case_no;
    emic_status = keep_or status c.emic_status;
    emic_synced_at = some now;
  })
  event now (
      internal "emic_submitted" ("已透過介接端點上報 EMIC" ⧺ suffix "（EMIC 案號 " (keep_or case_no old_no) "）")
        (("emic_case_no", json_text (keep_or case_no old_no)) ∷ []))
  pure (record {
    decision = "emic";
    mode = some "api";
    submitted = true;
    detail = some "已送出至 EMIC 介接端點";
  })

unfoldable pub record_failed : Time → String → Action ReviewResult
record_failed now reason = do
  event now (internal "emic_submit_failed" ("EMIC 自動上報失敗：" ⧺ reason) [])
  pure (record {
    decision = "emic";
    mode = some "api";
    submitted = false;
    detail = some ("自動上報失敗，請改以人工登錄：" ⧺ reason);
  })

unfoldable pub record_reply : Time → EmicReply → Action ReviewResult
unfolding record_accepted record_failed
record_reply now (accepted case_no status) s =
    record_accepted now case_no status s.case.emic_case_no s
record_reply now (failed reason) s = record_failed now reason s

-- Without an endpoint the officer files the case in EMIC by hand.
abbrev pub by_hand : ReviewResult
by_hand = record {
  decision = "emic";
  mode = some "manual";
  submitted = false;
  detail = some "EMIC 介接規格尚未提供：請於 EMIC 建立案件後，回填 EMIC 案號與處理狀態。";
}

unfoldable pub submit_case : Emic → Time → Action ReviewResult
unfolding record_reply
submit_case emic now s =
    if emic.is_api then record_reply now (emic.submit s.case s.db) s else (ok by_hand, s)

unfoldable pub report_to_emic :
    Emic → Time → Option String → Option String → Option Time → Action ReviewResult
unfolding submit_case
report_to_emic emic now actor note at = do
  transition now (value reported_emic) (by_operator actor (note_or note "經審核需上報，已列入 EMIC 上報") at)
  modify (λ c. record c { emic_channel = some "manual" })
  submit_case emic now

unfoldable pub decide :
    Emic → Time → String → Option String → Option String → Option Time → Action ReviewResult
unfolding report_to_emic
decide emic now decision actor note at =
    if str_eq decision "emic"
    then report_to_emic emic now actor note at
    else if str_eq decision "community"
    then (do
      transition now (value community_open)
          (by_operator actor (note_or note "經審核為小型災情，開放民眾協助處理；處理完成請上傳照片回報") at)
      pure (decided decision))
    else if str_eq decision "dismiss"
    then (do
      transition now (value dismissed) (by_operator actor (note_or note "經審核判定不成案（誤報或重複）") at)
      pure (decided decision))
    else raise (case_action "未知的審核決定")

-- The review point: how a pending case is handled.
unfoldable pub review :
    Emic → Time → String → Option String → Option String → Option Time → Action ReviewResult
unfolding decide
review emic now decision actor note at s =
    if not (same s.case.status pending_review)
    then (err (case_action "此案件已審核過"), s)
    else decide emic now decision actor note at s

-- A citizen reports an open community case as handled.
unfoldable pub community_submit :
    Patterns → Time → Option String → Option String → ℕ → Option Time → Action CaseEvent
community_submit tools now note helper_name photo_count at s =
    let clean = or_none (text_or (redact_text tools (some (strip (text_or note "")))) "") in
    if not (same s.case.status community_open)
    then (err (case_action "此案件目前不開放民眾回報處理"), s)
    else transition now (value community_submitted)
        (record {
          actor_role = "citizen";
          actor_name = none;
          note = some ("民眾回報已處理完成，等待承辦人員確認" ⧺ suffix "：" clean "");
          is_public = true;
          at = at;
          payload =
              ("photo_count", Json.number photo_count)
              ∷ ("helper_named", Json.flag (is_text helper_name))
              ∷ [];
        })
        s

-- The officer confirms a community report, or opens the case again.
unfoldable pub community_confirm :
    Time → Bool → Option String → Option String → Option Time → Action CaseEvent
community_confirm now approve actor note at s =
    if not (same s.case.status community_submitted)
    then (err (case_action "此案件沒有待確認的民眾處理回報"), s)
    else if approve
    then transition now (value closed) (by_operator actor (note_or note "承辦人員確認處理完成，結案並自地圖撤除") at) s
    else transition now (value community_open)
        (by_operator actor (some ("處理照片未通過確認，重新開放民眾協助" ⧺ suffix "：" note "")) at) s

-- A progress note; a public one is also the summary that citizens read.
unfoldable pub add_update : Time → String → Bool → Option String → Option Time → Action CaseEvent
add_update now note is_public actor at = do
  modify (λ c. if is_public then record c { public_summary = some note } else c)
  event now (record {
    event_type = if is_public then "public_update" else "internal_note";
    actor_role = "operator";
    actor_name = actor;
    note = some note;
    is_public = is_public;
    from_status = none;
    to_status = none;
    payload = [];
    at = at;
  })
