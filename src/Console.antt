-- ===== src/Console.antt =====
-- The console of the government: the routes of apps/api/app/routers/cases.py that change a case. A
-- request is answered, or refused with an HTTP status; what a refused request wrote is rolled back, as
-- `get_db` closes its session without a commit. A status of 500 stands for an exception that the route
-- does not catch.
pub mod Items
pub mod Safe
pub mod Records
pub mod Privacy
pub mod Examples
use aidflow.Prelude.{
  ℕ, String, Bool, Option, none, some, List, [], ◌∷◌, str_eq, text_or, if◌then◌else◌,
}
use aidflow.Models.{IncidentCase, CaseEvent, Time}
use aidflow.Models.Table.{save}
use aidflow.CaseStates.{CaseStatus}
use aidflow.Permissions.{Perm, review_cases}
use aidflow.Accounts.Rows.{Accounts, Crypto, Unicode, User}
use aidflow.Access.{
  Request, AccessSettings, Principal, Access, HttpError, unauthorized, forbidden, granted, refused,
  require,
}
use aidflow.Cases.Session.{
  CaseError, invalid_transition, case_action, Result, ok, err, Session, Action, pure, ◌>>=◌,
}
use aidflow.Cases.Lifecycle.{Change, transition, assert_transition}
use aidflow.Cases.Actions.{
  Emic, ReviewResult, review, report_to_emic, community_confirm, add_update,
}
use aidflow.Cases.EmicUpdate.{EmicEntry, update_emic}
use aidflow.Cases.Queries.{get_case}
use aidflow.Platforms.Rows.{Site, PlatformRow, get_platform}
use aidflow.Notices.Delivery.{Delivery, Outside}
use aidflow.Notices.Pushes.{after_commit}
use aidflow.Console.Items.{CaseItem, EventItem, case_item, event_item}

-- What a request is handled with: the settings, the accounts, the moment, and what stands outside.
pub record Api : Type 0 where
  pub uni : Unicode
  pub crypto : Crypto
  pub cfg : AccessSettings
  pub accounts : Accounts
  pub now : Time
  pub emic : Emic
  pub out : Outside

pub data Answer (A : Type 0) : Type 0 where
  done : A → Answer A
  failed : ℕ → Answer A

-- The answer, the site after it, and what was sent.
pub record Outcome (A : Type 0) : Type 0 where
  pub answer : Answer A
  pub site : Site
  pub sent : List Delivery

abbrev pub refuse : {A : Type 0} → Site → ℕ → Outcome A
refuse s code = record { answer = failed code; site = s; sent = [] }

abbrev pub http_code : HttpError → ℕ
http_code unauthorized = 401
http_code forbidden = 403

abbrev pub by_access : {A : Type 0} → Site → (Principal → Outcome A) → Access → Outcome A
by_access s f (refused e) = refuse s (http_code e)
by_access s f (granted principal) = f principal

-- `principal: Principal = Depends(require(*perms))`
abbrev pub guarded :
    {A : Type 0} → Api → List Perm → Request → Site → (Principal → Outcome A) → Outcome A
guarded api perms req s f =
    by_access s f (require api.uni api.crypto api.cfg api.now perms req api.accounts)

abbrev name_of : Option User → String → String
name_of none name = name
name_of (some u) name = u.display_name

-- `principal.actor_name`
abbrev pub actor_name : Principal → String
actor_name p = name_of p.user p.name

-- `_require_case`
abbrev pub with_case :
    {A : Type 0} → Site → Option IncidentCase → (IncidentCase → Outcome A) → Outcome A
with_case s none f = refuse s 404
with_case s (some c) f = f c

-- `platform_service.require_platform`, whose exception no route catches
abbrev pub with_platform :
    {A : Type 0} → Site → Option PlatformRow → (PlatformRow → Outcome A) → Outcome A
with_platform s none f = refuse s 500
with_platform s (some p) f = f p

pub record CaseActionResponse : Type 0 where
  pub case : CaseItem
  pub event : Option EventItem
  pub result : Option ReviewResult

-- What the service returned, as the routes keep it.
pub record Returned : Type 0 where
  pub event : Option CaseEvent
  pub result : Option ReviewResult

abbrev with_event : CaseEvent → Returned
with_event e = record { event = some e; result = none }

abbrev item_of : Option CaseEvent → Option EventItem
item_of none = none
item_of (some e) = some (event_item e)

-- `db.commit()` writes the live case, too.
abbrev pub committed : Site → Session → Site
committed s t = record s { db = record t.db { cases = save (λ c. c.id) t.case t.db.cases } }

-- `_respond`
unfoldable pub respond :
    Api → Site → PlatformRow → CaseStatus → Session → Returned → Outcome CaseActionResponse
unfolding case_item event_item
respond api s p previous t r =
    let s' = committed s t in
    record {
      answer =
          done (record { case = case_item t.case; event = item_of r.event; result = r.result });
      site = s';
      sent = after_commit api.out s'.db p t.case (some previous);
    }

-- The requests, with their payloads.
pub data Command : Type 0 where
  reviews : String → Option String → Command
  updates_emic : EmicEntry → Option String → Option String → Command
  confirms : Bool → Option String → Command
  moves : String → Option String → Bool → Command

-- The status for an exception: `case_action`, and `invalid_transition`.
abbrev code_by : ℕ → ℕ → CaseError → ℕ
code_by action invalid (case_action m) = action
code_by action invalid (invalid_transition f t) = invalid

abbrev with_result : ReviewResult → Returned
with_result r = record { event = none; result = some r }

-- The escalation of a community case in `transition`; `assert_transition` answers 400 first.
unfoldable pub escalation : Api → String → Option String → Action Returned
escalation api actor note = do
  r ← report_to_emic api.emic api.now (some actor) (some (text_or note "改列上報 EMIC")) none
  pure (with_result r)

abbrev pub after_assert : Result CaseStatus → Action Returned → Action Returned
after_assert (err e) m s = (err e, s)
after_assert (ok t) m s = m s

unfoldable pub escalate_case : Api → String → Option String → Action Returned
unfolding escalation
escalate_case api actor note s =
    after_assert (assert_transition s.case.status "reported_emic") (escalation api actor note) s

-- The keyword arguments of `transition` in the route.
abbrev operator_change : String → Option String → Bool → Change
operator_change actor note is_public = record {
  actor_role = "operator";
  actor_name = some actor;
  note = note;
  is_public = is_public;
  at = none;
  payload = [];
}

-- The call of the service in a route.
unfoldable pub perform : Api → String → Command → Action Returned
unfolding escalate_case
perform api actor (reviews decision note) = do
  r ← review api.emic api.now decision (some actor) note none
  pure (with_result r)
perform api actor (updates_emic entry note to) = do
  e ← update_emic api.now entry (some actor) note to none
  pure (record { event = e; result = none })
perform api actor (confirms approve note) = do
  e ← community_confirm api.now approve (some actor) note none
  pure (with_event e)
perform api actor (moves to note is_public) =
    if str_eq to "reported_emic"
    then escalate_case api actor note
    else (do e ← transition api.now to (operator_change actor note is_public); pure (with_event e))

abbrev error_code : Command → CaseError → ℕ
error_code (reviews _ _) = code_by 409 500
error_code (updates_emic _ _ _) = code_by 409 400
error_code (confirms _ _) = code_by 409 500
error_code (moves _ _ _) = code_by 500 400

abbrev pub settle :
    Api
    → Site
    → PlatformRow
    → CaseStatus
    → Command
    → Result Returned × Session
    → Outcome CaseActionResponse
settle api s p previous cmd (ok r, t) = respond api s p previous t r
settle api s p previous cmd (err e, t) = refuse s (error_code cmd e)

-- A route from the platform on, and from the case on.
abbrev pub on_platform :
    Api → Site → Command → Principal → IncidentCase → PlatformRow → Outcome CaseActionResponse
on_platform api s cmd principal c p =
    settle api s p c.status cmd
      (perform api (actor_name principal) cmd (record { case = c; db = s.db }))

abbrev pub on_case : Api → Site → Command → Principal → IncidentCase → Outcome CaseActionResponse
on_case api s cmd principal c =
    with_platform s (get_platform s c.platform_id) (on_platform api s cmd principal c)

-- `review`, `update_emic`, `community_confirm` and `transition` of the router.
unfoldable pub act : Api → Request → Site → ℕ → Command → Outcome CaseActionResponse
unfolding perform respond
act api req s case_id cmd =
    guarded api (review_cases ∷ []) req s
      (λ principal. with_case s (get_case s.db case_id) (on_case api s cmd principal))

abbrev noted : Site → Result CaseEvent × Session → Outcome CaseActionResponse
noted s (ok e, t) = record {
  answer = done (record { case = case_item t.case; event = some (event_item e); result = none });
  site = committed s t;
  sent = [];
}
noted s (err e, t) = refuse s 500

-- `add_update` of the router
unfoldable pub add_note : Api → Request → Site → ℕ → String → Bool → Outcome CaseActionResponse
unfolding case_item event_item
add_note api req s case_id note is_public = guarded api (review_cases ∷ []) req s λ principal.
    with_case s (get_case s.db case_id) λ c. noted s (
      add_update api.now note is_public (some (actor_name principal)) none
        (record { case = c; db = s.db }))
