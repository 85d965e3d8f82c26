-- ===== src/Console/Safe.antt =====
-- What a request to change a case leaves behind.
use mathlib.Core.Path.{subst}
use aidflow.Prelude.{
  ℕ, ◌≡◌, refl, ◌⊎◌, inl, inr, String, false, Option, none, some, [], ◌∷◌, arith, Bool-cases,
}
use aidflow.Models.{IncidentCase}
use aidflow.CaseStates.{CaseStatus, same}
use aidflow.Permissions.{review_cases}
use aidflow.Access.{HttpError, Request, Principal, Access, granted, refused, require}
use aidflow.Cases.Session.{CaseError, Result, ok, err, Session}
use aidflow.Cases.Lifecycle.{assert_transition}
use aidflow.Cases.Queries.{get_case}
use aidflow.Cases.Keeps.{Keeps, keeps_rules}
use aidflow.Cases.History.{IsConsistent, transition-IsConsistent}
use aidflow.Cases.Operations.{
  review-IsConsistent, report_to_emic-IsConsistent, community_confirm-IsConsistent,
  update_emic-IsConsistent,
}
use aidflow.Platforms.Rows.{Site, PlatformRow, get_platform}
use aidflow.Notices.Pushes.{after_commit}
use aidflow.Console.Items.{case_item}
use aidflow.Console.{
  failed, done, item_of, Api, Outcome, Command, reviews, updates_emic, confirms, moves,
  after_assert, by_access, with_platform, on_platform, on_case, actor_name, with_case, committed,
  respond, perform, escalation, escalate_case, settle, act, CaseActionResponse, Returned,
}

escalation-IsConsistent :
    (api : Api) (actor : String) (remark : Option String)
    → Keeps IsConsistent (escalation api actor remark)
unfolding escalation
escalation-IsConsistent api actor remark = search (keeps_rules, report_to_emic-IsConsistent)

escalate-IsConsistent :
    (api : Api) (actor : String) (remark : Option String)
    → Keeps IsConsistent (escalate_case api actor remark)
unfolding escalate_case
escalate-IsConsistent api actor remark = record {
  at = λ s h. go (assert_transition s.case.status "reported_emic") s h;
}
  where
    go :
        (r : Result CaseStatus) (s : Session)
        → IsConsistent s
        → IsConsistent (after_assert r (escalation api actor remark) s).1
    go (err e) s h = h
    go (ok t) s h = (escalation-IsConsistent api actor remark).at s h

-- Each call of a route keeps a case consistent.
perform-IsConsistent :
    (api : Api) (actor : String) (cmd : Command) → Keeps IsConsistent (perform api actor cmd)
unfolding perform
perform-IsConsistent api actor (reviews decision remark) = search (keeps_rules, review-IsConsistent)
perform-IsConsistent api actor (updates_emic entry remark to) =
    search (keeps_rules, update_emic-IsConsistent)
perform-IsConsistent api actor (confirms approve remark) =
    search (keeps_rules, community_confirm-IsConsistent)
perform-IsConsistent api actor (moves to remark is_public) =
    search (keeps_rules, escalate-IsConsistent, transition-IsConsistent)

-- Why a request is refused.
pub data Refusal (api : Api) (req : Request) (s : Site) (id : ℕ) (cmd : Command) : Type 0 where
  denied :
      (e : HttpError)
      → require api.uni api.crypto api.cfg api.now (review_cases ∷ []) req api.accounts ≡ refused e
      → Refusal api req s id cmd
  no_case : get_case s.db id ≡ none → Refusal api req s id cmd
  no_platform :
      (c : IncidentCase)
      → get_case s.db id ≡ some c
      → get_platform s c.platform_id ≡ none
      → Refusal api req s id cmd
  raised :
      (pr : Principal) (c : IncidentCase) (e : CaseError) (t : Session)
      → get_case s.db id ≡ some c
      → perform api (actor_name pr) cmd (record { case = c; db = s.db }) ≡ (err e, t)
      → Refusal api req s id cmd

-- The request was answered with an error for a reason, and nothing has happened.
pub record Untouched (api : Api) (req : Request) (s : Site) (id : ℕ) (cmd : Command)
    (o : Outcome CaseActionResponse) : Type 0 where
  pub reason : Refusal api req s id cmd
  pub error : (code : ℕ) × (o.answer ≡ failed code)
  pub site : o.site ≡ s
  pub sent : o.sent ≡ []

-- The request was carried out.
pub record CarriedOut (api : Api) (req : Request) (s : Site) (id : ℕ) (cmd : Command)
    (o : Outcome CaseActionResponse) : Type 0 where
  pub principal : Principal
  pub allowed :
      require api.uni api.crypto api.cfg api.now (review_cases ∷ []) req api.accounts
      ≡ granted principal
  pub case : IncidentCase
  pub found : get_case s.db id ≡ some case
  pub platform : PlatformRow
  pub placed : get_platform s case.platform_id ≡ some platform
  pub result : Returned
  pub session : Session
  pub performed :
      perform api (actor_name principal) cmd (record { case = case; db = s.db })
      ≡ (ok result, session)
  pub answered :
      o.answer
      ≡ done (record {
        case = case_item session.case;
        event = item_of result.event;
        result = result.result;
      })
  pub saved : o.site ≡ committed s session
  pub consistent : IsConsistent session
  pub told : (same session.case.status case.status ≡ false) ⊎ (o.sent ≡ [])

respond-told :
    (api : Api) (s : Site) (p : PlatformRow) (previous : CaseStatus) (t : Session) (r : Returned)
    → (same t.case.status previous ≡ false) ⊎ ((respond api s p previous t r).sent ≡ [])
unfolding respond after_commit
respond-told api s p previous t r = elim (Bool-cases (same t.case.status previous)) [
  | inl e ↦ inr (ground (arith, e))
  | inr e ↦ inl e
]

-- From the service's answer on.
settle_cases :
    (api : Api) (req : Request) (s : Site) (id : ℕ) (cmd : Command) (pr : Principal)
    (c : IncidentCase) (p : PlatformRow) (out : Result Returned × Session)
    → require api.uni api.crypto api.cfg api.now (review_cases ∷ []) req api.accounts ≡ granted pr
    → get_case s.db id ≡ some c
    → IsConsistent (record { case = c; db = s.db })
    → get_platform s c.platform_id ≡ some p
    → perform api (actor_name pr) cmd (record { case = c; db = s.db }) ≡ out
    → Untouched api req s id cmd (settle api s p c.status cmd out)
      ⊎ CarriedOut api req s id cmd (settle api s p c.status cmd out)
unfolding respond
settle_cases api req s id cmd pr c p (err e, t) a f k g h =
    inl (record { reason = raised pr c e t f h; error = (_, refl); site = refl; sent = refl })
settle_cases api req s id cmd pr c p (ok r, t) a f k g h = inr (record {
  principal = pr;
  allowed = a;
  case = c;
  found = f;
  platform = p;
  placed = g;
  result = r;
  session = t;
  performed = h;
  answered = refl;
  saved = refl;
  consistent =
      subst (λ (o : Result Returned × Session). IsConsistent o.1) h
        ((perform-IsConsistent api (actor_name pr) cmd).at (record { case = c; db = s.db }) k);
  told = respond-told api s p c.status t r;
})

module _ (api : Api) (req : Request) (s : Site) (id : ℕ) (cmd : Command)
    (sound : (c : IncidentCase)
      → get_case s.db id ≡ some c
      → IsConsistent (record { case = c; db = s.db })) where
  abbrev Settled : Outcome CaseActionResponse → Type 0
  Settled o = Untouched api req s id cmd o ⊎ CarriedOut api req s id cmd o

  platform_cases :
      (pr : Principal) (c : IncidentCase) (o : Option PlatformRow)
      → require api.uni api.crypto api.cfg api.now (review_cases ∷ []) req api.accounts ≡ granted pr
      → get_case s.db id ≡ some c
      → get_platform s c.platform_id ≡ o
      → Settled (with_platform s o (on_platform api s cmd pr c))
  platform_cases pr c none h f g =
      inl (record { reason = no_platform c f g; error = (_, refl); site = refl; sent = refl })
  platform_cases pr c (some p) h f g = settle_cases api req s id cmd pr c p _ h f (sound c f) g refl

  case_cases :
      (pr : Principal) (o : Option IncidentCase)
      → require api.uni api.crypto api.cfg api.now (review_cases ∷ []) req api.accounts ≡ granted pr
      → get_case s.db id ≡ o
      → Settled (with_case s o (on_case api s cmd pr))
  case_cases pr none h f =
      inl (record { reason = no_case f; error = (_, refl); site = refl; sent = refl })
  case_cases pr (some c) h f = platform_cases pr c (get_platform s c.platform_id) h f refl

  access_cases :
      (a : Access)
      → require api.uni api.crypto api.cfg api.now (review_cases ∷ []) req api.accounts ≡ a
      → Settled (by_access s (λ pr. with_case s (get_case s.db id) (on_case api s cmd pr)) a)
  access_cases (refused e) h =
      inl (record { reason = denied e h; error = (_, refl); site = refl; sent = refl })
  access_cases (granted pr) h = case_cases pr (get_case s.db id) h refl

-- A request to change a case, which is consistent if it exists, has one of two outcomes. It is answered
-- with an error, because `require` refuses it, the case or its platform does not exist, or the service
-- raised; then the site is as before and nothing is sent, even where the service had written. Or it
-- comes from somebody whom `require` grants the permission to review cases, the case and its platform
-- exist, the answer and the site are what the service's call on the case gives and leaves, made in this
-- person's name, the case is consistent again, and its status has changed or nothing is sent.
pub act_lem :
    (api : Api) (req : Request) (s : Site) (id : ℕ) (cmd : Command)
    → ((c : IncidentCase)
        → get_case s.db id ≡ some c
        → IsConsistent (record { case = c; db = s.db }))
    → Untouched api req s id cmd (act api req s id cmd)
      ⊎ CarriedOut api req s id cmd (act api req s id cmd)
unfolding act
act_lem api req s id cmd sound = access_cases api req s id cmd sound _ refl
