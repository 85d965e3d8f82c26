-- ===== src/Console/Privacy.antt =====
-- Who sees personal data in the console.
use mathlib.Core.Path.{subst}
use aidflow.Prelude.{
  ℕ, ◌≡◌, refl, ◌∙◌, Bool, true, false, ◌&&◌, ◌||◌, Option, none, some, List, [], ◌∷◌, ◌++◌, any,
  map, arith, is_text, All, Bool-cases, ◌⊎◌, inl, inr,
}
use aidflow.Models.{Report, IncidentCase, EventOutbox, Json, Payload, get_key, enqueue_event}
use aidflow.Models.Table.{get}
use aidflow.Permissions.{view_console, view_pii}
use aidflow.Access.{Request, Principal, Access, granted, refused, require, can}
use aidflow.Cases.Queries.{get_case, reports_of}
use aidflow.Platforms.Rows.{Site}
use aidflow.Privacy.{Patterns}
use aidflow.Console.{Api, done, failed, Outcome, actor_name, by_access, with_case}
use aidflow.Console.Records.{
  ReportInternal, has_pii, report_internal, audited, case_viewed, report_viewed, detail, view_case,
  report_detail, with_report, view_report,
}

-- The report in the answer names nobody.
pub record IsAnonymous (x : ReportInternal) : Type 0 where
  pub name : x.reporter_name ≡ none
  pub contact : x.reporter_contact ≡ none
  pub email : x.reporter_email ≡ none

abbrev pub names_somebody : ReportInternal → Bool
names_somebody x = is_text x.reporter_name || is_text x.reporter_contact || is_text x.reporter_email

-- The audit log has one more entry, of a view by a person.
pub record Logged (pr : Principal) (id : ℕ) (s t : Site) : Type 0 where
  pub row : EventOutbox
  pub added : t.db.outbox ≡ s.db.outbox ++ row ∷ []
  pub kind : row.event_type ≡ "pii.viewed"
  pub of : row.aggregate_id ≡ some id
  pub by : get_key "username" row.payload ≡ Json.text (actor_name pr)

-- What the answer shows, and what it leaves behind.
pub record Disclosed (pr : Principal) (id : ℕ) (xs : List ReportInternal) (s t : Site)
    : Type 0 where
  pub hidden : (can pr view_pii ≡ true) ⊎ All IsAnonymous xs
  pub log :
      ((any names_somebody xs ≡ true) × Logged pr id s t)
      ⊎ ((any names_somebody xs ≡ false) × (t ≡ s))

module _ (tools : Patterns) where
  hidden_reports : (rs : List Report) → All IsAnonymous (map (report_internal tools false) rs)
  unfolding report_internal
  hidden_reports [] = tt
  hidden_reports (r ∷ rs) =
      (record { name = refl; contact = refl; email = refl }, hidden_reports rs)

  names-pii :
      (b : Bool) (rs : List Report)
      → any names_somebody (map (report_internal tools b) rs) ≡ (b && any has_pii rs)
  unfolding report_internal has_pii
  names-pii b [] = ground arith
  names-pii b (r ∷ rs) = ground (arith, names-pii b rs)

audited-logged :
    (b : Bool) (pr : Principal) (id : ℕ) (payload : Payload) (s : Site)
    → b ≡ true
    → get_key "username" payload ≡ Json.text (actor_name pr)
    → Logged pr id s (audited b id payload s)
unfolding enqueue_event
audited-logged b pr id payload s e k =
    rw e (record { row = _; added = refl; kind = refl; of = refl; by = k })

audited-quiet :
    (b : Bool) (id : ℕ) (payload : Payload) (s : Site) → b ≡ false → audited b id payload s ≡ s
audited-quiet b id payload s e = rw e refl

disclosed :
    (tools : Patterns) (pr : Principal) (id : ℕ) (payload : Payload) (rs : List Report) (s : Site)
    → get_key "username" payload ≡ Json.text (actor_name pr)
    → Disclosed pr id
        (map (report_internal tools (can pr view_pii)) rs)
        s
        (audited (can pr view_pii && any has_pii rs) id payload s)
disclosed tools pr id payload rs s k = record {
  hidden = elim (Bool-cases (can pr view_pii)) [
    | inl e ↦ inl e
    | inr e ↦ inr (rw e (hidden_reports tools rs))
  ];
  log = elim (Bool-cases (can pr view_pii && any has_pii rs)) [
    | inl e ↦ inl (names-pii tools (can pr view_pii) rs ∙ e, audited-logged _ pr id payload s e k)
    | inr e ↦ inr (names-pii tools (can pr view_pii) rs ∙ e, audited-quiet _ id payload s e)
  ];
}

-- Whoever is answered, and what this person was shown.
pub record Seen (api : Api) (req : Request) (xs : List ReportInternal) (s t : Site) : Type 0 where
  pub principal : Principal
  pub allowed :
      require api.uni api.crypto api.cfg api.now (view_console ∷ []) req api.accounts
      ≡ granted principal
  pub subject : ℕ
  pub disclosed : Disclosed principal subject xs s t

-- A request is refused and changes nothing, or answered with reports.
pub data Screened {V : Type 0} (reports : V → List ReportInternal) (api : Api) (req : Request)
    (s : Site) (o : Outcome V) : Type 0 where
  rejected : (code : ℕ) → o.answer ≡ failed code → o.site ≡ s → Screened reports api req s o
  answered :
      (v : V) → o.answer ≡ done v → Seen api req (reports v) s o.site → Screened reports api req s o

abbrev pub alone : ReportInternal → List ReportInternal
alone v = v ∷ []

or_false : (b : Bool) → (b || false) ≡ b
or_false true = refl
or_false false = refl

module _ (tools : Patterns) (api : Api) (req : Request) (s : Site) where
  abbrev access : Access
  access = require api.uni api.crypto api.cfg api.now (view_console ∷ []) req api.accounts

  Screened-case :
      (a : Access) (o : Option IncidentCase)
      → access ≡ a
      → Screened
          (λ v. v.reports)
          api
          req
          s
          (by_access s (λ pr. with_case s o (detail tools s pr)) a)
  unfolding detail
  Screened-case (refused e) o h = rejected _ refl refl
  Screened-case (granted pr) none h = rejected _ refl refl
  Screened-case (granted pr) (some c) h =
      let rs = reports_of s.db c.id in
      answered _ refl (record {
        principal = pr;
        allowed = h;
        subject = c.id;
        disclosed = disclosed tools pr c.id (case_viewed pr c rs) rs s refl;
      })

  one_report :
      (pr : Principal) (r : Report)
      → Disclosed pr r.id
          (report_internal tools (can pr view_pii) r ∷ [])
          s
          (audited (can pr view_pii && has_pii r) r.id (report_viewed pr r) s)
  one_report pr r =
      subst
        (λ (b : Bool).
          Disclosed pr r.id (report_internal tools (can pr view_pii) r ∷ []) s
            (audited (can pr view_pii && b) r.id (report_viewed pr r) s))
        (or_false (has_pii r)) (disclosed tools pr r.id (report_viewed pr r) (r ∷ []) s refl)

  Screened-report :
      (a : Access) (o : Option Report)
      → access ≡ a
      → Screened alone api req s
          (by_access s (λ pr. with_report tools s o (report_detail tools s pr)) a)
  Screened-report (refused e) o h = rejected _ refl refl
  Screened-report (granted pr) none h = rejected _ refl refl
  Screened-report (granted pr) (some r) h =
      answered _ refl
        (record { principal = pr; allowed = h; subject = r.id; disclosed = one_report pr r })

-- A request for the page of a case or of a report is refused, and then the site stays as it is, or comes
-- from somebody whom `require` grants the console. This person may view personal data, or the answer has
-- no name, contact or mail address of any reporter. Where the answer has one of these, the audit log got
-- an entry with this person's name; otherwise the site stays as it is.
pub view_lem :
    (tools : Patterns) (api : Api) (req : Request) (s : Site) (id : ℕ)
    → Screened (λ v. v.reports) api req s (view_case tools api req s id)
      × Screened alone api req s (view_report tools api req s id)
unfolding view_case view_report
view_lem tools api req s id = (
  Screened-case tools api req s _ (get_case s.db id) refl,
  Screened-report tools api req s _ (get (λ r. r.id) id s.db.reports) refl,
)
