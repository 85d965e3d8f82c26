-- ===== src/Notices/Reporters.antt =====
-- Whom `notify_reporters` writes to.
use mathlib.Core.Path.{subst}
use aidflow.Prelude.{
  ℕ, String, ◌≡◌, refl, sym, ap, ◌∙◌, inl, inr, Bool, true, false, not, ◌&&◌, ◌||◌, Option, none,
  some, List, [], ◌∷◌, map, select, any, length, member, str_eq, eq_iff, eq_refl, is_empty, In, All,
  Bool-cases, arith, if◌then◌else◌,
}
use aidflow.Models.{Db, Report, IncidentCase}
use aidflow.Platforms.Rows.{PlatformRow}
use aidflow.Clusters.Counting.{is_distinct}
use aidflow.Notices.Delivery.{Outside, Job, Delivery, deliver}
use aidflow.Notices.Mail.{address, mail_job, mail_jobs, hears, notify_reporters}

-- The address of a job.
abbrev pub to_text : Option String → String
to_text none = ""
to_text (some a) = a

abbrev pub sent_to : Job → String
sent_to j = to_text j.to

module _ (out : Outside) (p : PlatformRow) (c : IncidentCase) where
  abbrev pub is_for : String → Report → Bool
  is_for a r = str_eq a (address out r)

  -- The report is passed over.
  abbrev passed : List String → Report → Bool
  passed seen r = is_empty (address out r) || member (address out r) seen

  -- The loop's two ways with a report.
  abbrev after : Bool → List String → Report → List Report → List Job
  after b seen r rs =
      let later = mail_jobs out p c (if b then seen else address out r ∷ seen) rs in
      if b then later else mail_job out p c r ∷ later

  mail_jobs-nil : (seen : List String) → mail_jobs out p c seen [] ≡ []
  unfolding mail_jobs
  mail_jobs-nil seen = refl

  mail_jobs-cons :
      (seen : List String) (r : Report) (rs : List Report) (b : Bool)
      → passed seen r ≡ b
      → mail_jobs out p c seen (r ∷ rs) ≡ after b seen r rs
  unfolding mail_jobs
  mail_jobs-cons seen r rs b e = ap (λ x. after x seen r rs) e

  sent_to-mail_job : (r : Report) → sent_to (mail_job out p c r) ≡ address out r
  unfolding mail_job
  sent_to-mail_job r = refl

  abbrev addresses : List String → List Report → List String
  addresses seen rs = map sent_to (mail_jobs out p c seen rs)

  member-addresses :
      (a : String) (seen : List String) (rs : List Report)
      → member a (addresses seen rs)
        ≡ (not (is_empty a) && not (member a seen) && any (is_for a) rs)
  member-addresses a seen [] =
      ap (λ js. member a (map sent_to js)) (mail_jobs-nil seen) ∙ ground arith
  member-addresses a seen (r ∷ rs) = elim (Bool-cases (passed seen r)) [
    | inl e ↦
        ap (λ js. member a (map sent_to js)) (mail_jobs-cons seen r rs true e)
        ∙ member-addresses a seen rs
        ∙ skipped e (any (is_for a) rs)
    | inr e ↦
        ap (λ js. member a (map sent_to js)) (mail_jobs-cons seen r rs false e)
        ∙ ap (λ x. str_eq a x || member a (addresses (address out r ∷ seen) rs))
            (sent_to-mail_job r)
        ∙ ap (λ x. str_eq a (address out r) || x) (member-addresses a (address out r ∷ seen) rs)
        ∙ mailed e (any (is_for a) rs)
  ]
    where
      skipped :
          passed seen r ≡ true
          → (x : Bool)
          → (not (is_empty a) && not (member a seen) && x)
            ≡ (not (is_empty a) && not (member a seen) && (is_for a r || x))
      skipped e x = elim (Bool-cases (str_eq a (address out r))) [
        | inl k ↦
            let q = (eq_iff a (address out r)).0 k in
            ground (arith, e, ap is_empty q, ap (λ y. member y seen) q)
        | inr k ↦ ground (arith, k)
      ]

      mailed :
          passed seen r ≡ false
          → (x : Bool)
          → (str_eq a (address out r)
              || (not (is_empty a) && not (member a (address out r ∷ seen)) && x))
            ≡ (not (is_empty a) && not (member a seen) && (is_for a r || x))
      mailed e x = elim (Bool-cases (str_eq a (address out r))) [
        | inl k ↦
            let q = (eq_iff a (address out r)).0 k in
            ground (arith, e, k, ap is_empty q, ap (λ y. member y seen) q)
        | inr k ↦ ground (arith, k)
      ]

  -- No address stands twice.
  distinct_addresses :
      (seen : List String) (rs : List Report) → is_distinct (addresses seen rs) ≡ true
  distinct_addresses seen [] = ap (λ js. is_distinct (map sent_to js)) (mail_jobs-nil seen)
  distinct_addresses seen (r ∷ rs) = elim (Bool-cases (passed seen r)) [
    | inl e ↦
        ap (λ js. is_distinct (map sent_to js)) (mail_jobs-cons seen r rs true e)
        ∙ distinct_addresses seen rs
    | inr e ↦
        ap (λ js. is_distinct (map sent_to js)) (mail_jobs-cons seen r rs false e)
        ∙ ap (λ x. is_distinct (x ∷ addresses (address out r ∷ seen) rs)) (sent_to-mail_job r)
        ∙ ground (
          arith,
          distinct_addresses (address out r ∷ seen) rs,
          member-addresses (address out r) (address out r ∷ seen) rs,
          eq_refl (address out r),
        )
  ]

  -- Each job is about a report of the list.
  abbrev IsAbout : List Report → Job → Type 0
  IsAbout rs j = (r : Report) × In r rs × (j ≡ mail_job out p c r)

  mail_jobs-IsAbout :
      (seen : List String) (all rs : List Report)
      → ((r : Report) → In r rs → In r all)
      → All (IsAbout all) (mail_jobs out p c seen rs)
  mail_jobs-IsAbout seen all [] h = subst (All (IsAbout all)) (sym (mail_jobs-nil seen)) tt
  mail_jobs-IsAbout seen all (r ∷ rs) h = elim (Bool-cases (passed seen r)) [
    | inl e ↦
        subst (All (IsAbout all)) (sym (mail_jobs-cons seen r rs true e))
          (mail_jobs-IsAbout seen all rs (λ x i. h x (inr i)))
    | inr e ↦ subst (All (IsAbout all)) (sym (mail_jobs-cons seen r rs false e)) (
      (r, h r (inl refl), refl),
      mail_jobs-IsAbout (address out r ∷ seen) all rs (λ x i. h x (inr i)),
    )
  ]

  -- What `notify_reporters` does for a case.
  pub record IsNotified (db : Db) (result : List Delivery × ℕ) : Type 0 where
    pub jobs : List Job
    pub delivered : result.0 ≡ map (deliver out) jobs
    pub attempted : result.1 ≡ length jobs
    -- one mail for an address, and one for each address that a subscribed report of the case gives
    pub once : is_distinct (map sent_to jobs) ≡ true
    pub every :
        (a : String)
        → member a (map sent_to jobs)
          ≡ (not (is_empty a) && any (is_for a) (select (hears c) db.reports))
    -- each mail is the one on a subscribed report of the case, to the address that it gives
    pub about : All (IsAbout (select (hears c) db.reports)) jobs

  -- `notify_reporters` attempts one mail for each address, compared without case and outer spaces, that
  -- a report of the case gives which is subscribed and not rejected: no address gets two, none is left
  -- out, no other address gets one, and each mail is about one of these reports.
  pub notify_reporters_lem : (db : Db) → IsNotified db (notify_reporters out db p c)
  unfolding notify_reporters
  notify_reporters_lem db = record {
    jobs = mail_jobs out p c [] (select (hears c) db.reports);
    delivered = refl;
    attempted = refl;
    once = distinct_addresses [] (select (hears c) db.reports);
    every = λ a. member-addresses a [] (select (hears c) db.reports) ∙ ground arith;
    about = mail_jobs-IsAbout [] _ (select (hears c) db.reports) (λ r i. i);
  }
