-- ===== src/Notices/Mail.antt =====
-- The mails to reporters: `notify_reporter`, `notify_reporters` and `unsubscribe` of
-- apps/api/app/services/notification_service.py.
use aidflow.Prelude.{◌||◌}
use aidflow.Prelude.{
  ℕ, String, Bool, false, not, ◌&&◌, Option, none, some, List, [], ◌∷◌, map, select, first, length,
  member, str_eq, is_empty, text_or, strip, if◌then◌else◌,
}
use aidflow.Models.{Db, Report, IncidentCase, is_rejected}
use aidflow.Models.Table.{save}
use aidflow.Cases.Creation.Basis.{is_id}
use aidflow.Platforms.Rows.{PlatformRow}
use aidflow.Notices.Delivery.{email_channel, Job, Delivery, Outside, deliver, mask_email}
use aidflow.Notices.Messages.{reporter_message}

-- `(report.reporter_email or "").strip().lower()`
unfoldable pub address : Outside → Report → String
unfolding strip
address out r = out.lower (strip (text_or r.reporter_email ""))

unfoldable pub mail_job : Outside → PlatformRow → IncidentCase → Report → Job
unfolding address reporter_message mask_email
mail_job out p c r =
    let (subject, body) = reporter_message out p c r in
    record {
      channel = email_channel;
      kind = "case_progress";
      to = some (address out r);
      masked = mask_email (address out r);
      subject = subject;
      body = body;
      platform_id = p.id;
      case_id = some c.id;
      report_id = some r.id;
      skip_reason = "";
    }

-- `notify_reporter`; `none` is "skipped" without a row in the log.
unfoldable pub notify_reporter : Outside → PlatformRow → IncidentCase → Report → Option Delivery
unfolding mail_job deliver address
notify_reporter out p c r =
    if not r.notify_opt_in || is_empty (address out r)
    then none
    else some (deliver out (mail_job out p c r))

-- The WHERE clause of `notify_reporters`.
abbrev pub hears : IncidentCase → Report → Bool
hears c r = is_id r.case_id c.id && r.notify_opt_in && not (is_rejected r.status)

-- The jobs of the loop, with the addresses that it has seen.
unfoldable pub mail_jobs :
    Outside → PlatformRow → IncidentCase → List String → List Report → List Job
unfolding mail_job address
mail_jobs out p c seen [] = []
mail_jobs out p c seen (r ∷ rs) =
    let skip = is_empty (address out r) || member (address out r) seen in
    let later = mail_jobs out p c (if skip then seen else address out r ∷ seen) rs in
    if skip then later else mail_job out p c r ∷ later

-- Every status is a milestone, so that the guard of `notify_reporters` never holds.
unfoldable pub notify_reporters : Outside → Db → PlatformRow → IncidentCase → List Delivery × ℕ
unfolding mail_jobs deliver
notify_reporters out db p c =
    let jobs = mail_jobs out p c [] (select (hears c) db.reports) in
    (map (deliver out) jobs, length jobs)

abbrev has_token : String → Report → Bool
has_token t r = elim r.notify_token [ none ↦ false | some k ↦ str_eq k t ]

abbrev silenced : Report → Report
silenced r = record r { notify_opt_in = false }

abbrev silence : Option Report → Db → Db × Option Report
silence none db = (db, none)
silence (some r) db =
    (record db { reports = save (λ x. x.id) (silenced r) db.reports }, some (silenced r))

unfoldable pub unsubscribe : Db → String → Db × Option Report
unfolding save
unsubscribe db token =
    if is_empty token then (db, none) else silence (first (has_token token) db.reports) db
