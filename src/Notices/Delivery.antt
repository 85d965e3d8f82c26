-- ===== src/Notices/Delivery.antt =====
-- Deliveries and the log: `_deliver`, `_send`, `_log` and `_staff` of
-- apps/api/app/services/notification_service.py.
use Prim.Native.Char.{code}
use aidflow.Prelude.{
  ℕ, String, Bool, true, false, Option, none, some, List, [], ◌∷◌, is_empty, is_text, text_or,
  or_none, take_text, ◌⧺◌, if◌then◌else◌, ◌==◌,
}
use aidflow.Privacy.{Patterns}
use aidflow.Models.{Time, get_key}
use aidflow.Platforms.Rows.{PlatformRow}
use aidflow.Line.{as_text}

pub data Channel : Type 0 where
  line_channel email_channel : Channel

pub record Job : Type 0 where
  pub channel : Channel
  pub kind : String
  pub to : Option String
  pub masked : Option String
  pub subject : String
  pub body : String
  pub platform_id : ℕ
  pub case_id : Option ℕ
  pub report_id : Option ℕ
  pub skip_reason : String

-- `NotificationLog`
pub record NotificationLog : Type 0 where
  pub platform_id : ℕ
  pub case_id : Option ℕ
  pub report_id : Option ℕ
  pub channel : Channel
  pub kind : String
  pub recipient : Option String
  pub status : String
  pub detail : Option String

-- What `_deliver` returns and leaves.
pub record Delivery : Type 0 where
  pub status : String
  pub logs : List NotificationLog
  pub jobs : List Job

-- What comes of sending a job: the reference of LINE, or the reason of an error.
pub data Sent : Type 0 where
  sent : Option String → Sent
  failed : String → Sent

-- Whether each channel is configured, and texts that are made outside: the base address of the web
-- site, a UUID, a moment as a date, the patterns of privacy_service and `str.lower`.
pub record Outside : Type 0 where
  pub line_configured : Bool
  pub mail_configured : Bool
  pub web : String
  pub uuid : ℕ → String
  pub stamp : Time → String
  pub patterns : Patterns
  pub lower : String → String

-- `_log`
abbrev pub log : Job → String → String → NotificationLog
log job status detail = record {
  platform_id = job.platform_id;
  case_id = job.case_id;
  report_id = job.report_id;
  channel = job.channel;
  kind = job.kind;
  recipient = job.masked;
  status = status;
  detail = or_none (take_text 500 detail);
}

-- `_send`, on the worker thread
unfoldable pub send : (Job → Sent) → Job → NotificationLog
unfolding take_text
send transport job = go (transport job)
  where
    go : Sent → NotificationLog
    go (sent none) = log job "sent" ""
    go (sent (some ref)) = log job "sent" (if is_empty ref then "" else "LINE request id " ⧺ ref)
    go (failed reason) = log job "failed" reason

abbrev is_configured : Outside → Channel → Bool
is_configured out line_channel = out.line_configured
is_configured out email_channel = out.mail_configured

abbrev why : Channel → String
why line_channel = "LINE_CHANNEL_ACCESS_TOKEN 未設定；未實際送出"
why email_channel = "SMTP_HOST 未設定；未實際送出"

-- By whether the job has an address, and whether its channel is configured.
abbrev pub delivery : Bool → Bool → Job → Delivery
delivery false ready job = record {
  status = "skipped";
  logs = log job "skipped" (if is_empty job.skip_reason then "沒有收件對象" else job.skip_reason) ∷ [];
  jobs = [];
}
delivery true false job = record {
  status = "simulated";
  logs = log job "simulated" (why job.channel) ∷ [];
  jobs = [];
}
delivery true true job = record { status = "queued"; logs = []; jobs = job ∷ [] }

unfoldable pub deliver : Outside → Job → Delivery
unfolding take_text
deliver out job = delivery (is_text job.to) (is_configured out job.channel) job

abbrev pub at_sign : String → Bool
at_sign String.[] = false
at_sign (String.◌∷◌ c s) = let later = at_sign s in if code c == b'@' then true else later

abbrev after_at : String → String
after_at String.[] = ""
after_at (String.◌∷◌ c s) = let later = after_at s in if code c == b'@' then s else later

abbrev local_initial : String → String
local_initial String.[] = ""
local_initial (String.◌∷◌ c s) = if code c == b'@' then "" else String.◌∷◌ c ""

unfoldable pub mask_email : String → Option String
mask_email addr = if at_sign addr then some (local_initial addr ⧺ "***@" ⧺ after_at addr) else none

-- `line_group_for`
abbrev pub line_group_for : PlatformRow → Option String
line_group_for p = or_none (text_or (as_text (get_key "line_group_id" p.configuration)) "")

abbrev masked_group : Option String → Option String
masked_group none = none
masked_group (some g) = some ("群組 " ⧺ take_text 8 g ⧺ "…")

-- `_staff`
unfoldable pub staff : Outside → PlatformRow → String → String → Option ℕ → Option ℕ → Delivery
unfolding deliver take_text
staff out p kind body case_id report_id = deliver out (record {
  channel = line_channel;
  kind = kind;
  to = line_group_for p;
  masked = masked_group (line_group_for p);
  subject = "";
  body = body;
  platform_id = p.id;
  case_id = case_id;
  report_id = report_id;
  skip_reason = "此平台尚未綁定 LINE 群組";
})
