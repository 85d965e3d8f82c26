-- ===== src/Line/Webhook.antt =====
-- `handle_webhook` of apps/api/app/services/line_service.py: what the events of a verified request
-- do, in their order.
pub mod Safe
use Prim.Native.Char.{code}
use aidflow.Prelude.{
  ℕ, zero, suc, ◌+◌, String, Bool, not, ◌&&◌, Option, none, some, List, [], ◌∷◌, ◌++◌, first, strip,
  is_text, text_or, is_empty, starts_with, ◌⧺◌, if◌then◌else◌,
}
use aidflow.Models.{Time}
use aidflow.Cases.Numbering.{is_ascii_alnum}
use aidflow.Platforms.Rows.{PlatformRow, LineGroup, joined, left, Site, change_platform}
use aidflow.Line.{change_row, with_row, owner, is_group, clear_if, code_of, bind_group}

-- What an event is about; a message that is no text is `another`, as every other type.
pub data EventType : Type 0 where
  join leave another : EventType
  message : String → EventType

pub record LineEvent : Type 0 where
  pub group_id : Option String
  pub room_id : Option String
  pub type : EventType
  pub reply_token : Option String

-- What is left behind: the rows, the number of events that were handled, and the replies.
pub record Handled : Type 0 where
  pub site : Site
  pub handled : ℕ
  pub replies : List (String × String)

-- Six letters or digits, and no more.
code_of_six : ℕ → String → Option String
unfolding is_ascii_alnum
code_of_six zero String.[] = some ""
code_of_six zero (String.◌∷◌ c s) = none
code_of_six (suc n) String.[] = none
code_of_six (suc n) (String.◌∷◌ c s) =
    let rest = code_of_six n s in
    if is_ascii_alnum (code c)
    then elim rest [ none ↦ none | some r ↦ some (String.◌∷◌ c r) ]
    else none

drop_two : String → String
drop_two (String.◌∷◌ c (String.◌∷◌ d s)) = s
drop_two _ = ""

-- `_BIND_RE`: the word, and a code of six letters or digits, with space around them.
unfoldable pub code_in : String → Option String
unfolding strip drop_two code_of_six
code_in said =
    let t = strip said in if starts_with t "綁定" then code_of_six 6 (strip (drop_two t)) else none

abbrev has_code : String → PlatformRow → Bool
has_code c p = is_group (code_of p) c

-- A row that had left joins again.
abbrev rejoined : LineGroup → LineGroup
rejoined r = elim r.status [ left ↦ record r { status = joined } | _ ↦ r ]

abbrev gone : LineGroup → LineGroup
gone r = record r { platform_id = none; status = left }

abbrev pub join_group : String → Site → Site
join_group g s = with_row g joined (record s { groups = change_row g rejoined s.groups })

abbrev pub forget : Option ℕ → String → Site → Site
forget none g s = s
forget (some j) g s = change_platform j (clear_if g) s

-- The platform that the group was bound to forgets it.
abbrev pub leave_group : String → Site → Site
leave_group g s =
    let cleared = forget (owner s g) g s in
    record cleared { groups = change_row g gone cleared.groups }

-- `source.get("groupId") or source.get("roomId")`
abbrev group_or_room : LineEvent → String
group_or_room ev = if is_text ev.group_id then text_or ev.group_id "" else text_or ev.room_id ""

module _ (iso : Time → String) (upper : String → String) (now : Time) (configured : Bool) where
  -- `_reply`; an error of LINE is logged only.
  abbrev reply : LineEvent → String → List (String × String)
  reply ev t =
      if is_text ev.reply_token && configured then (text_or ev.reply_token "", t) ∷ [] else []

  abbrev welcome : String
  welcome = "AidFlow 災情通報機器人已加入。\n請系統管理者在政府管理後台取得綁定代碼，並在此群組輸入「綁定 代碼」。"

  abbrev after_bind : LineEvent → PlatformRow → Site → Option Site → Handled
  after_bind ev p s none = record {
    site = s;
    handled = 0;
    replies = reply ev "此聊天室無法綁定，請在 LINE 群組中操作。";
  }
  after_bind ev p s (some s') = record {
    site = s';
    handled = 1;
    replies = reply ev ("已綁定「" ⧺ p.name ⧺ "」。之後有新災情通報時，會通知本群組。");
  }

  bind_by_code : LineEvent → String → Option PlatformRow → Site → Handled
  unfolding bind_group
  bind_by_code ev g none s = record {
    site = s;
    handled = 0;
    replies = reply ev "綁定代碼不正確，請確認後台顯示的代碼。";
  }
  bind_by_code ev g (some p) s = after_bind ev p s (bind_group iso now p.id g (some "LINE 群組綁定") s)

  handle_code : LineEvent → String → Option String → Site → Handled
  unfolding bind_by_code
  handle_code ev g none s = record { site = s; handled = 0; replies = [] }
  handle_code ev g (some c) s = bind_by_code ev g (first (has_code (upper c)) s.platforms) s

  handle_group : LineEvent → String → EventType → Site → Handled
  unfolding code_in handle_code
  handle_group ev g join s = record {
    site = join_group g s;
    handled = 1;
    replies = reply ev welcome;
  }
  handle_group ev g leave s = record { site = leave_group g s; handled = 1; replies = [] }
  handle_group ev g another s = record { site = s; handled = 0; replies = [] }
  handle_group ev g (message t) s = handle_code ev g (code_in t) s

  unfoldable pub handle_event : LineEvent → Site → Handled
  unfolding handle_group
  handle_event ev s =
      if is_empty (group_or_room ev)
      then record { site = s; handled = 0; replies = [] }
      else handle_group ev (group_or_room ev) ev.type s

  unfoldable pub handle_webhook : List LineEvent → Site → Handled
  unfolding handle_event
  handle_webhook [] s = record { site = s; handled = 0; replies = [] }
  handle_webhook (ev ∷ evs) s =
      let one = handle_event ev s in
      let rest = handle_webhook evs one.site in
      record {
        site = rest.site;
        handled = one.handled + rest.handled;
        replies = one.replies ++ rest.replies;
      }
