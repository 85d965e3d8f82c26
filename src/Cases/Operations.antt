-- ===== src/Cases/Operations.antt =====
-- The invariant `IsConsistent` along the operations of apps/api/app/services/case_service.py.
use aidflow.Prelude.{ℕ, String, refl, Bool, true, false, Option, none, some, arith, if◌then◌else◌}
use aidflow.Models.{IncidentCase, CaseEvent, Time}
use aidflow.Privacy.{Patterns}
use aidflow.Cases.Session.{ok, Session}
use aidflow.Cases.Lifecycle.{or_now}
use aidflow.Cases.Actions.{
  Emic, EmicReply, keep_or, by_hand, accepted, failed, record_accepted, record_failed, record_reply,
  submit_case, report_to_emic, decide, review, community_submit, community_confirm, add_update,
}
use aidflow.Cases.EmicUpdate.{
  EmicEntry, entered_case, changes_of, is_empty_list, write_changes, record_changes, update_steps,
  add_note, move_to, update_emic,
}
use aidflow.Cases.Keeps.{Keeps, Keeps-guard, keeps_rules}
use aidflow.Cases.History.{
  IsConsistent, Harmless, transition-IsConsistent, event-IsConsistent, modify-IsConsistent,
}

ruleset rules = (keeps_rules, transition-IsConsistent, event-IsConsistent, modify-IsConsistent)

pub add_update-IsConsistent :
    (now : Time) (remark : String) (p : Bool) (actor : Option String) (at : Option Time)
    → Keeps IsConsistent (add_update now remark p actor at)
unfolding add_update
add_update-IsConsistent now remark p actor at = search (rules, harmless p)
  where
    harmless :
        (p : Bool) → Harmless (λ c. if p then record c { public_summary = some remark } else c)
    harmless true = record { id = λ c. refl; status = λ c. refl; sound = λ c h. ground arith }
    harmless false = record { id = λ c. refl; status = λ c. refl; sound = λ c h. h }

record_accepted-IsConsistent :
    (now : Time) (case_no status old : Option String)
    → Keeps IsConsistent (record_accepted now case_no status old)
unfolding record_accepted
record_accepted-IsConsistent now case_no status old = search (rules, harmless)
  where
    harmless : Harmless (λ c. record c {
      emic_channel = some "api";
      emic_case_no = keep_or case_no c.emic_case_no;
      emic_status = keep_or status c.emic_status;
      emic_synced_at = some now;
    })
    harmless = record { id = λ c. refl; status = λ c. refl; sound = λ c h. ground arith }

record_failed-IsConsistent :
    (now : Time) (reason : String) → Keeps IsConsistent (record_failed now reason)
unfolding record_failed
record_failed-IsConsistent now reason = search rules

record_reply-IsConsistent : (now : Time) (r : EmicReply) → Keeps IsConsistent (record_reply now r)
unfolding record_reply
record_reply-IsConsistent now (accepted n st) = record {
  at = λ s h. (record_accepted-IsConsistent now n st s.case.emic_case_no).at s h;
}
record_reply-IsConsistent now (failed reason) = record_failed-IsConsistent now reason

submit_case-IsConsistent : (emic : Emic) (now : Time) → Keeps IsConsistent (submit_case emic now)
unfolding submit_case
submit_case-IsConsistent emic now = record { at = λ s h. go emic.is_api s h }
  where
    go :
        (b : Bool) (s : Session)
        → IsConsistent s
        → IsConsistent
            (if b then record_reply now (emic.submit s.case s.db) s else (ok by_hand, s)).1
    go true s h = (record_reply-IsConsistent now (emic.submit s.case s.db)).at s h
    go false s h = h

pub report_to_emic-IsConsistent :
    (emic : Emic) (now : Time) (actor remark : Option String) (at : Option Time)
    → Keeps IsConsistent (report_to_emic emic now actor remark at)
unfolding report_to_emic
report_to_emic-IsConsistent emic now actor remark at =
    search (rules, harmless, submit_case-IsConsistent)
  where
    harmless : Harmless (λ c. record c { emic_channel = some "manual" })
    harmless = record { id = λ c. refl; status = λ c. refl; sound = λ c h. ground arith }

decide-IsConsistent :
    (emic : Emic) (now : Time) (decision : String) (actor remark : Option String) (at : Option Time)
    → Keeps IsConsistent (decide emic now decision actor remark at)
unfolding decide
decide-IsConsistent emic now decision actor remark at = search (rules, report_to_emic-IsConsistent)

-- The review of a case keeps it consistent, on every branch and whatever the EMIC endpoint replies.
pub review-IsConsistent :
    (emic : Emic) (now : Time) (decision : String) (actor remark : Option String) (at : Option Time)
    → Keeps IsConsistent (review emic now decision actor remark at)
unfolding review
review-IsConsistent emic now decision actor remark at =
    Keeps-guard _ _ _ (decide-IsConsistent emic now decision actor remark at)

pub community_submit-IsConsistent :
    (patterns : Patterns) (now : Time) (remark helper : Option String) (photos : ℕ)
    (at : Option Time)
    → Keeps IsConsistent (community_submit patterns now remark helper photos at)
unfolding community_submit
community_submit-IsConsistent patterns now remark helper photos at =
    Keeps-guard _ _ _ (transition-IsConsistent now _ _)

-- The officer's answer to a community report keeps the case consistent, approved or not, and also where
-- there is no report to confirm.
pub community_confirm-IsConsistent :
    (now : Time) (approve : Bool) (actor remark : Option String) (at : Option Time)
    → Keeps IsConsistent (community_confirm now approve actor remark at)
unfolding community_confirm
community_confirm-IsConsistent now true actor remark at =
    Keeps-guard _ _ _ (transition-IsConsistent now _ _)
community_confirm-IsConsistent now false actor remark at =
    Keeps-guard _ _ _ (transition-IsConsistent now _ _)

write_changes-IsConsistent :
    (now : Time) (e : EmicEntry) (old : IncidentCase) (actor : Option String) (at : Option Time)
    → Keeps IsConsistent (write_changes now e old actor at)
unfolding write_changes
write_changes-IsConsistent now e old actor at = search (rules, harmless)
  where
    harmless : Harmless (λ c. record (entered_case e c) { emic_synced_at = some (or_now at now) })
    harmless = record { id = λ c. refl; status = λ c. refl; sound = λ c h. ground arith }

record_changes-IsConsistent :
    (now : Time) (e : EmicEntry) (actor : Option String) (at : Option Time)
    → Keeps IsConsistent (record_changes now e actor at)
unfolding record_changes
record_changes-IsConsistent now e actor at = record {
  at = λ s h. go (is_empty_list (changes_of e s.case)) s h;
}
  where
    go :
        (b : Bool) (s : Session)
        → IsConsistent s
        → IsConsistent (if b then (ok none, s) else write_changes now e s.case actor at s).1
    go true s h = h
    go false s h = (write_changes-IsConsistent now e s.case actor at).at s h

add_note-IsConsistent :
    (now : Time) (remark actor : Option String) (at : Option Time)
    → Keeps IsConsistent (add_note now remark actor at)
unfolding add_note
add_note-IsConsistent now remark actor at = search (rules, add_update-IsConsistent)

move_to-IsConsistent :
    (now : Time) (to actor : Option String) (at : Option Time) (ev : Option CaseEvent)
    → Keeps IsConsistent (move_to now to actor at ev)
unfolding move_to
move_to-IsConsistent now to actor at ev = search rules

-- What EMIC says about a case is recorded with the case kept consistent, on every branch: refused,
-- nothing new, changes, a note, and a move, allowed or not.
pub update_emic-IsConsistent :
    (now : Time) (e : EmicEntry) (actor remark to : Option String) (at : Option Time)
    → Keeps IsConsistent (update_emic now e actor remark to at)
unfolding update_emic
update_emic-IsConsistent now e actor remark to at = Keeps-guard _ _ _ steps
  where
    steps : Keeps IsConsistent (update_steps now e actor remark to at)
    steps =
        search
          (keeps_rules, record_changes-IsConsistent, add_note-IsConsistent, move_to-IsConsistent)
