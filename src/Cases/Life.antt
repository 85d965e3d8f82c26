-- ===== src/Cases/Life.antt =====
-- The whole life of a case: made of a cluster, then any operations of
-- apps/api/app/services/case_service.py in any order, those that raise included.
use aidflow.Prelude.{ℕ, ◌<◌, String, ◌≡◌, refl, Bool, Option, some, arith, All}
use aidflow.Models.{Db, IncidentCase, Report, ReportCluster, Platform, Time}
use aidflow.Privacy.{Patterns}
use aidflow.Cases.Session.{Session}
use aidflow.Cases.Lifecycle.{Change, transition}
use aidflow.Cases.Actions.{Emic, review, community_submit, community_confirm, add_update}
use aidflow.Cases.EmicUpdate.{EmicEntry, update_emic}
use aidflow.Cases.Creation.{
  Trigger, create_case_from_cluster, attach_report_to_case, link_photos, received_args,
}
use aidflow.Cases.Creation.Basis.{TextTools}
use aidflow.Cases.Sound.{IsSound}
use aidflow.Cases.History.{IsConsistent, transition-IsConsistent, event-IsConsistent}
use aidflow.Cases.Operations.{
  add_update-IsConsistent, review-IsConsistent, community_submit-IsConsistent,
  community_confirm-IsConsistent, update_emic-IsConsistent,
}
use aidflow.Cases.Birth.{create_case_from_cluster-IsConsistent}

-- One call of the service on a case, with what it leaves in the session, also where it raises.
pub data Call : Session → Session → Type 0 where
  moved : (now : Time) (to : String) (ch : Change) (s : Session) → Call s (transition now to ch s).1
  reviewed :
      (emic : Emic) (now : Time) (decision : String) (actor remark : Option String)
      (at : Option Time) (s : Session)
      → Call s (review emic now decision actor remark at s).1
  updated :
      (now : Time) (e : EmicEntry) (actor remark to : Option String) (at : Option Time)
      (s : Session)
      → Call s (update_emic now e actor remark to at s).1
  submitted :
      (patterns : Patterns) (now : Time) (remark helper : Option String) (photos : ℕ)
      (at : Option Time) (s : Session)
      → Call s (community_submit patterns now remark helper photos at s).1
  confirmed :
      (now : Time) (approve : Bool) (actor remark : Option String) (at : Option Time) (s : Session)
      → Call s (community_confirm now approve actor remark at s).1
  noted :
      (now : Time) (remark : String) (p : Bool) (actor : Option String) (at : Option Time)
      (s : Session)
      → Call s (add_update now remark p actor at s).1
  attached :
      (now : Time) (report : Report) (cluster : ReportCluster) (s : Session)
      → Call s (attach_report_to_case now s.case report cluster s.db)

-- The sessions that a case can be in.
pub data Life : Session → Type 0 where
  made :
      (tools : TextTools) (now : Time) (p : Platform) (cluster : ReportCluster) (tr : Trigger)
      (required : Option ℕ) (actor : Option String) (db : Db) {s : Session}
      → All (λ e. e.case_id < db.next_id) db.events
      → create_case_from_cluster tools now p cluster tr required actor db ≡ some s
      → Life s
  called : {s s' : Session} → Life s → Call s s' → Life s'

attach-IsConsistent :
    (now : Time) (report : Report) (cluster : ReportCluster) (s : Session)
    → IsConsistent s
    → IsConsistent (attach_report_to_case now s.case report cluster s.db)
unfolding attach_report_to_case link_photos
attach-IsConsistent now report cluster s h =
    (event-IsConsistent now (received_args cluster.report_count report) refl).at _
      (record { sound = counted s.case h.sound; history = h.history })
  where
    counted :
        (c : IncidentCase) {n k : ℕ} {v : String}
        → IsSound c
        → IsSound (record c { report_count = n; unique_reporter_count = k; severity = v })
    counted c h = ground arith

call-IsConsistent : {s s' : Session} → Call s s' → IsConsistent s → IsConsistent s'
call-IsConsistent (moved now to ch s) h = (transition-IsConsistent now to ch).at s h
call-IsConsistent (reviewed emic now d actor remark at s) h =
    (review-IsConsistent emic now d actor remark at).at s h
call-IsConsistent (updated now e actor remark to at s) h =
    (update_emic-IsConsistent now e actor remark to at).at s h
call-IsConsistent (submitted patterns now remark helper photos at s) h =
    (community_submit-IsConsistent patterns now remark helper photos at).at s h
call-IsConsistent (confirmed now approve actor remark at s) h =
    (community_confirm-IsConsistent now approve actor remark at).at s h
call-IsConsistent (noted now remark p actor at s) h =
    (add_update-IsConsistent now remark p actor at).at s h
call-IsConsistent (attached now report cluster s) h = attach-IsConsistent now report cluster s h

-- A case that is made of a cluster stays consistent through every sequence of calls, those that raise
-- included: its timestamps and its track fit its status, and its timeline replays, by declared moves
-- only, to its status. When the case is made, no event may name the identifier that it is given.
pub Life-IsConsistent : {s : Session} → Life s → IsConsistent s
Life-IsConsistent (made tools now p cluster tr required actor db known e) =
    (create_case_from_cluster-IsConsistent tools now p cluster tr required actor db known e).0
Life-IsConsistent (called l c) = call-IsConsistent c (Life-IsConsistent l)
