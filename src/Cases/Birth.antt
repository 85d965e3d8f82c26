-- ===== src/Cases/Birth.antt =====
-- The case that `create_case_from_cluster` of apps/api/app/services/case_service.py makes.
use mathlib.Core.Path.{subst}
use aidflow.Prelude.{
  ℕ, ◌+◌, ◌<◌, String, ◌≡◌, refl, sym, ap, ◌∙◌, inl, inr, Option, none, some, List, [], ◌∷◌, arith,
  All, some_inj,
}
use aidflow.CaseStates.{pending_review}
use aidflow.Models.{Db, IncidentCase, Report, ReportCluster, Platform, Time, enqueue_event}
use aidflow.Cases.Session.{Session}
use aidflow.Cases.Lifecycle.{EventArgs, event, event_row}
use aidflow.Cases.Sound.{IsSound}
use aidflow.Cases.Timeline.{replay, unborn, at_status, replay-noted, replay-born, replay-unknown}
use aidflow.Cases.History.{IsConsistent}
use aidflow.Cases.Numbering.{insert_case}
use aidflow.Cases.Numbers.{Inserted, Outcome, insert_from_lem}
use aidflow.Cases.Creation.{
  Trigger, threshold, manual, receive, receive_all, announce, populate, draft_case,
  create_case_from_cluster, created_args, threshold_args, received_args, link_photos,
}
use aidflow.Cases.Creation.Basis.{TextTools, reports_for, by_time, last_time}

-- The case is `c`, and it has no history yet.
record Unborn (c : IncidentCase) (s : Session) : Type 0 where
  same_case : s.case ≡ c
  no_history : replay c.id s.db.events ≡ unborn

event-Unborn :
    (now : Time) (a : EventArgs) (c : IncidentCase) (s : Session)
    → a.to_status ≡ none
    → Unborn c s
    → Unborn c (event now a s).1
unfolding event enqueue_event
event-Unborn now a c s n u = record {
  same_case = u.same_case;
  no_history = replay-noted c.id s.db.events (event_row s.db.next_id now s.case a) n ∙ u.no_history;
}

receive-Unborn :
    (now : Time) (n : ℕ) (r : Report) (c : IncidentCase) (s : Session)
    → Unborn c s
    → Unborn c (receive now n r s)
unfolding receive link_photos
receive-Unborn now n r c s u =
    event-Unborn now (received_args n r) c _ refl
      (record { same_case = u.same_case; no_history = u.no_history })

receive_all-Unborn :
    (now : Time) (n : ℕ) (rs : List Report) (c : IncidentCase) (s : Session)
    → Unborn c s
    → Unborn c (receive_all now n rs s)
unfolding receive_all
receive_all-Unborn now n [] c s u = u
receive_all-Unborn now n (r ∷ rs) c s u =
    receive_all-Unborn now (n + 1) rs c (receive now n r s) (receive-Unborn now n r c s u)

-- A consistent case in the review queue.
abbrev pub Newborn : Session → Type 0
Newborn s = IsConsistent s × (s.case.status ≡ pending_review)

-- The last event of a new case starts its history.
event-born :
    (now : Time) (a : EventArgs) (c : IncidentCase) (s : Session)
    → a.from_status ≡ none
    → a.to_status ≡ some pending_review
    → c.status ≡ pending_review
    → IsSound c
    → Unborn c s
    → Newborn (event now a s).1
unfolding event enqueue_event
event-born now a c s f t p h u = (
  record {
    sound = subst IsSound (sym u.same_case) h;
    history =
        replay-born s.db.events (event_row s.db.next_id now s.case a)
          (subst (λ (x : IncidentCase). replay x.id s.db.events ≡ unborn) (sym u.same_case)
            u.no_history)
          refl f t
        ∙ ap at_status (sym (ap (λ (x : IncidentCase). x.status) u.same_case ∙ p));
  },
  ap (λ (x : IncidentCase). x.status) u.same_case ∙ p,
)

announce-IsConsistent :
    (now : Time) (tr : Trigger) (cluster : ReportCluster) (required : Option ℕ)
    (actor : Option String) (last_at : Time) (c : IncidentCase) (s : Session)
    → c.status ≡ pending_review
    → IsSound c
    → Unborn c s
    → Newborn (announce now tr cluster required actor last_at s)
unfolding announce
announce-IsConsistent now threshold cluster required actor last_at c s p h u =
    event-born now (created_args _ _ _ _ _) c _ refl refl p h
      (event-Unborn now (threshold_args cluster required (last_at + 1000)) c s refl u)
announce-IsConsistent now manual cluster required actor last_at c s p h u =
    event-born now (created_args _ _ _ _ _) c s refl refl p h u

draft-IsSound :
    (tools : TextTools) (now : Time) (id : ℕ) (p : Platform) (cluster : ReportCluster)
    (tr : Trigger) (rs : List Report) (number : String)
    → IsSound (record (draft_case tools now id p cluster tr rs) { case_number = number })
unfolding draft_case
draft-IsSound tools now id p cluster tr rs number = ground arith

abbrev draft : TextTools → Time → Platform → ReportCluster → Trigger → Db → IncidentCase
draft tools now p cluster tr db =
    draft_case tools now db.next_id p cluster tr (by_time (reports_for cluster.id db))

id-draft :
    (tools : TextTools) (now : Time) (id : ℕ) (p : Platform) (cluster : ReportCluster)
    (tr : Trigger) (rs : List Report)
    → ((draft_case tools now id p cluster tr rs).id ≡ id)
      × ((draft_case tools now id p cluster tr rs).status ≡ pending_review)
unfolding draft_case
id-draft tools now id p cluster tr rs = (refl, refl)

populate-Newborn :
    (tools : TextTools) (now : Time) (p : Platform) (cluster : ReportCluster) (tr : Trigger)
    (required : Option ℕ) (actor : Option String) (db : Db) (out : IncidentCase × Db)
    → All (λ e. e.case_id < db.next_id) db.events
    → Inserted (draft tools now p cluster tr db) (record db { next_id = db.next_id + 1 }) out
    → Newborn (populate now cluster tr required actor (by_time (reports_for cluster.id db)) out)
unfolding populate
populate-Newborn tools now p cluster tr required actor db (c, d) known i =
    let reports = by_time (reports_for cluster.id db) in
    let drafted : IncidentCase = draft tools now p cluster tr db in
    let facts = id-draft tools now db.next_id p cluster tr reports in
    let id' : c.id ≡ db.next_id = ap (λ (x : IncidentCase). x.id) i.numbered ∙ facts.0 in
    let events' : d.events ≡ db.events = ap (λ (x : Db). x.events) i.stored in
    announce-IsConsistent now tr cluster required actor (last_time now reports) c _
      (ap (λ (x : IncidentCase). x.status) i.numbered ∙ facts.1)
      (subst IsSound (sym i.numbered)
        (draft-IsSound tools now db.next_id p cluster tr reports i.number))
      (receive_all-Unborn now 1 reports c _ (record {
        same_case = refl;
        no_history = rw (id', events') (replay-unknown db.next_id db.events known);
      }))

none_ne : {A : Type 0} {a : A} → none ≡ some a → ⊥
none_ne h = cc

-- A case that is made of a cluster, by the threshold or by an officer, waits for its review, its
-- timestamps are in order, and its timeline tells its status. No event may name the identifier
-- that the case is given.
pub create_case_from_cluster-IsConsistent :
    (tools : TextTools) (now : Time) (p : Platform) (cluster : ReportCluster) (tr : Trigger)
    (required : Option ℕ) (actor : Option String) (db : Db) {s : Session}
    → All (λ e. e.case_id < db.next_id) db.events
    → create_case_from_cluster tools now p cluster tr required actor db ≡ some s
    → IsConsistent s × (s.case.status ≡ pending_review)
unfolding create_case_from_cluster
create_case_from_cluster-IsConsistent tools now p cluster tr required actor db {s} known made =
    go (insert_case tools.upper reserved p drafted drafted.created_at)
      (unfold insert_case in insert_from_lem tools.upper p drafted.created_at drafted reserved 5 0)
      made
  where
    drafted : IncidentCase
    drafted = draft tools now p cluster tr db

    reserved : Db
    reserved = record db { next_id = db.next_id + 1 }

    go :
        (r : Option (IncidentCase × Db))
        → Outcome tools.upper p drafted.created_at drafted reserved 5 0 r
        → (elim r [
          | none ↦ none
          | some out ↦
              some
                (populate now cluster tr required actor (by_time (reports_for cluster.id db)) out)
        ])
          ≡ some s
        → Newborn s
    go none o m = absurd (none_ne m)
    go (some out) (inr (e, _)) m = absurd (none_ne (sym e))
    go (some out) (inl (out', e, i)) m = subst Newborn (some_inj m) (
        populate-Newborn tools now p cluster tr required actor db out known
          (subst (Inserted drafted reserved) (sym (some_inj e)) i))
