-- ===== src/Cases/Examples.antt =====
-- A case of the platform of a county, made of one report, and runs of the theorems on it.
use aidflow.Prelude.{
  In, ltb, leb, ◌||◌, ◌==◌, IsChain, ℕ, ◌<◌, String, ◌≡◌, refl, ◌⊎◌, true, false, Option, none,
  some, [], ◌∷◌, arith, member,
}
use aidflow.CaseStates.{
  CaseStatus, value, elem, transitions, can_transition, pending_review, reported_emic,
  community_open, closed, dismissed,
}
use aidflow.Models.{
  Db, empty_db, IncidentCase, Report, ReportCluster, Platform, Time, ReportStatus, open_cluster,
}
use aidflow.Prelude.{Bool, count, ◌&&◌}
use aidflow.Privacy.{Patterns}
use aidflow.Cases.Queries.{get_case, timeline, timeline_lem}
use aidflow.Models.{CaseEvent, enqueue_event}
use aidflow.Models.Table.{get, save}
use aidflow.Cases.Session.{invalid_transition, err, Session}
use aidflow.Cases.Lifecycle.{Change, by_operator, transition}
use aidflow.Cases.Actions.{Emic, accepted, failed, review, community_submit, community_confirm}
use aidflow.Cases.EmicUpdate.{EmicEntry, update_emic}
use aidflow.Cases.Creation.{threshold, create_case_from_cluster, attach_report_to_case}
use aidflow.Cases.Creation.Basis.{TextTools, by_time}
use aidflow.Cases.Numbering.{insert_case, numbers_unique}
use aidflow.Cases.Numbers.{Inserted, is_taken, insert_case_lem}
use aidflow.Cases.Sound.{IsSound}
use aidflow.Cases.History.{IsConsistent}
use aidflow.Cases.Effects.{Changed, Decided, Refused, transition_lem, review_lem, final_case_lem}
use aidflow.Cases.Birth.{create_case_from_cluster-IsConsistent}
use aidflow.Cases.Life.{
  Life, made, called, attached, reviewed, submitted, confirmed, Life-IsConsistent,
}

abbrev pub no_patterns : Patterns
no_patterns = record {
  drop_floor = λ t. t;
  drop_house_no = λ t. t;
  drop_lane_alley = λ t. t;
  drop_trailing = λ t. t;
  redact_email = λ t. t;
  redact_tw_id = λ t. t;
  redact_phone = λ t. t;
  redact_name_hint = λ t. t;
  round_coord = λ x. x;
}

abbrev pub tools : TextTools
tools = record { upper = λ s. s; patterns = no_patterns }

abbrev pub platform : Platform
platform = record {
  id = 1;
  slug = "nantou";
  name = "南投縣";
  county = some "南投縣";
  is_archived = false;
  case_prefix = some "NT";
}

-- A report of an impassable road, at a fixed place and moment.
abbrev pub report : ℕ → Option String → Report
report id key = record {
  id = id;
  platform_id = 1;
  category = "road_blocked";
  description = none;
  severity = "medium";
  triage_severity = "medium";
  lat = some 23;
  lon = some 120;
  town = some "埔里鎮";
  address = none;
  reporter_role = "citizen";
  reporter_name = none;
  reporter_contact = none;
  reporter_email = none;
  notify_opt_in = false;
  notify_token = none;
  reporter_key = key;
  status = ReportStatus.received;
  cluster_id = some 7;
  case_id = none;
  photo_count = 0;
  source = "web";
  created_at = 1750000000000000;
}

abbrev pub cluster : ReportCluster
cluster = record {
  id = 7;
  platform_id = 1;
  category = "road_blocked";
  severity = "medium";
  centroid_lat = 23;
  centroid_lon = 120;
  town = some "埔里鎮";
  report_count = 1;
  unique_reporter_count = 1;
  status = open_cluster;
  case_id = none;
  first_reported_at = 1750000000000000;
  last_reported_at = 1750000000000000;
}

abbrev pub db : Db
db = record empty_db { reports = report 11 (some "a") ∷ []; clusters = cluster ∷ []; next_id = 20 }

abbrev now : Time
now = 1750000060000000

-- The reply of an endpoint that takes the case, and one that is down.
abbrev emic : Emic
emic = record { is_api = true; submit = λ c d. accepted (some "E-1") none }

abbrev emic_down : Emic
emic_down = record { is_api = true; submit = λ c d. failed "timeout" }

pub newborn_made :
    (s : Session) × (create_case_from_cluster tools now platform cluster threshold (some 1) none db
      ≡ some s)
unfolding create_case_from_cluster
newborn_made = (_, refl)

abbrev pub newborn : Session
newborn = newborn_made.0

pub newborn-IsConsistent : IsConsistent newborn × (newborn.case.status ≡ pending_review)
newborn-IsConsistent =
    create_case_from_cluster-IsConsistent tools now platform cluster threshold (some 1) none db tt
      newborn_made.1

pub newborn_found : get_case newborn.db newborn.case.id ≡ some newborn.case
unfolding newborn_made get_case create_case_from_cluster get enqueue_event save by_time
newborn_found = refl

-- ── the life of the case: a second report, the community, its report, and the confirmation ──

abbrev joined : Session
joined = attach_report_to_case now newborn.case (report 12 (some "b")) cluster newborn.db

abbrev opened : Session
opened = (review emic now "community" (some "officer") none none joined).1

abbrev handled : Session
handled = (community_submit no_patterns now (some "done") none 1 none opened).1

abbrev pub ended : Session
ended = (community_confirm now true (some "officer") none none handled).1

pub ended-Life : Life ended
ended-Life =
    called
      (called
        (called
          (called (made tools now platform cluster threshold (some 1) none db tt newborn_made.1)
            (attached now (report 12 (some "b")) cluster newborn))
          (reviewed emic now "community" (some "officer") none none joined))
        (submitted no_patterns now (some "done") none 1 none opened))
      (confirmed now true (some "officer") none none handled)

Life-IsConsistent_example : IsConsistent ended
Life-IsConsistent_example = Life-IsConsistent {s = ended} ended-Life

abbrev by_officer : Change
by_officer = by_operator (some "officer") none none

transition_lem_example :
    ((t : CaseStatus) × ("dismissed" ≡ value t)
      × (elem t (transitions newborn.case.status) ≡ true)
      × Changed t by_officer newborn (transition now "dismissed" by_officer newborn))
    ⊎ ((can_transition (value newborn.case.status) "dismissed" ≡ false)
        × (transition now "dismissed" by_officer newborn
            ≡ (err (invalid_transition (value newborn.case.status) "dismissed"), newborn)))
transition_lem_example = transition_lem now "dismissed" by_officer newborn

abbrev to_emic : String
to_emic = "emic"

review_lem_example :
    (to_emic ≡ "emic"
      → Decided reported_emic (review emic_down now to_emic (some "officer") none none newborn))
    × (to_emic ≡ "community"
        → Decided community_open (review emic_down now to_emic (some "officer") none none newborn))
    × (to_emic ≡ "dismiss"
        → Decided dismissed (review emic_down now to_emic (some "officer") none none newborn))
    × (member to_emic ("emic" ∷ "community" ∷ "dismiss" ∷ []) ≡ false
        → Refused (review emic_down now to_emic (some "officer") none none newborn) newborn)
review_lem_example =
    review_lem emic_down now to_emic (some "officer") none none newborn newborn-IsConsistent.1

abbrev entry : EmicEntry
entry = record { emic_case_no = some "E-1"; emic_status = some "dispatched"; assigned_unit = none }

-- ── the timeline ──

timeline_lem_example :
    IsChain
      (λ a b. ltb a.created_at b.created_at || (a.created_at == b.created_at && leb a.id b.id))
      (timeline newborn.db 20 true)
    × ((e : CaseEvent)
        → In e (timeline newborn.db 20 true)
        → (e.case_id ≡ 20) × (true ≡ true → e.is_public ≡ true))
    × ((p : CaseEvent → Bool)
        → ((e : CaseEvent) → p e ≡ true → (e.case_id ≡ 20) × (true ≡ true → e.is_public ≡ true))
        → count p (timeline newborn.db 20 true) ≡ count p newborn.db.events)
timeline_lem_example = timeline_lem newborn.db 20 true

-- ── a closed case ──

abbrev closed_session : Session
closed_session = record { case = record newborn.case { status = closed }; db = newborn.db }

final_case_lem_example :
    Refused (transition now "community_open" by_officer closed_session) closed_session
    × Refused
        (review emic now "community_open" (some "officer") none none closed_session)
        closed_session
    × Refused
        (update_emic now entry (some "officer") none (some "community_open") none closed_session)
        closed_session
    × Refused
        (community_submit no_patterns now none (some "officer") 1 none closed_session)
        closed_session
    × Refused (community_confirm now true (some "officer") none none closed_session) closed_session
final_case_lem_example =
    final_case_lem closed_session refl emic no_patterns now "community_open" (some "officer") none
      none entry 1 by_officer true

-- ── the timestamps, and the numbers ──

abbrev pending_case : IncidentCase
pending_case = record {
  id = 20;
  platform_id = 1;
  cluster_id = some 7;
  case_number = "NT-20250615-0001";
  title = "埔里鎮道路";
  category = "road_blocked";
  severity = "medium";
  status = pending_review;
  track = none;
  lat = 23;
  lon = 120;
  town = some "埔里鎮";
  location_label = none;
  report_count = 1;
  unique_reporter_count = 1;
  assigned_unit = none;
  public_summary = none;
  reviewed_by = none;
  reviewed_at = none;
  emic_case_no = none;
  emic_status = none;
  emic_reported_at = none;
  emic_synced_at = none;
  emic_channel = none;
  community_submitted_at = none;
  threshold_reached_at = none;
  resolved_at = none;
  closed_at = none;
  created_at = 1750000000000000;
}

pending_case-IsSound : IsSound pending_case
pending_case-IsSound = ground arith

-- The first number of the day is taken by a case whose neighbour was deleted.
abbrev one_case : Db
one_case = record db {
  cases = record pending_case { id = 5; case_number = "NT-20250615-0002" } ∷ [];
}

insert_case_lem_example :
    ((r : IncidentCase × Db) × (insert_case (λ s. s) one_case platform pending_case 1750000000000000
        ≡ some r)
      × Inserted pending_case one_case r
      × (numbers_unique r.1.cases ≡ true))
    ⊎ ((insert_case (λ s. s) one_case platform pending_case 1750000000000000 ≡ none)
        × ((k : ℕ)
            → k < 5
            → is_taken (λ s. s) platform 1750000000000000 pending_case one_case k ≡ true))
insert_case_lem_example =
    insert_case_lem (λ s. s) platform 1750000000000000 pending_case one_case refl
