-- ===== src/Clusters/Process.antt =====
-- The database side of apps/api/app/services/cluster_service.py: `_open_candidates`, `_recount` and
-- `process_report`.
use aidflow.Prelude.{
  ℕ, ◌+◌, String, Bool, true, false, not, ◌&&◌, Option, none, some, List, [], ◌∷◌, ◌++◌, map,
  select, first, length, leb, ◌==◌, min, max, is_text, if◌then◌else◌,
}
use aidflow.Categories.{max_severity}
use aidflow.Models.{
  Db, Report, ReportCluster, ReportStatus, ClusterStatus, IncidentCase, Platform, Double, Time,
  Json, open_cluster, enqueue_event,
}
use aidflow.Models.Table.{get, save}
use aidflow.Geo.{Float, bbox_for}
use aidflow.Cases.Creation.{threshold, create_case_from_cluster, attach_report_to_case, case_of}
use aidflow.Cases.Creation.Basis.{TextTools, reports_for}
use aidflow.Cases.Session.{Session}
use aidflow.Clusters.Policy.{ClusterPolicy}
use aidflow.Clusters.Matching.{ClusterCandidate, Query, minutes, pick_cluster}
use aidflow.Clusters.Counting.{count_unique_reporters}

abbrev pub is_open : ClusterStatus → Bool
is_open ClusterStatus.open_cluster = true
is_open ClusterStatus.promoted_cluster = true
is_open _ = false

-- What `process_report` leaves: the database, the cluster, and the case that it created.
pub record Processed : Type 0 where
  pub db : Db
  pub cluster : Option ReportCluster
  pub created : Option IncidentCase

module _ (f : Float) where
  -- `low <= x <= high`
  abbrev pub between : Double → Double → Double → Bool
  between low x high = not (f.lt x low) && not (f.lt high x)

  -- The WHERE clause of `_open_candidates`.
  unfoldable pub is_candidate : ℕ → Double → Double → Time → ClusterPolicy → ReportCluster → Bool
  is_candidate platform_id lat lon reported_at policy c =
      let (min_lat, min_lon, max_lat, max_lon) =
        bbox_for f lat lon (f.decimal policy.radius_meters 0) in
      c.platform_id == platform_id
      && is_open c.status
      && between min_lat c.centroid_lat max_lat
      && between min_lon c.centroid_lon max_lon
      && leb reported_at (c.last_reported_at + minutes policy.time_window_minutes)

  unfoldable pub open_candidates :
      Db → ℕ → Double → Double → Time → ClusterPolicy → List ReportCluster
  unfolding is_candidate
  open_candidates db platform_id lat lon reported_at policy =
      select (is_candidate platform_id lat lon reported_at policy) db.clusters

  -- `sum(xs) / len(xs)`, from the left as Python sums
  sum_from : Double → List Double → Double
  sum_from acc [] = acc
  sum_from acc (x ∷ xs) = sum_from (f.add acc x) xs

  average : List Double → Double
  unfolding sum_from
  average xs = f.div (sum_from (f.decimal 0 0) xs) (f.decimal (length xs) 0)

  abbrev coordinates : (Report → Option Double) → List Report → List Double
  coordinates at [] = []
  coordinates at (r ∷ rs) =
      let rest = coordinates at rs in
      elim r.lat [
        | none ↦ rest
        | some _ ↦ elim r.lon [
          | none ↦ rest
          | some _ ↦ elim (at r) [ none ↦ rest | some x ↦ x ∷ rest ]
        ]
      ]

  abbrev centre : Double → List Double → Double
  centre old [] = old
  centre old (x ∷ xs) = average (x ∷ xs)

  abbrev earliest : Time → List Report → Time
  earliest t [] = t
  earliest t (r ∷ rs) = earliest (min t r.created_at) rs

  abbrev latest : Time → List Report → Time
  latest t [] = t
  latest t (r ∷ rs) = latest (max t r.created_at) rs

  -- The fields that depend on there being a report.
  unfoldable pub refreshed : List Report → ReportCluster → ReportCluster
  refreshed [] c = c
  refreshed (r ∷ rs) c = record c {
    severity = max_severity (map (λ x. x.triage_severity) (r ∷ rs));
    first_reported_at = earliest r.created_at rs;
    last_reported_at = latest r.created_at rs;
  }

  -- `_recount`, on the rows that count for the cluster
  unfoldable pub recounted : ClusterPolicy → List Report → ReportCluster → ReportCluster
  unfolding average refreshed
  recounted policy rows c = refreshed rows (record c {
    report_count = length rows;
    unique_reporter_count =
        count_unique_reporters (map (λ r. r.reporter_key) rows) policy.count_anonymous_reporters;
    centroid_lat = centre c.centroid_lat (coordinates (λ r. r.lat) rows);
    centroid_lon = centre c.centroid_lon (coordinates (λ r. r.lon) rows);
  })

  unfoldable pub recount : ClusterPolicy → ReportCluster → Db → ReportCluster
  unfolding recounted
  recount policy cluster db = recounted policy (reports_for cluster.id db) cluster

  -- The cluster that a report joins, and the database with a new one where none matches.
  abbrev candidate_row : ReportCluster → ClusterCandidate
  candidate_row c = record {
    id = c.id;
    category = c.category;
    lat = c.centroid_lat;
    lon = c.centroid_lon;
    last_reported_at = c.last_reported_at;
  }

  abbrev new_cluster : ℕ → ℕ → Report → Double → Double → ReportCluster
  new_cluster id platform_id r lat lon = record {
    id = id;
    platform_id = platform_id;
    category = r.category;
    severity = r.triage_severity;
    centroid_lat = lat;
    centroid_lon = lon;
    town = r.town;
    report_count = 0;
    unique_reporter_count = 0;
    status = open_cluster;
    case_id = none;
    first_reported_at = r.created_at;
    last_reported_at = r.created_at;
  }

  unfoldable pub open_new_cluster : Platform → Report → Double → Double → Db → ReportCluster × Db
  unfolding enqueue_event
  open_new_cluster p r lat lon db =
      let c : ReportCluster = new_cluster db.next_id p.id r lat lon in
      (
        c,
        enqueue_event "cluster.opened" (some c.id)
            (("platform_id", Json.uuid p.id)
              ∷ ("cluster_id", Json.uuid c.id)
              ∷ ("category", Json.text r.category)
              ∷ ("report_id", Json.uuid r.id)
              ∷ [])
            (record db { clusters = db.clusters ++ c ∷ []; next_id = db.next_id + 1 }),
      )

  unfoldable pub find_cluster :
      Platform → ClusterPolicy → Report → Double → Double → Db → ReportCluster × Db
  unfolding open_candidates open_new_cluster pick_cluster
  find_cluster p policy r lat lon db =
      let rows = open_candidates db p.id lat lon r.created_at policy in
      let query : Query = record {
        lat = lat;
        lon = lon;
        category = r.category;
        reported_at = r.created_at;
      } in
      elim (pick_cluster f policy query (map candidate_row rows)) [
        | none ↦ open_new_cluster p r lat lon db
        | some chosen ↦ elim (first (λ c. c.id == chosen.id) rows) [
          | none ↦ open_new_cluster p r lat lon db
          | some c ↦ (c, db)
        ]
      ]

  abbrev pub in_cluster : ℕ → Report → Report
  in_cluster k r = record r { cluster_id = some k; status = ReportStatus.clustered }

  abbrev pub with_town : Option String → ReportCluster → ReportCluster
  with_town town c = if not (is_text c.town) && is_text town then record c { town = town } else c

  -- The flush of the live case.
  abbrev pub saved : Session → Db
  saved s = record s.db { cases = save (λ c. c.id) s.case s.db.cases }

  -- The report joins the case of the cluster, if the table has it.
  abbrev pub join_case : Time → Report → ReportCluster → Db → Option IncidentCase → Processed
  join_case now report cluster db none = record { db = db; cluster = some cluster; created = none }
  join_case now report cluster db (some case) = record {
    db = saved (attach_report_to_case now case report cluster db);
    cluster = some cluster;
    created = none;
  }

  abbrev pub made : ReportCluster → Option Session → Option Processed
  made cluster none = none
  made cluster (some s) = some (record {
    db = s.db;
    cluster = get (λ c. c.id) cluster.id s.db.clusters;
    created = some s.case;
  })

  -- The last step, by whether the cluster has a case and whether the threshold is reached.
  abbrev pub settle_by :
      TextTools
      → Time
      → Platform
      → ClusterPolicy
      → Report
      → ReportCluster
      → Db
      → Option ℕ
      → Bool
      → Option Processed
  settle_by tools now p policy report cluster db (some k) b =
      some (join_case now report cluster db (case_of (some k) db))
  settle_by tools now p policy report cluster db none true = made cluster (
      create_case_from_cluster tools now p cluster threshold (some policy.required_unique_reporters)
        none db)
  settle_by tools now p policy report cluster db none false =
      some (record { db = db; cluster = some cluster; created = none })

  -- `none` is the RuntimeError of `_insert_case`.
  unfoldable pub settle :
      TextTools → Time → Platform → ClusterPolicy → Report → ReportCluster → Db → Option Processed
  unfolding attach_report_to_case create_case_from_cluster
  settle tools now p policy report cluster db =
      settle_by tools now p policy report cluster db cluster.case_id
        (leb policy.required_unique_reporters cluster.unique_reporter_count)

  -- The report joins the cluster, which is counted anew.
  unfoldable pub join_cluster :
      ClusterPolicy → Report → ReportCluster × Db → Report × ReportCluster × Db
  unfolding recount
  join_cluster policy report (cluster, db) =
      let joined = in_cluster cluster.id report in
      let db' : Db = record db { reports = save (λ r. r.id) joined db.reports } in
      let counted = recount policy (with_town report.town cluster) db' in
      (joined, counted, record db' { clusters = save (λ c. c.id) counted db'.clusters })

  unfoldable pub process_located :
      TextTools → Time → Platform → ClusterPolicy → Report → Double → Double → Db → Option Processed
  unfolding find_cluster join_cluster settle
  process_located tools now p policy report lat lon db =
      let (joined, cluster, db') =
        join_cluster policy report (find_cluster p policy report lat lon db) in
      settle tools now p policy joined cluster db'

  -- A report without a location joins no cluster.
  unfoldable pub process_report :
      TextTools → Time → Platform → ClusterPolicy → Report → Db → Option Processed
  unfolding process_located
  process_report tools now p policy report db = elim report.lat [
    | none ↦ some (record { db = db; cluster = none; created = none })
    | some lat ↦ elim report.lon [
      | none ↦ some (record { db = db; cluster = none; created = none })
      | some lon ↦ process_located tools now p policy report lat lon db
    ]
  ]
