-- ===== src/Clusters/Threshold.antt =====
-- What `process_report` of apps/api/app/services/cluster_service.py stores, and when it makes a case.
use mathlib.Core.Path.{subst}
use aidflow.Prelude.{
  sym, ℕ, ap, String, ◌≡◌, refl, ◌∙◌, Bool, true, false, not, ◌&&◌, Option, none, some, List, [],
  ◌∷◌, map, arith, length, leb,
}
use aidflow.Models.{Db, IncidentCase, Report, ReportCluster, Platform, Double, Time, enqueue_event}
use aidflow.Models.Table.{get, save, get-save_key}
use aidflow.Geo.{Float}
use aidflow.Cases.Creation.Basis.{TextTools, reports_for}
use aidflow.Cases.Session.{Session}
use aidflow.Cases.Lifecycle.{event}
use aidflow.Cases.Creation.{
  case_of, create_case_from_cluster, threshold, promoted_by, in_case, link_photos,
  attach_report_to_case,
}
use aidflow.Clusters.Policy.{ClusterPolicy}
use aidflow.Clusters.Counting.{count_unique_reporters}
use aidflow.Clusters.Stored.{ReportIn, save-ReportIn, created-ReportIn}
use aidflow.Clusters.Process.{
  Processed, made, join_case, settle_by, recounted, recount, settle, join_cluster, find_cluster,
  process_located, with_town, in_cluster,
}

abbrev pub is_some : {A : Type 0} → Option A → Bool
is_some none = false
is_some (some _) = true

module _ (f : Float) where
  recounted_lem :
      (policy : ClusterPolicy) (rows : List Report) (c : ReportCluster)
      → ((recounted f policy rows c).report_count ≡ length rows)
        × ((recounted f policy rows c).unique_reporter_count
            ≡ count_unique_reporters
                (map (λ r. r.reporter_key) rows)
                policy.count_anonymous_reporters)
        × ((recounted f policy rows c).id ≡ c.id)
        × ((recounted f policy rows c).case_id ≡ c.case_id)
  unfolding recounted
  recounted_lem policy [] c = (refl, refl, refl, refl)
  recounted_lem policy (r ∷ rows) c = (refl, refl, refl, refl)

  -- The counts of a cluster agree with the reports that count for it.
  abbrev pub CountsFor : ClusterPolicy → ReportCluster → Db → Type 0
  CountsFor policy c db =
      (c.report_count ≡ length (reports_for c.id db))
      × (c.unique_reporter_count
          ≡ count_unique_reporters (map (λ r. r.reporter_key) (reports_for c.id db))
              policy.count_anonymous_reporters)

  -- A recount makes the counts agree, and keeps the identity and the case of the cluster.
  pub recount_lem :
      (policy : ClusterPolicy) (c : ReportCluster) (db : Db)
      → CountsFor policy (recount f policy c db) db
        × ((recount f policy c db).id ≡ c.id)
        × ((recount f policy c db).case_id ≡ c.case_id)
  unfolding recount
  recount_lem policy c db =
      let (n, u, i, k) = recounted_lem policy (reports_for c.id db) c in (rw i (n, u), i, k)

  with_town_lem :
      (town : Option String) (c : ReportCluster)
      → ((with_town f town c).id ≡ c.id) × ((with_town f town c).case_id ≡ c.case_id)
  with_town_lem town c = ground arith

  -- The case of a cluster after a step that may have made one.
  abbrev pub case_after : Option ℕ → Option IncidentCase → Option ℕ
  case_after old none = old
  case_after old (some case) = some case.id

  -- What the tables hold after the last step.
  record Settled (i : ℕ) (c : ReportCluster) (enough : Bool) (out : Processed) : Type 0 where
    row : ReportCluster
    found : get (λ x. x.id) c.id out.db.clusters ≡ some row
    reports : row.report_count ≡ c.report_count
    reporters : row.unique_reporter_count ≡ c.unique_reporter_count
    joined : ReportIn c.id i out.db.reports
    created : is_some out.created ≡ (not (is_some c.case_id) && enough)
    promoted : row.case_id ≡ case_after c.case_id out.created

  abbrev IfSettled : ℕ → ReportCluster → Bool → Option Processed → Type 0
  IfSettled i c enough none = Unit {0}
  IfSettled i c enough (some out) = Settled i c enough out

  module _ (tools : TextTools) (now : Time) (p : Platform) (policy : ClusterPolicy) (r : Report)
      (c : ReportCluster) (db : Db) (stored : get (λ x. x.id) c.id db.clusters ≡ some c)
      (there : ReportIn c.id r.id db.reports) where
    join_case-Settled :
        (k : ℕ) (enough : Bool) (o : Option IncidentCase)
        → r.cluster_id ≡ some c.id
        → c.case_id ≡ some k
        → Settled r.id c enough (join_case f now r c db o)
    unfolding attach_report_to_case link_photos event enqueue_event
    join_case-Settled k enough none e h = record {
      row = c;
      found = stored;
      reports = refl;
      reporters = refl;
      joined = there;
      created = ap (λ o. not (is_some o) && enough) (sym h);
      promoted = refl;
    }
    join_case-Settled k enough (some case) e h = record {
      row = c;
      found = stored;
      reports = refl;
      reporters = refl;
      joined = save-ReportIn c.id r.id (in_case case.id r) db.reports e there;
      created = ap (λ o. not (is_some o) && enough) (sym h);
      promoted = refl;
    }

    made-Settled :
        (o : Option Session)
        → c.case_id ≡ none
        → ((s : Session)
            → o ≡ some s
            → (s.db.clusters ≡ save (λ x. x.id) (promoted_by s.case.id c) db.clusters)
              × ReportIn c.id r.id s.db.reports)
        → IfSettled r.id c true (made f c o)
    made-Settled none h g = tt
    made-Settled (some s) h g =
        let (clusters, reports) = g s refl in
        record {
          row = promoted_by s.case.id c;
          found =
              ap (get (λ x. x.id) c.id) clusters
              ∙ get-save_key (λ x. x.id) c.id (promoted_by s.case.id c) c db.clusters refl stored;
          reports = refl;
          reporters = refl;
          joined = reports;
          created = ap (λ o. not (is_some o) && true) (sym h);
          promoted = refl;
        }

    settle-Settled :
        (o : Option ℕ) (enough : Bool)
        → r.cluster_id ≡ some c.id
        → c.case_id ≡ o
        → IfSettled r.id c enough (settle_by f tools now p policy r c db o enough)
    settle-Settled (some k) enough e h = join_case-Settled k enough (case_of (some k) db) e h
    settle-Settled none true e h =
        made-Settled
          (create_case_from_cluster tools now p c threshold (some policy.required_unique_reporters)
            none db)
          h
          (λ s q.
            created-ReportIn tools now p c r.id (some policy.required_unique_reporters) db s q
              there)
    settle-Settled none false e h = record {
      row = c;
      found = stored;
      reports = refl;
      reporters = refl;
      joined = there;
      created = ap (λ o. not (is_some o) && false) (sym h);
      promoted = refl;
    }

  -- The database with the report in its cluster.
  abbrev pub joined_db : Report → ReportCluster × Db → Db
  joined_db report (c, db) = record db {
    reports = save (λ r. r.id) (in_cluster f c.id report) db.reports;
  }

  -- How many people the cluster that was found has, with the report.
  abbrev pub people : ClusterPolicy → Report → ReportCluster × Db → ℕ
  people policy report found =
      count_unique_reporters
        (map (λ r. r.reporter_key) (reports_for found.0.id (joined_db report found)))
        policy.count_anonymous_reporters

  -- What the tables hold after a report has joined the cluster that was found for it.
  pub record Located (policy : ClusterPolicy) (report : Report) (found : ReportCluster × Db)
      (out : Processed) : Type 0 where
    -- the row of the cluster, with its counts
    pub row : ReportCluster
    pub stored : get (λ c. c.id) found.0.id out.db.clusters ≡ some row
    pub reports : row.report_count ≡ length (reports_for found.0.id (joined_db report found))
    pub reporters : row.unique_reporter_count ≡ people policy report found
    -- the row of the report
    pub joined : ReportIn found.0.id report.id out.db.reports
    -- the case
    pub created : is_some out.created ≡ (
        not (is_some found.0.case_id)
        && leb policy.required_unique_reporters (people policy report found))
    pub promoted : row.case_id ≡ case_after found.0.case_id out.created

  joined_lem :
      (tools : TextTools) (now : Time) (p : Platform) (policy : ClusterPolicy) (report old : Report)
      (found : ReportCluster × Db) (before : ReportCluster) (out : Processed)
      → get (λ r. r.id) report.id found.1.reports ≡ some old
      → get (λ c. c.id) found.0.id found.1.clusters ≡ some before
      → (let (r, c, db) = join_cluster f policy report found in
          settle f tools now p policy r c db ≡ some out)
      → Located policy report found out
  unfolding join_cluster settle
  joined_lem tools now p policy report old (c, db) before out g k h =
      let db' = joined_db report (c, db) in
      let counted : ReportCluster = recount f policy (with_town f report.town c) db' in
      let joined = in_cluster f c.id report in
      let saved_db : Db = record db' { clusters = save (λ x. x.id) counted db'.clusters } in
      let (counts, i, o) = recount_lem policy (with_town f report.town c) db' in
      let (i', o') = with_town_lem report.town c in
      let same : counted.id ≡ c.id = i ∙ i' in
      let stored =
        get-save_key (λ x. x.id) counted.id counted before db'.clusters refl
          (subst (λ j. get (λ x. x.id) j db'.clusters ≡ some before) (sym same) k) in
      let there : ReportIn counted.id joined.id saved_db.reports = (
        joined,
        get-save_key (λ r. r.id) report.id joined old db.reports refl g,
        ap some (sym same),
      ) in
      let enough = leb policy.required_unique_reporters counted.unique_reporter_count in
      let done : Settled joined.id counted enough out =
        subst (IfSettled joined.id counted enough) h (
          settle-Settled tools now p policy joined counted saved_db stored there counted.case_id
            enough (ap some (sym same)) refl) in
      let people_eq : counted.unique_reporter_count ≡ people policy report (c, db) =
        counts.1
        ∙ ap
            (λ j.
              count_unique_reporters (map (λ r. r.reporter_key) (reports_for j db'))
                policy.count_anonymous_reporters)
            same in
      record {
        row = done.row;
        stored = subst (λ j. get (λ x. x.id) j out.db.clusters ≡ some done.row) same done.found;
        reports = done.reports ∙ counts.0 ∙ ap (λ j. length (reports_for j db')) same;
        reporters = done.reporters ∙ people_eq;
        joined = subst (λ j. ReportIn j report.id out.db.reports) same done.joined;
        created =
            done.created
            ∙ ap (λ x. not (is_some x) && enough) (o ∙ o')
            ∙ ap (λ n. not (is_some c.case_id) && leb policy.required_unique_reporters n) people_eq;
        promoted = done.promoted ∙ ap (λ x. case_after x out.created) (o ∙ o');
      }

  -- A report of the table that has a place joins the cluster that is found for it, whose row the table
  -- has. Afterwards the table has the report in this cluster, and the row of the cluster with the number
  -- of its reports, this one included, and of their distinct reporters. A case is made exactly where the
  -- cluster had none and these reporters reach the number that the policy asks for, and then the row
  -- names it; otherwise it names the case that it named.
  pub process_located_lem :
      (tools : TextTools) (now : Time) (p : Platform) (policy : ClusterPolicy) (report old : Report)
      (lat lon : Double) (db : Db) (before : ReportCluster) (out : Processed)
      → (let found = find_cluster f p policy report lat lon db in
          (get (λ r. r.id) report.id found.1.reports ≡ some old)
          × (get (λ c. c.id) found.0.id found.1.clusters ≡ some before))
      → process_located f tools now p policy report lat lon db ≡ some out
      → Located policy report (find_cluster f p policy report lat lon db) out
  unfolding process_located
  process_located_lem tools now p policy report old lat lon db before out (g, k) h =
      joined_lem tools now p policy report old (find_cluster f p policy report lat lon db) before
        out g k h
