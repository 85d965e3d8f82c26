-- ===== src/Reports/Intake.antt =====
-- What the intake of apps/api/app/services/report_service.py guarantees.
use mathlib.Core.Path.{subst}
use aidflow.Prelude.{
  sym, none, some, ◌∙◌, ap, ℕ, String, ◌≡◌, refl, inl, inr, true, false, Option, List, [], ◌∷◌,
  arith, any, map, select, member, str_eq, eq_iff, str_eq_comm, first, ◌==◌, Option-cases,
}
use aidflow.Models.{Db, IncidentCase, Report, ReportCluster, enqueue_event}
use aidflow.Models.Table.{get, save, get-save_key, get-id}
use aidflow.Geo.{Float}
use aidflow.Categories.{ReportCategory, categories, find_category}
use aidflow.Cases.Creation.Basis.{counts_for, reports_for}
use aidflow.Clusters.Policy.{ClusterPolicy, policy_from_dict}
use aidflow.Clusters.Threshold.{CountsFor, recount_lem}
use aidflow.Clusters.Process.{recount}
use aidflow.Cases.Creation.{case_of}
use aidflow.Reports.{
  count_in_case, count_case, known, or_list, allowed_categories, rejected_report, mark_rejected,
  recount_in, cluster_of, reject_report,
}
use aidflow.Reports.Rows.{Setup}

known_of :
    (k j : String)
    → str_eq k j ≡ true
    → known (find_category j) ≡ true
    → known (find_category k) ≡ true
known_of k j e h = cc ((eq_iff k j).0 e, h)

known_selected :
    (k : String) (ks : List String)
    → member k (select (λ j. known (find_category j)) ks) ≡ true
    → known (find_category k) ≡ true
known_selected k [] h = cc
known_selected k (j ∷ ks) h = ground (arith, known_of k j, known_selected k ks)

known-first :
    (k : String) (cs : List ReportCategory)
    → member k (map (λ c. c.key) cs) ≡ true
    → known (first (λ c. str_eq c.key k) cs) ≡ true
known-first k [] h = cc
known-first k (c ∷ cs) h = ground (arith, str_eq_comm k c.key, known-first k cs)

known_default :
    (k : String) → member k (map (λ c. c.key) categories) ≡ true → known (find_category k) ≡ true
unfolding find_category
known_default k h = known-first k categories h

-- Whatever the scenario of a platform lists, every category that its intake allows is one of the
-- program's, so that its default severity exists.
pub member-allowed_categories :
    (su : Setup) (k : String)
    → member k (allowed_categories su) ≡ true
    → known (find_category k) ≡ true
unfolding allowed_categories
member-allowed_categories su k h =
    go (select (λ j. known (find_category j)) su.category_keys) (known_selected k su.category_keys)
      h
  where
    go :
        (l : List String)
        → (member k l ≡ true → known (find_category k) ≡ true)
        → member k (or_list l (map (λ c. c.key) categories)) ≡ true
        → known (find_category k) ≡ true
    go [] f h = known_default k h
    go (x ∷ xs) f h = f h

out_of_count :
    (r : Report) (k : ℕ) (rs : List Report)
    → any (λ x. x.id == r.id) (select (counts_for k) (save (λ x. x.id) (rejected_report r) rs))
      ≡ false
unfolding save
out_of_count r k [] = refl
out_of_count r k (x ∷ rs) = ground (arith, out_of_count r k rs)

module _ (f : Float) where
  reports-recount_in :
      (policy : ClusterPolicy) (c : ReportCluster) (db : Db)
      → (recount_in f policy c db).reports ≡ db.reports
  reports-recount_in policy c db = ground arith

  not_counted :
      (base : ClusterPolicy) (su : Setup) (remark : Option String) (r : Report) (db : Db) (k : ℕ)
      → any (λ x. x.id == r.id) (reports_for k (reject_report f base su remark r db)) ≡ false
  unfolding reject_report mark_rejected enqueue_event
  not_counted base su remark r db k =
      elim (Option-cases (cluster_of r.cluster_id (mark_rejected remark r db))) [
        | inl e ↦ ground (arith, e, out_of_count r k db.reports)
        | inr (c, e) ↦ ground (
          arith,
          e,
          out_of_count r k db.reports,
          reports-recount_in (policy_from_dict base su.policy) c (mark_rejected remark r db),
        )
      ]

  -- In a database the row of a cluster has the counts of the reports that count for it, and its case
  -- has the same counts.
  pub record Recounted (policy : ClusterPolicy) (c : ReportCluster) (before after : Db)
      : Type 0 where
    pub row : ReportCluster
    pub found : get (λ x. x.id) c.id after.clusters ≡ some row
    pub counts : CountsFor f policy row after
    pub kept : row.case_id ≡ c.case_id
    pub case :
        (case : IncidentCase)
        → case_of c.case_id before ≡ some case
        → (c' : IncidentCase) × (case_of c.case_id after ≡ some c')
          × (c'.report_count ≡ row.report_count)
          × (c'.unique_reporter_count ≡ row.unique_reporter_count)

  count_in_case_found :
      (c : ReportCluster) (case : IncidentCase) (db : Db)
      → case_of c.case_id db ≡ some case
      → count_in_case c db ≡ record db { cases = save (λ x. x.id) (count_case c case) db.cases }
  count_in_case_found c case db h = rw (h, count_in_case) refl

  case_of-count :
      (c : ReportCluster) (o : Option ℕ) (case : IncidentCase) (db : Db)
      → c.case_id ≡ o
      → case_of o db ≡ some case
      → (c' : IncidentCase) × (case_of o (count_in_case c db) ≡ some c')
        × (c'.report_count ≡ c.report_count)
        × (c'.unique_reporter_count ≡ c.unique_reporter_count)
  case_of-count c none case db e h = cc
  case_of-count c (some k) case db e h =
      let i : case.id ≡ k = get-id (λ x. x.id) k case db.cases h in
      let s = get-save_key (λ x. x.id) k (count_case c case) case db.cases i h in
      (
        count_case c case,
        ap (λ (d : Db). get (λ x. x.id) k d.cases)
              (count_in_case_found c case db (ap (λ o. case_of o db) e ∙ h))
            ∙ s,
        refl,
        refl,
      )

  case_of-cases : (o : Option ℕ) (db db' : Db) → db.cases ≡ db'.cases → case_of o db ≡ case_of o db'
  case_of-cases none db db' e = refl
  case_of-cases (some k) db db' e = ap (get (λ c. c.id) k) e

  clusters-count_in_case :
      (c : ReportCluster) (db : Db) → (count_in_case c db).clusters ≡ db.clusters
  clusters-count_in_case c db = ground arith

  recount_in-Recounted :
      (policy : ClusterPolicy) (c : ReportCluster) (before db : Db)
      → before.cases ≡ db.cases
      → get (λ x. x.id) c.id db.clusters ≡ some c
      → Recounted policy c before (recount_in f policy c db)
  recount_in-Recounted policy c before db q g =
      let counted = recount f policy c db in
      let (counts, i, k) = recount_lem f policy c db in
      let saved : Db = record db { clusters = save (λ x. x.id) counted db.clusters } in
      let same = reports-recount_in policy c db in
      record {
        row = counted;
        found =
            ap (get (λ x. x.id) c.id) (clusters-count_in_case counted saved)
            ∙ get-save_key (λ x. x.id) c.id counted c db.clusters i g;
        counts = rw same counts;
        kept = k;
        case = λ case h.
            case_of-count counted c.case_id case saved k
              (case_of-cases c.case_id saved before (sym q) ∙ h);
      }

  cluster_of-clusters :
      (o : Option ℕ) (db db' : Db) → db.clusters ≡ db'.clusters → cluster_of o db ≡ cluster_of o db'
  cluster_of-clusters none db db' e = refl
  cluster_of-clusters (some k) db db' e = ap (get (λ c. c.id) k) e

  cluster_of-get :
      (o : Option ℕ) (db : Db) (c : ReportCluster)
      → cluster_of o db ≡ some c
      → get (λ x. x.id) c.id db.clusters ≡ some c
  cluster_of-get none db c e = cc
  cluster_of-get (some k) db c e =
      subst (λ j. get (λ x. x.id) j db.clusters ≡ some c)
        (sym (get-id (λ x. x.id) k c db.clusters e)) e

  reject_report_found :
      (base : ClusterPolicy) (su : Setup) (remark : Option String) (r : Report) (db : Db)
      (c : ReportCluster)
      → cluster_of r.cluster_id (mark_rejected remark r db) ≡ some c
      → reject_report f base su remark r db
        ≡ recount_in f (policy_from_dict base su.policy) c (mark_rejected remark r db)
  unfolding reject_report
  reject_report_found base su remark r db c e = rw (e, reject_report) refl

  Recounted-cluster :
      (base : ClusterPolicy) (su : Setup) (remark : Option String) (r : Report) (db : Db)
      (c : ReportCluster)
      → cluster_of r.cluster_id db ≡ some c
      → Recounted (policy_from_dict base su.policy) c db (reject_report f base su remark r db)
  unfolding reject_report mark_rejected enqueue_event
  Recounted-cluster base su remark r db c e =
      let db' = mark_rejected remark r db in
      let e' : cluster_of r.cluster_id db' ≡ some c =
        cluster_of-clusters r.cluster_id db' db refl ∙ e in
      subst (λ d. Recounted (policy_from_dict base su.policy) c db d)
        (sym (reject_report_found base su remark r db c e'))
        (recount_in-Recounted (policy_from_dict base su.policy) c db db' refl
          (cluster_of-get r.cluster_id db' c e'))

  -- After `reject_report`, whatever cluster and case the report was in, it counts for no cluster; and
  -- the cluster that it was in is recounted in the table, with the policy of the platform, and so is the
  -- case of that cluster.
  pub reject_report_lem :
      (base : ClusterPolicy) (su : Setup) (remark : Option String) (r : Report) (db : Db)
      → ((k : ℕ)
          → any (λ x. x.id == r.id) (reports_for k (reject_report f base su remark r db)) ≡ false)
        × ((c : ReportCluster)
            → cluster_of r.cluster_id db ≡ some c
            → Recounted
                (policy_from_dict base su.policy)
                c
                db
                (reject_report f base su remark r db))
  unfolding reject_report mark_rejected enqueue_event
  reject_report_lem base su remark r db =
      (not_counted base su remark r db, λ c e. Recounted-cluster base su remark r db c e)
