-- ===== src/Portal/Live.antt =====
-- What the public map shows.
use mathlib.Core.Path.{subst}
use aidflow.Prelude.{
  ◌↔◌, In-append_right, ℕ, ◌≤◌, ◌≡◌, refl, inl, inr, Bool, true, false, Option, List, [], ◌++◌, map,
  arith, length, count, select, sort_with, In, In-select, select-In, In-append, append-In, In-take,
  take_whole, In-sort_with, sort_with-In, length-sort_with, length-select, In-map, map-In,
  if◌then◌else◌, leb,
}
use aidflow.Models.{Db, Report, ReportCluster, IncidentCase, Time, is_rejected}
use aidflow.Cases.Listing.{is_finished, is_since}
use aidflow.Privacy.{Patterns}
use aidflow.Portal.Features.{
  Feature, is_some, case_feature, cluster_feature, report_feature, is_open, has_finished_case,
  on_map_case, on_map_cluster, on_map_report, newest, map_collection,
}

module _ {A : Type 0} (key : A → Time) (n : ℕ) (xs : List A) (a : A) where
  In-newest : In a (newest key n xs) → In a xs
  unfolding newest
  In-newest h =
      In-sort_with (λ x y. leb (key y) (key x)) xs a
        (In-take n (sort_with (λ x y. leb (key y) (key x)) xs) a h)

  newest-In : length xs ≤ n → In a xs → In a (newest key n xs)
  unfolding newest
  newest-In h i =
      let before = λ (x y : A). leb (key y) (key x) in
      rw (take_whole n (sort_with before xs) (omega (arith, length-sort_with before xs)))
        (sort_with-In before xs a i)

-- A report of a platform that is not rejected, has a place, and is in no closed or dismissed case.
pub record IsLive (db : Db) (pid : ℕ) (r : Report) : Type 0 where
  pub platform : r.platform_id ≡ pid
  pub located : is_some r.lat ≡ true
  pub believed : is_rejected r.status ≡ false
  pub unfinished : has_finished_case db pid r ≡ false

-- What a feature of the public map stands for.
pub data OnMap (tools : Patterns) (db : Db) (pid : ℕ) (since : Option Time) (include : Bool)
    (x : Feature) : Type 0 where
  live_case :
      (c : IncidentCase)
      → In c db.cases
      → c.platform_id ≡ pid
      → is_finished c.status ≡ false
      → is_since since c.created_at ≡ true
      → case_feature tools true c ≡ x
      → OnMap tools db pid since include x
  open_spot :
      (c : ReportCluster)
      → In c db.clusters
      → c.platform_id ≡ pid
      → is_open c.status ≡ true
      → is_since since c.last_reported_at ≡ true
      → cluster_feature tools true c ≡ x
      → OnMap tools db pid since include x
  live_report :
      (r : Report)
      → include ≡ true
      → In r db.reports
      → IsLive db pid r
      → is_since since r.created_at ≡ true
      → report_feature tools true r ≡ x
      → OnMap tools db pid since include x

module _ (tools : Patterns) (db : Db) (pid : ℕ) (since : Option Time) (x : Feature) where
  abbrev case_rows : List IncidentCase
  case_rows = select (on_map_case true since pid) db.cases

  abbrev cluster_rows : List ReportCluster
  cluster_rows = select (on_map_cluster since pid) db.clusters

  abbrev report_rows : List Report
  report_rows = select (on_map_report db true since pid) db.reports

  abbrev case_part : List Feature
  case_part = map (case_feature tools true) (newest (λ c. c.created_at) 2000 case_rows)

  abbrev cluster_part : List Feature
  cluster_part =
      map (cluster_feature tools true) (newest (λ c. c.last_reported_at) 2000 cluster_rows)

  abbrev report_part : List Feature
  report_part = map (report_feature tools true) (newest (λ r. r.created_at) 5000 report_rows)

  case-OnMap : (include : Bool) → In x case_part → OnMap tools db pid since include x
  unfolding on_map_case
  case-OnMap include h =
      let (c, i, e) = In-map (case_feature tools true) _ x h in
      let (j, t) =
        In-select (on_map_case true since pid) db.cases c
          (In-newest (λ c. c.created_at) 2000 _ c i) in
      live_case c j (ground (arith, t)) (ground (arith, t)) (ground (arith, t)) e

  cluster-OnMap : (include : Bool) → In x cluster_part → OnMap tools db pid since include x
  unfolding on_map_cluster
  cluster-OnMap include h =
      let (c, i, e) = In-map (cluster_feature tools true) _ x h in
      let (j, t) =
        In-select (on_map_cluster since pid) db.clusters c
          (In-newest (λ c. c.last_reported_at) 2000 _ c i) in
      open_spot c j (ground (arith, t)) (ground (arith, t)) (ground (arith, t)) e

  report-OnMap : In x report_part → OnMap tools db pid since true x
  unfolding on_map_report
  report-OnMap h =
      let (r, i, e) = In-map (report_feature tools true) _ x h in
      let (j, t) =
        In-select (on_map_report db true since pid) db.reports r
          (In-newest (λ r. r.created_at) 5000 _ r i) in
      live_report r refl j
        (record {
          platform = ground (arith, t);
          located = ground (arith, t);
          believed = ground (arith, t);
          unfinished = ground (arith, t);
        })
        (ground (arith, t)) e

  parts-OnMap :
      (include : Bool)
      → In x (map_collection tools db pid true since include)
      → OnMap tools db pid since include x
  unfolding map_collection
  parts-OnMap include h = elim (In-append x _ _ h) [
    | inl i ↦ elim (In-append x _ _ i) [
      | inl k ↦ case-OnMap include k
      | inr k ↦ cluster-OnMap include k
    ]
    | inr i ↦ of_reports include i
  ]
    where
      of_reports : (b : Bool) → In x (if b then report_part else []) → OnMap tools db pid since b x
      of_reports true i = report-OnMap i
      of_reports false i = absurd i

  module _ (few_cases : count (on_map_case true since pid) db.cases ≤ 2000)
      (few_clusters : count (on_map_cluster since pid) db.clusters ≤ 2000)
      (few_reports : count (on_map_report db true since pid) db.reports ≤ 5000) where
    OnMap-parts :
        (include : Bool)
        → OnMap tools db pid since include x
        → In x (map_collection tools db pid true since include)
    unfolding map_collection on_map_case on_map_cluster on_map_report
    OnMap-parts include (live_case c i p f s e) = append-In x _ _ (
        append-In x _ _ (
          subst (λ y. In y case_part) e
            (map-In (case_feature tools true) _ c (
              newest-In (λ c. c.created_at) 2000 case_rows c
                (omega (arith, few_cases, length-select (on_map_case true since pid) db.cases))
                (select-In (on_map_case true since pid) db.cases c i (ground (arith, p, f, s)))))))
    OnMap-parts include (open_spot c i p f s e) = append-In x _ _ (
        In-append_right x case_part _ (
          subst (λ y. In y cluster_part) e
            (map-In (cluster_feature tools true) _ c (
              newest-In (λ c. c.last_reported_at) 2000 cluster_rows c
                (omega (arith, few_clusters, length-select (on_map_cluster since pid) db.clusters))
                (select-In (on_map_cluster since pid) db.clusters c i (ground (arith, p, f, s)))))))
    OnMap-parts include (live_report r q i live s e) =
        In-append_right x (case_part ++ cluster_part) _ (
          rw q (
            subst (λ y. In y report_part) e
              (map-In (report_feature tools true) _ r (
                newest-In (λ r. r.created_at) 5000 report_rows r
                  (omega (
                    arith,
                    few_reports,
                    length-select (on_map_report db true since pid) db.reports,
                  ))
                  (select-In (on_map_report db true since pid) db.reports r i (
                    ground
                      (arith, live.platform, live.located, live.believed, live.unfinished, s)))))))

-- The public map of a platform shows exactly its cases that are neither closed nor dismissed, its open
-- clusters, and, where reports are asked for, its reports with a place that are not rejected and in no
-- closed or dismissed case, none of them older than asked for, each with coarse coordinates and what the
-- public may see; as long as there are at most 2,000 such cases, 2,000 such clusters and 5,000 such
-- reports.
pub map_collection_lem :
    (tools : Patterns) (db : Db) (pid : ℕ) (since : Option Time) (include : Bool) (x : Feature)
    → count (on_map_case true since pid) db.cases ≤ 2000
    → count (on_map_cluster since pid) db.clusters ≤ 2000
    → count (on_map_report db true since pid) db.reports ≤ 5000
    → In x (map_collection tools db pid true since include) ↔ OnMap tools db pid since include x
map_collection_lem tools db pid since include x few_cases few_clusters few_reports = (
  parts-OnMap tools db pid since x include,
  OnMap-parts tools db pid since x few_cases few_clusters few_reports include,
)
