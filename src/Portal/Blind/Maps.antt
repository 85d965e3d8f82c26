-- ===== src/Portal/Blind/Maps.antt =====
-- The public map, on databases that are alike.
use aidflow.Prelude.{
  ◌∙◌, ℕ, ◌≡◌, ap, ap, Bool, true, not, ◌&&◌, Option, List, [], ◌++◌, map, select, ◌==◌, leb,
  Pointwise, map-Pointwise, take-Pointwise, select-Pointwise, sort_with-Pointwise, if◌then◌else◌,
}
use aidflow.Models.{Db, Report, ReportCluster, IncidentCase, Time, is_rejected}
use aidflow.Cases.Listing.{is_since}
use aidflow.Privacy.{Patterns}
use aidflow.Portal.Features.{
  case_feature, cluster_feature, report_feature, is_some, on_map_case, on_map_cluster,
  on_map_report, newest, map_collection,
}
use aidflow.Portal.Alike.{
  CaseAlike, ReportAlike, ClusterAlike, Alike, case_feature-alike, cluster_feature-alike,
  report_feature-alike,
}
use aidflow.Portal.Blind.Lists.{finished-either}

newest-Pointwise :
    {A : Type 0} (R : A → A → Type 0) (key : A → Time) (n : ℕ)
    → ((x y : A) → R x y → key x ≡ key y)
    → (xs ys : List A) → Pointwise R xs ys
    → Pointwise R (newest key n xs) (newest key n ys)
unfolding newest
newest-Pointwise R key n same xs ys r = take-Pointwise R n _ _ (
    sort_with-Pointwise R (λ a b. leb (key b) (key a)) (λ x y u v h k. cc (same x u h, same y v k))
      xs ys r)

module _ (tools : Patterns) (since : Option Time) (pid : ℕ) where
  case-on-map :
      (c d : IncidentCase)
      → CaseAlike tools c d
      → on_map_case true since pid c ≡ on_map_case true since pid d
  unfolding on_map_case
  case-on-map c d h = rw (h.platform_id, h.status, h.created_at)

  cluster-on-map :
      (c d : ReportCluster)
      → ClusterAlike tools c d
      → on_map_cluster since pid c ≡ on_map_cluster since pid d
  unfolding on_map_cluster
  cluster-on-map c d h = rw (h.platform_id, h.status, h.last_reported_at)

  report-on-map :
      (db : Db) (r q : Report)
      → ReportAlike tools r q
      → on_map_report db true since pid r ≡ on_map_report db true since pid q
  unfolding on_map_report
  report-on-map db r q h = rw (h.platform_id, h.located, h.status, h.case_id, h.created_at)

  either-map :
      (db db' : Db)
      → Alike tools db db'
      → on_map_report db true since pid ≡ on_map_report db' true since pid
  unfolding on_map_report
  either-map db db' same i r =
      r.platform_id == pid
      && is_some r.lat
      && not (is_rejected r.status)
      && not (finished-either tools db db' same pid r i)
      && is_since since r.created_at

  pub map_collection-alike :
      (db db' : Db) (include : Bool)
      → Alike tools db db'
      → map_collection tools db pid true since include
        ≡ map_collection tools db' pid true since include
  unfolding map_collection
  map_collection-alike db db' include same =
      let cases =
        map-Pointwise (CaseAlike tools) (case_feature tools true) (case_feature-alike tools) _ _ (
          newest-Pointwise (CaseAlike tools) (λ c. c.created_at) 2000 (λ x y h. h.created_at) _ _
            (select-Pointwise (CaseAlike tools) (on_map_case true since pid) case-on-map _ _
              same.cases)) in
      let clusters =
        map-Pointwise (ClusterAlike tools) (cluster_feature tools true)
          (cluster_feature-alike tools) _ _
          (newest-Pointwise (ClusterAlike tools) (λ c. c.last_reported_at) 2000
            (λ x y h. h.last_reported_at) _ _
            (select-Pointwise (ClusterAlike tools) (on_map_cluster since pid) cluster-on-map _ _
              same.clusters)) in
      let reports =
        map-Pointwise (ReportAlike tools) (report_feature tools true) (report_feature-alike tools) _
          _
          (newest-Pointwise (ReportAlike tools) (λ r. r.created_at) 5000 (λ x y h. h.created_at) _ _
            (select-Pointwise (ReportAlike tools) (on_map_report db' true since pid)
              (report-on-map db') _ _ same.reports)) in
      let either =
        ap
          (λ (p : Report → Bool).
            map (report_feature tools true) (newest (λ r. r.created_at) 5000 (select p db.reports)))
          (either-map db db' same) in
      λ i. cases i ++ clusters i ++ (if include then (either ∙ reports) i else [])
