-- ===== src/Clusters/Stored.antt =====
-- The rows of reports and clusters when a case is made of a cluster: `create_case_from_cluster` of
-- apps/api/app/services/case_service.py.
use mathlib.Core.Path.{subst}
use aidflow.Prelude.{
  sym, some_inj, Option-cases, In-select, In-sort_with, ℕ, zero, suc, ◌+◌, ap, In, inl, inr,
  Bool-cases, ◌==◌, String, ◌≡◌, refl, ◌∙◌, true, Option, none, some, List, [], ◌∷◌, arith,
}
use aidflow.Models.{Db, IncidentCase, Report, ReportCluster, Platform, Time, enqueue_event}
use aidflow.Models.Table.{get, save, get-save_key, get-save_other}
use aidflow.Cases.Creation.Basis.{TextTools, reports_for, counts_for, by_time}
use aidflow.Cases.Session.{Session}
use aidflow.Cases.Lifecycle.{event}
use aidflow.Cases.Numbering.{insert_from, insert_case}
use aidflow.Cases.Creation.{
  create_case_from_cluster, threshold, promoted_by, in_case, receive, receive_all, link_photos,
  populate, announce, draft_case,
}

-- The row of a report is in a cluster.
abbrev pub ReportIn : ℕ → ℕ → List Report → Type 0
ReportIn k i rows = (r : Report) × (get (λ x. x.id) i rows ≡ some r) × (r.cluster_id ≡ some k)

pub save-ReportIn :
    (k i : ℕ) (x : Report) (rows : List Report)
    → x.cluster_id ≡ some k
    → ReportIn k i rows
    → ReportIn k i (save (λ r. r.id) x rows)
save-ReportIn k i x rows e (r, g, h) = elim (Bool-cases (x.id == i)) [
  | inl q ↦ (x, get-save_key (λ r. r.id) i x r rows (ground (arith, q)) g, e)
  | inr q ↦ (r, get-save_other (λ r. r.id) i x rows q ∙ g, h)
]

receive_all-ReportIn :
    (k i : ℕ) (now : Time) (n : ℕ) (rs : List Report) (s : Session)
    → ((r : Report) → In r rs → r.cluster_id ≡ some k)
    → ReportIn k i s.db.reports
    → ReportIn k i (receive_all now n rs s).db.reports
unfolding receive_all receive link_photos event enqueue_event save
receive_all-ReportIn k i now n [] s all h = h
receive_all-ReportIn k i now n (r ∷ rs) s all h =
    receive_all-ReportIn k i now (n + 1) rs (receive now n r s) (λ x m. all x (inr m))
      (save-ReportIn k i (in_case s.case.id r) s.db.reports (all r (inl refl)) h)

receive_all-kept :
    (now : Time) (n : ℕ) (rs : List Report) (s : Session)
    → ((receive_all now n rs s).db.clusters ≡ s.db.clusters)
      × ((receive_all now n rs s).case.id ≡ s.case.id)
unfolding receive_all receive link_photos event enqueue_event
receive_all-kept now n [] s = (refl, refl)
receive_all-kept now n (r ∷ rs) s = receive_all-kept now (n + 1) rs (receive now n r s)

insert_from-kept :
    (upper : String → String) (p : Platform) (at : Time) (left attempt : ℕ) (case : IncidentCase)
    (db : Db) (r : IncidentCase × Db)
    → insert_from upper p at left attempt case db ≡ some r
    → (r.1.reports ≡ db.reports) × (r.1.clusters ≡ db.clusters)
unfolding insert_from
insert_from-kept upper p at zero attempt case db r h = cc
insert_from-kept upper p at (suc left) attempt case db r h =
    ground (arith, h, insert_from-kept upper p at left (attempt + 1) case db r)

populate-ReportIn :
    (now : Time) (c : ReportCluster) (required : Option ℕ) (rs : List Report)
    (r : IncidentCase × Db) (i : ℕ) (s : Session)
    → populate now c threshold required none rs r ≡ s
    → ((x : Report) → In x rs → x.cluster_id ≡ some c.id)
    → ReportIn c.id i r.1.reports
    → (s.db.clusters ≡ save (λ x. x.id) (promoted_by s.case.id c) r.1.clusters)
      × ReportIn c.id i s.db.reports
unfolding populate announce event enqueue_event
populate-ReportIn now c required rs (case, db) i s q all there =
    let promoted : Db = record db {
      clusters = save (λ x. x.id) (promoted_by case.id c) db.clusters;
    } in
    let start : Session = record { case = case; db = promoted } in
    let (a, b) = receive_all-kept now 1 rs start in
    subst
      (λ (t : Session).
        (t.db.clusters ≡ save (λ x. x.id) (promoted_by t.case.id c) db.clusters)
        × ReportIn c.id i t.db.reports)
      q
      (
        a ∙ ap (λ k. save (λ x. x.id) (promoted_by k c) db.clusters) (sym b),
        receive_all-ReportIn c.id i now 1 rs start all there,
      )

counted-of : (k : ℕ) (r : Report) → counts_for k r ≡ true → r.cluster_id ≡ some k
counted-of k r h = elim (Option-cases r.cluster_id) [
  | inl e ↦ absurd (ground (arith, e, h))
  | inr (j, e) ↦ ground (arith, e, h)
]

pub created-ReportIn :
    (tools : TextTools) (now : Time) (p : Platform) (c : ReportCluster) (i : ℕ)
    (required : Option ℕ) (db : Db) (s : Session)
    → create_case_from_cluster tools now p c threshold required none db ≡ some s
    → ReportIn c.id i db.reports
    → (s.db.clusters ≡ save (λ x. x.id) (promoted_by s.case.id c) db.clusters)
      × ReportIn c.id i s.db.reports
unfolding create_case_from_cluster insert_case by_time
created-ReportIn tools now p c i required db s h there =
    let rs = by_time (reports_for c.id db) in
    let case = draft_case tools now db.next_id p c threshold rs in
    let reserved : Db = record db { next_id = db.next_id + 1 } in
    go (insert_case tools.upper reserved p case case.created_at)
      (λ r e. insert_from-kept tools.upper p case.created_at 5 0 case reserved r e) h
  where
    go :
        (o : Option (IncidentCase × Db))
        → ((r : IncidentCase × Db)
            → o ≡ some r
            → (r.1.reports ≡ db.reports) × (r.1.clusters ≡ db.clusters))
        → elim o [
          | none ↦ none
          | some r ↦ some (populate now c threshold required none (by_time (reports_for c.id db)) r)
        ]
          ≡ some s
        → (s.db.clusters ≡ save (λ x. x.id) (promoted_by s.case.id c) db.clusters)
          × ReportIn c.id i s.db.reports
    go none kept e = cc
    go (some r) kept e =
        let (reports, clusters) = kept r refl in
        let (a, b) =
          populate-ReportIn now c required (by_time (reports_for c.id db)) r i s (some_inj e)
            (λ x m.
              counted-of c.id x (In-select (counts_for c.id) db.reports x (In-sort_with _ _ x m)).1)
            (rw reports there) in
        (a ∙ ap (save (λ x. x.id) (promoted_by s.case.id c)) clusters, b)
