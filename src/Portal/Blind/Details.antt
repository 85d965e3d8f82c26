-- ===== src/Portal/Blind/Details.antt =====
-- The page of a case, on databases that are alike.
use aidflow.Prelude.{
  arith, no_later, ℕ, ◌+◌, ◌≡◌, refl, true, not, ◌||◌, Option, none, some, List, [], ◌∷◌, map,
  select, ◌==◌, Pointwise, Related, map-Pointwise, select-Pointwise, select-Pointwise_more,
  sort_with-Pointwise, if◌then◌else◌, Bool-cases, inl, inr,
}
use aidflow.Models.{Db, IncidentCase, CaseEvent, is_rejected}
use aidflow.Models.Table.{get}
use aidflow.CaseStates.{CaseStatus, value, public_label, same, dismissed}
use aidflow.Cases.Creation.Basis.{is_id, by_time}
use aidflow.Cases.Queries.{earlier, is_shown, get_case, timeline, reports_of}
use aidflow.Privacy.{Patterns, public_report_properties}
use aidflow.Views.{
  progress, steps, reached_at, moves_to, path_for, index_of, is_there, up_to, is_at,
}
use aidflow.Portal.Pages.{
  shown, not_found, timeline_item, photo_item, is_photo_of, photos_for_case, case_detail,
  detail_page,
}
use aidflow.Portal.Alike.{
  CaseAlike, ReportAlike, EventAlike, EventShown, PhotoAlike, PhotoShown, photo_item-shown, Alike,
  public_case-alike, timeline_item-shown, properties-alike,
}

get-Related :
    {A : Type 0} (R : A → A → Type 0) (id : A → ℕ) (key : ℕ)
    → ((x y : A) → R x y → id x ≡ id y)
    → (xs ys : List A) → Pointwise R xs ys
    → Related R (get id key xs) (get id key ys)
unfolding get
get-Related R id key same [] [] r = tt
get-Related R id key same [] (y ∷ ys) r = absurd r
get-Related R id key same (x ∷ xs) [] r = absurd r
get-Related R id key same (x ∷ xs) (y ∷ ys) (r, rs) =
    rw (same x y r) (elim (Bool-cases (id y == key)) [
      | inl e ↦ rw e r
      | inr e ↦ rw e (get-Related R id key same xs ys rs)
    ])

module _ (tools : Patterns) where
  shown_events :
      (db db' : Db) (id : ℕ)
      → Alike tools db db'
      → Pointwise (EventShown tools) (timeline db id true) (timeline db' id true)
  unfolding timeline
  shown_events db db' id all =
      sort_with-Pointwise (EventShown tools) earlier
        (λ x y u v h k. cc (h.created_at, k.created_at, h.id, k.id)) _ _
        (select-Pointwise_more (EventAlike tools) (EventShown tools) (is_shown id true)
          (λ x y h. rw (h.case_id, h.is_public)) (λ x y h e. h.seen (ground (arith, e))) _ _
          all.events)

  reached-shown :
      (s : CaseStatus) (es fs : List CaseEvent)
      → Pointwise (EventShown tools) es fs
      → reached_at es s ≡ reached_at fs s
  reached-shown s [] [] r = refl
  reached-shown s [] (f ∷ fs) r = absurd r
  reached-shown s (e ∷ es) [] r = absurd r
  reached-shown s (e ∷ es) (f ∷ fs) (h, r) =
      let t : moves_to s e ≡ moves_to s f = rw h.to_status refl in
      ground (arith, t, h.created_at, reached-shown s es fs r)

  steps-shown :
      (es fs : List CaseEvent) (current : Option ℕ) (n : ℕ) (path : List CaseStatus)
      → Pointwise (EventShown tools) es fs
      → steps es current n path ≡ steps fs current n path
  steps-shown es fs current n [] r = refl
  steps-shown es fs current n (s ∷ ss) r =
      let t = reached-shown s es fs r in
      let rest = steps-shown es fs current (n + 1) ss r in
      λ i.
        record {
          key = value s;
          label = public_label (value s);
          reached = is_there (t i) || up_to n current;
          current = is_at n current;
          at = t i;
        }
        ∷ rest i

  progress-shown :
      (c d : IncidentCase) (es fs : List CaseEvent)
      → CaseAlike tools c d
      → Pointwise (EventShown tools) es fs
      → progress c es ≡ progress d fs
  unfolding progress
  progress-shown c d es fs h r =
      rw (h.status, h.track)
        (steps-shown es fs (index_of d.status (path_for d.status d.track)) 0
          (path_for d.status d.track) r)

  shown_reports :
      (db db' : Db) (id : ℕ)
      → Alike tools db db'
      → map
          (public_report_properties tools)
          (select (λ r. not (is_rejected r.status)) (reports_of db id))
        ≡ map
            (public_report_properties tools)
            (select (λ r. not (is_rejected r.status)) (reports_of db' id))
  unfolding reports_of by_time
  shown_reports db db' id all =
      map-Pointwise (ReportAlike tools) (public_report_properties tools) (properties-alike tools) _
        _
        (select-Pointwise (ReportAlike tools) (λ r. not (is_rejected r.status))
          (λ x y h. rw h.status) _ _
          (sort_with-Pointwise (ReportAlike tools) (no_later (λ r. r.created_at))
            (λ x y u v h k. cc (h.created_at, k.created_at)) _ _
            (select-Pointwise (ReportAlike tools) (λ r. is_id r.case_id id) (λ x y h. rw h.case_id)
              _ _ all.reports)))

  shown_photos :
      (db db' : Db) (id : ℕ)
      → Alike tools db db'
      → map photo_item (photos_for_case db id true) ≡ map photo_item (photos_for_case db' id true)
  unfolding photos_for_case
  shown_photos db db' id all = map-Pointwise PhotoShown photo_item photo_item-shown _ _ (
      sort_with-Pointwise PhotoShown (no_later (λ p. p.created_at))
        (λ x y u v h k. cc (h.created_at, k.created_at)) _ _
        (select-Pointwise_more PhotoAlike PhotoShown (is_photo_of id true)
          (λ x y h. rw (h.case_id, h.is_public)) (λ x y h e. h.seen (ground (arith, e))) _ _
          all.photos))

  detail-alike :
      (db db' : Db) (c d : IncidentCase)
      → Alike tools db db'
      → CaseAlike tools c d
      → case_detail tools db c ≡ case_detail tools db' d
  unfolding case_detail
  detail-alike db db' c d all h =
      let events = shown_events db db' d.id all in
      rw h.id (
        cc (
          public_case-alike tools c d h,
          map-Pointwise (EventShown tools) (timeline_item tools) (timeline_item-shown tools) _ _
              events,
          shown_reports db db' d.id all,
          shown_photos db db' d.id all,
          progress-shown c d _ _ h events,
          h.status,
        ))

  page-alike :
      (db db' : Db) (pid : ℕ) (o p : Option IncidentCase)
      → Alike tools db db'
      → Related (CaseAlike tools) o p
      → detail_page tools db pid o ≡ detail_page tools db' pid p
  unfolding detail_page
  page-alike db db' pid none none all r = refl
  page-alike db db' pid none (some d) all r = absurd r
  page-alike db db' pid (some c) none all r = absurd r
  page-alike db db' pid (some c) (some d) all r = λ i.
      if not (r.platform_id i == pid) || same (r.status i) dismissed
      then not_found
      else shown (detail-alike db db' c d all r i)

  pub detail_page-alike :
      (db db' : Db) (pid id : ℕ)
      → Alike tools db db'
      → detail_page tools db pid (get_case db id) ≡ detail_page tools db' pid (get_case db' id)
  unfolding get_case
  detail_page-alike db db' pid id all =
      page-alike db db' pid _ _ all
        (get-Related (CaseAlike tools) (λ c. c.id) id (λ x y h. h.id) _ _ all.cases)
