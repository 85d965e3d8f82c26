-- ===== src/Cases/Queries.antt =====
-- The read queries of apps/api/app/services/case_service.py on one case: `get_case`,
-- `require_case`, `timeline`, `reports_of` and `nearby_cases`.
use aidflow.Prelude.{
  refl, ap, In, In-select, In-sort_with, ℕ, ◌≡◌, Bool, true, false, not, ◌&&◌, ◌||◌, List, [], ◌∷◌,
  Option, arith, count, count-select, select, take, ltb, leb, ◌==◌, if◌then◌else◌, sort_with,
  sort_with-IsChain, count-sort_with, IsChain,
}
use aidflow.Models.{Db, IncidentCase, CaseEvent, Report, Double}
use aidflow.Models.Table.{get}
use aidflow.Geo.{Float, haversine_m, bbox_for}
use aidflow.Cases.Creation.Basis.{is_id, by_time}
use aidflow.Clusters.Process.{between}

-- `none` is `None`, and the `CaseNotFoundError` of `require_case`.
unfoldable pub get_case : Db → ℕ → Option IncidentCase
get_case db id = get (λ c. c.id) id db.cases

-- `order_by(created_at.asc(), id.asc())`
abbrev pub earlier : CaseEvent → CaseEvent → Bool
earlier a b = ltb a.created_at b.created_at || (a.created_at == b.created_at && leb a.id b.id)

-- The WHERE clauses of `timeline`.
abbrev pub is_shown : ℕ → Bool → CaseEvent → Bool
is_shown case_id public_only e = e.case_id == case_id && (if public_only then e.is_public else true)

unfoldable pub timeline : Db → ℕ → Bool → List CaseEvent
unfolding sort_with
timeline db case_id public_only =
    sort_with earlier (select (is_shown case_id public_only) db.events)

unfoldable pub reports_of : Db → ℕ → List Report
unfolding by_time
reports_of db case_id = by_time (select (λ r. is_id r.case_id case_id) db.reports)

module _ (f : Float) where
  -- The WHERE clause of `nearby_cases`.
  abbrev is_near : IncidentCase → Double → IncidentCase → Bool
  is_near case radius c =
      let (min_lat, min_lon, max_lat, max_lon) = bbox_for f case.lat case.lon radius in
      c.platform_id == case.platform_id
      && not (c.id == case.id)
      && between f min_lat c.lat max_lat
      && between f min_lon c.lon max_lon

  within : IncidentCase → Double → List IncidentCase → List (IncidentCase × Double)
  within case radius [] = []
  within case radius (c ∷ cs) =
      let rest = within case radius cs in
      let d = haversine_m f case.lat case.lon c.lat c.lon in
      if f.lt d radius || f.eq d radius then (c, d) ∷ rest else rest

  -- `out.sort(key=lambda t: t[1])`, which is stable
  abbrev no_farther : IncidentCase × Double → IncidentCase × Double → Bool
  no_farther (c, d) (x, e) = not (f.lt e d)

  unfoldable pub nearby_cases : Db → IncidentCase → Double → ℕ → List (IncidentCase × Double)
  unfolding within sort_with
  nearby_cases db case radius limit =
      take limit (sort_with no_farther (within case radius (select (is_near case radius) db.cases)))

earlier-total : (a b : CaseEvent) → earlier a b ≡ false → earlier b a ≡ true
earlier-total a b h = ground (arith, h)

is_shown_lem :
    (case_id : ℕ) (public_only : Bool) (e : CaseEvent)
    → is_shown case_id public_only e ≡ true
    → (e.case_id ≡ case_id) × (public_only ≡ true → e.is_public ≡ true)
is_shown_lem case_id public_only e h = (ground (arith, h), λ k. ground (arith, h, k))

-- A test that only such events pass stays as it is with `is_shown`.
shown_and :
    (case_id : ℕ) (public_only : Bool) (e : CaseEvent) (b : Bool)
    → (b ≡ true → (e.case_id ≡ case_id) × (public_only ≡ true → e.is_public ≡ true))
    → (is_shown case_id public_only e && b) ≡ b
shown_and case_id public_only e false h = ground arith
shown_and case_id false e true h = ground (arith, (h refl).0)
shown_and case_id true e true h = ground (arith, (h refl).0, (h refl).1 refl)

-- The timeline of a case is in the order of time, events of one moment in the order of their
-- identifiers. It has events of this case only, and public ones only where that is asked for; and it has
-- these as often as the table: any test that only such events pass counts the same in both.
pub timeline_lem :
    (db : Db) (case_id : ℕ) (public_only : Bool)
    → IsChain
        (λ a b. ltb a.created_at b.created_at || (a.created_at == b.created_at && leb a.id b.id))
        (timeline db case_id public_only)
      × ((e : CaseEvent)
          → In e (timeline db case_id public_only)
          → (e.case_id ≡ case_id) × (public_only ≡ true → e.is_public ≡ true))
      × ((p : CaseEvent → Bool)
          → ((e : CaseEvent)
              → p e ≡ true
              → (e.case_id ≡ case_id) × (public_only ≡ true → e.is_public ≡ true))
          → count p (timeline db case_id public_only) ≡ count p db.events)
unfolding timeline
timeline_lem db case_id public_only = (
  sort_with-IsChain earlier earlier-total (select (is_shown case_id public_only) db.events),
  λ e h.
      is_shown_lem case_id public_only e
        (In-select (is_shown case_id public_only) db.events e (In-sort_with earlier _ e h)).1,
  λ p only. cc (
    count-sort_with earlier p (select (is_shown case_id public_only) db.events),
    count-select p (is_shown case_id public_only) db.events,
    ap (λ (q : CaseEvent → Bool). count q db.events)
        (λ i e. shown_and case_id public_only e (p e) (only e) i),
  ),
)
