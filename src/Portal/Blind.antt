-- ===== src/Portal/Blind.antt =====
-- The portal keeps what is not public to itself.
mod Lists
mod Maps
mod Details
use aidflow.Prelude.{ℕ, ◌≡◌, ap, first, Bool, true, Option, none, some, String}
use aidflow.Models.{Time}
use aidflow.Platforms.Rows.{Site, PlatformRow, is_visible, get_by_slug}
use aidflow.Cases.Queries.{get_case}
use aidflow.Privacy.{Patterns}
use aidflow.Portal.Pages.{
  Page, shown, not_found, on_platform, since_of, CaseQuery, public_listing, public_reports,
  case_list, report_list, detail_page, get_map, public_cases, public_case_page, public_reports_page,
}
use aidflow.Portal.Features.{map_collection}
use aidflow.Portal.Alike.{Alike}
use Lists.{case_list-alike, report_list-alike}
use Maps.{map_collection-alike}
use Details.{detail_page-alike}

-- Two sites have the same platforms, and databases that are alike.
pub record SiteAlike (tools : Patterns) (s t : Site) : Type 0 where
  pub platforms : s.platforms ≡ t.platforms
  pub rows : Alike tools s.db t.db

-- Pages that agree on each platform.
pages-eq :
    {A : Type 0} (f g : PlatformRow → Page A) (o p : Option PlatformRow)
    → o ≡ p
    → ((q : PlatformRow) → f q ≡ g q)
    → on_platform f o ≡ on_platform g p
pages-eq f g none none e h = λ i. not_found
pages-eq f g none (some q) e h = cc
pages-eq f g (some r) none e h = cc
pages-eq f g (some r) (some q) e h = cc (h q)

found :
    (s t : Site) (slug : String)
    → s.platforms ≡ t.platforms
    → get_by_slug s slug true ≡ get_by_slug t slug true
unfolding get_by_slug
found s t slug h = ap (first (is_visible slug true)) h

-- Whoever looks at the portal cannot learn what is not public. On two sites that differ only in what
-- `CaseAlike`, `ReportAlike`, `ClusterAlike`, `EventAlike` and `PhotoAlike` leave free (such as who reported, the house
-- number and the exact place behind the coarse one, the EMIC number of a case, who reviewed it,
-- and internal events and photos), every request for the map, the list of cases, the page of a case or the list of
-- reports has the same answer. The column `updated_at`, by which cases can be sorted, is the same on
-- both sites.
pub portal_lem :
    (tools : Patterns) (updated_at : ℕ → Time) (now : Time) (s t : Site) (slug : String)
    → SiteAlike tools s t
    → ((since : Option ℕ) (include : Bool)
        → get_map tools now s slug since include ≡ get_map tools now t slug since include)
      × ((q : CaseQuery)
          → public_cases tools updated_at now s slug q ≡ public_cases tools updated_at now t slug q)
      × ((id : ℕ) → public_case_page tools s slug id ≡ public_case_page tools t slug id)
      × ((limit : ℕ) (category town : Option String)
          → public_reports_page tools s slug limit category town
            ≡ public_reports_page tools t slug limit category town)
unfolding get_map public_cases public_case_page public_reports_page
portal_lem tools updated_at now s t slug h = (
  λ since include. pages-eq _ _ _ _ (found s t slug h.platforms) (λ p.
      ap shown (map_collection-alike tools (since_of now since) p.id s.db t.db include h.rows)),
  λ q. pages-eq _ _ _ _ (found s t slug h.platforms) (λ p.
      ap shown (case_list-alike tools s.db t.db h.rows updated_at p.id (public_listing now q))),
  λ id.
      pages-eq _ _ _ _ (found s t slug h.platforms)
        (λ p. detail_page-alike tools s.db t.db p.id id h.rows),
  λ limit category town. pages-eq _ _ _ _ (found s t slug h.platforms) (λ p.
      ap shown
        (report_list-alike tools s.db t.db h.rows p.id (public_reports category town limit))),
)
