-- ===== src/Platforms/Create.antt =====
-- `create_platform` of apps/api/app/services/platform_service.py. The dictionary `configuration` of
-- the caller and the policy reach the new platform as they came.
pub mod Outcome
use aidflow.Prelude.{
  any, ℕ, ◌+◌, String, Bool, true, Option, none, some, List, [], ◌∷◌, ◌++◌, map, select, member,
  str_eq, is_text, text_or, if◌then◌else◌, length, ◌⊎◌, inl, inr,
}
use aidflow.Models.{
  Time, Payload, Json, flag, uuid, text, texts, limits, view, json_text, merge, enqueue_event,
}
use aidflow.Categories.{find_category}
use aidflow.Geo.{Float}
use aidflow.Geo.Places.{Point, centroid_for, mean_point, taiwan_center}
use aidflow.Clusters.Policy.{ClusterPolicy, RawPolicy, policy_from_dict}
use aidflow.Modules.{Registry, get_module}
use aidflow.Modules.Hazards.{is_hazard, hazard_label}
use aidflow.Modules.Scenarios.{ScenarioProfile, compose_profile, first_or, known_category}
use aidflow.Platforms.Rows.{PlatformRow, ModuleConfig, Site, draft, published}
use aidflow.Platforms.Slugs.{SlugTools, slug_base, unique_slug}
use aidflow.Platforms.Selection.{Selection, unknown_module, unknown_layer, chosen, no_fuel, resolve}

-- What the caller passes; `none` for an argument that is `None`.
pub record NewPlatform : Type 0 where
  pub name : String
  pub brief : Option String
  pub hazards : List String
  pub county : Option String
  pub towns : List String
  pub modules : Option (List String)
  pub layers : Option (List String)
  pub report_categories : List String
  pub cluster_policy : RawPolicy
  pub configuration : Payload
  pub publish : Bool
  pub source : String
  pub slug : Option String

pub data PlatformError : Type 0 where
  no_hazard : PlatformError
  no_module : String → PlatformError
  no_layer : String → PlatformError
  unknown_status : String → PlatformError
  stuck : PlatformError
  slug_taken : String → PlatformError

abbrev pub or_list : Option (List String) → List String → List String
or_list none d = d
or_list (some xs) d = xs

-- `resolve_selection`
unfoldable pub resolve_selection :
    Registry
    → List String
    → Option String
    → List String
    → Option (List String)
    → Option (List String)
    → Selection
unfolding compose_profile resolve
resolve_selection reg hazards county towns modules layers =
    let profile = compose_profile reg hazards county towns [] in
    resolve reg (or_list modules profile.modules) (or_list layers profile.layers)

-- The list that a person approved wins, with "other" at its end unless it has it.
unfoldable pub approved_categories : List String → List String → List String
unfolding find_category
approved_categories composed given = with_other (select known_category given)
  where
    with_other : List String → List String
    with_other [] = composed
    with_other (k ∷ ks) = if member "other" (k ∷ ks) then k ∷ ks else (k ∷ ks) ++ "other" ∷ []

module _ (f : Float) where
  abbrev points_of : Option String → List String → List Point
  points_of county [] = []
  points_of county (t ∷ ts) =
      let rest = points_of county ts in
      elim (centroid_for f county (some t)) [ none ↦ rest | some p ↦ p ∷ rest ]

  abbrev or_point : Option Point → Point → Point
  or_point none d = d
  or_point (some p) d = p

  -- `centre`; a point is a pair, which is true whatever its numbers.
  unfoldable pub centre_of : Option String → List String → Point
  unfolding centroid_for mean_point
  centre_of county towns =
      or_point
        (elim (mean_point f (points_of county towns)) [
          | some p ↦ some p
          | none ↦ if is_text county then centroid_for f county none else none
        ])
        (taiwan_center f)

abbrev pub policy_json : ClusterPolicy → Json
policy_json p =
    limits p.required_unique_reporters p.radius_meters p.time_window_minutes
      p.count_anonymous_reporters

-- The module configurations of the new platform, with identifiers from `n` on.
unfoldable pub module_rows : Registry → ℕ → ClusterPolicy → ℕ → List String → List ModuleConfig
unfolding get_module
module_rows reg id policy n [] = []
module_rows reg id policy n (m ∷ ms) =
    record {
      id = n;
      platform_id = id;
      module_id = m;
      module_type = elim (get_module reg m) [ none ↦ "" | some spec ↦ spec.module_type ];
      enabled = true;
      config = if str_eq m "two_report_trigger" then some policy else none;
    }
    ∷ module_rows reg id policy (n + 1) ms

abbrev pub json_texts : List String → Json
json_texts xs = texts xs

-- The unique constraint on `slug`, whose violation is the `IntegrityError` of the flush.
abbrev pub has_slug : String → Site → Bool
has_slug slug s = any (λ p. str_eq p.slug slug) s.platforms

module _ (f : Float) (base : ClusterPolicy) (tools : SlugTools) (reg : Registry) (now : Time) where
  -- `cfg`: what the caller passes is written over what is computed.
  abbrev pub configuration_of : NewPlatform → List String → ClusterPolicy → Point → Payload
  configuration_of new hz policy (lat, lon) =
      merge
        (("cluster_policy", policy_json policy)
          ∷ ("map", view lat lon (elim new.towns [ [] ↦ 10 | _ ∷ _ ↦ 11 ]))
          ∷ ("hazard_labels", texts (map hazard_label hz))
          ∷ [])
        new.configuration

  abbrev slug_of : NewPlatform → List String → Site → String
  slug_of new hz s =
      unique_slug tools s
        (if is_text new.slug then text_or new.slug "" else slug_base tools new.county hz new.name)

  abbrev scenario_of : NewPlatform → List String → List String → List String → ScenarioProfile
  scenario_of new hz modules layers =
      let profile = compose_profile reg hz new.county new.towns new.report_categories in
      record profile {
        report_categories = approved_categories profile.report_categories new.report_categories;
        modules = modules;
        layers = layers;
      }

  -- The new row.
  unfoldable pub platform_row :
      NewPlatform → List String → List String → List String → Site → PlatformRow
  unfolding hazard_label compose_profile approved_categories centre_of policy_from_dict unique_slug
      slug_base
  platform_row new hz modules layers s =
      let policy = policy_from_dict base new.cluster_policy in
      let centre = centre_of f new.county new.towns in
      record {
        id = s.db.next_id;
        slug = slug_of new hz s;
        name = new.name;
        brief = new.brief;
        county = new.county;
        towns = new.towns;
        hazards = hz;
        primary_hazard = first_or "" hz;
        scenario = scenario_of new hz modules layers;
        status = if new.publish then published else draft;
        modules = modules;
        layers = layers;
        configuration = configuration_of new hz policy centre;
        center_lat = centre.0;
        center_lon = centre.1;
        created_at = now;
        published_at = if new.publish then some now else none;
      }

  abbrev created_payload : NewPlatform → PlatformRow → Payload
  created_payload new p =
      ("platform_id", uuid p.id)
      ∷ ("slug", text p.slug)
      ∷ ("name", text p.name)
      ∷ ("hazards", texts p.hazards)
      ∷ ("county", json_text p.county)
      ∷ ("modules", texts p.modules)
      ∷ ("layers", texts p.layers)
      ∷ ("source", text new.source)
      ∷ ("published", flag new.publish)
      ∷ []

  -- The platform, its module configurations and the event, with fresh identifiers.
  unfoldable pub insert_platform : NewPlatform → PlatformRow → Site → Site
  unfolding module_rows policy_from_dict enqueue_event
  insert_platform new p s =
      let rows =
        module_rows reg p.id (policy_from_dict base new.cluster_policy) (p.id + 1) p.modules in
      record {
        platforms = s.platforms ++ p ∷ [];
        configs = s.configs ++ rows;
        groups = s.groups;
        db =
            enqueue_event "platform.created" (some p.id) (created_payload new p)
              (record s.db { next_id = p.id + 1 + length rows });
      }

  abbrev pub place :
      NewPlatform → List String → Selection → Site → Site × (PlatformError ⊎ PlatformRow)
  place new hz (unknown_module id) s = (s, inl (no_module id))
  place new hz (unknown_layer k) s = (s, inl (no_layer k))
  place new hz no_fuel s = (s, inl stuck)
  place new hz (chosen modules layers) s =
      let p = platform_row new hz modules layers s in
      if has_slug p.slug s then (s, inl (slug_taken p.slug)) else (insert_platform new p s, inr p)

  abbrev pub create_for : NewPlatform → List String → Site → Site × (PlatformError ⊎ PlatformRow)
  create_for new [] s = (s, inl no_hazard)
  create_for new (h ∷ hz) s =
      place new (h ∷ hz)
        (resolve_selection reg (h ∷ hz) new.county new.towns new.modules new.layers) s

  unfoldable pub create_platform : NewPlatform → Site → Site × (PlatformError ⊎ PlatformRow)
  unfolding platform_row insert_platform resolve_selection
  create_platform new s = create_for new (select is_hazard new.hazards) s
