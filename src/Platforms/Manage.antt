-- ===== src/Platforms/Manage.antt =====
-- The changes of a platform: `set_status`, `update_configuration`, `preview` and the queries of
-- apps/api/app/services/platform_service.py. An operation takes the identifier of the platform that
-- its caller has loaded.
use aidflow.Prelude.{
  ℕ, String, Bool, true, ◌&&◌, Option, none, some, List, [], ◌∷◌, map, select, member, str_eq,
  is_text, text_or, strip, leb, ◌==◌, count, sort_with, if◌then◌else◌,
}
use aidflow.Models.{Time, Payload, Json, null, uuid, text, merge, put_key, get_key, enqueue_event}
use aidflow.Clusters.Policy.{ClusterPolicy, RawPolicy, policy_from_dict}
use aidflow.Modules.{Registry}
use aidflow.Modules.Hazards.{is_hazard, hazard_label, detect_hazards}
use aidflow.Modules.Scenarios.{compose_profile}
use aidflow.Platforms.Rows.{
  PlatformRow, ModuleConfig, Site, PlatformStatus, draft, published, archived, status_text,
  change_platform, get_platform,
}
use aidflow.Platforms.Create.{PlatformError, unknown_status, policy_json, or_list}

-- The status that a text names.
unfoldable pub status_of : String → Option PlatformStatus
status_of t =
    if str_eq t "draft"
    then some draft
    else if str_eq t "published"
    then some published
    else if str_eq t "archived"
    then some archived
    else none

abbrev or_time : Option Time → Time → Time
or_time none now = now
or_time (some t) now = t

-- The writes of `set_status` to the row.
unfoldable pub with_status : Time → PlatformStatus → PlatformRow → PlatformRow
with_status now published p = record p {
  status = published;
  published_at = some (or_time p.published_at now);
}
with_status now s p = record p { status = s }

abbrev pub slug_in : Site → ℕ → String
slug_in s id = elim (get_platform s id) [ none ↦ "" | some p ↦ p.slug ]

abbrev pub event_type : PlatformStatus → String
event_type draft = "platform.draft"
event_type published = "platform.published"
event_type archived = "platform.archived"

abbrev pub with_event : String → ℕ → Payload → Site → Site
with_event name id payload s = record s { db = enqueue_event name (some id) payload s.db }

unfoldable pub set_status : Time → ℕ → String → Site → Site × Option PlatformError
unfolding status_of with_status enqueue_event get_platform
set_status now id t s = elim (status_of t) [
  | none ↦ (s, some (unknown_status t))
  | some st ↦ (
    with_event (event_type st) id (("platform_id", uuid id) ∷ ("slug", text (slug_in s id)) ∷ [])
        (change_platform id (with_status now st) s),
    none,
  )
]

-- The arguments of `update_configuration`.
pub record ConfigUpdate : Type 0 where
  pub name : Option String
  pub cluster_policy : Option RawPolicy
  pub configuration : Payload

module _ (base : ClusterPolicy) where
  abbrev pub with_policy : Option RawPolicy → Payload → Payload
  with_policy none cfg = cfg
  with_policy (some raw) cfg =
      put_key "cluster_policy" (policy_json (policy_from_dict base raw)) cfg

  -- `cfg`
  unfoldable pub new_configuration : ConfigUpdate → Payload → Payload
  unfolding policy_from_dict
  new_configuration u cfg = merge (with_policy u.cluster_policy cfg) u.configuration

  unfoldable pub configured : ConfigUpdate → PlatformRow → PlatformRow
  unfolding new_configuration
  configured u p = record p {
    name = if is_text u.name then text_or u.name "" else p.name;
    configuration = new_configuration u p.configuration;
  }

  -- The row of "two_report_trigger" follows the policy.
  abbrev is_trigger : ℕ → ModuleConfig → Bool
  is_trigger id c = c.platform_id == id && str_eq c.module_id "two_report_trigger"

  abbrev with_config : ℕ → ClusterPolicy → List ModuleConfig → List ModuleConfig
  with_config id policy [] = []
  with_config id policy (c ∷ cs) =
      let rest = with_config id policy cs in
      (if is_trigger id c then record c { config = some policy } else c) ∷ rest

  abbrev trigger_configs : ℕ → Option RawPolicy → List ModuleConfig → List ModuleConfig
  trigger_configs id none cs = cs
  trigger_configs id (some raw) cs = with_config id (policy_from_dict base raw) cs

  abbrev policy_in : Site → ℕ → Json
  policy_in s id = elim (get_platform s id) [
    | none ↦ null
    | some p ↦ get_key "cluster_policy" p.configuration
  ]

  unfoldable pub update_configuration : ℕ → ConfigUpdate → Site → Site
  unfolding configured policy_from_dict enqueue_event get_platform
  update_configuration id u s =
      let changed = change_platform id (configured u) s in
      with_event "platform.configured" id
        (("platform_id", uuid id) ∷ ("cluster_policy", policy_in changed id) ∷ [])
        (record changed { configs = trigger_configs id u.cluster_policy s.configs })

-- `has_module`
abbrev pub has_module : PlatformRow → String → Bool
has_module p id = member id p.modules

-- The answer of `preview`.
pub record Preview : Type 0 where
  pub detected_hazards : List String
  pub hazards : List String
  pub hazard_labels : List String
  pub report_categories : List String
  pub layers : List String
  pub modules : List String
  pub suggested_name : String

-- `lower` is `str.lower`.
unfoldable pub preview :
    (String → String)
    → Registry
    → String
    → Option (List String)
    → Option String
    → List String
    → Preview
unfolding detect_hazards compose_profile hazard_label strip
preview lower reg name hazards county towns =
    let detected = detect_hazards lower (some name) in
    let hz = select is_hazard (or_list hazards detected) in
    let profile = compose_profile reg hz county towns [] in
    record {
      detected_hazards = detected;
      hazards = hz;
      hazard_labels = map hazard_label hz;
      report_categories = profile.report_categories;
      layers = profile.layers;
      modules = profile.modules;
      suggested_name = strip name;
    }

-- `list_platforms`, before its limit and offset, and its total.
abbrev has_status : Option String → PlatformRow → Bool
has_status t p = if is_text t then str_eq (status_text p.status) (text_or t "") else true

abbrev pub newer : PlatformRow → PlatformRow → Bool
newer a b = leb b.created_at a.created_at

unfoldable pub list_platforms : Site → Option String → List PlatformRow × ℕ
unfolding sort_with
list_platforms s t =
    (sort_with newer (select (has_status t) s.platforms), count (has_status t) s.platforms)
