-- ===== src/Platforms/Rows.antt =====
-- The rows `Platform`, `PlatformModuleConfig` and `LineGroup` of apps/api/app/db/models.py, and the
-- database with their tables. A configuration is a dict with JSON values. Left out: the columns
-- `created_at` and `updated_at` but for the `created_at` of a platform, and the reporter roles and
-- the labels of the categories in `scenario`, which follow from the code's tables.
use aidflow.Prelude.{ℕ, String, Bool, true, false, Option, List, str_eq, if◌then◌else◌, first}
use aidflow.Models.{Db, Time, Double, Payload}
use aidflow.Models.Table.{get, alter}
use aidflow.Clusters.Policy.{ClusterPolicy}
use aidflow.Modules.Scenarios.{ScenarioProfile}

pub data PlatformStatus : Type 0 where
  draft published archived : PlatformStatus

abbrev pub is_published : PlatformStatus → Bool
is_published published = true
is_published _ = false

abbrev pub status_text : PlatformStatus → String
status_text draft = "draft"
status_text published = "published"
status_text archived = "archived"

pub record PlatformRow : Type 0 where
  pub id : ℕ
  pub slug : String
  pub name : String
  pub brief : Option String
  pub county : Option String
  pub towns : List String
  pub hazards : List String
  pub primary_hazard : String
  pub scenario : ScenarioProfile
  pub status : PlatformStatus
  pub modules : List String
  pub layers : List String
  pub configuration : Payload
  pub center_lat : Double
  pub center_lon : Double
  pub created_at : Time
  pub published_at : Option Time

-- `config` is the policy of "two_report_trigger", and `none` for the empty dict of the others.
pub record ModuleConfig : Type 0 where
  pub id : ℕ
  pub platform_id : ℕ
  pub module_id : String
  pub module_type : String
  pub enabled : Bool
  pub config : Option ClusterPolicy

pub data GroupStatus : Type 0 where
  joined bound left : GroupStatus

pub record LineGroup : Type 0 where
  pub id : ℕ
  pub group_id : String
  pub platform_id : Option ℕ
  pub status : GroupStatus
  pub bound_at : Option Time

pub record Site : Type 0 where
  pub platforms : List PlatformRow
  pub configs : List ModuleConfig
  pub groups : List LineGroup
  pub db : Db

-- `get_platform`; `none` is also the `PlatformNotFoundError` of `require_platform`.
unfoldable pub get_platform : Site → ℕ → Option PlatformRow
get_platform s id = get (λ p. p.id) id s.platforms

-- `get_by_slug`
abbrev pub is_visible : String → Bool → PlatformRow → Bool
is_visible slug published_only p =
    if str_eq p.slug slug then (if published_only then is_published p.status else true) else false

unfoldable pub get_by_slug : Site → String → Bool → Option PlatformRow
get_by_slug s slug published_only = first (is_visible slug published_only) s.platforms

-- A change of the platform with an identifier.
abbrev pub change_platform : ℕ → (PlatformRow → PlatformRow) → Site → Site
change_platform id f s = record s { platforms = alter (λ p. p.id) id f s.platforms }
