-- ===== src/Categories.antt =====
-- Report categories, reporter roles and severities: apps/api/app/domain/categories.py. Keys are
-- texts, as in the tables of the database; `CATEGORIES.get` is `find_category`.
pub mod Similar
pub mod Examples
pub mod Severity
use aidflow.Prelude.{
  ℕ, ◌+◌, String, Bool, true, false, ◌&&◌, ◌||◌, Option, none, some, List, [], ◌∷◌, any, first, max,
  ltb, ◌==◌, member, str_eq, if◌then◌else◌,
}

pub record ReportCategory : Type 0 where
  pub key : String
  pub label : String
  pub default_severity : String
  pub layer : String
  pub life_safety : Bool

abbrev category : String → String → String → String → Bool → ReportCategory
category key label severity layer life = record {
  key = key;
  label = label;
  default_severity = severity;
  layer = layer;
  life_safety = life;
}

abbrev pub categories : List ReportCategory
categories =
    category "road_collapse" "道路坍方" "high" "road_damage" false
    ∷ category "road_blocked" "道路中斷" "high" "road_damage" false
    ∷ category "flooding" "積淹水" "medium" "flooding" false
    ∷ category "landslide" "土石流" "high" "landslide" false
    ∷ category "trapped_person" "人員受困" "critical" "trapped_people" true
    ∷ category "bridge_damage" "橋梁受損" "high" "road_damage" false
    ∷ category "fallen_tree" "倒木" "low" "road_damage" false
    ∷ category "power_outage" "停電" "medium" "lifeline" false
    ∷ category "water_outage" "停水" "low" "lifeline" false
    ∷ category "building_damage" "建築損害" "high" "building_damage" false
    ∷ category "fire" "火災" "critical" "building_damage" true
    ∷ category "gas_leak" "瓦斯外洩" "critical" "building_damage" true
    ∷ category "embankment_damage" "堤防受損" "high" "flooding" false
    ∷ category "medical_need" "醫療需求" "high" "trapped_people" true
    ∷ category "other" "其他" "medium" "other" false
    ∷ []

abbrev pub similar_groups : List (List String)
similar_groups =
    ("road_collapse" ∷ "road_blocked" ∷ "landslide" ∷ "fallen_tree" ∷ [])
    ∷ ("flooding" ∷ "embankment_damage" ∷ [])
    ∷ ("bridge_damage" ∷ "road_blocked" ∷ [])
    ∷ ("building_damage" ∷ "fire" ∷ "gas_leak" ∷ [])
    ∷ ("trapped_person" ∷ "medical_need" ∷ [])
    ∷ ("power_outage" ∷ "water_outage" ∷ [])
    ∷ []

unfoldable pub are_similar : String → String → Bool
are_similar a b = str_eq a b || any (λ g. member a g && member b g) similar_groups

unfoldable pub find_category : String → Option ReportCategory
find_category key = first (λ c. str_eq c.key key) categories

label_of : String → Option ReportCategory → String
label_of key none = key
label_of key (some c) = c.label

unfoldable pub category_label : String → String
unfolding label_of find_category
category_label key = label_of key (find_category key)

layer_of : Option ReportCategory → String
layer_of none = "other"
layer_of (some c) = c.layer

unfoldable pub layer_for : String → String
unfolding layer_of find_category
layer_for key = layer_of (find_category key)

abbrev pub reporter_role_keys : List String
reporter_role_keys =
    "citizen" ∷ "village_chief" ∷ "disaster_officer" ∷ "volunteer" ∷ "community_org" ∷ "agency" ∷ []

abbrev pub trusted_roles : List String
trusted_roles = "village_chief" ∷ "disaster_officer" ∷ "agency" ∷ []

abbrev pub severities : List String
severities = "low" ∷ "medium" ∷ "high" ∷ "critical" ∷ []

-- `_SEVERITY_RANK.get(value, d)`
unfoldable pub rank_or : ℕ → String → ℕ
rank_or d value =
    if str_eq value "low"
    then 0
    else if str_eq value "medium"
    then 1
    else if str_eq value "high"
    then 2
    else if str_eq value "critical"
    then 3
    else d

unfoldable pub severity_rank : String → ℕ
unfolding rank_or
severity_rank value = rank_or 1 value

-- `SEVERITIES[rank]`; `none` is the IndexError.
unfoldable pub severity_at : ℕ → Option String
severity_at rank =
    if rank == 0
    then some "low"
    else if rank == 1
    then some "medium"
    else if rank == 2
    then some "high"
    else if rank == 3
    then some "critical"
    else none

-- The loop of `max_severity`, from the best value so far.
max_from : String → List String → String
max_from best [] = best
max_from best (v ∷ rest) = max_from (if ltb (rank_or 0 best) (rank_or 0 v) then v else best) rest

unfoldable pub max_severity : List String → String
unfolding max_from
max_severity values = max_from "low" values

pub is_trusted : Option String → Bool
is_trusted none = false
is_trusted (some role) = member role trusted_roles

pub is_life_safety : Option ReportCategory → Bool
is_life_safety none = false
is_life_safety (some c) = c.life_safety

-- The rank of a single report after triage.
unfoldable pub triage_rank : String → String → Option String → ℕ
unfolding is_trusted is_life_safety
triage_rank severity category reporter_role =
    let stated = rank_or 1 severity in
    let safe = if is_life_safety (find_category category) then max stated 2 else stated in
    if is_trusted reporter_role && ltb safe 2 then safe + 1 else safe

unfoldable pub escalate : String → String → Option String → Option String
unfolding triage_rank severity_at
escalate severity category reporter_role = severity_at (triage_rank severity category reporter_role)
