-- ===== src/Modules/Scenarios.antt =====
-- The profile of a disaster: apps/api/app/modules/scenarios.py. The reasons that the console shows
-- beside each module are left out.
use aidflow.Prelude.{
  String, Bool, true, false, not, ◌&&◌, ◌||◌, Option, none, some, List, [], ◌∷◌, ◌++◌, map, select,
  str_eq, member, is_text, text_or, contains_text, ◌⧺◌, sort_by, sort_with, index_in, unseen,
  remove_text, if◌then◌else◌,
}
use aidflow.Categories.{find_category}
use aidflow.Modules.{ModuleSpec, Registry, applies_to, is_registered, is_layer, layer_by_key}
use aidflow.Modules.Hazards.{Hazard, find_hazard, is_hazard, hazard_label}

pub record ScenarioProfile : Type 0 where
  pub hazards : List String
  pub primary_hazard : String
  pub label : String
  pub county : Option String
  pub towns : List String
  pub report_categories : List String
  pub layers : List String
  pub modules : List String

abbrev pub form_order : List String
form_order =
    "road_collapse" ∷ "flooding" ∷ "landslide" ∷ "trapped_person" ∷ "bridge_damage" ∷ "road_blocked"
    ∷ "fallen_tree" ∷ "building_damage" ∷ "fire" ∷ "gas_leak" ∷ "embankment_damage" ∷ "power_outage"
    ∷ "water_outage" ∷ "medical_need" ∷ "other" ∷ []

abbrev pub concat : List (List String) → List String
concat [] = []
concat (xs ∷ xss) = xs ++ concat xss

-- `_ordered_union`, without an order and with one
abbrev pub ordered_union : List (List String) → List String
ordered_union seqs = unseen [] (concat seqs)

unfoldable pub union_in_order : List String → List (List String) → List String
unfolding sort_with
union_in_order order seqs = sort_by (index_in order) (ordered_union seqs)

abbrev labels_of : List String → String
labels_of [] = ""
labels_of (h ∷ []) = hazard_label h
labels_of (h ∷ g ∷ []) = hazard_label h ⧺ hazard_label g
labels_of (h ∷ g ∷ _) = hazard_label h ⧺ hazard_label g ⧺ "等"

unfoldable pub scenario_label : List String → String
unfolding hazard_label
scenario_label [] = "災害"
scenario_label (h ∷ hs) = labels_of (h ∷ hs)

abbrev pub or_seq : List (List String) → List String → List (List String)
or_seq [] d = d ∷ []
or_seq (s ∷ ss) d = s ∷ ss

-- A field of each hazard of the list.
abbrev pub field_of : (Hazard → List String) → List String → List (List String)
field_of f [] = []
field_of f (h ∷ hs) = elim (find_hazard h) [ none ↦ field_of f hs | some z ↦ f z ∷ field_of f hs ]

abbrev pub known_category : String → Bool
known_category c = elim (find_category c) [ none ↦ false | some _ ↦ true ]

abbrev pub default_categories : List String
default_categories =
    "road_blocked" ∷ "flooding" ∷ "trapped_person" ∷ "building_damage" ∷ "other" ∷ []

-- The categories of the form: those that the brief mentions first, and "other" last.
unfoldable pub form_categories : List String → List String → List String
unfolding union_in_order find_hazard find_category
form_categories hz mentioned =
    let pinned = select known_category mentioned in
    let cats =
      union_in_order form_order
        (or_seq (field_of (λ h. h.report_categories) hz) default_categories) in
    remove_text "other" (pinned ++ select (λ c. not (member c pinned)) cats) ++ "other" ∷ []

abbrev pub base_layers : List String
base_layers =
    "incident_cases" ∷ "report_clusters" ∷ "citizen_reports" ∷ "heatmap" ∷ "government_processing"
    ∷ []

abbrev default_layers : List String
default_layers = "road_damage" ∷ "shelter" ∷ "official_alert" ∷ []

abbrev has_layer : Registry → String → Bool
has_layer reg key = elim (layer_by_key reg key) [ none ↦ false | some _ ↦ true ]

abbrev pub in_nantou : Option String → Bool
in_nantou county = is_text county && contains_text "南投" (text_or county "")

-- The fire stations are those of one county.
abbrev with_stations : Option String → List String → List String
with_stations county layers =
    if is_text county && not (in_nantou county)
    then remove_text "fire_station" layers
    else if in_nantou county && not (member "fire_station" layers)
    then layers ++ "fire_station" ∷ []
    else layers

unfoldable pub profile_layers : Registry → List String → Option String → List String
unfolding find_hazard contains_text layer_by_key
profile_layers reg hz county = with_stations county (
    base_layers
    ++ select (λ l. not (member l base_layers) && has_layer reg l)
        (ordered_union (or_seq (field_of (λ h. h.layers) hz) default_layers)))

abbrev or_star : List String → List String
or_star [] = "*" ∷ []
or_star (h ∷ hs) = h ∷ hs

-- The modules that are suggested and are no layers.
abbrev is_suggested : List String → Option String → ModuleSpec → Bool
is_suggested hz county m =
    not (is_layer m)
    && (m.core
        || (m.default_enabled
            && applies_to m (or_star hz)
            && not (str_eq m.id "nantou_open_data_connector" && not (in_nantou county))))

abbrev add_id : Registry → String → List String → List String
add_id reg id ids = if member id ids || not (is_registered reg id) then ids else ids ++ id ∷ []

abbrev add_ids : Registry → List String → List String → List String
add_ids reg [] ids = ids
add_ids reg (d ∷ ds) ids = add_ids reg ds (add_id reg d ids)

-- A layer that is not there yet comes with its dependencies.
abbrev add_layer : Registry → Option ModuleSpec → List String → List String
add_layer reg none ids = ids
add_layer reg (some m) ids =
    if member m.id ids then ids else add_ids reg m.dependencies (ids ++ m.id ∷ [])

abbrev add_layers : Registry → List String → List String → List String
add_layers reg [] ids = ids
add_layers reg (l ∷ ls) ids = add_layers reg ls (add_layer reg (layer_by_key reg l) ids)

unfoldable pub profile_modules : Registry → List String → Option String → List String → List String
unfolding contains_text layer_by_key
profile_modules reg hz county layers =
    add_layers reg layers (map (λ m. m.id) (select (is_suggested hz county) reg))

abbrev pub first_or : String → List String → String
first_or d [] = d
first_or d (x ∷ xs) = x

unfoldable pub compose_profile :
    Registry → List String → Option String → List String → List String → ScenarioProfile
unfolding form_categories profile_layers profile_modules scenario_label find_hazard
compose_profile reg hazards county towns mentioned =
    let hz = select is_hazard hazards in
    let layers = profile_layers reg hz county in
    record {
      hazards = hz;
      primary_hazard = first_or "generic" hz;
      label = scenario_label hz;
      county = county;
      towns = towns;
      report_categories = form_categories hz mentioned;
      layers = layers;
      modules = profile_modules reg hz county layers;
    }
