-- ===== src/Modules/Hazards.antt =====
-- The hazards of disasters: apps/api/app/domain/hazards.py. `str.lower` and the search for a keyword
-- in a text come as functions.
use aidflow.Prelude.{
  contains_text, text_or, String, Bool, Option, none, some, List, [], ◌∷◌, map, any, select, first,
  str_eq,
}

pub record Hazard : Type 0 where
  pub key : String
  pub label : String
  pub report_categories : List String
  pub layers : List String
  pub keywords : List String

abbrev hazard : String → String → List String → List String → List String → Hazard
hazard key label cats layers keywords = record {
  key = key;
  label = label;
  report_categories = cats;
  layers = layers;
  keywords = keywords;
}

-- `HAZARDS`
unfoldable pub hazards : List Hazard
hazards =
    hazard "typhoon" "颱風"
      ("flooding" ∷ "fallen_tree" ∷ "power_outage" ∷ "road_blocked" ∷ "road_collapse"
        ∷ "bridge_damage" ∷ "trapped_person" ∷ "building_damage" ∷ "other" ∷ [])
      ("flooding" ∷ "road_damage" ∷ "shelter" ∷ "official_alert" ∷ "rainfall" ∷ "radar" ∷ "water"
        ∷ "reservoir" ∷ "debris_flow" ∷ "road_traffic" ∷ "population" ∷ "power_outage" ∷ [])
      ("颱風" ∷ "台风" ∷ "typhoon" ∷ "強颱" ∷ "熱帶氣旋" ∷ "颶風" ∷ [])
    ∷ hazard "heavy_rain" "豪雨"
        ("flooding" ∷ "road_collapse" ∷ "landslide" ∷ "road_blocked" ∷ "bridge_damage"
          ∷ "trapped_person" ∷ "embankment_damage" ∷ "other" ∷ [])
        ("flooding" ∷ "rainfall" ∷ "radar" ∷ "water" ∷ "reservoir" ∷ "road_damage" ∷ "landslide"
          ∷ "debris_flow" ∷ "landslide_zone" ∷ "road_traffic" ∷ "official_alert" ∷ "population"
          ∷ [])
        ("豪雨" ∷ "大雨" ∷ "暴雨" ∷ "連續降雨" ∷ "強降雨" ∷ "heavy rain" ∷ "豪大雨" ∷ [])
    ∷ hazard "flood" "淹水"
        ("flooding" ∷ "embankment_damage" ∷ "trapped_person" ∷ "road_blocked" ∷ "power_outage"
          ∷ "other" ∷ [])
        ("flooding" ∷ "water" ∷ "reservoir" ∷ "rainfall" ∷ "radar" ∷ "road_damage" ∷ "road_traffic"
          ∷ "shelter" ∷ "official_alert" ∷ "population" ∷ [])
        ("淹水" ∷ "積水" ∷ "水災" ∷ "洪水" ∷ "積淹水" ∷ "flood" ∷ "溢堤" ∷ [])
    ∷ hazard "landslide" "土石流"
        ("landslide" ∷ "road_collapse" ∷ "road_blocked" ∷ "trapped_person" ∷ "bridge_damage"
          ∷ "building_damage" ∷ "other" ∷ [])
        ("landslide" ∷ "debris_flow" ∷ "landslide_zone" ∷ "road_damage" ∷ "road_traffic"
          ∷ "rainfall" ∷ "radar" ∷ "shelter" ∷ "official_alert" ∷ "population" ∷ [])
        ("土石流" ∷ "坍方" ∷ "崩塌" ∷ "落石" ∷ "山崩" ∷ "邊坡" ∷ "landslide" ∷ [])
    ∷ hazard "earthquake" "地震"
        ("building_damage" ∷ "trapped_person" ∷ "fire" ∷ "gas_leak" ∷ "road_collapse"
          ∷ "bridge_damage" ∷ "power_outage" ∷ "water_outage" ∷ "other" ∷ [])
        ("building_damage" ∷ "trapped_people" ∷ "shelter" ∷ "fire_station" ∷ "official_alert"
          ∷ "road_damage" ∷ [])
        ("地震" ∷ "餘震" ∷ "規模" ∷ "震度" ∷ "earthquake" ∷ [])
    ∷ hazard "barrier_lake" "堰塞湖"
        ("flooding" ∷ "embankment_damage" ∷ "road_blocked" ∷ "trapped_person" ∷ "bridge_damage"
          ∷ "other" ∷ [])
        ("flooding" ∷ "water" ∷ "rainfall" ∷ "shelter" ∷ "official_alert" ∷ "road_damage" ∷ [])
        ("堰塞湖" ∷ "潰壩" ∷ "潰堤" ∷ "溢流" ∷ "barrier lake" ∷ [])
    ∷ []

-- `HAZARDS.get(key)`
unfoldable pub find_hazard : String → Option Hazard
unfolding hazards
find_hazard key = first (λ h. str_eq h.key key) hazards

abbrev pub is_hazard : String → Bool
is_hazard key = elim (find_hazard key) [ none ↦ Bool.false | some _ ↦ Bool.true ]

unfoldable pub hazard_label : String → String
unfolding find_hazard
hazard_label key = elim (find_hazard key) [ none ↦ key | some h ↦ h.label ]

-- `lower` is `str.lower`.
unfoldable pub detect_hazards : (String → String) → Option String → List String
unfolding hazards contains_text
detect_hazards lower text =
    map (λ h. h.key)
      (select (λ h. any (λ k. contains_text (lower k) (lower (text_or text ""))) h.keywords)
        hazards)
