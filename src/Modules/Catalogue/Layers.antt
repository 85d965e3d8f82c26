-- ===== src/Modules/Catalogue/Layers.antt =====
-- `MODULES` of apps/api/app/modules/aidflow_modules.py: the map and its layers.
use aidflow.Prelude.{true, false, none, some, List, [], ◌∷◌}
use aidflow.Modules.{ModuleSpec}
use aidflow.Modules.Catalogue.Shape.{spec, both, every, water, slope}

abbrev pub layers_modules : List ModuleSpec
layers_modules =
    spec "heatmap_layer" "災情熱區圖層" "visualization" "layer" both every true false [] (some "heatmap")
      none
    ∷ spec "government_processing_layer" "政府處理中圖層" "visualization" "layer" both every true false []
        (some "government_processing") none
    ∷ spec "flooding_layer" "積淹水圖層" "visualization" "layer" both water true false []
        (some "flooding") none
    ∷ spec "road_damage_layer" "道路災害圖層" "visualization" "layer" both every true false []
        (some "road_damage") none
    ∷ spec "landslide_layer" "土石流圖層" "visualization" "layer" both slope true false []
        (some "landslide") none
    ∷ spec "trapped_people_layer" "人員受困圖層" "visualization" "layer" both every true false []
        (some "trapped_people") none
    ∷ spec "building_damage_layer" "建築損害圖層" "visualization" "layer" both
        ("earthquake" ∷ "typhoon" ∷ []) true false [] (some "building_damage") none
    ∷ spec "lifeline_layer" "維生管線圖層" "visualization" "layer" both ("typhoon" ∷ "earthquake" ∷ [])
        true false [] (some "lifeline") none
    ∷ spec "shelter_layer" "避難收容處所圖層" "visualization" "layer" both every true false
        ("moi_shelter_connector" ∷ []) (some "shelter") (some "moi_shelter_connector")
    ∷ spec "fire_station_layer" "消防單位圖層" "visualization" "layer" both every true false
        ("nantou_open_data_connector" ∷ []) (some "fire_station")
        (some "nantou_open_data_connector")
    ∷ spec "official_alert_layer" "官方警戒圖層" "visualization" "layer" both every true false
        ("cwa_connector" ∷ []) (some "official_alert") (some "cwa_connector")
    ∷ spec "rainfall_layer" "雨量圖層" "visualization" "layer" both water true false
        ("cwa_connector" ∷ []) (some "rainfall") (some "cwa_connector")
    ∷ spec "water_layer" "河川水情圖層" "visualization" "layer" both water true false
        ("wra_connector" ∷ []) (some "water") (some "wra_connector")
    ∷ spec "radar_layer" "雷達回波圖層" "visualization" "layer" both water true false
        ("cwa_connector" ∷ []) (some "radar") (some "cwa_connector")
    ∷ spec "debris_flow_layer" "土石流潛勢溪流圖層" "visualization" "layer" both slope true false
        ("ardswc_connector" ∷ []) (some "debris_flow") (some "ardswc_connector")
    ∷ spec "landslide_zone_layer" "大規模崩塌潛勢區圖層" "visualization" "layer" both slope true false
        ("ardswc_connector" ∷ []) (some "landslide_zone") (some "ardswc_connector")
    ∷ spec "road_traffic_layer" "道路路況與 CCTV 圖層" "visualization" "layer" both every true false
        ("tdx_connector" ∷ []) (some "road_traffic") (some "tdx_connector")
    ∷ spec "reservoir_layer" "水庫水情圖層" "visualization" "layer" both water true false
        ("wra_connector" ∷ []) (some "reservoir") (some "wra_connector")
    ∷ []
