-- ===== src/Modules/Catalogue/Sources.antt =====
-- `MODULES` of apps/api/app/modules/aidflow_modules.py: official data, publication, statistics, privacy and notification.
use aidflow.Prelude.{true, false, none, some, List, [], ◌∷◌}
use aidflow.Modules.{ModuleSpec}
use aidflow.Modules.Catalogue.Shape.{spec, both, public_only, console_only, every, water, slope}

abbrev pub sources_modules : List ModuleSpec
sources_modules =
    spec "population_layer" "人口分布圖層" "visualization" "layer" both every true false
      ("moi_population_connector" ∷ []) (some "population") (some "moi_population_connector")
    ∷ spec "power_outage_layer" "計畫停電圖層" "visualization" "layer" both
        ("typhoon" ∷ "earthquake" ∷ []) false false ("taipower_connector" ∷ [])
        (some "power_outage") (some "taipower_connector")
    ∷ spec "nantou_open_data_connector" "南投縣政府開放資料" "official_data" "connector" console_only every
        true false [] none none
    ∷ spec "moi_shelter_connector" "消防署避難收容處所" "official_data" "connector" console_only every true
        false [] none none
    ∷ spec "cwa_connector" "中央氣象署開放資料" "official_data" "connector" console_only every true false []
        none none
    ∷ spec "wra_connector" "水利署水利資料開放平台" "official_data" "connector" console_only water true false
        [] none none
    ∷ spec "ncdr_connector" "NCDR 民生示警 (CAP)" "official_data" "connector" console_only every false
        false [] none none
    ∷ spec "ardswc_connector" "農村發展及水土保持署 土石流防災資訊" "official_data" "connector" console_only slope
        true false [] none none
    ∷ spec "tdx_connector" "交通部 TDX 路況" "official_data" "connector" console_only every true false []
        none none
    ∷ spec "moi_population_connector" "內政部戶政司人口統計" "official_data" "connector" console_only every
        true false [] none none
    ∷ spec "taipower_connector" "台電計畫性停電" "official_data" "connector" console_only
        ("typhoon" ∷ "earthquake" ∷ []) false false [] none none
    ∷ spec "public_timeline" "公開處理時間軸" "public_transparency" "feature" public_only every true true
        [] none none
    ∷ spec "status_progress" "處理進度顯示" "public_transparency" "feature" public_only every true true []
        none none
    ∷ spec "public_case_list" "公開案件清單" "public_transparency" "feature" public_only every true true
        [] none none
    ∷ spec "incident_statistics" "災情統計" "analytics" "feature" both every true true [] none none
    ∷ spec "trend_visualization" "災情趨勢" "analytics" "feature" both every true false [] none none
    ∷ spec "privacy_mask" "位置與地址遮罩" "privacy" "processor" both every true true [] none none
    ∷ spec "personal_data_redaction" "個資去識別化" "privacy" "processor" both every true true [] none
        none
    ∷ spec "line_group_notify" "LINE 群組通知" "notification" "action" console_only every true true []
        none none
    ∷ spec "progress_subscription" "案件進度通知" "notification" "action" public_only every true true
        ("report_form" ∷ []) none none
    ∷ spec "map_embed" "地圖嵌入元件" "public_transparency" "feature" public_only every true true
        ("incident_map" ∷ []) none none
    ∷ []
