-- ===== src/Modules/Catalogue/Reports.antt =====
-- `MODULES` of apps/api/app/modules/aidflow_modules.py: reporting, processing and handling.
use aidflow.Prelude.{true, false, none, some, List, [], ◌∷◌}
use aidflow.Modules.{ModuleSpec}
use aidflow.Modules.Catalogue.Shape.{spec, both, public_only, console_only, every}

abbrev pub reports_modules : List ModuleSpec
reports_modules =
    spec "report_form" "災情通報表單" "reporting" "feature" public_only every true true [] none none
    ∷ spec "report_category" "動態災情類別" "reporting" "feature" public_only every true true
        ("report_form" ∷ []) none none
    ∷ spec "geo_location" "定位與地圖選點" "reporting" "feature" public_only every true true
        ("report_form" ∷ []) none none
    ∷ spec "photo_upload" "現場照片上傳" "reporting" "feature" both every true true ("report_form" ∷ [])
        none none
    ∷ spec "reporter_role" "回報者身分" "reporting" "feature" public_only every true false
        ("report_form" ∷ []) none none
    ∷ spec "severity_triage" "嚴重度自動分級" "processing" "processor" console_only every true true [] none
        none
    ∷ spec "geo_cluster" "地理聚類引擎" "processing" "processor" console_only every true true [] none none
    ∷ spec "duplicate_report_merge" "重複通報合併" "processing" "processor" console_only every true true
        ("geo_cluster" ∷ []) none none
    ∷ spec "two_report_trigger" "多人回報成案門檻" "processing" "processor" console_only every true true
        ("geo_cluster" ∷ "duplicate_report_merge" ∷ []) none none
    ∷ spec "incident_case_creation" "成案" "processing" "processor" console_only every true true
        ("two_report_trigger" ∷ []) none none
    ∷ spec "case_review" "審核點（處理方式分流）" "handling" "feature" console_only every true true
        ("incident_case_creation" ∷ []) none none
    ∷ spec "case_status" "案件狀態機" "handling" "feature" console_only every true true
        ("case_review" ∷ []) none none
    ∷ spec "emic_report" "EMIC 上報" "handling" "action" console_only every true true
        ("case_status" ∷ []) none none
    ∷ spec "community_handling" "民眾協助處理" "handling" "feature" both every true true
        ("case_status" ∷ "photo_upload" ∷ []) none none
    ∷ spec "incident_map" "互動災情地圖" "visualization" "feature" both every true true [] none none
    ∷ spec "citizen_report_layer" "民眾通報圖層" "visualization" "layer" both every true true []
        (some "citizen_reports") none
    ∷ spec "incident_case_layer" "正式案件圖層" "visualization" "layer" both every true true []
        (some "incident_cases") none
    ∷ spec "report_cluster_layer" "多人回報聚類圖層" "visualization" "layer" both every true true []
        (some "report_clusters") none
    ∷ []
