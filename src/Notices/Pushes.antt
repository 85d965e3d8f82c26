-- ===== src/Notices/Pushes.antt =====
-- The notifications for the staff of apps/api/app/services/notification_service.py, and
-- `after_commit` of apps/api/app/services/case_service.py, which sends them.
use aidflow.Prelude.{
  String, Bool, true, not, Option, none, some, List, [], ◌∷◌, ◌++◌, is_empty, text_or, take_text,
  ◌⧺◌, decimal, if◌then◌else◌,
}
use aidflow.Models.{Db, Report, ReportCluster, IncidentCase}
use aidflow.CaseStates.{CaseStatus, same, pending_review, community_submitted}
use aidflow.Categories.{category_label}
use aidflow.Privacy.{redact_text}
use aidflow.Platforms.Rows.{PlatformRow}
use aidflow.Notices.Delivery.{Delivery, Outside, staff}
use aidflow.Notices.Messages.{severity_label, lines}
use aidflow.Notices.Mail.{notify_reporters}

abbrev described : Outside → Option String → List String
described out none = []
described out (some d) =
    if is_empty d
    then []
    else ("描述：" ⧺ take_text 80 (text_or (redact_text out.patterns (some d)) "")) ∷ []

abbrev same_place : Option ReportCluster → List String
same_place none = []
same_place (some c) = ("同地點目前 " ⧺ decimal c.unique_reporter_count ⧺ " 位回報者") ∷ []

unfoldable pub staff_new_report : Outside → PlatformRow → Report → Option ReportCluster → Delivery
unfolding staff category_label take_text decimal
staff_new_report out p r cluster =
    staff out p "new_report"
      (lines (
        (("【新災情通報】" ⧺ p.name)
          ∷ (category_label r.category
              ⧺ "｜"
              ⧺ text_or r.town "位置未提供"
              ⧺ "｜嚴重度 "
              ⧺ severity_label r.triage_severity)
          ∷ [])
        ++ described out r.description
        ++ same_place cluster
        ++ ("請至政府管理後台查看：" ⧺ out.web ⧺ "/console/platforms/" ⧺ out.uuid p.id) ∷ []))
      none (some r.id)

abbrev case_line : IncidentCase → String
case_line c = c.case_number ⧺ "｜" ⧺ c.title

abbrev case_page : Outside → PlatformRow → IncidentCase → String
case_page out p c = out.web ⧺ "/console/platforms/" ⧺ out.uuid p.id ⧺ "/cases/" ⧺ out.uuid c.id

unfoldable pub staff_review_needed : Outside → PlatformRow → IncidentCase → Delivery
unfolding staff decimal
staff_review_needed out p c =
    staff out p "review_needed"
      (lines (
        ("【待審核】" ⧺ p.name)
        ∷ (case_line c ⧺ "｜嚴重度 " ⧺ severity_label c.severity)
        ∷ (decimal c.unique_reporter_count ⧺ " 位民眾回報，請判斷：上報 EMIC／民間可處理／不成案")
        ∷ ("審核：" ⧺ case_page out p c)
        ∷ []))
      (some c.id) none

unfoldable pub staff_community_submitted : Outside → PlatformRow → IncidentCase → Delivery
unfolding staff
staff_community_submitted out p c =
    staff out p "community_submitted"
      (lines (
        ("【民眾回報已處理】" ⧺ p.name)
        ∷ case_line c
        ∷ "民眾已上傳處理完成照片，請確認後結案。"
        ∷ ("確認：" ⧺ case_page out p c)
        ∷ []))
      (some c.id) none

-- `after_commit` of apps/api/app/services/case_service.py, with the status before the change; an
-- exception of a notification is logged only.
abbrev is_new_status : Option CaseStatus → CaseStatus → Bool
is_new_status none s = true
is_new_status (some t) s = not (same s t)

abbrev case_push : Outside → PlatformRow → IncidentCase → List Delivery
case_push out p c =
    if same c.status pending_review
    then staff_review_needed out p c ∷ []
    else if same c.status community_submitted
    then staff_community_submitted out p c ∷ []
    else []

unfoldable pub after_commit :
    Outside → Db → PlatformRow → IncidentCase → Option CaseStatus → List Delivery
unfolding staff_review_needed staff_community_submitted notify_reporters
after_commit out db p c previous =
    if is_new_status previous c.status
    then case_push out p c ++ (notify_reporters out db p c).0
    else []
