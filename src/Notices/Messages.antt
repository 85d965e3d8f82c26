-- ===== src/Notices/Messages.antt =====
-- The texts of apps/api/app/services/notification_service.py for reporters.
use aidflow.Prelude.{String, List, [], ◌∷◌, ◌++◌, str_eq, is_text, text_or, ◌⧺◌, if◌then◌else◌}
use aidflow.Models.{Report, IncidentCase}
use aidflow.CaseStates.{
  CaseStatus, value, same, public_label, pending_review, reported_emic, emic_processing,
  community_open, community_submitted, closed, dismissed,
}
use aidflow.Categories.{category_label}
use aidflow.Platforms.Rows.{PlatformRow}
use aidflow.Notices.Delivery.{Outside}

-- `_SEVERITY`
abbrev pub severity_label : String → String
severity_label s =
    if str_eq s "critical"
    then "極高"
    else if str_eq s "high"
    then "高"
    else if str_eq s "medium"
    then "中"
    else if str_eq s "low"
    then "低"
    else s

-- `"\n".join(lines)`
abbrev pub lines : List String → String
lines [] = ""
lines (l ∷ []) = l
lines (l ∷ k ∷ rest) = l ⧺ "\n" ⧺ lines (k ∷ rest)

-- The sentence on the status of a case.
abbrev status_detail : IncidentCase → CaseStatus → String
status_detail c pending_review = "您的通報已成案，承辦人員正在審核處理方式。"
status_detail c reported_emic = "承辦人員已將此災情上報內政部消防署 EMIC 系統，由權責單位處理。"
status_detail c emic_processing =
    "權責單位正在處理此災情。"
    ⧺ (if is_text c.emic_status then "（EMIC 狀態：" ⧺ text_or c.emic_status "" ⧺ "）" else "")
status_detail c community_open = "此災情經審核為小型災情，已開放民眾協助處理；若您已處理完成，可於案件頁上傳照片回報。"
status_detail c community_submitted = "已有民眾回報處理完成，等待承辦人員確認。"
status_detail c closed = "此災情已處理完成並結案，感謝您的通報。"
status_detail c dismissed = "此通報經承辦人員審核，判定為重複或不需處理的通報。"

-- The subject and the body of `_reporter_message`.
unfoldable pub reporter_message : Outside → PlatformRow → IncidentCase → Report → String × String
unfolding public_label category_label
reporter_message out p c r = (
  "【" ⧺ p.name ⧺ "】您通報的災情：" ⧺ public_label (value c.status),
  lines (
      ("您好："
        ∷ ""
        ∷ ("您於 "
            ⧺ out.stamp r.created_at
            ⧺ " 通報的「"
            ⧺ category_label r.category
            ⧺ "」（案號 "
            ⧺ c.case_number
            ⧺ "）")
        ∷ ("目前狀態：" ⧺ public_label (value c.status))
        ∷ status_detail c c.status
        ∷ [])
      ++ (if is_text c.public_summary then ("最新進度：" ⧺ text_or c.public_summary "") ∷ [] else [])
      ++ (if same c.status dismissed
          then []
          else "" ∷ ("查看處理進度：" ⧺ out.web ⧺ "/p/" ⧺ p.slug ⧺ "/cases/" ⧺ out.uuid c.id) ∷ [])
      ++ ""
        ∷ "—"
        ∷ "本信件由系統自動發送，請勿直接回覆。危及生命請撥打 119。"
        ∷ ("不想再收到此案件通知：" ⧺ out.web ⧺ "/unsubscribe?token=" ⧺ text_or r.notify_token "None")
        ∷ []),
)
