-- ===== src/Notices/Staff.antt =====
-- Whom the notifications for the staff go to.
use aidflow.Prelude.{
  ℕ, String, ◌≡◌, refl, ◌∙◌, inl, inr, Bool, true, false, Option, none, some, is_empty, is_text,
  text_or, or_none, All, Bool-cases, arith,
}
use aidflow.Platforms.Rows.{PlatformRow, Site, get_platform}
use aidflow.Line.{group_of, owner}
use aidflow.Line.Linked.{target-get}
use aidflow.Line.History.{IsSilent, History, History-IsLinked}
use aidflow.Notices.Delivery.{Outside, Job, line_group_for, staff, deliver, delivery}

line_group_for-group_of :
    (o : Option String) (g : String) → or_none (text_or o "") ≡ some g → o ≡ some g
line_group_for-group_of none g e = absurd (ground (arith, e))
line_group_for-group_of (some x) g e = elim (Bool-cases (is_empty x)) [
  | inl k ↦ absurd (ground (arith, k, e))
  | inr k ↦ ground (arith, k, e)
]

jobs-delivery :
    (P : Job → Type 0) (addressed ready : Bool) (job : Job)
    → (addressed ≡ true → P job)
    → All P (delivery addressed ready job).jobs
jobs-delivery P false ready job h = tt
jobs-delivery P true false job h = tt
jobs-delivery P true true job h = (h refl, tt)

bound_group :
    {s : Site} (id : ℕ) (p : PlatformRow) (o : Option String)
    → (history : History s) → IsSilent history
    → get_platform s id ≡ some p
    → line_group_for p ≡ o
    → is_text o ≡ true
    → (g : String) × (o ≡ some g) × (owner s g ≡ some id)
bound_group id p none h q e k t = absurd (ground (arith, t))
bound_group {s} id p (some g) h silent e k t =
    let q = target-get s id e ∙ line_group_for-group_of (group_of p) g k in
    (g, refl, (History-IsLinked h silent).names id g q)

-- In a site that calls of the services make, none of which writes a configuration with the key
-- `line_group_id`, a push for a platform goes to the group whose row names that platform, and to no
-- other.
pub staff_lem :
    {s : Site} (id : ℕ) (p : PlatformRow) (out : Outside) (kind body : String)
    (case_id report_id : Option ℕ)
    → (history : History s) → IsSilent history
    → get_platform s id ≡ some p
    → All
        (λ j. (g : String) × (j.to ≡ some g) × (owner s g ≡ some id))
        (staff out p kind body case_id report_id).jobs
unfolding staff deliver
staff_lem {s} id p out kind body case_id report_id h q e =
    jobs-delivery (λ j. (g : String) × (j.to ≡ some g) × (owner s g ≡ some id))
      (is_text (line_group_for p)) _ _ (λ t. bound_group id p (line_group_for p) h q e refl t)
