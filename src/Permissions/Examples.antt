-- ===== src/Permissions/Examples.antt =====
-- Runs of the theorems on apps/api/app/domain/permissions.py.
use aidflow.Prelude.{String, ◌≡◌, refl, true, false, some}
use aidflow.Permissions.{
  has_perm, review_cases, view_pii, manage_platforms, manage_line, manage_users, view_audit,
}
use aidflow.Permissions.Duties.{duties_separated}

abbrev officer_text : String
officer_text = "officer"

duties_separated_example :
    (has_perm (some officer_text) review_cases ≡ true
      → (has_perm (some officer_text) manage_users ≡ false)
        × (has_perm (some officer_text) manage_platforms ≡ false)
        × (has_perm (some officer_text) manage_line ≡ false)
        × (has_perm (some officer_text) view_audit ≡ false))
    × (has_perm (some officer_text) manage_users ≡ true
        → has_perm (some officer_text) view_pii ≡ false)
duties_separated_example = duties_separated (some officer_text)

reviews : has_perm (some officer_text) review_cases ≡ true
unfolding has_perm
reviews = refl
