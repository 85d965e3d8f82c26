-- ===== src/Permissions/Duties.antt =====
-- Separation of duties in `ROLE_PERMS` of apps/api/app/domain/permissions.py.
use aidflow.Prelude.{String, ◌≡◌, true, false, ◌⊎◌, Option, none, some, arith, eq_iff}
use aidflow.Permissions.{
  Perm, role_value, has_perm, officer, supervisor, admin, view_console, review_cases, view_pii,
  manage_platforms, manage_line, manage_users, view_audit,
}

-- Whatever text stands in the role column: who reviews cases manages neither accounts nor
-- platforms nor LINE groups and reads no audit trail, and who manages accounts sees no personal
-- data.
pub duties_separated :
    (role : Option String)
    → (has_perm role review_cases ≡ true
        → (has_perm role manage_users ≡ false)
          × (has_perm role manage_platforms ≡ false)
          × (has_perm role manage_line ≡ false)
          × (has_perm role view_audit ≡ false))
      × (has_perm role manage_users ≡ true → has_perm role view_pii ≡ false)
unfolding has_perm
duties_separated none = (λ h. ground arith, λ h. ground arith)
duties_separated (some text) = (λ h. ground arith, λ h. ground arith)

-- A role holds some permission exactly when it names one of the three roles, and then it may at
-- least look at the console.
pub has_perm-role :
    (role : String) (perm : Perm)
    → has_perm (some role) perm ≡ true
    → ((role ≡ role_value officer) ⊎ ((role ≡ role_value supervisor) ⊎ (role ≡ role_value admin)))
      × (has_perm (some role) view_console ≡ true)
unfolding has_perm
has_perm-role role perm h =
    ground (arith, eq_iff role "officer", eq_iff role "supervisor", eq_iff role "admin")
