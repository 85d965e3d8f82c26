-- ===== src/Permissions.antt =====
-- Roles and what they may do: apps/api/app/domain/permissions.py.
pub mod Duties
pub mod Examples
use aidflow.Prelude.{
  ℕ, String, Bool, Option, none, some, List, [], ◌∷◌, any, ◌==◌, str_eq, if◌then◌else◌,
}

pub data Role : Type 0 where
  officer supervisor admin : Role

abbrev pub role_value : Role → String
role_value officer = "officer"
role_value supervisor = "supervisor"
role_value admin = "admin"

pub data Perm : Type 0 where
  view_console review_cases view_pii manage_platforms manage_line manage_users view_audit : Perm

abbrev pub perm_ordinal : Perm → ℕ
perm_ordinal view_console = 0
perm_ordinal review_cases = 1
perm_ordinal view_pii = 2
perm_ordinal manage_platforms = 3
perm_ordinal manage_line = 4
perm_ordinal manage_users = 5
perm_ordinal view_audit = 6

-- `perm in perms`
abbrev pub holds : Perm → List Perm → Bool
holds p = any (λ q. perm_ordinal p == perm_ordinal q)

abbrev pub role_perms : Role → List Perm
role_perms officer = view_console ∷ review_cases ∷ view_pii ∷ []
role_perms supervisor = view_console ∷ view_pii ∷ view_audit ∷ []
role_perms admin = view_console ∷ manage_platforms ∷ manage_line ∷ manage_users ∷ view_audit ∷ []

abbrev pub all_perms : List Perm
all_perms =
    view_console ∷ review_cases ∷ view_pii ∷ manage_platforms ∷ manage_line ∷ manage_users
    ∷ view_audit ∷ []

-- `ROLE_PERMS.get(text)`: a text that names no role holds nothing.
perms_of_text : String → List Perm
perms_of_text text =
    if str_eq text "officer"
    then role_perms officer
    else if str_eq text "supervisor"
    then role_perms supervisor
    else if str_eq text "admin"
    then role_perms admin
    else []

unfoldable pub perms_for : Option String → List Perm
unfolding perms_of_text
perms_for none = perms_of_text ""
perms_for (some role) = perms_of_text role

unfoldable pub has_perm : Option String → Perm → Bool
unfolding perms_for
has_perm role perm = holds perm (perms_for role)
