-- ===== src/Accounts/Manage.antt =====
-- The management of accounts by an administrator: `create_user`, `update_user`,
-- `_ensure_admin_remains` and `bootstrap_admin` of apps/api/app/services/auth_service.py. A call that
-- raises leaves no trace, since nothing is committed; so an error carries no state.
use aidflow.Prelude.{
  ℕ, ◌+◌, String, Bool, true, false, not, ◌&&◌, ◌||◌, Option, none, some, List, [], ◌∷◌, ◌++◌, any,
  all, ◌==◌, str_eq, is_text, text_or, is_empty, strip, member, if◌then◌else◌,
}
use aidflow.Models.{Json, json_text}
use aidflow.Accounts.{audit, put_user, find_user}
use aidflow.Accounts.Rows.{
  User, Accounts, Unicode, Crypto, Settings, Answer, ok, ◌>>=◌, ◌>>◌, guard, unknown_role, own_role,
  own_account, last_admin, bad_username, username_taken,
}
use aidflow.Accounts.Passwords.{validate_password, chars}

-- `Role` of apps/api/app/domain/permissions.py, by its values
abbrev pub role_values : List String
role_values = "officer" ∷ "supervisor" ∷ "admin" ∷ []

abbrev pub is_admin : User → Bool
is_admin u = str_eq u.role "admin" && u.active

-- Another active administrator than the account with this identifier.
abbrev pub other_admin : ℕ → List User → Bool
other_admin id = any (λ u. is_admin u && not (u.id == id))

-- `_ensure_admin_remains`, for an account that would have this role and activity.
unfoldable pub ensure_admin_remains : User → String → Bool → Accounts → Answer (Unit {0})
ensure_admin_remains u role active db =
    if not (is_admin u)
    then ok tt
    else if str_eq role "admin" && active
    then ok tt
    else guard (other_admin u.id db.users) last_admin

abbrev is_same : Option User → User → Bool
is_same none u = false
is_same (some a) u = a.id == u.id

-- The display name, where a new one is given and differs.
abbrev pub rename : Option String → User → User
rename none u = u
rename (some name) u =
    if is_empty (strip name) || str_eq (strip name) u.display_name
    then u
    else record u { display_name = strip name }

unfoldable pub change_role : Option User → Option String → User → Accounts → Answer User
unfolding ensure_admin_remains
change_role actor none u db = ok u
change_role actor (some role) u db = if str_eq role u.role then ok u else (do
  guard (member role role_values) unknown_role
  guard (not (is_same actor u)) own_role
  ensure_admin_remains u role u.active db
  ok (record u { role = role; token_version = u.token_version + 1 }))

abbrev same_flag : Bool → Bool → Bool
same_flag true b = b
same_flag false b = not b

unfoldable pub change_active : Option User → Option Bool → User → Accounts → Answer User
unfolding ensure_admin_remains
change_active actor none u db = ok u
change_active actor (some active) u db = if same_flag active u.active then ok u else (do
  guard (not (is_same actor u && not active)) own_account
  (if active then ok tt else ensure_admin_remains u u.role false db)
  ok (record u { active = active; token_version = u.token_version + 1 }))

unfoldable pub reset_password : Unicode → Crypto → Settings → Option String → User → Answer User
reset_password uni k cfg password u =
    if is_text password
    then (do
      validate_password uni cfg (text_or password "")
      ok (record u {
        password_hash = k.hash (text_or password "");
        token_version = u.token_version + 1;
        must_change_password = cfg.force_password_change;
        failed_attempts = 0;
        locked_until = none;
      }))
    else ok u

-- The keyword arguments of `update_user`.
pub record UserUpdate : Type 0 where
  pub display_name : Option String
  pub role : Option String
  pub active : Option Bool
  pub password : Option String

-- A value that differs from the old one.
abbrev new_text : String → String → Option String
new_text old new = if str_eq old new then none else some new

-- `changes`, which the audit event lists
abbrev changed_fields : User → User → Bool → Json
changed_fields old new reset =
    Json.account (new_text old.display_name new.display_name) (new_text old.role new.role)
      (if same_flag old.active new.active then none else some new.active) reset

abbrev pub log_changes : User → User → Bool → Option String → Accounts → Accounts
log_changes old new reset actor db =
    if str_eq old.display_name new.display_name
      && (str_eq old.role new.role && (same_flag old.active new.active && not reset))
    then db
    else audit "user.updated" (some new)
        (("changes", changed_fields old new reset) ∷ ("by", json_text actor) ∷ []) db

unfoldable pub update_user :
    Unicode
    → Crypto
    → Settings
    → Option User
    → Option String
    → User
    → UserUpdate
    → Accounts
    → Answer (User × Accounts)
unfolding change_role change_active reset_password audit
update_user uni k cfg actor by u up db = do
  roled ← change_role actor up.role (rename up.display_name u) db
  flagged ← change_active actor up.active roled (put_user roled db)
  reset ← reset_password uni k cfg up.password flagged
  ok (reset, log_changes u reset (is_text up.password) by (put_user reset db))

-- ── creation ──

-- A username has letters, digits, dots, underscores and hyphens.
abbrev good_name : Unicode → String → Bool
good_name uni name =
    not (is_empty name)
    && all (λ c. uni.is_alnum c || (c == 46 || (c == 95 || c == 45))) (chars name)

abbrev pub new_user : ℕ → String → String → String → String → Bool → User
new_user id name display role hash must = record {
  id = id;
  username = name;
  display_name = display;
  password_hash = hash;
  role = role;
  active = true;
  failed_attempts = 0;
  locked_until = none;
  last_login_at = none;
  token_version = 0;
  must_change_password = must;
}

abbrev pub add_user : User → Accounts → Accounts
add_user u db = record db { users = db.users ++ u ∷ []; next_id = db.next_id + 1 }

-- `ROLE_LABELS.get(role)`
abbrev pub role_label : String → Option String
role_label role =
    if str_eq role "officer"
    then some "承辦審核人員"
    else if str_eq role "supervisor"
    then some "業務主管"
    else if str_eq role "admin"
    then some "系統管理者"
    else none

unfoldable pub create_user :
    Unicode
    → Crypto
    → Settings
    → String
    → String
    → String
    → String
    → Option String
    → Option Bool
    → Accounts
    → Answer (User × Accounts)
unfolding validate_password find_user audit chars
create_user uni k cfg username display role password actor must db =
    let name = uni.lower (strip username) in
    let u =
      new_user db.next_id name (text_or (some (strip display)) name) role (k.hash password)
        (elim must [ none ↦ cfg.force_password_change | some b ↦ b ]) in
    (do
      guard (good_name uni name) bad_username
      guard (member role role_values) unknown_role
      validate_password uni cfg password
      guard (elim (find_user uni name db) [ none ↦ true | some _ ↦ false ]) username_taken
      ok (
        u,
        audit "user.created" (some u)
            (("role", Json.text role)
              ∷ ("role_label", json_text (role_label role))
              ∷ ("by", json_text actor)
              ∷ [])
            (add_user u db),
      ))

-- The first administrator, from the settings `INITIAL_ADMIN_USERNAME` and `INITIAL_ADMIN_PASSWORD`,
-- where the table is empty.
unfoldable pub bootstrap_admin :
    Unicode → Crypto → Settings → String → String → Accounts → Option User × Accounts
unfolding audit
bootstrap_admin uni k cfg username password db =
    let name = text_or (some (uni.lower (strip username))) "admin" in
    let u = new_user db.next_id name "系統管理者" "admin" (k.hash password) cfg.force_password_change in
    if is_empty password then (none, db) else elim db.users [
      | _ ∷ _ ↦ (none, db)
      | [] ↦ (
        some u,
        audit "user.created" (some u)
            (("role", Json.text "admin") ∷ ("by", Json.text "bootstrap") ∷ []) (add_user u db),
      )
    ]
