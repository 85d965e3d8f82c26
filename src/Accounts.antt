-- ===== src/Accounts.antt =====
-- Staff accounts and login: apps/api/app/services/auth_service.py, over the `users` table of
-- apps/api/app/db/models.py. What stands outside is a record: the password hasher (Argon2), the
-- decoder of tokens (JWT), and the tables of Unicode for `str.lower` and the character classes.
pub mod Rows
pub mod Passwords
pub mod Manage
pub mod Admins
pub mod Tokens
pub mod Lockout
pub mod Examples
use Prim.Native.Char.{code}
use aidflow.Prelude.{
  ℕ, ◌+◌, ◌*◌, String, Bool, false, not, ◌&&◌, ◌||◌, Option, none, some, [], ◌∷◌, ◌++◌, first, ltb,
  leb, ◌==◌, str_eq, strip, take_text, if◌then◌else◌,
}
use aidflow.Models.{Time, Payload, Json, merge, json_text}
use aidflow.Models.Table.{get, save}
use aidflow.Accounts.Rows.{
  ◌>>◌, ◌>>=◌, Accounts, Answer, AuthError, Claims, Crypto, Settings, Unicode, User,
  bad_credentials, err, guard, locked, ok, same_password, wrong_password,
}
use aidflow.Accounts.Passwords.{validate_password}

abbrev user_id : Option User → Option ℕ
user_id none = none
user_id (some u) = some u.id

abbrev audit_base : Option User → Payload
audit_base none = ("user_id", Json.null) ∷ ("username", Json.null) ∷ []
audit_base (some u) = ("user_id", Json.uuid u.id) ∷ ("username", Json.text u.username) ∷ []

unfoldable pub audit : String → Option User → Payload → Accounts → Accounts
audit event_type user payload db = record db {
  outbox =
      db.outbox
      ++ record {
        id = db.next_id;
        event_type = event_type;
        aggregate_id = user_id user;
        payload = merge (audit_base user) payload;
        processed = false;
      }
        ∷ [];
  next_id = db.next_id + 1;
}

abbrev pub put_user : User → Accounts → Accounts
put_user u db = record db { users = save (λ x. x.id) u db.users }

-- ── tokens ──

unfoldable pub issue_token : Crypto → Settings → Time → User → String × Time
issue_token k cfg now u = (
  k.encode (record {
    sub = u.id;
    role = u.role;
    ver = u.token_version;
    exp = now + cfg.token_hours * 3600000000;
    iat = now;
  }),
  now + cfg.token_hours * 3600000000,
)

unfoldable pub accept_claims : Claims → Option User → Option User
accept_claims c none = none
accept_claims c (some u) = if u.active && u.token_version == c.ver then some u else none

unfoldable pub user_from_token : Crypto → Time → Accounts → String → Option User
unfolding accept_claims
user_from_token k now db token = elim (k.decode now token) [
  | none ↦ none
  | some c ↦ accept_claims c (get (λ u. u.id) c.sub db.users)
]

-- ── login ──

abbrev pub is_locked : Time → User → Bool
is_locked now u = elim u.locked_until [ none ↦ false | some t ↦ ltb now t ]

-- A failed attempt of an account that is not locked: at the limit it locks, and counts anew.
unfoldable pub count_failure : Settings → Time → User → User × Option Time
count_failure cfg now u =
    if leb cfg.max_failed_attempts (u.failed_attempts + 1)
    then (
      record u { failed_attempts = 0; locked_until = some (now + cfg.lock_minutes * 60000000) },
      some (now + cfg.lock_minutes * 60000000),
    )
    else (record u { failed_attempts = u.failed_attempts + 1 }, none)

abbrev lock_audit : Settings → Option String → User → Option Time → Accounts → Accounts
lock_audit cfg ip u none db = db
lock_audit cfg ip u (some t) db =
    audit "auth.account_locked" (some u)
      (("ip", json_text ip) ∷ ("minutes", Json.number cfg.lock_minutes) ∷ []) db

abbrev lock_error : Option Time → AuthError
lock_error none = bad_credentials
lock_error (some t) = locked t

unfoldable pub fail_login :
    Settings → Time → Option String → User → Accounts → Answer (User × String × Time) × Accounts
unfolding count_failure audit
fail_login cfg now ip u db =
    let (u', lock) = count_failure cfg now u in
    (
      err (lock_error lock),
      audit "auth.login_failed" (some u')
          (("ip", json_text ip)
            ∷ ("reason", Json.text (if u.active then "bad_password" else "inactive"))
            ∷ [])
          (lock_audit cfg ip u' lock (put_user u' db)),
    )

-- The account after a login.
unfoldable pub logged_in : Crypto → Time → String → User → User
logged_in k now password u = record u {
  failed_attempts = 0;
  locked_until = none;
  last_login_at = some now;
  password_hash = if k.needs_rehash u.password_hash then k.hash password else u.password_hash;
}

unfoldable pub login_user :
    Crypto
    → Settings
    → Time
    → String
    → Option String
    → User
    → Accounts
    → Answer (User × String × Time) × Accounts
unfolding fail_login logged_in issue_token audit
login_user k cfg now password ip u db =
    if is_locked now u
    then (
      err (locked (elim u.locked_until [ none ↦ 0 | some t ↦ t ])),
      audit "auth.login_blocked" (some u) (("ip", json_text ip) ∷ []) db,
    )
    else if not u.active || not (k.check u.password_hash password)
    then fail_login cfg now ip u db
    else let u' = logged_in k now password u in
      let (token, exp) = issue_token k cfg now u' in
      (
        ok (u', token, exp),
        audit "auth.login" (some u') (("ip", json_text ip) ∷ ("role", Json.text u'.role) ∷ [])
            (put_user u' db),
      )

unfoldable pub find_user : Unicode → String → Accounts → Option User
find_user uni name db = first (λ u. str_eq (uni.lower u.username) name) db.users

unfoldable pub login :
    Unicode
    → Crypto
    → Settings
    → Time
    → String
    → String
    → Option String
    → Accounts
    → Answer (User × String × Time) × Accounts
unfolding find_user login_user audit take_text
login uni k cfg now username password ip db =
    let name = uni.lower (strip username) in
    elim (find_user uni name db) [
      | none ↦ (
        err bad_credentials,
        audit "auth.login_failed" none
            (("attempted_username", Json.text (take_text 64 name))
              ∷ ("ip", json_text ip)
              ∷ ("reason", Json.text "unknown_user")
              ∷ [])
            db,
      )
      | some u ↦ login_user k cfg now password ip u db
    ]

unfoldable pub logout : User → Option String → Accounts → Accounts
unfolding audit
logout u ip db =
    let u' : User = record u { token_version = u.token_version + 1 } in
    audit "auth.logout" (some u') (("ip", json_text ip) ∷ []) (put_user u' db)

unfoldable pub change_password :
    Unicode
    → Crypto
    → Settings
    → Time
    → User
    → String
    → String
    → Accounts
    → Answer (String × Time) × Accounts
unfolding validate_password audit issue_token
change_password uni k cfg now u current new db =
    elim (do
      guard (k.check u.password_hash current) wrong_password
      validate_password uni cfg new
      guard (not (k.check u.password_hash new)) same_password) [
        | err e ↦ (err e, db)
        | ok _ ↦
            let u' : User = record u {
              password_hash = k.hash new;
              token_version = u.token_version + 1;
              must_change_password = false;
            } in
            (
              ok (issue_token k cfg now u'),
              audit "user.password_changed" (some u') (("by", Json.text "self") ∷ [])
                  (put_user u' db),
            )
      ]
