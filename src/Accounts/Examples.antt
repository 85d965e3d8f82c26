-- ===== src/Accounts/Examples.antt =====
-- Accounts of a small office, with a toy hasher and a toy signer, and runs of the theorems on them.
use aidflow.Prelude.{
  ℕ, ◌+◌, ◌*◌, String, ◌≡◌, refl, true, false, none, some, [], ◌∷◌, arith, str_eq,
}
use aidflow.Models.Table.{get}
use aidflow.Accounts.{count_failure, is_locked, login_user, logout, issue_token, user_from_token}
use aidflow.Accounts.Rows.{User, Accounts, Claims, Crypto, Unicode, Settings, ok}
use aidflow.Accounts.Manage.{UserUpdate, update_user}
use aidflow.Accounts.Admins.{has_admin, update_user-has_admin}
use aidflow.Accounts.Tokens.{claims_of, user_from_token-issue_token, user_from_token-logout}
use aidflow.Accounts.Lockout.{failures, lockout_lem, login_user_lem}

-- A table of Unicode that knows digits only.
abbrev pub unicode : Unicode
unicode = record {
  lower = λ s. s;
  is_lower = λ c. true;
  is_upper = λ c. false;
  is_digit = λ c. true;
  is_alnum = λ c. true;
}

abbrev pub settings : Settings
settings = record {
  max_failed_attempts = 5;
  lock_minutes = 15;
  min_password_length = 10;
  force_password_change = true;
  token_hours = 8;
}

abbrev pub boss : User
boss = record {
  id = 1;
  username = "boss";
  display_name = "Boss";
  password_hash = "secret";
  role = "admin";
  active = true;
  failed_attempts = 0;
  locked_until = none;
  last_login_at = none;
  token_version = 3;
  must_change_password = false;
}

abbrev pub clerk : User
clerk = record boss { id = 2; username = "clerk"; role = "officer" }

abbrev pub office : Accounts
office = record { users = boss ∷ clerk ∷ []; outbox = []; next_id = 10 }

abbrev pub claims : Claims
claims = claims_of settings 0 boss

-- One token is out.
abbrev pub crypto : Crypto
crypto = record {
  hash = λ s. s;
  check = λ h p. str_eq h p;
  needs_rehash = λ h. false;
  encode = λ c. "token";
  decode = λ now t. some claims;
}

-- The promotion of the clerk by the boss.
abbrev promotion : UserUpdate
promotion = record { display_name = none; role = some "admin"; active = none; password = none }

promoted :
    (out : User × Accounts) × (update_user unicode crypto settings
        (some boss)
        (some "Boss")
        clerk
        promotion
        office
      ≡ ok out)
unfolding update_user
promoted = (_, refl)

other_row : boss.id ≡ clerk.id → ⊥
other_row e = omega arith

update_user-has_admin_example : has_admin promoted.0.1.users ≡ true
update_user-has_admin_example =
    update_user-has_admin unicode crypto settings (some boss) (some "Boss") clerk promoted.0.0
      promotion office promoted.0.1 (λ e. absurd (other_row e), (λ e. refl, tt)) refl refl
      promoted.1

-- ── tokens ──

found : get (λ x. x.id) boss.id office.users ≡ some boss
unfolding get
found = refl

user_from_token-logout_example : user_from_token crypto 5 (logout boss none office) "token" ≡ none
user_from_token-logout_example =
    user_from_token-logout crypto 5 "token" claims boss boss none office found refl refl refl

user_from_token-issue_token_example :
    user_from_token crypto 5 office (issue_token crypto settings 0 boss).0 ≡ some boss
user_from_token-issue_token_example =
    user_from_token-issue_token crypto settings 0 5 boss office (λ now h l. refl) (omega arith)
      (omega arith) refl found

-- ── lockout ──

lockout_lem_example :
    ((failures settings (1 ∷ 2 ∷ 3 ∷ 4 ∷ []) boss).locked_until ≡ boss.locked_until)
    × (count_failure settings 5 (failures settings (1 ∷ 2 ∷ 3 ∷ 4 ∷ []) boss) ≡ (
      record (failures settings (1 ∷ 2 ∷ 3 ∷ 4 ∷ []) boss) {
        failed_attempts = 0;
        locked_until = some (5 + settings.lock_minutes * 60000000);
      },
      some (5 + settings.lock_minutes * 60000000),
    ))
lockout_lem_example = lockout_lem settings (1 ∷ 2 ∷ 3 ∷ 4 ∷ []) 5 boss refl

abbrev shut : User
shut = record boss { locked_until = some 900 }

entered :
    (out : User × String × ℕ) × ((login_user crypto settings 7 "secret" none boss office).0
      ≡ ok out)
unfolding login_user
entered = (_, refl)

login_user_lem_example :
    (is_locked 7 boss ≡ false)
    × (boss.active ≡ true)
    × (crypto.check boss.password_hash "secret" ≡ true)
    × (get (λ x. x.id) boss.id (login_user crypto settings 7 "secret" none boss office).1.users
        ≡ some entered.0.0)
    × (entered.0.0.failed_attempts ≡ 0)
    × (entered.0.0.locked_until ≡ none)
login_user_lem_example =
    login_user_lem crypto settings 7 "secret" none boss boss entered.0.0 entered.0.1 entered.0.2
      office found entered.1
