-- ===== src/Accounts/Rows.antt =====
-- The account, the claims of a token, the settings and the errors of
-- apps/api/app/services/auth_service.py. An answer is a value or an error.
use aidflow.Prelude.{ℕ, String, Bool, true, false, Option, List}
use aidflow.Models.{Time, EventOutbox}

pub record User : Type 0 where
  pub id : ℕ
  pub username : String
  pub display_name : String
  pub password_hash : String
  pub role : String
  pub active : Bool
  pub failed_attempts : ℕ
  pub locked_until : Option Time
  pub last_login_at : Option Time
  pub token_version : ℕ
  pub must_change_password : Bool

-- The tables that the service writes.
pub record Accounts : Type 0 where
  pub users : List User
  pub outbox : List EventOutbox
  pub next_id : ℕ

pub record Claims : Type 0 where
  pub sub : ℕ
  pub role : String
  pub ver : ℕ
  pub exp : Time
  pub iat : Time

-- `check` is the hasher's `verify` without its exceptions; `decode` gives the claims of a token
-- whose signature and expiry hold, and whose subject is a UUID.
pub record Crypto : Type 0 where
  pub hash : String → String
  pub check : String → String → Bool
  pub needs_rehash : String → Bool
  pub encode : Claims → String
  pub decode : Time → String → Option Claims

pub record Unicode : Type 0 where
  pub lower : String → String
  pub is_lower : ℕ → Bool
  pub is_upper : ℕ → Bool
  pub is_digit : ℕ → Bool
  pub is_alnum : ℕ → Bool

-- The settings that the service reads.
pub record Settings : Type 0 where
  pub max_failed_attempts : ℕ
  pub lock_minutes : ℕ
  pub min_password_length : ℕ
  pub force_password_change : Bool
  pub token_hours : ℕ

pub data AuthError : Type 0 where
  bad_credentials : AuthError
  locked : Time → AuthError
  bad_password : AuthError
  wrong_password : AuthError
  same_password : AuthError
  unknown_role : AuthError
  own_role : AuthError
  own_account : AuthError
  last_admin : AuthError
  bad_username : AuthError
  username_taken : AuthError

pub data Answer (A : Type 0) : Type 0 where
  ok : A → Answer A
  err : AuthError → Answer A

infixl 10 ◌>>=◌ ◌>>◌
abbrev pub ◌>>=◌ : {A B : Type 0} → Answer A → (A → Answer B) → Answer B
ok a >>= f = f a
err e >>= f = err e

abbrev pub ◌>>◌ : {B : Type 0} → Answer (Unit {0}) → Answer B → Answer B
m >> n = m >>= λ _. n

abbrev pub guard : Bool → AuthError → Answer (Unit {0})
guard true e = ok tt
guard false e = err e
