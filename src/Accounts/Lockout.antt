-- ===== src/Accounts/Lockout.antt =====
-- The lockout of an account after failed logins: `login` of
-- apps/api/app/services/auth_service.py.
use aidflow.Prelude.{
  ℕ, ◌+◌, ◌*◌, ◌<◌, String, ◌≡◌, refl, true, false, Option, none, some, List, [], ◌∷◌, arith,
  length,
}
use aidflow.Models.Table.{get, get-save}
use aidflow.Accounts.{
  count_failure, is_locked, login_user, logged_in, fail_login, issue_token, audit,
}
use aidflow.Accounts.Rows.{User, Accounts, Crypto, Settings, ok, err, locked}

-- The account after this many failures at these times, the first time first.
abbrev pub failures : Settings → List ℕ → User → User
failures cfg [] u = u
failures cfg (now ∷ times) u = failures cfg times (count_failure cfg now u).0

counted :
    (cfg : Settings) (now : ℕ) (u : User)
    → u.failed_attempts + 1 < cfg.max_failed_attempts
    → ((count_failure cfg now u).0.failed_attempts ≡ u.failed_attempts + 1)
      × ((count_failure cfg now u).0.locked_until ≡ u.locked_until)
unfolding count_failure
counted cfg now u h = ground (arith, h)

reached :
    (cfg : Settings) (now : ℕ) (u : User)
    → u.failed_attempts + 1 ≡ cfg.max_failed_attempts
    → count_failure cfg now u ≡ (
      record u { failed_attempts = 0; locked_until = some (now + cfg.lock_minutes * 60000000) },
      some (now + cfg.lock_minutes * 60000000),
    )
unfolding count_failure
reached cfg now u h = ground (arith, h)

-- Failures below the limit are counted and lock nothing.
failures-below :
    (cfg : Settings) (times : List ℕ) (u : User)
    → u.failed_attempts + length times < cfg.max_failed_attempts
    → ((failures cfg times u).failed_attempts ≡ u.failed_attempts + length times)
      × ((failures cfg times u).locked_until ≡ u.locked_until)
failures-below cfg [] u h = (omega arith, refl)
failures-below cfg (now ∷ times) u h =
    let (a, b) = counted cfg now u (omega (arith, h)) in
    let (c, d) = failures-below cfg times (count_failure cfg now u).0 (omega (arith, h, a)) in
    (omega (arith, a, c), cc (b, d))

-- The failure that reaches the limit locks the account for the time of the settings, and not before:
-- with the failures that the account counts already and those at the earlier times one short of the
-- limit, the account is as unlocked as it was, and the next failure locks it and starts the count anew.
pub lockout_lem :
    (cfg : Settings) (times : List ℕ) (now : ℕ) (u : User)
    → u.failed_attempts + length times + 1 ≡ cfg.max_failed_attempts
    → ((failures cfg times u).locked_until ≡ u.locked_until)
      × (count_failure cfg now (failures cfg times u) ≡ (
        record (failures cfg times u) {
          failed_attempts = 0;
          locked_until = some (now + cfg.lock_minutes * 60000000);
        },
        some (now + cfg.lock_minutes * 60000000),
      ))
lockout_lem cfg times now u h =
    let (a, b) = failures-below cfg times u (omega (arith, h)) in
    (b, reached cfg now (failures cfg times u) (omega (arith, a, h)))

-- While an account is locked, `login_user` refuses every password, a right one too, says until when,
-- and leaves the accounts as they are.
pub locked_lem :
    (k : Crypto) (cfg : Settings) (now until : ℕ) (password : String) (ip : Option String)
    (u : User) (db : Accounts)
    → u.locked_until ≡ some until
    → now < until
    → ((login_user k cfg now password ip u db).0 ≡ err (locked until))
      × ((login_user k cfg now password ip u db).1.users ≡ db.users)
unfolding login_user audit
locked_lem k cfg now until password ip u db h l = ground (arith, h, l)

-- A login into an account of the table that succeeds is of an active account that is not locked, with
-- its password, and it clears the count of failures: the table has the account then with no failures
-- and no lock.
pub login_user_lem :
    (k : Crypto) (cfg : Settings) (now : ℕ) (password : String) (ip : Option String) (u v u' : User)
    (token : String) (exp : ℕ) (db : Accounts)
    → get (λ x. x.id) u.id db.users ≡ some v
    → (login_user k cfg now password ip u db).0 ≡ ok (u', token, exp)
    → (is_locked now u ≡ false)
      × (u.active ≡ true)
      × (k.check u.password_hash password ≡ true)
      × (get (λ x. x.id) u.id (login_user k cfg now password ip u db).1.users ≡ some u')
      × (u'.failed_attempts ≡ 0)
      × (u'.locked_until ≡ none)
unfolding login_user logged_in fail_login issue_token audit
login_user_lem k cfg now password ip u v u' token exp db g h =
    ground (arith, h, get-save (λ x. x.id) (logged_in k now password u) v db.users g)
