-- ===== src/Accounts/Tokens.antt =====
-- Which tokens are accepted: `issue_token`, `user_from_token` and what revokes a token, in
-- apps/api/app/services/auth_service.py.
use aidflow.Prelude.{ℕ, ◌+◌, ◌*◌, ◌-◌, ◌%◌, ◌≤◌, ◌<◌, String, ◌≡◌, true, Option, none, some, arith}
use aidflow.Models.Table.{get, get-save}
use aidflow.Accounts.{audit, accept_claims, issue_token, user_from_token, logout}
use aidflow.Accounts.Rows.{User, Accounts, Claims, Crypto, Settings}

-- The claims that `issue_token` signs.
abbrev pub claims_of : Settings → ℕ → User → Claims
claims_of cfg now u = record {
  sub = u.id;
  role = u.role;
  ver = u.token_version;
  exp = now + cfg.token_hours * 3600000000;
  iat = now;
}

-- A moment in whole seconds, as the claims `exp` and `iat` are written into a token.
abbrev pub whole : ℕ → ℕ
whole t = t - t % 1000000

-- What the decoder does with these claims, once they are signed: from the second of their issue on and
-- until the second of their expiry begins, it gives them back in whole seconds.
abbrev pub Decodes : Crypto → Claims → Type 0
Decodes k c =
    (now : ℕ)
    → whole c.iat ≤ now
    → now < whole c.exp
    → k.decode now (k.encode c) ≡ some (record c { exp = whole c.exp; iat = whole c.iat })

-- Where the decoder gives back the claims that `issue_token` signs, in whole seconds and until the
-- second of their expiry begins, the token that it makes for an active account of the table is accepted,
-- from its issue on and until that second, as that account.
pub user_from_token-issue_token :
    (k : Crypto) (cfg : Settings) (now later : ℕ) (u : User) (db : Accounts)
    → Decodes k (claims_of cfg now u)
    → now ≤ later
    → later < whole (now + cfg.token_hours * 3600000000)
    → u.active ≡ true
    → get (λ x. x.id) u.id db.users ≡ some u
    → user_from_token k later db (issue_token k cfg now u).0 ≡ some u
unfolding issue_token user_from_token accept_claims
user_from_token-issue_token k cfg now later u db d le l a g =
    let c = claims_of cfg now u in let e = d later (omega (arith, le)) l in ground (arith, e, g, a)

-- After `logout` of an account of the table, every token with the version that the account had is
-- refused, whenever it is shown.
pub user_from_token-logout :
    (k : Crypto) (now : ℕ) (token : String) (c : Claims) (u v : User) (ip : Option String)
    (db : Accounts)
    → get (λ x. x.id) u.id db.users ≡ some v
    → k.decode now token ≡ some c
    → c.sub ≡ u.id
    → c.ver ≡ u.token_version
    → user_from_token k now (logout u ip db) token ≡ none
unfolding user_from_token logout audit accept_claims
user_from_token-logout k now token c u v ip db g d s w = ground (
  arith,
  g,
  d,
  s,
  w,
  get-save (λ x. x.id) (record u { token_version = u.token_version + 1 }) v db.users g,
)
