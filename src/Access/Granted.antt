-- ===== src/Access/Granted.antt =====
-- What a request that passes `require` of apps/api/app/core/security.py has shown.
use aidflow.Prelude.{
  ℕ, String, ◌≡◌, refl, inl, inr, true, false, not, some, List, [], ◌∷◌, arith, All, In, select,
  strip, Option-cases,
}
use aidflow.Models.Table.{get}
use aidflow.Accounts.{accept_claims, user_from_token}
use aidflow.Accounts.Rows.{User, Accounts, Claims, Crypto, Unicode}
use aidflow.Permissions.{Perm, has_perm}
use aidflow.Access.{
  Request, AccessSettings, Principal, granted, refused, forbidden, is_development, user_principal,
  can, check_perms, require, drop_text,
}

-- A permission that is not missing is held.
none_missing :
    (perms : List Perm) (principal : Principal)
    → select (λ p. not (can principal p)) perms ≡ []
    → All (λ p. can principal p ≡ true) perms
none_missing [] pr h = tt
none_missing (p ∷ perms) pr h = ground (arith, none_missing perms pr)

checked :
    (perms : List Perm) (pr pr' : Principal)
    → check_perms perms pr ≡ granted pr'
    → (pr ≡ pr') × All (λ p. can pr p ≡ true) perms
checked perms pr pr' h = go (select (λ p. not (can pr p)) perms) refl h
  where
    go :
        (missing : List Perm)
        → select (λ p. not (can pr p)) perms ≡ missing
        → (elim missing [ [] ↦ granted pr | _ ∷ _ ↦ refused forbidden ]) ≡ granted pr'
        → (pr ≡ pr') × All (λ p. can pr p ≡ true) perms
    go [] e h = (cc, none_missing perms pr e)
    go (p ∷ ps) e h = cc

get-In :
    (id : ℕ) (users : List User) (u : User)
    → get (λ x. x.id) id users ≡ some u
    → In u users × (u.id ≡ id)
unfolding get
get-In id [] u h = cc
get-In id (x ∷ users) u h = ground (arith, get-In id users u)

-- An accepted token names an active account of the table, at the version that the account has.
user_from_token_lem :
    (k : Crypto) (now : ℕ) (db : Accounts) (token : String) (u : User)
    → user_from_token k now db token ≡ some u
    → (c : Claims) × (k.decode now token ≡ some c)
      × In u db.users
      × (u.id ≡ c.sub)
      × (u.active ≡ true)
      × (u.token_version ≡ c.ver)
unfolding user_from_token accept_claims
user_from_token_lem k now db token u h = elim (Option-cases (k.decode now token)) [
  | inl e ↦ ground (arith, e, h)
  | inr (c, e) ↦ elim (Option-cases (get (λ x. x.id) c.sub db.users)) [
    | inl e' ↦ ground (arith, e, e', h)
    | inr (v, e') ↦
        let (a, w, n) : (v.active ≡ true) × (v.token_version ≡ c.ver) × (v ≡ u) =
          ground (arith, e, e', h) in
        let (i, d) = get-In c.sub db.users u (cc (e', n)) in (c, e, i, d, cc (a, n), cc (w, n))
  ]
]

-- Outside a development environment, a request that passes `require` comes from an active account of
-- the table, whose role holds every permission asked for, and its `Authorization` header carries a
-- token that the decoder accepts, of this account, at the version that the account has.
pub require_lem :
    (uni : Unicode) (k : Crypto) (cfg : AccessSettings) (now : ℕ) (perms : List Perm)
    (req : Request) (db : Accounts) (pr : Principal)
    → is_development uni cfg ≡ false
    → require uni k cfg now perms req db ≡ granted pr
    → (u : User) × (c : Claims) × (k.decode now (strip (drop_text 7 req.authorization)) ≡ some c)
      × In u db.users
      × (u.id ≡ c.sub)
      × (u.active ≡ true)
      × (u.token_version ≡ c.ver)
      × (pr ≡ user_principal u)
      × All (λ p. has_perm (some u.role) p ≡ true) perms
unfolding require has_perm
require_lem uni k cfg now perms req db pr dev h =
    let token = strip (drop_text 7 req.authorization) in
    elim (Option-cases (user_from_token k now db token)) [
      | inl e ↦ ground (arith, e, dev, h)
      | inr (u, e) ↦
          let (c, d, i, s, a, v) = user_from_token_lem k now db token u e in
          let h' : check_perms perms (user_principal u) ≡ granted pr = ground (arith, e, dev, h) in
          let (same, held) = checked perms (user_principal u) pr h' in
          (u, c, d, i, s, a, v, cc same, held)
    ]
