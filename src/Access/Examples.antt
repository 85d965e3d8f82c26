-- ===== src/Access/Examples.antt =====
-- A request of an administrator, and runs of the theorem on apps/api/app/core/security.py.
use aidflow.Prelude.{◌≡◌, refl, true, false, some, List, [], ◌∷◌, All, In, strip}
use aidflow.Accounts.{user_from_token}
use aidflow.Accounts.Rows.{User, Claims}
use aidflow.Accounts.Examples.{unicode, office, crypto}
use aidflow.Models.Table.{get}
use aidflow.Permissions.{Perm, has_perm, perms_for, manage_users, view_audit}
use aidflow.Access.{
  Request, AccessSettings, Principal, granted, is_development, user_principal, require, drop_text,
}
use aidflow.Access.Granted.{require_lem}

abbrev pub request : Request
request = record {
  authorization = "bearer token";
  forwarded_for = "10.0.0.1, 192.0.2.7";
  host = some "127.0.0.1";
}

abbrev pub production : AccessSettings
production = record { environment = "production"; auth_required = true; trust_forwarded_for = true }

abbrev asked : List Perm
asked = manage_users ∷ view_audit ∷ []

outside : is_development unicode production ≡ false
unfolding is_development strip
outside = refl

passed : (pr : Principal) × (require unicode crypto production 5 asked request office ≡ granted pr)
unfolding require user_from_token get perms_for
passed = (_, refl)

require_lem_example :
    (u : User) × (c : Claims) × (crypto.decode 5 (strip (drop_text 7 request.authorization))
      ≡ some c)
    × In u office.users
    × (u.id ≡ c.sub)
    × (u.active ≡ true)
    × (u.token_version ≡ c.ver)
    × (passed.0 ≡ user_principal u)
    × All (λ p. has_perm (some u.role) p ≡ true) asked
require_lem_example =
    require_lem unicode crypto production 5 asked request office passed.0 outside passed.1
