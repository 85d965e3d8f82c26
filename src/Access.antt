-- ===== src/Access.antt =====
-- Who a request comes from and what it may do: apps/api/app/core/security.py. The settings that it
-- reads are a record, and `str.lower` is that of `Unicode`.
pub mod Granted
pub mod Examples
use Prim.Native.Char.{code}
use aidflow.Prelude.{
  ℕ, zero, suc, String, Bool, not, ◌&&◌, Option, none, some, List, [], ◌∷◌, ◌==◌, str_eq, is_empty,
  strip, take_text, member, select, if◌then◌else◌,
}
use aidflow.Models.{Time}
use aidflow.Accounts.{user_from_token}
use aidflow.Accounts.Rows.{User, Accounts, Crypto, Unicode}
use aidflow.Permissions.{Perm, holds, all_perms, perms_for}

-- The headers that are read, empty where they are missing, and the peer's address.
pub record Request : Type 0 where
  pub authorization : String
  pub forwarded_for : String
  pub host : Option String

pub record AccessSettings : Type 0 where
  pub environment : String
  pub auth_required : Bool
  pub trust_forwarded_for : Bool

pub record Principal : Type 0 where
  pub kind : String
  pub name : String
  pub role : Option String
  pub perms : List Perm
  pub user : Option User

pub data HttpError : Type 0 where
  unauthorized forbidden : HttpError

pub data Access : Type 0 where
  granted : Principal → Access
  refused : HttpError → Access

-- `settings.is_development`
unfoldable pub is_development : Unicode → AccessSettings → Bool
is_development uni cfg =
    member (uni.lower (strip cfg.environment)) ("development" ∷ "test" ∷ "local" ∷ [])

-- `fwd.split(",")`: the pieces, of which there is one at least.
cons_char : Prim.Native.Char.Char → List String → List String
cons_char c [] = String.◌∷◌ c String.[] ∷ []
cons_char c (p ∷ ps) = String.◌∷◌ c p ∷ ps

unfoldable pub split_comma : String → List String
unfolding cons_char
split_comma String.[] = "" ∷ []
split_comma (String.◌∷◌ c s) =
    let rest = split_comma s in if code c == 44 then "" ∷ rest else cons_char c rest

-- `[h.strip() for h in pieces if h.strip()]`
abbrev hops : List String → List String
hops [] = []
hops (p ∷ ps) = let rest = hops ps in if is_empty (strip p) then rest else strip p ∷ rest

-- `hops[-1]`
abbrev last_hop : List String → Option String
last_hop [] = none
last_hop (p ∷ []) = some p
last_hop (p ∷ q ∷ ps) = last_hop (q ∷ ps)

unfoldable pub client_ip : AccessSettings → Request → Option String
unfolding split_comma take_text
client_ip cfg req =
    if cfg.trust_forwarded_for
    then elim (last_hop (hops (split_comma req.forwarded_for))) [
      | none ↦ req.host
      | some hop ↦ some (take_text 64 hop)
    ]
    else req.host

-- `text[n:]`
unfoldable pub drop_text : ℕ → String → String
drop_text zero s = s
drop_text (suc n) String.[] = String.[]
drop_text (suc n) (String.◌∷◌ c s) = drop_text n s

abbrev pub user_principal : User → Principal
user_principal u = record {
  kind = "user";
  name = u.username;
  role = some u.role;
  perms = perms_for (some u.role);
  user = some u;
}

abbrev pub dev_principal : Principal
dev_principal = record { kind = "dev"; name = "開發模式"; role = none; perms = all_perms; user = none }

-- `auth.lower().startswith("bearer ")`
unfoldable pub is_bearer : Unicode → String → Bool
unfolding take_text
is_bearer uni auth = str_eq (take_text 7 (uni.lower auth)) "bearer "

unfoldable pub get_principal :
    Unicode → Crypto → AccessSettings → Time → Request → Accounts → Access
unfolding is_bearer is_development drop_text
get_principal uni k cfg now req db =
    if is_bearer uni req.authorization
    then elim (user_from_token k now db (strip (drop_text 7 req.authorization))) [
      | none ↦ refused unauthorized
      | some u ↦ granted (user_principal u)
    ]
    else if is_development uni cfg && not cfg.auth_required
    then granted dev_principal
    else refused unauthorized

-- `principal.can(perm)`
abbrev pub can : Principal → Perm → Bool
can principal perm = holds perm principal.perms

abbrev pub check_perms : List Perm → Principal → Access
check_perms perms principal = elim (select (λ p. not (can principal p)) perms) [
  | [] ↦ granted principal
  | _ ∷ _ ↦ refused forbidden
]

-- The dependency that `require(*perms)` makes, its own dependency `get_principal` included.
unfoldable pub require :
    Unicode → Crypto → AccessSettings → Time → List Perm → Request → Accounts → Access
unfolding get_principal
require uni k cfg now perms req db = elim (get_principal uni k cfg now req db) [
  | refused e ↦ refused e
  | granted principal ↦ check_perms perms principal
]
