-- ===== src/Accounts/Passwords.antt =====
-- `validate_password` of apps/api/app/services/auth_service.py.
use Prim.Native.Char.{code}
use aidflow.Prelude.{ℕ, suc, ◌+◌, String, Bool, not, List, [], ◌∷◌, any, ltb, if◌then◌else◌}
use aidflow.Accounts.Rows.{Answer, Settings, Unicode, bad_password, err, ok}

unfoldable pub chars : String → List ℕ
chars String.[] = []
chars (String.◌∷◌ c s) = code c ∷ chars s

size : List ℕ → ℕ
size [] = 0
size (c ∷ cs) = suc (size cs)

abbrev bit : Bool → ℕ
bit b = if b then 1 else 0

-- A password is long enough and has two classes of characters.
unfoldable pub validate_password : Unicode → Settings → String → Answer (Unit {0})
unfolding chars size
validate_password u cfg password =
    let cs = chars password in
    let classes =
      bit (any u.is_lower cs)
      + bit (any u.is_upper cs)
      + bit (any u.is_digit cs)
      + bit (any (λ c. not (u.is_alnum c)) cs) in
    if ltb (size cs) cfg.min_password_length
    then err bad_password
    else if ltb classes 2
    then err bad_password
    else ok tt
