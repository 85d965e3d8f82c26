-- ===== src/Prelude/Texts.antt =====
-- Sets of texts, the numbers that a format prints, and equality of texts as a test.
use Prim.Native.Nat.{ℕ, zero, suc, ◌/◌, ◌%◌}
use Prim.Native.String.{String, ◌++◌ as ◌+++◌}
use Prim.Native.Char.{code}
use mathlib.Core.Path.{◌≡◌, refl, sym}
use mathlib.Core.Option.{Option, none, some}
use mathlib.Core.Bool.{Bool, true, false, ◌||◌, ◌&&◌}
use mathlib.Core.List.{List, [], ◌∷◌}
use text.Mathlib.Text.{◌==◌ as str_eq, starts_with}
use text.Mathlib.TextEquality.{eq_iff}
use aidflow.Prelude.Tests.{if◌then◌else◌, Bool-ext, ltb, leb, ◌==◌}

-- `x in {...}` on a set of texts
abbrev pub member : String → List String → Bool
member s [] = false
member s (t ∷ ts) = str_eq s t || member s ts

pub str_eq_comm : (s t : String) → str_eq s t ≡ str_eq t s
str_eq_comm s t =
    Bool-ext (str_eq s t) (str_eq t s) (λ h. (eq_iff t s).1 (sym ((eq_iff s t).0 h)))
      (λ h. (eq_iff s t).1 (sym ((eq_iff t s).0 h)))

-- Texts one after the other.
infixr 65 ◌⧺◌
abbrev pub ◌⧺◌ : String → String → String
s ⧺ t = s +++ t

digit : ℕ → String
digit n =
    if n == 0
    then "0"
    else if n == 1
    then "1"
    else if n == 2
    then "2"
    else if n == 3
    then "3"
    else if n == 4
    then "4"
    else if n == 5
    then "5"
    else if n == 6
    then "6"
    else if n == 7
    then "7"
    else if n == 8
    then "8"
    else "9"

-- The fuel bounds the number of digits, and `n` has at most `n` of them.
digits : ℕ → ℕ → String
unfolding digit
digits zero n = digit n
digits (suc f) n =
    let front = digits f (n / 10) in if ltb n 10 then digit n else front ⧺ digit (n % 10)

-- `f"{n}"`
unfoldable pub decimal : ℕ → String
unfolding digits
decimal n = digits n n

-- `f"{n:04d}"`
unfoldable pub decimal_padded : ℕ → String
unfolding decimal
decimal_padded n =
    if ltb n 10
    then "000" ⧺ decimal n
    else if ltb n 100
    then "00" ⧺ decimal n
    else if ltb n 1000
    then "0" ⧺ decimal n
    else decimal n

decimal_7 : decimal_padded 7 ≡ "0007"
unfolding decimal_padded
decimal_7 = refl

decimal_12045 : decimal_padded 12045 ≡ "12045"
unfolding decimal_padded
decimal_12045 = refl

-- `str.isspace` of one character
is_space : ℕ → Bool
is_space c =
    leb 9 c && leb c 13
    || (leb 28 c && leb c 32)
    || (c == 133)
    || (c == 160)
    || (c == 5760)
    || (leb 8192 c && leb c 8202)
    || (c == 8232)
    || (c == 8233)
    || (c == 8239)
    || (c == 8287)
    || (c == 12288)

strip_left : String → String
unfolding is_space
strip_left String.[] = String.[]
strip_left (String.◌∷◌ c s) =
    let rest = strip_left s in if is_space (code c) then rest else String.◌∷◌ c s

abbrev pub is_empty : String → Bool
is_empty String.[] = true
is_empty (String.◌∷◌ c s) = false

strip_right : String → String
unfolding is_space
strip_right String.[] = String.[]
strip_right (String.◌∷◌ c s) =
    let rest = strip_right s in
    if is_empty rest && is_space (code c) then String.[] else String.◌∷◌ c rest

-- `s.strip()`
unfoldable pub strip : String → String
unfolding strip_left strip_right
strip s = strip_right (strip_left s)

-- `s or None`
abbrev pub or_none : String → Option String
or_none s = if is_empty s then none else some s

-- The truth of an optional text, and `text or other`.
abbrev pub is_text : Option String → Bool
is_text none = false
is_text (some s) = if is_empty s then false else true

abbrev pub text_or : Option String → String → String
text_or none d = d
text_or (some s) d = if is_empty s then d else s

-- `"；".join(parts)`
abbrev pub join : List String → String
join [] = ""
join (p ∷ []) = p
join (p ∷ q ∷ rest) = p ⧺ "；" ⧺ join (q ∷ rest)

stripped : strip " 已受理\n" ≡ "已受理"
unfolding strip
stripped = refl

-- The first characters of a text: `s[:n]`.
unfoldable pub take_text : ℕ → String → String
take_text zero s = String.[]
take_text (suc n) String.[] = String.[]
take_text (suc n) (String.◌∷◌ c s) = String.◌∷◌ c (take_text n s)

-- `part in text`
unfoldable pub contains_text : String → String → Bool
contains_text part String.[] = is_empty part
contains_text part (String.◌∷◌ c s) =
    let later = contains_text part s in if starts_with (String.◌∷◌ c s) part then true else later
