-- ===== src/Cases/Numbering.antt =====
-- Case numbers: `_prefix`, `next_case_number` and `_insert_case` of
-- apps/api/app/services/case_service.py.
use Prim.Native.Char.{code}
use aidflow.Prelude.{
  ℕ, zero, suc, ◌+◌, ◌-◌, ◌*◌, ◌/◌, ◌%◌, String, Bool, true, not, ◌&&◌, ◌||◌, Option, none, some,
  List, [], ◌∷◌, ◌++◌, any, count, ltb, leb, ◌==◌, str_eq, is_text, text_or, is_empty,
  if◌then◌else◌, ◌⧺◌, decimal, decimal_padded, take_text,
}
use aidflow.Models.{Db, IncidentCase, Platform, Time}

-- `ch.isascii() and ch.isalnum()`
unfoldable pub is_ascii_alnum : ℕ → Bool
is_ascii_alnum c =
    leb b'0' c && leb c b'9' || (leb b'A' c && leb c b'Z') || (leb b'a' c && leb c b'z')

ascii_alnum : String → String
unfolding is_ascii_alnum
ascii_alnum String.[] = ""
ascii_alnum (String.◌∷◌ c s) =
    let rest = ascii_alnum s in if is_ascii_alnum (code c) then String.◌∷◌ c rest else rest

or_af : String → String
or_af s = if is_empty s then "AF" else s

-- `upper` is `str.upper`, the table of Unicode.
unfoldable pub prefix : (String → String) → Platform → String
unfolding take_text ascii_alnum or_af
prefix upper p =
    if is_text p.case_prefix
    then take_text 6 (upper (text_or p.case_prefix ""))
    else or_af (take_text 3 (ascii_alnum (upper p.slug)))

-- The civil date of a day, counted from 1970-01-01, as `%Y%m%d`: the Gregorian calendar with its
-- years from March.
two_digits : ℕ → String
two_digits n = if ltb n 10 then "0" ⧺ decimal n else decimal n

date_of_year : ℕ → ℕ → String
unfolding two_digits decimal
date_of_year era_year doy =
    let mp = (5 * doy + 2) / 153 in
    let day = doy - (153 * mp + 2) / 5 + 1 in
    let month = if ltb mp 10 then mp + 3 else mp - 9 in
    let year = era_year + (if leb month 2 then 1 else 0) in
    decimal year ⧺ two_digits month ⧺ two_digits day

date_text : ℕ → String
unfolding date_of_year
date_text days =
    let z = days + 719468 in
    let era = z / 146097 in
    let doe = z % 146097 in
    let yoe = (doe - doe / 1460 + doe / 36524 - doe / 146096) / 365 in
    date_of_year (yoe + era * 400) (doe - (365 * yoe + yoe / 4 - yoe / 100))

-- The local date in Taiwan, eight hours ahead.
unfoldable pub local_date : Time → String
unfolding date_text
local_date at = date_text ((at / 1000000 + 28800) / 86400)

-- f"{prefix}-{date}-{n + 1 + offset:04d}", where `n` counts the cases of the platform.
unfoldable pub next_case_number : (String → String) → Db → Platform → Time → ℕ → String
unfolding prefix local_date decimal_padded
next_case_number upper db p at offset =
    prefix upper p
    ⧺ "-"
    ⧺ local_date at
    ⧺ "-"
    ⧺ decimal_padded (count (λ c. c.platform_id == p.id) db.cases + 1 + offset)

-- The unique constraint on the platform and the number of a case.
abbrev pub taken : ℕ → String → List IncidentCase → Bool
taken platform_id number = any (λ c. c.platform_id == platform_id && str_eq c.case_number number)

-- The rounds of the loop: `left` attempts from `attempt` on. A number that is taken fails the
-- insert in its savepoint, and the next one is tried; `none` is the RuntimeError.
unfoldable pub insert_from :
    (String → String) → Platform → Time → ℕ → ℕ → IncidentCase → Db → Option (IncidentCase × Db)
insert_from upper p at zero attempt case db = none
insert_from upper p at (suc left) attempt case db =
    let number = next_case_number upper db p at attempt in
    let numbered : IncidentCase = record case { case_number = number } in
    let inserted : Db = record db { cases = db.cases ++ numbered ∷ [] } in
    let later = insert_from upper p at left (attempt + 1) case db in
    if taken case.platform_id number db.cases then later else some (numbered, inserted)

unfoldable pub insert_case :
    (String → String) → Db → Platform → IncidentCase → Time → Option (IncidentCase × Db)
unfolding insert_from
insert_case upper db p case at = insert_from upper p at 5 0 case db

-- No two cases of a platform have one number.
abbrev pub numbers_unique : List IncidentCase → Bool
numbers_unique [] = true
numbers_unique (c ∷ cs) = not (taken c.platform_id c.case_number cs) && numbers_unique cs
