-- ===== src/Line.antt =====
-- LINE groups: apps/api/app/services/line_service.py. A group is known by its row `LineGroup`, a
-- platform names its group in its configuration. Sending a message is outside the program, so a
-- reply is a value of the result.
pub mod Webhook
pub mod Linked
pub mod Links
pub mod Bound
pub mod Keeps
pub mod Untouched
pub mod History
pub mod Examples
use Prim.Native.Char.{code}
use aidflow.Prelude.{
  ℕ, zero, suc, ◌+◌, String, Bool, true, false, not, ◌&&◌, ◌||◌, Option, none, some, List, [], ◌∷◌,
  ◌++◌, map, first, str_eq, ◌==◌, leb, strip, take_text, is_empty, if◌then◌else◌,
}
use aidflow.Models.{Time, Json, uuid, text, put_key, get_key, drop_key, json_text, enqueue_event}
use aidflow.Platforms.Rows.{
  PlatformRow, LineGroup, GroupStatus, joined, bound, Site, change_platform, get_platform,
}

-- `row.group_id == group_id`
abbrev pub row_for : String → List LineGroup → Option LineGroup
row_for g groups = first (λ r. str_eq r.group_id g) groups

-- A change of the row of a group.
abbrev pub in_row : String → (LineGroup → LineGroup) → LineGroup → LineGroup
in_row g f r = if str_eq r.group_id g then f r else r

abbrev pub change_row : String → (LineGroup → LineGroup) → List LineGroup → List LineGroup
change_row g f rs = map (in_row g f) rs

-- `(configuration or {}).get("line_group_id")`, where it is a text.
abbrev pub as_text : Json → Option String
as_text (text s) = some s
as_text _ = none

abbrev pub group_of : PlatformRow → Option String
group_of p = as_text (get_key "line_group_id" p.configuration)

abbrev pub is_group : Option String → String → Bool
is_group none g = false
is_group (some h) g = str_eq h g

-- `_set_config(platform, line_group_id=None, line_bound_at=None)`
unfoldable pub clear_group : PlatformRow → PlatformRow
clear_group p = record p {
  configuration = drop_key "line_bound_at" (drop_key "line_group_id" p.configuration);
}

-- `_set_config(platform, line_group_id=group_id, line_bound_at=…)`
unfoldable pub set_group : String → String → PlatformRow → PlatformRow
set_group g at p = record p {
  configuration =
      put_key "line_bound_at" (text at) (put_key "line_group_id" (text g) p.configuration);
}

is_hex : ℕ → Bool
is_hex c = leb b'0' c && leb c b'9' || (leb b'a' c && leb c b'f')

hex_digits : ℕ → String → Bool
unfolding is_hex
hex_digits zero String.[] = true
hex_digits zero (String.◌∷◌ c s) = false
hex_digits (suc n) String.[] = false
hex_digits (suc n) (String.◌∷◌ c s) = let rest = hex_digits n s in is_hex (code c) && rest

-- `_GROUP_ID_RE`: a C or an R, and 32 lower case hexadecimal digits.
unfoldable pub is_group_id : String → Bool
unfolding hex_digits
is_group_id String.[] = false
is_group_id (String.◌∷◌ c s) = (code c == b'C' || (code c == b'R')) && hex_digits 32 s

-- The other groups of the platform.
abbrev pub is_other : ℕ → String → LineGroup → Bool
is_other id g r = elim r.platform_id [
  | none ↦ false
  | some p ↦ if p == id then not (str_eq r.group_id g) else false
]

abbrev pub released : LineGroup → LineGroup
released r = record r { platform_id = none; status = joined }

abbrev pub release_other : ℕ → String → LineGroup → LineGroup
release_other id g r = if is_other id g r then released r else r

abbrev pub release_others : ℕ → String → List LineGroup → List LineGroup
release_others id g rs = map (release_other id g) rs

abbrev pub new_row : ℕ → String → GroupStatus → LineGroup
new_row id g st = record { id = id; group_id = g; platform_id = none; status = st; bound_at = none }

-- A row for the group, if it has none.
abbrev pub or_new : Option LineGroup → String → GroupStatus → Site → Site
or_new (some _) g st s = s
or_new none g st s = record s {
  groups = s.groups ++ new_row s.db.next_id g st ∷ [];
  db = record s.db { next_id = s.db.next_id + 1 };
}

abbrev pub with_row : String → GroupStatus → Site → Site
with_row g st s = or_new (row_for g s.groups) g st s

-- The owner of a group: the platform that its row names.
abbrev pub row_owner : Option LineGroup → Option ℕ
row_owner none = none
row_owner (some r) = r.platform_id

abbrev pub owner : Site → String → Option ℕ
owner s g = row_owner (row_for g s.groups)

-- `clear_group` of a platform, if the group is still the one it names.
abbrev pub clear_if : String → PlatformRow → PlatformRow
clear_if g p = if is_group (group_of p) g then clear_group p else p

-- The platform that had the group before loses it.
abbrev pub clear_previous : Option ℕ → ℕ → String → Site → Site
clear_previous none id g s = s
clear_previous (some j) id g s = if j == id then s else change_platform j (clear_if g) s

abbrev pub bound_to : Time → ℕ → LineGroup → LineGroup
bound_to now id r = record r { platform_id = some id; status = bound; bound_at = some now }

module _ (iso : Time → String) where
  -- The writes of `bind_group` for a group that is well formed; `iso` is `datetime.isoformat`.
  unfoldable pub bind : Time → ℕ → String → Option String → Site → Site
  unfolding clear_group set_group enqueue_event
  bind now id g actor s =
      let known = with_row g joined s in
      let others = record known { groups = release_others id g known.groups } in
      let cleared = clear_previous (owner others g) id g others in
      let tied = record cleared { groups = change_row g (bound_to now id) cleared.groups } in
      let named = change_platform id (set_group g (iso now)) tied in
      record named {
        db =
            enqueue_event "line.group_bound" (some id)
              (("platform_id", uuid id)
                ∷ ("group", text (take_text 8 g))
                ∷ ("by", json_text actor)
                ∷ [])
              named.db;
      }

  -- `none` is the `ValueError`.
  unfoldable pub bind_group : Time → ℕ → String → Option String → Site → Option Site
  unfolding strip is_group_id bind
  bind_group now id group_id actor s =
      let g = strip group_id in if is_group_id g then some (bind now id g actor s) else none

abbrev pub named_by : Option PlatformRow → Option String
named_by none = none
named_by (some p) = group_of p

-- The group that the platform names, if it exists.
unfoldable pub target : Site → ℕ → Option String
unfolding get_platform
target s id = named_by (get_platform s id)

abbrev pub release_named : Option String → List LineGroup → List LineGroup
release_named none rs = rs
release_named (some g) rs = if is_empty g then rs else change_row g released rs

unfoldable pub unbind : ℕ → Option String → Site → Site
unfolding target clear_group enqueue_event
unbind id actor s =
    let rows = record s { groups = release_named (target s id) s.groups } in
    let named = change_platform id clear_group rows in
    record named {
      db =
          enqueue_event "line.group_unbound" (some id)
            (("platform_id", uuid id) ∷ ("by", json_text actor) ∷ []) named.db;
    }

-- The code of a platform, if it is a text that is not empty.
abbrev pub code_of : PlatformRow → Option String
code_of p = as_text (get_key "line_bind_code" p.configuration)

abbrev pub set_code : String → PlatformRow → PlatformRow
set_code c p = record p { configuration = put_key "line_bind_code" (text c) p.configuration }

abbrev pub code_in_use : Option PlatformRow → Option String
code_in_use none = none
code_in_use (some p) = code_of p

-- The code that stays.
abbrev pub kept_code : Option String → Bool → Option String
kept_code none regenerate = none
kept_code (some c) regenerate = if not (is_empty c) && not regenerate then some c else none

abbrev pub or_fresh : Option String → String → ℕ → Site → Site × String
or_fresh (some c) fresh id s = (s, c)
or_fresh none fresh id s = (change_platform id (set_code fresh) s, fresh)

-- `bind_code`; `fresh` is the random code.
unfoldable pub bind_code : String → ℕ → Bool → Site → Site × String
unfolding get_platform
bind_code fresh id regenerate s =
    or_fresh (kept_code (code_in_use (get_platform s id)) regenerate) fresh id s
