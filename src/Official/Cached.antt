-- ===== src/Official/Cached.antt =====
-- `_CacheEntry` and `get_layer` of apps/api/app/services/official_data_service.py. The lock of an entry
-- lets one call at a time fetch for a key, so a call is one step; it looks at the clock when it looks at
-- the entry, and again when it stores the value.
use aidflow.Prelude.{
  ℕ, ◌+◌, min, String, Bool, true, false, not, ◌&&◌, Option, none, some, List, [], ◌∷◌, member,
  str_eq, text_or, ◌⧺◌, ltb, if◌then◌else◌,
}
use aidflow.Models.{Time}
use aidflow.Platforms.Rows.{PlatformRow}
use aidflow.Official.Fetching.{LayerResult, Upstream, fetch_layer, without}

-- An entry of the cache; a fresh one has no value.
pub record CacheEntry : Type 0 where
  pub value : Option LayerResult
  pub expires_at : Time

abbrev pub Cache : Type 0
Cache = List (String × CacheEntry)

unfoldable pub entry_of : String → Cache → CacheEntry
entry_of key [] = record { value = none; expires_at = 0 }
entry_of key ((k, e) ∷ rest) = let later = entry_of key rest in if str_eq k key then e else later

-- A dict has one entry for a key.
unfoldable pub put_entry : String → CacheEntry → Cache → Cache
put_entry key e [] = (key, e) ∷ []
put_entry key e ((k, old) ∷ rest) =
    let later = put_entry key e rest in if str_eq k key then (k, e) ∷ rest else (k, old) ∷ later

-- `",".join(hazards)`
abbrev join_comma : List String → String
join_comma [] = ""
join_comma (p ∷ []) = p
join_comma (p ∷ q ∷ rest) = p ⧺ "," ⧺ join_comma (q ∷ rest)

abbrev pub cache_key : PlatformRow → String → String
cache_key p layer = layer ⧺ "|" ⧺ text_or p.county "" ⧺ "|" ⧺ join_comma p.hazards

-- `ttl if value["status"] == "ok" else min(ttl, 60)`, in microseconds
abbrev pub lifetime : ℕ → LayerResult → ℕ
lifetime ttl v = if str_eq v.status "ok" then ttl else min ttl 60000000

-- The answer, or an exception; the cache after it; and whether the upstream was asked.
pub record Call : Type 0 where
  pub answer : Option LayerResult
  pub cache : Cache
  pub fetched : Bool

abbrev cached_copy : LayerResult → LayerResult
cached_copy v = record v { cached = true }

abbrev pub serve : Cache → Option LayerResult → Call
serve cache none = record { answer = none; cache = cache; fetched = false }
serve cache (some v) = record { answer = some (cached_copy v); cache = cache; fetched = false }

-- What a fetch leaves in the entry.
abbrev pub store : String → ℕ → Time → CacheEntry → Cache → Option LayerResult → Call
store key ttl later e cache none = record {
  answer = none;
  cache = put_entry key e cache;
  fetched = true;
}
store key ttl later e cache (some v) = record {
  answer = some v;
  cache = put_entry key (record { value = some v; expires_at = later + lifetime ttl v }) cache;
  fetched = true;
}

abbrev pub is_value : Option LayerResult → Bool
is_value none = false
is_value (some v) = true

-- The entry has a value that is not expired.
abbrev pub is_fresh : Time → CacheEntry → Bool
is_fresh now e = is_value e.value && ltb now e.expires_at

abbrev pub not_enabled : String → Time → Cache → Call
not_enabled layer at cache = record {
  answer = some (without layer "not_enabled" "此平台未啟用該圖層" at);
  cache = cache;
  fetched = false;
}

abbrev pub is_served : Bool → Time → CacheEntry → Bool
is_served force now e = not force && is_fresh now e

-- `get_layer`, where the clock shows `now` at first and `later` after the fetch; `at` is the date.
unfoldable pub get_layer :
    Upstream → ℕ → PlatformRow → String → Bool → (now later at : Time) → Cache → Call
unfolding fetch_layer entry_of put_entry
get_layer up ttl p layer force now later at cache =
    let key = cache_key p layer in
    let e = entry_of key cache in
    if not (member layer p.layers)
    then not_enabled layer at cache
    else if is_served force now e
    then serve cache e.value
    else store key ttl later e cache (fetch_layer up layer p.county p.hazards at)
