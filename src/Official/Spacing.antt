-- ===== src/Official/Spacing.antt =====
-- How often the cache of official layers asks the sources.
use mathlib.Core.Path.{subst}
use aidflow.Prelude.{
  ℕ, ◌+◌, ◌≤◌, min, ◌≡◌, refl, inl, inr, String, Bool, true, false, Option, none, some, List, [],
  ◌∷◌, arith, member, str_eq, eq_iff, str_eq_comm, some_inj, first, Bool-cases, if◌then◌else◌,
}
use aidflow.Models.{Time}
use aidflow.Platforms.Rows.{PlatformRow}
use aidflow.Official.Fetching.{Upstream, LayerResult, fetch_layer}
use aidflow.Official.Cached.{
  CacheEntry, Cache, Call, entry_of, put_entry, cache_key, lifetime, is_served, not_enabled, serve,
  store, get_layer,
}

entry_of-put :
    (k j : String) (e : CacheEntry) (c : Cache)
    → entry_of k (put_entry j e c) ≡ (if str_eq j k then e else entry_of k c)
unfolding entry_of put_entry
entry_of-put k j e [] = refl
entry_of-put k j e ((i, old) ∷ c) =
    ground (arith, entry_of-put k j e c, eq_iff i j, eq_iff i k, eq_iff j k)

-- A fetch for a key that returned a value at a moment.
pub record Fetch : Type 0 where
  pub key : String
  pub at : Time
  pub value : LayerResult

abbrev returned : Bool → Option LayerResult → String → Time → List Fetch → List Fetch
returned false o key later log = log
returned true none key later log = log
returned true (some v) key later log = record { key = key; at = later; value = v } ∷ log

-- The fetches that returned, the newest first.
abbrev pub logged : Call → String → Time → List Fetch → List Fetch
logged call key later log = returned call.fetched call.answer key later log

abbrev pub newest_fetch : String → List Fetch → Option Fetch
newest_fetch key log = first (λ f. str_eq key f.key) log

-- What can come of calls, forced or not, with any sources and at any moments.
pub data Reached (ttl : ℕ) : Cache → List Fetch → Type 0 where
  start : Reached ttl [] []
  asked :
      {c : Cache} {log : List Fetch} (up : Upstream) (p : PlatformRow) (layer : String)
      (force : Bool) (now later at : Time)
      → Reached ttl c log
      → Reached ttl
          (get_layer up ttl p layer force now later at c).cache
          (logged (get_layer up ttl p layer force now later at c) (cache_key p layer) later log)

-- The entry is that of a fetch.
abbrev IsOf : ℕ → Fetch → CacheEntry → Type 0
IsOf ttl f e = (e.value ≡ some f.value) × (e.expires_at ≡ f.at + lifetime ttl f.value)

-- The entry of each key is that of its newest fetch.
abbrev Agrees : ℕ → Cache → List Fetch → Type 0
Agrees ttl c log =
    (key : String) (f : Fetch) → newest_fetch key log ≡ some f → IsOf ttl f (entry_of key c)

serve-Agrees :
    (ttl : ℕ) (key : String) (later : Time) (c : Cache) (log : List Fetch) (o : Option LayerResult)
    → Agrees ttl c log
    → Agrees ttl (serve c o).cache (logged (serve c o) key later log)
serve-Agrees ttl key later c log none h = h
serve-Agrees ttl key later c log (some v) h = h

store-Agrees :
    (ttl : ℕ) (key : String) (later : Time) (c : Cache) (log : List Fetch) (o : Option LayerResult)
    → Agrees ttl c log
    → Agrees ttl
        (store key ttl later (entry_of key c) c o).cache
        (logged (store key ttl later (entry_of key c) c o) key later log)
store-Agrees ttl key later c log none h j f n = elim (Bool-cases (str_eq key j)) [
  | inl e ↦
      let k : key ≡ j = (eq_iff key j).0 e in
      rw (entry_of-put j key (entry_of key c) c, e) (rw k (h j f n))
  | inr e ↦ rw (entry_of-put j key (entry_of key c) c, e) (h j f n)
]
store-Agrees ttl key later c log (some v) h j f n =
    let new : CacheEntry = record { value = some v; expires_at = later + lifetime ttl v } in
    elim (Bool-cases (str_eq key j)) [
      | inl e ↦
          let m : some (record { key = key; at = later; value = v }) ≡ some f =
            ground (arith, n, e, str_eq_comm key j) in
          rw (entry_of-put j key new c, e) (subst (λ g. IsOf ttl g new) (some_inj m) (refl, refl))
      | inr e ↦
          let m : newest_fetch j log ≡ some f = ground (arith, n, e, str_eq_comm key j) in
          rw (entry_of-put j key new c, e) (h j f m)
    ]

module _ (ttl : ℕ) (up : Upstream) (p : PlatformRow) (layer : String) (force : Bool)
    (now later at : Time) (c : Cache) where
  abbrev key : String
  key = cache_key p layer

  abbrev entry : CacheEntry
  entry = entry_of key c

  abbrev call : Call
  call = get_layer up ttl p layer force now later at c

  -- The three ways of a call.
  call_cases :
      (P : Call → Type 0)
      → P (not_enabled layer at c)
      → (is_served force now entry ≡ true → P (serve c entry.value))
      → (is_served force now entry ≡ false
          → P (store key ttl later entry c (fetch_layer up layer p.county p.hazards at)))
      → P call
  unfolding get_layer
  call_cases P off served fresh = elim (Bool-cases (member layer p.layers)) [
    | inl m ↦ elim (Bool-cases (is_served force now entry)) [
      | inl s ↦ rw (m, s) (served s)
      | inr s ↦ rw (m, s) (fresh s)
    ]
    | inr m ↦ rw m off
  ]

  call-Agrees :
      (log : List Fetch) → Agrees ttl c log → Agrees ttl call.cache (logged call key later log)
  call-Agrees log h =
      call_cases (λ k. Agrees ttl k.cache (logged k key later log)) h
        (λ s. serve-Agrees ttl key later c log entry.value h)
        (λ s. store-Agrees ttl key later c log (fetch_layer up layer p.county p.hazards at) h)

  serve-fetched : (o : Option LayerResult) → (serve c o).fetched ≡ false
  serve-fetched none = refl
  serve-fetched (some v) = refl

  -- A call that asks a source was forced, or found the entry of its key empty or expired.
  call-asked : call.fetched ≡ true → is_served force now entry ≡ false
  call-asked =
      call_cases (λ k. k.fetched ≡ true → is_served force now entry ≡ false) (λ h. cc)
        (λ s h. cc (serve-fetched entry.value)) (λ s h. s)

Reached-Agrees : {ttl : ℕ} {c : Cache} {log : List Fetch} → Reached ttl c log → Agrees ttl c log
Reached-Agrees start = λ k f n. cc
Reached-Agrees {ttl} (asked {c} {log} up p layer force now later at r) =
    call-Agrees ttl up p layer force now later at c log (Reached-Agrees r)

-- The sources are spared. After any calls, forced or not, a call that is not forced asks the sources for
-- its layer only if the newest fetch with its key that returned is out of date: the whole time to live
-- of the cache has passed since it returned, if its status was ok, and otherwise a minute, or the time
-- to live where that is shorter.
pub get_layer_lem :
    {ttl : ℕ} {c : Cache} {log : List Fetch} (up : Upstream) (p : PlatformRow) (layer : String)
    (now later at : Time) (f : Fetch)
    → Reached ttl c log
    → newest_fetch (cache_key p layer) log ≡ some f
    → (get_layer up ttl p layer false now later at c).fetched ≡ true
    → (f.value.status ≡ "ok" → f.at + ttl ≤ now)
      × ((f.value.status ≡ "ok" → ⊥) → f.at + min ttl 60000000 ≤ now)
get_layer_lem {ttl} {c} {log} up p layer now later at f r n h =
    let (v, x) = Reached-Agrees r (cache_key p layer) f n in
    let s = call-asked ttl up p layer false now later at c h in
    (
      λ ok. ground (arith, s, v, x, (eq_iff f.value.status "ok").1 ok),
      λ bad. elim (Bool-cases (str_eq f.value.status "ok")) [
        | inl e ↦ absurd (bad ((eq_iff f.value.status "ok").0 e))
        | inr e ↦ ground (arith, s, v, x, e)
      ],
    )
