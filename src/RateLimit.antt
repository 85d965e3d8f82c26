-- ===== src/RateLimit.antt =====
-- The limiter of public write endpoints: apps/api/app/utils/ratelimit.py. A moment of the monotonic
-- clock is a number, of any unit.
pub mod Window
pub mod Idle
pub mod Examples
use aidflow.Prelude.{
  ℕ, ◌+◌, String, Bool, true, false, ◌&&◌, List, [], ◌∷◌, ◌++◌, length, leb, ltb, str_eq,
  if◌then◌else◌,
}

-- The hits of each key, the oldest first.
abbrev pub Hits : Type 0
Hits = List (String × List ℕ)

pub record SlidingWindowLimiter : Type 0 where
  pub limit : ℕ
  pub window : ℕ
  pub hits : Hits

-- `self._hits.setdefault(key, deque())`
unfoldable pub queue_of : String → Hits → List ℕ
queue_of key [] = []
queue_of key ((k, q) ∷ rest) = let later = queue_of key rest in if str_eq k key then q else later

-- A dict has one entry for a key.
unfoldable pub put_queue : String → List ℕ → Hits → Hits
put_queue key q [] = (key, q) ∷ []
put_queue key q ((k, old) ∷ rest) =
    let later = put_queue key q rest in if str_eq k key then (k, q) ∷ rest else (k, old) ∷ later

-- `while q and now - q[0] >= self.window: q.popleft()`
unfoldable pub pruned : ℕ → ℕ → List ℕ → List ℕ
pruned window now [] = []
pruned window now (t ∷ q) =
    let later = pruned window now q in if leb (t + window) now then later else t ∷ q

-- One call on the queue of its key: whether it is allowed, and the queue after it.
unfoldable pub admit : ℕ → ℕ → ℕ → List ℕ → Bool × List ℕ
unfolding pruned
admit limit window now q =
    if leb limit (length (pruned window now q))
    then (false, pruned window now q)
    else (true, pruned window now q ++ now ∷ [])

-- `not v or now - v[-1] >= self.window`
unfoldable pub is_idle : ℕ → ℕ → List ℕ → Bool
is_idle window now [] = true
is_idle window now (t ∷ []) = leb (t + window) now
is_idle window now (t ∷ u ∷ q) = is_idle window now (u ∷ q)

unfoldable pub forget : ℕ → ℕ → Hits → Hits
unfolding is_idle
forget window now [] = []
forget window now ((k, q) ∷ rest) =
    let later = forget window now rest in if is_idle window now q then later else (k, q) ∷ later

-- Idle keys are forgotten by a call that is allowed, where there are more than 10,000.
unfoldable pub allow : String → ℕ → SlidingWindowLimiter → Bool × SlidingWindowLimiter
unfolding admit queue_of put_queue forget
allow key now lim =
    let (ok, q) = admit lim.limit lim.window now (queue_of key lim.hits) in
    let hits = put_queue key q lim.hits in
    (
      ok,
      record lim {
        hits = if ok && ltb 10000 (length hits) then forget lim.window now hits else hits;
      },
    )
