-- ===== src/RateLimit/Window.antt =====
-- What the limiter of apps/api/app/utils/ratelimit.py promises.
use aidflow.Prelude.{
  ℕ, ◌+◌, ◌≤◌, ◌<◌, ◌≡◌, refl, inl, inr, ◌&&◌, List, [], ◌∷◌, ◌++◌, arith, length, length-append,
  count, leb, ltb, if◌then◌else◌, Bool-cases, ltb→lt,
}
use aidflow.RateLimit.{pruned, admit}

-- The calls at these moments, one after the other, on the queue of a key: the moments that were
-- allowed, in order.
abbrev pub allowed : ℕ → ℕ → List ℕ → List ℕ → List ℕ
allowed limit window q [] = []
allowed limit window q (t ∷ ts) =
    let rest = allowed limit window (admit limit window t q).1 ts in
    if (admit limit window t q).0 then t ∷ rest else rest

-- The clock never goes back.
abbrev pub IsSorted : ℕ → List ℕ → Type 0
IsSorted from [] = Unit
IsSorted from (t ∷ ts) = (from ≤ t) × IsSorted t ts

-- How many of these moments lie in the window that begins at `from`.
abbrev pub hits_in : ℕ → ℕ → List ℕ → ℕ
hits_in window from = count (λ t. leb from t && ltb t (from + window))

hits_in-le : (window from : ℕ) (q : List ℕ) → hits_in window from q ≤ length q
hits_in-le window from [] = omega arith
hits_in-le window from (t ∷ q) = ground (arith, hits_in-le window from q)

hits_in-append :
    (window from t : ℕ) (q : List ℕ)
    → hits_in window from (q ++ t ∷ []) ≡ hits_in window from q + hits_in window from (t ∷ [])
hits_in-append window from t [] = omega arith
hits_in-append window from t (u ∷ q) = ground (arith, hits_in-append window from t q)

length-pruned-le : (window now : ℕ) (q : List ℕ) → length (pruned window now q) ≤ length q
unfolding pruned
length-pruned-le window now [] = omega arith
length-pruned-le window now (t ∷ q) = ground (arith, length-pruned-le window now q)

-- What is popped lies before every window that the call is in.
hits_in-pruned :
    (window from now : ℕ) (q : List ℕ)
    → now < from + window
    → hits_in window from (pruned window now q) ≡ hits_in window from q
unfolding pruned
hits_in-pruned window from now [] h = refl
hits_in-pruned window from now (t ∷ q) h = ground (arith, h, hits_in-pruned window from now q h)

-- No call after the end of a window is in it.
late :
    (limit window from b : ℕ) (ts q : List ℕ)
    → IsSorted b ts
    → from + window ≤ b
    → hits_in window from (allowed limit window q ts) ≡ 0
late limit window from b [] q s h = refl
late limit window from b (t ∷ ts) q (l, s) h =
    let later = late limit window from t ts (admit limit window t q).1 s (omega arith) in
    ground (arith, later, l, h)

-- A call leaves the queue within the limit, and counts itself where it is allowed.
admitted :
    (limit window from t : ℕ) (q : List ℕ)
    → length q ≤ limit
    → t < from + window
    → (length (admit limit window t q).1 ≤ limit)
      × (hits_in window from (admit limit window t q).1
          ≡ hits_in window from q
            + (if (admit limit window t q).0 then hits_in window from (t ∷ []) else 0))
unfolding admit
admitted limit window from t q h l = ground (
  arith,
  length-pruned-le window t q,
  length-append (pruned window t q) (t ∷ []),
  hits_in-pruned window from t q l,
  hits_in-append window from t (pruned window t q),
)

queue_allowed :
    (limit window from b : ℕ) (ts q : List ℕ)
    → IsSorted b ts
    → length q ≤ limit
    → hits_in window from q + hits_in window from (allowed limit window q ts) ≤ limit
queue_allowed limit window from b [] q s h = omega (arith, hits_in-le window from q)
queue_allowed limit window from b (t ∷ ts) q (l, s) h = elim (Bool-cases (ltb t (from + window))) [
  | inl e ↦
      let (short, kept) = admitted limit window from t q h (ltb→lt t (from + window) e) in
      let later = queue_allowed limit window from t ts (admit limit window t q).1 s short in
      ground (arith, kept, later)
  | inr e ↦
      let none_left = late limit window from t (t ∷ ts) q (omega arith, s) (ground (arith, e)) in
      omega (arith, hits_in-le window from q, none_left)
]

-- Whatever the calls are, no window of the limiter's length has more allowed calls than the limit.
pub allowed-le :
    (limit window from : ℕ) (ts : List ℕ)
    → IsSorted 0 ts
    → hits_in window from (allowed limit window [] ts) ≤ limit
allowed-le limit window from ts s =
    omega (arith, queue_allowed limit window from 0 ts [] s (omega arith))
