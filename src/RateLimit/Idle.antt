-- ===== src/RateLimit/Idle.antt =====
-- Forgetting idle keys, in `SlidingWindowLimiter.allow` of apps/api/app/utils/ratelimit.py.
use aidflow.Prelude.{
  ℕ, ◌+◌, ◌≤◌, String, ◌≡◌, refl, ap, inl, inr, Bool, true, false, not, ◌&&◌, List, [], ◌∷◌, arith,
  any, All, str_eq, eq_iff, Bool-cases, and_split,
}
use aidflow.RateLimit.{Hits, pruned, queue_of, is_idle, forget}
use aidflow.RateLimit.Window.{IsSorted}

abbrev has_key : String → Hits → Bool
has_key key = any (λ e. str_eq e.0 key)

-- A dict has a key once.
abbrev pub keys_distinct : Hits → Bool
keys_distinct [] = true
keys_distinct ((k, q) ∷ rest) = not (has_key k rest) && keys_distinct rest

-- Every queue is in the order of time.
abbrev pub AllSorted : Hits → Type 0
AllSorted = All (λ e. IsSorted 0 e.1)

idle_head :
    (window now b t : ℕ) (q : List ℕ)
    → IsSorted b (t ∷ q)
    → is_idle window now (t ∷ q) ≡ true
    → t + window ≤ now
unfolding is_idle
idle_head window now b t [] s h = ground (arith, h)
idle_head window now b t (u ∷ q) (l, (k, s)) h =
    omega (arith, idle_head window now t u q (k, s) h, k)

idle_pruned :
    (window now later b : ℕ) (q : List ℕ)
    → now ≤ later
    → IsSorted b q
    → is_idle window now q ≡ true
    → pruned window later q ≡ []
unfolding pruned is_idle
idle_pruned window now later b [] m s h = refl
idle_pruned window now later b (t ∷ []) m s h = ground (arith, m, h)
idle_pruned window now later b (t ∷ u ∷ q) m (l, s) h = ground (
  arith,
  m,
  idle_head window now b t (u ∷ q) (l, s) h,
  idle_pruned window now later t (u ∷ q) m s h,
)

queue_of-absent :
    (key : String) (window now : ℕ) (hits : Hits)
    → has_key key hits ≡ false
    → queue_of key (forget window now hits) ≡ []
unfolding queue_of forget
queue_of-absent key window now [] h = refl
queue_of-absent key window now ((k, q) ∷ rest) h =
    ground (arith, h, queue_of-absent key window now rest)

absent_of :
    (key k : String) (rest : Hits)
    → str_eq k key ≡ true
    → has_key k rest ≡ false
    → has_key key rest ≡ false
absent_of key k rest e h = cc (ap (λ (t : String). has_key t rest) ((eq_iff k key).0 e), h)

-- Forgetting the idle keys changes no later answer: for every key, what is left of its queue at any later
-- call is the same with and without it, where keys are distinct and queues are in the order of time.
pub pruned-forget :
    (key : String) (window now later : ℕ) (hits : Hits)
    → now ≤ later
    → keys_distinct hits ≡ true
    → AllSorted hits
    → pruned window later (queue_of key (forget window now hits))
      ≡ pruned window later (queue_of key hits)
unfolding queue_of forget
pruned-forget key window now later [] m d s = refl
pruned-forget key window now later ((k, q) ∷ rest) m d (s, ss) =
    let (new, d') = and_split (not (has_key k rest)) (keys_distinct rest) d in
    let rest_same = pruned-forget key window now later rest m d' ss in
    elim (Bool-cases (str_eq k key)) [
      | inl e ↦ elim (Bool-cases (is_idle window now q)) [
        | inl i ↦
            let gone =
              queue_of-absent key window now rest (absent_of key k rest e (ground (arith, new))) in
            let empty = idle_pruned window now later 0 q m s i in
            let nil : pruned window later [] ≡ [] = unfold pruned in refl in
            ground (arith, e, i, ap (λ (l : List ℕ). pruned window later l) gone, empty, nil)
        | inr i ↦ ground (arith, e, i)
      ]
      | inr e ↦ elim (Bool-cases (is_idle window now q)) [
        | inl i ↦ ground (arith, e, i, rest_same)
        | inr i ↦ ground (arith, e, i, rest_same)
      ]
    ]
