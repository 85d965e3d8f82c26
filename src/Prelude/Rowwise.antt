-- ===== src/Prelude/Rowwise.antt =====
-- Lists whose elements are related one by one. What reads only what related elements have in common
-- cannot tell such lists apart.
use Prim.Native.Nat.{ℕ, zero, suc}
use mathlib.Core.Path.{◌≡◌, refl, ap}
use mathlib.Core.Logic.{inl, inr}
use mathlib.Core.Bool.{Bool, true}
use mathlib.Core.Option.{Option, none, some}
use mathlib.Core.List.{List, [], ◌∷◌, map}
use aidflow.Prelude.Tests.{Bool-cases}
use aidflow.Prelude.Lists.{any, select, take, drop, length}
use aidflow.Prelude.Sorting.{insert_with, sort_with}

module _ {A : Type 0} (R : A → A → Type 0) where
  abbrev pub Pointwise : List A → List A → Type 0
  Pointwise [] [] = Unit
  Pointwise [] (y ∷ ys) = ⊥
  Pointwise (x ∷ xs) [] = ⊥
  Pointwise (x ∷ xs) (y ∷ ys) = R x y × Pointwise xs ys

  abbrev pub Related : Option A → Option A → Type 0
  Related none none = Unit
  Related none (some y) = ⊥
  Related (some x) none = ⊥
  Related (some x) (some y) = R x y

module _ {A : Type 0} (R : A → A → Type 0) where
  pub map-Pointwise :
      {B : Type 0} (view : A → B)
      → ((x y : A) → R x y → view x ≡ view y)
      → (xs ys : List A) → Pointwise R xs ys
      → map view xs ≡ map view ys
  map-Pointwise view h [] [] r = refl
  map-Pointwise view h [] (y ∷ ys) r = absurd r
  map-Pointwise view h (x ∷ xs) [] r = absurd r
  map-Pointwise view h (x ∷ xs) (y ∷ ys) (r, rs) = cc (h x y r, map-Pointwise view h xs ys rs)

  pub length-Pointwise : (xs ys : List A) → Pointwise R xs ys → length xs ≡ length ys
  length-Pointwise [] [] r = refl
  length-Pointwise [] (y ∷ ys) r = absurd r
  length-Pointwise (x ∷ xs) [] r = absurd r
  length-Pointwise (x ∷ xs) (y ∷ ys) (r, rs) = ap suc (length-Pointwise xs ys rs)

  pub take-Pointwise :
      (n : ℕ) (xs ys : List A) → Pointwise R xs ys → Pointwise R (take n xs) (take n ys)
  take-Pointwise zero xs ys r = tt
  take-Pointwise (suc n) [] [] r = tt
  take-Pointwise (suc n) [] (y ∷ ys) r = absurd r
  take-Pointwise (suc n) (x ∷ xs) [] r = absurd r
  take-Pointwise (suc n) (x ∷ xs) (y ∷ ys) (r, rs) = (r, take-Pointwise n xs ys rs)

  pub drop-Pointwise :
      (n : ℕ) (xs ys : List A) → Pointwise R xs ys → Pointwise R (drop n xs) (drop n ys)
  drop-Pointwise zero xs ys r = r
  drop-Pointwise (suc n) [] [] r = tt
  drop-Pointwise (suc n) [] (y ∷ ys) r = absurd r
  drop-Pointwise (suc n) (x ∷ xs) [] r = absurd r
  drop-Pointwise (suc n) (x ∷ xs) (y ∷ ys) (r, rs) = drop-Pointwise n xs ys rs

  -- Of the elements that pass, more may be known.
  module _ (S : A → A → Type 0) (p : A → Bool) (same : (x y : A) → R x y → p x ≡ p y)
      (more : (x y : A) → R x y → p y ≡ true → S x y) where
    pub select-Pointwise_more :
        (xs ys : List A) → Pointwise R xs ys → Pointwise S (select p xs) (select p ys)
    select-Pointwise_more [] [] r = tt
    select-Pointwise_more [] (y ∷ ys) r = absurd r
    select-Pointwise_more (x ∷ xs) [] r = absurd r
    select-Pointwise_more (x ∷ xs) (y ∷ ys) (r, rs) = rw (same x y r) (elim (Bool-cases (p y)) [
      | inl e ↦ rw e (more x y r e, select-Pointwise_more xs ys rs)
      | inr e ↦ rw e (select-Pointwise_more xs ys rs)
    ])

  module _ (p : A → Bool) (same : (x y : A) → R x y → p x ≡ p y) where
    pub select-Pointwise :
        (xs ys : List A) → Pointwise R xs ys → Pointwise R (select p xs) (select p ys)
    select-Pointwise = select-Pointwise_more R p same (λ x y r e. r)

    pub any-Pointwise : (xs ys : List A) → Pointwise R xs ys → any p xs ≡ any p ys
    any-Pointwise [] [] r = refl
    any-Pointwise [] (y ∷ ys) r = absurd r
    any-Pointwise (x ∷ xs) [] r = absurd r
    any-Pointwise (x ∷ xs) (y ∷ ys) (r, rs) = rw (same x y r, any-Pointwise xs ys rs)

  module _ (before : A → A → Bool)
      (same : (x y u v : A) → R x u → R y v → before x y ≡ before u v) where
    insert_with-Pointwise :
        (a b : A) (xs ys : List A)
        → R a b
        → Pointwise R xs ys
        → Pointwise R (insert_with before a xs) (insert_with before b ys)
    unfolding insert_with
    insert_with-Pointwise a b [] [] q r = (q, tt)
    insert_with-Pointwise a b [] (y ∷ ys) q r = absurd r
    insert_with-Pointwise a b (x ∷ xs) [] q r = absurd r
    insert_with-Pointwise a b (x ∷ xs) (y ∷ ys) q (r, rs) =
        rw (same a x b y q r) (elim (Bool-cases (before b y)) [
          | inl e ↦ rw e (q, (r, rs))
          | inr e ↦ rw e (r, insert_with-Pointwise a b xs ys q rs)
        ])

    pub sort_with-Pointwise :
        (xs ys : List A)
        → Pointwise R xs ys
        → Pointwise R (sort_with before xs) (sort_with before ys)
    unfolding sort_with
    sort_with-Pointwise [] [] r = tt
    sort_with-Pointwise [] (y ∷ ys) r = absurd r
    sort_with-Pointwise (x ∷ xs) [] r = absurd r
    sort_with-Pointwise (x ∷ xs) (y ∷ ys) (r, rs) =
        insert_with-Pointwise x y _ _ r (sort_with-Pointwise xs ys rs)
