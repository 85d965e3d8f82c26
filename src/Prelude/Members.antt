-- ===== src/Prelude/Members.antt =====
-- The elements of a list that is selected, sorted, cut, mapped or appended.
use Prim.Native.Nat.{ℕ, zero, suc, ◌≤◌}
use mathlib.Core.Path.{◌≡◌, refl, sym, ap, ◌∙◌}
use mathlib.Core.Logic.{◌⊎◌, inl, inr}
use mathlib.Core.Bool.{Bool, true}
use mathlib.Core.List.{List, [], ◌∷◌, ◌++◌, map}
use native.Mathlib.Omega.{arith}
use aidflow.Prelude.Tests.{Bool-cases}
use aidflow.Prelude.Lists.{In, count, length, select, take}
use aidflow.Prelude.Sorting.{insert_with, sort_with}

module _ {A : Type 0} where
  pub In-select : (p : A → Bool) (xs : List A) (a : A) → In a (select p xs) → In a xs × (p a ≡ true)
  In-select p [] a h = absurd h
  In-select p (x ∷ xs) a h = elim (Bool-cases (p x)) [
    | inl e ↦ kept (In-select p xs a) (rw e at h) e
    | inr e ↦
        let h' : In a (select p xs) = rw e at h in let (i, t) = In-select p xs a h' in (inr i, t)
  ]
    where
      kept :
          (In a (select p xs) → In a xs × (p a ≡ true))
          → In a (x ∷ select p xs)
          → p x ≡ true
          → In a (x ∷ xs) × (p a ≡ true)
      kept rec (inl q) e = (inl q, ap p (sym q) ∙ e)
      kept rec (inr i) e = let (j, t) = rec i in (inr j, t)

  pub select-In : (p : A → Bool) (xs : List A) (a : A) → In a xs → p a ≡ true → In a (select p xs)
  select-In p [] a i e = absurd i
  select-In p (x ∷ xs) a (inl q) e = rw (ap p q ∙ e) (inl q)
  select-In p (x ∷ xs) a (inr i) e = elim (Bool-cases (p x)) [
    | inl k ↦ rw k (inr (select-In p xs a i e))
    | inr k ↦ rw k (select-In p xs a i e)
  ]

  pub length-select : (p : A → Bool) (xs : List A) → length (select p xs) ≡ count p xs
  length-select p [] = refl
  length-select p (x ∷ xs) = ground (arith, length-select p xs)

  pub In-append : (a : A) (xs ys : List A) → In a (xs ++ ys) → In a xs ⊎ In a ys
  In-append a [] ys h = inr h
  In-append a (x ∷ xs) ys (inl e) = inl (inl e)
  In-append a (x ∷ xs) ys (inr h) = elim (In-append a xs ys h) [
    | inl i ↦ inl (inr i)
    | inr i ↦ inr i
  ]

  pub append-In : (a : A) (xs ys : List A) → In a xs → In a (xs ++ ys)
  append-In a [] ys h = absurd h
  append-In a (x ∷ xs) ys (inl e) = inl e
  append-In a (x ∷ xs) ys (inr h) = inr (append-In a xs ys h)

  pub In-append_right : (a : A) (xs ys : List A) → In a ys → In a (xs ++ ys)
  In-append_right a [] ys h = h
  In-append_right a (x ∷ xs) ys h = inr (In-append_right a xs ys h)

  pub In-take : (n : ℕ) (xs : List A) (a : A) → In a (take n xs) → In a xs
  In-take zero xs a h = absurd h
  In-take (suc n) [] a h = absurd h
  In-take (suc n) (x ∷ xs) a (inl e) = inl e
  In-take (suc n) (x ∷ xs) a (inr h) = inr (In-take n xs a h)

  pub take_whole : (n : ℕ) (xs : List A) → length xs ≤ n → take n xs ≡ xs
  take_whole zero [] h = refl
  take_whole zero (x ∷ xs) h = absurd (omega arith)
  take_whole (suc n) [] h = refl
  take_whole (suc n) (x ∷ xs) h = ap (λ l. x ∷ l) (take_whole n xs (omega arith))

  module _ (before : A → A → Bool) where
    In-insert_with : (b : A) (xs : List A) (a : A) → In a (insert_with before b xs) → In a (b ∷ xs)
    unfolding insert_with
    In-insert_with b [] a h = h
    In-insert_with b (x ∷ xs) a h = elim (Bool-cases (before b x)) [
      | inl e ↦ rw e at h
      | inr e ↦ later (In-insert_with b xs a) (rw e at h)
    ]
      where
        swapped : In a (b ∷ xs) → In a (b ∷ x ∷ xs)
        swapped (inl q) = inl q
        swapped (inr i) = inr (inr i)

        later :
            (In a (insert_with before b xs) → In a (b ∷ xs))
            → In a (x ∷ insert_with before b xs)
            → In a (b ∷ x ∷ xs)
        later rec (inl q) = inr (inl q)
        later rec (inr i) = swapped (rec i)

    insert_with-In : (b : A) (xs : List A) (a : A) → In a (b ∷ xs) → In a (insert_with before b xs)
    unfolding insert_with
    insert_with-In b [] a h = h
    insert_with-In b (x ∷ xs) a h = elim (Bool-cases (before b x)) [
      | inl e ↦ rw e h
      | inr e ↦ rw e (later (insert_with-In b xs a) h)
    ]
      where
        later :
            (In a (b ∷ xs) → In a (insert_with before b xs))
            → In a (b ∷ x ∷ xs)
            → In a (x ∷ insert_with before b xs)
        later rec (inl q) = inr (rec (inl q))
        later rec (inr (inl q)) = inl q
        later rec (inr (inr i)) = inr (rec (inr i))

    length-insert_with : (b : A) (xs : List A) → length (insert_with before b xs) ≡ suc (length xs)
    unfolding insert_with
    length-insert_with b [] = refl
    length-insert_with b (x ∷ xs) = ground (arith, length-insert_with b xs)

    pub In-sort_with : (xs : List A) (a : A) → In a (sort_with before xs) → In a xs
    unfolding sort_with
    In-sort_with [] a h = h
    In-sort_with (x ∷ xs) a h =
        head (In-sort_with xs a) (In-insert_with x (sort_with before xs) a h)
      where
        head :
            (In a (sort_with before xs) → In a xs) → In a (x ∷ sort_with before xs) → In a (x ∷ xs)
        head rec (inl q) = inl q
        head rec (inr i) = inr (rec i)

    pub sort_with-In : (xs : List A) (a : A) → In a xs → In a (sort_with before xs)
    unfolding sort_with
    sort_with-In [] a h = h
    sort_with-In (x ∷ xs) a (inl q) = insert_with-In x (sort_with before xs) a (inl q)
    sort_with-In (x ∷ xs) a (inr i) =
        insert_with-In x (sort_with before xs) a (inr (sort_with-In xs a i))

    pub length-sort_with : (xs : List A) → length (sort_with before xs) ≡ length xs
    unfolding sort_with
    length-sort_with [] = refl
    length-sort_with (x ∷ xs) =
        length-insert_with x (sort_with before xs) ∙ ap suc (length-sort_with xs)

module _ {A B : Type 0} (f : A → B) where
  pub In-map : (xs : List A) (b : B) → In b (map f xs) → (a : A) × In a xs × (f a ≡ b)
  In-map [] b h = absurd h
  In-map (x ∷ xs) b (inl e) = (x, inl refl, e)
  In-map (x ∷ xs) b (inr h) = let (a, i, e) = In-map xs b h in (a, inr i, e)

  pub map-In : (xs : List A) (a : A) → In a xs → In (f a) (map f xs)
  map-In [] a h = absurd h
  map-In (x ∷ xs) a (inl e) = inl (ap f e)
  map-In (x ∷ xs) a (inr h) = inr (map-In xs a h)
