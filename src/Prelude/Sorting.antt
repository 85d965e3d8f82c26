-- ===== src/Prelude/Sorting.antt =====
-- The stable sort by a key, and lists of texts as ordered sets.
use Prim.Native.Nat.{ℕ, suc}
use Prim.Native.String.{String}
use mathlib.Core.Path.{◌≡◌, refl}
use mathlib.Core.Logic.{inl, inr}
use mathlib.Core.Bool.{Bool, true, false}
use mathlib.Core.List.{List, [], ◌∷◌, ◌++◌}
use native.Mathlib.Omega.{arith}
use text.Mathlib.Text.{◌==◌ as str_eq}
use aidflow.Prelude.Tests.{if◌then◌else◌, leb, Bool-cases}
use aidflow.Prelude.Lists.{count, select}
use aidflow.Prelude.Texts.{member}

module _ {ℓ} {A : Type ℓ} (before : A → A → Bool) where
  unfoldable pub insert_with : A → List A → List A
  insert_with a [] = a ∷ []
  insert_with a (x ∷ xs) =
      let later = insert_with a xs in if before a x then a ∷ x ∷ xs else x ∷ later

  -- A stable sort, where `before` is also true of equals.
  unfoldable pub sort_with : List A → List A
  unfolding insert_with
  sort_with [] = []
  sort_with (x ∷ xs) = insert_with x (sort_with xs)

  -- Each element comes before the next.
  abbrev pub IsChainFrom : A → List A → Type 0
  IsChainFrom a [] = Unit
  IsChainFrom a (x ∷ xs) = (before a x ≡ true) × IsChainFrom x xs

  abbrev pub IsChain : List A → Type 0
  IsChain [] = Unit
  IsChain (x ∷ xs) = IsChainFrom x xs

  module _ (total : (a b : A) → before a b ≡ false → before b a ≡ true) where
    insert_with-IsChainFrom :
        (b a : A) (xs : List A)
        → before b a ≡ true
        → IsChainFrom b xs
        → IsChainFrom b (insert_with a xs)
    unfolding insert_with
    insert_with-IsChainFrom b a [] h s = (h, tt)
    insert_with-IsChainFrom b a (x ∷ xs) h (l, s) = elim (Bool-cases (before a x)) [
      | inl e ↦ rw e (h, (e, s))
      | inr e ↦ rw e (l, insert_with-IsChainFrom x a xs (total a x e) s)
    ]

    insert_with-IsChain : (a : A) (xs : List A) → IsChain xs → IsChain (insert_with a xs)
    unfolding insert_with
    insert_with-IsChain a [] s = tt
    insert_with-IsChain a (x ∷ xs) s = elim (Bool-cases (before a x)) [
      | inl e ↦ rw e (e, s)
      | inr e ↦ rw e (insert_with-IsChainFrom x a xs (total a x e) s)
    ]

    pub sort_with-IsChain : (xs : List A) → IsChain (sort_with xs)
    unfolding sort_with
    sort_with-IsChain [] = tt
    sort_with-IsChain (x ∷ xs) = insert_with-IsChain x (sort_with xs) (sort_with-IsChain xs)

  -- Without some of its elements it is still a chain.
  module _ (trans : (a b c : A) → before a b ≡ true → before b c ≡ true → before a c ≡ true) where
    IsChainFrom-earlier :
        (a b : A) (xs : List A) → before a b ≡ true → IsChainFrom b xs → IsChainFrom a xs
    IsChainFrom-earlier a b [] h c = tt
    IsChainFrom-earlier a b (x ∷ xs) h (k, c) = (trans a b x h k, c)

    select-IsChainFrom :
        (p : A → Bool) (a : A) (xs : List A) → IsChainFrom a xs → IsChainFrom a (select p xs)
    select-IsChainFrom p a [] c = tt
    select-IsChainFrom p a (x ∷ xs) (k, c) = elim (Bool-cases (p x)) [
      | inl e ↦ rw e (k, select-IsChainFrom p x xs c)
      | inr e ↦ rw e (select-IsChainFrom p a xs (IsChainFrom-earlier a x xs k c))
    ]

    pub select-IsChain : (p : A → Bool) (xs : List A) → IsChain xs → IsChain (select p xs)
    select-IsChain p [] c = tt
    select-IsChain p (x ∷ xs) c = elim (Bool-cases (p x)) [
      | inl e ↦ rw e (select-IsChainFrom p x xs c)
      | inr e ↦ rw e (select-IsChain p xs (from x xs c))
    ]
      where
        from : (x : A) (xs : List A) → IsChainFrom x xs → IsChain xs
        from x [] c = tt
        from x (y ∷ ys) (k, c) = c

  count-insert_with :
      (p : A → Bool) (a : A) (xs : List A) → count p (insert_with a xs) ≡ count p (a ∷ xs)
  unfolding insert_with
  count-insert_with p a [] = refl
  count-insert_with p a (x ∷ xs) = ground (arith, count-insert_with p a xs)

  -- A sort loses and adds nothing.
  pub count-sort_with : (p : A → Bool) (xs : List A) → count p (sort_with xs) ≡ count p xs
  unfolding sort_with
  count-sort_with p [] = refl
  count-sort_with p (x ∷ xs) =
      ground (arith, count-insert_with p x (sort_with xs), count-sort_with p xs)

-- `xs.sort(key=…)`
abbrev pub no_later {ℓ} : {A : Type ℓ} (key : A → ℕ) → A → A → Bool
no_later key a b = leb (key a) (key b)

abbrev pub sort_by {ℓ} : {A : Type ℓ} (key : A → ℕ) → List A → List A
sort_by key xs = sort_with (no_later key) xs

pub no_later-total {ℓ} :
    {A : Type ℓ} (key : A → ℕ) (a b : A) → no_later key a b ≡ false → no_later key b a ≡ true
no_later-total key a b h = ground (arith, h)

-- `xs.index(x) if x in xs else len(xs)`
abbrev pub index_in : List String → String → ℕ
index_in [] x = 0
index_in (y ∷ ys) x = let rest = index_in ys x in if str_eq x y then 0 else suc rest

-- The first occurrences of the texts that were not seen, in order.
abbrev pub unseen : List String → List String → List String
unseen seen [] = []
unseen seen (x ∷ xs) = (if member x seen then [] else x ∷ []) ++ unseen (x ∷ seen) xs

-- `xs.remove(x)`, where `x` is in it
abbrev pub remove_text : String → List String → List String
remove_text x [] = []
remove_text x (y ∷ ys) = let rest = remove_text x ys in if str_eq x y then ys else y ∷ rest
