-- ===== src/Categories/Similar.antt =====
-- "Similar" categories of apps/api/app/domain/categories.py.
use aidflow.Prelude.{
  String, ◌≡◌, refl, true, ◌&&◌, List, [], ◌∷◌, arith, any, member, str_eq_comm, eq_refl,
}
use aidflow.Categories.{are_similar, similar_groups}

any_comm :
    (a b : String) (gs : List (List String))
    → any (λ g. member a g && member b g) gs ≡ any (λ g. member b g && member a g) gs
any_comm a b [] = refl
any_comm a b (g ∷ gs) = ground (arith, any_comm a b gs)

-- Similarity is reflexive and symmetric, also at texts that are no category.
pub are_similar_comm :
    (a b : String) → (are_similar a a ≡ true) × (are_similar a b ≡ are_similar b a)
unfolding are_similar
are_similar_comm a b = (rw eq_refl, ground (arith, str_eq_comm a b, any_comm a b similar_groups))
