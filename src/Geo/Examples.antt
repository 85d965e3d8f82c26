-- ===== src/Geo/Examples.antt =====
-- A line of five points on a number line, with distances of whole numbers.
use aidflow.Prelude.{refl, [], ◌∷◌, arith}
use aidflow.Clusters.Examples.{flat}
use aidflow.Geo.Lines.{LineMath, simplify_line}
use aidflow.Geo.Lines.Shorter.{Thinned}
use aidflow.Geo.Lines.Simple.{simplify_line_lem}

abbrev whole : LineMath
whole = record { abs = λ x. x; root = λ x. x }

simplify_line_lem_example :
    Thinned 3
      (0, 0)
      ((1, 7) ∷ (2, 1) ∷ (3, 9) ∷ (4, 0) ∷ [])
      (simplify_line flat whole 2 3 ((0, 0) ∷ (1, 7) ∷ (2, 1) ∷ (3, 9) ∷ (4, 0) ∷ []))
simplify_line_lem_example =
    simplify_line_lem flat whole 2 3 (0, 0) (1, 7) ((2, 1) ∷ (3, 9) ∷ (4, 0) ∷ []) refl
      (omega arith)
