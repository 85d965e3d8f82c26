-- ===== src/Geo/Lines.antt =====
-- `simplify_line` of apps/api/app/utils/geo.py: Ramer, Douglas and Peucker, then thinning down to a
-- number of points. The recursion and the loop run on fuel.
pub mod Ends
pub mod Shorter
pub mod Simple
use aidflow.Prelude.{
  ℕ, zero, suc, ◌+◌, ◌*◌, ◌-◌, ◌/◌, ◌%◌, max, Bool, true, false, not, ◌||◌, Option, none, some,
  List, [], ◌∷◌, ◌++◌, length, ltb, leb, ◌==◌, if◌then◌else◌,
}
use aidflow.Models.{Double}
use aidflow.Geo.{Float}
use aidflow.Geo.Places.{Point}

abbrev pub take_points : ℕ → List Point → List Point
take_points zero ps = []
take_points (suc n) [] = []
take_points (suc n) (p ∷ ps) = p ∷ take_points n ps

abbrev pub drop_points : ℕ → List Point → List Point
drop_points zero ps = ps
drop_points (suc n) [] = []
drop_points (suc n) (p ∷ ps) = drop_points n ps

-- `xs[:-1]`
abbrev pub all_but_last : List Point → List Point
all_but_last [] = []
all_but_last (p ∷ []) = []
all_but_last (p ∷ q ∷ ps) = p ∷ all_but_last (q ∷ ps)

-- `xs[-1]`, of a list that begins with `p`
abbrev pub last_from : Point → List Point → Point
last_from p [] = p
last_from p (q ∷ ps) = last_from q ps

-- `left[:-1] + right`
abbrev pub joined_at : Option (List Point) → Option (List Point) → Option (List Point)
joined_at (some left) (some right) = some (all_but_last left ++ right)
joined_at _ _ = none

-- `out[::k + 1]`, after `c` more points are passed over
abbrev pub every : ℕ → ℕ → List Point → List Point
every k c [] = []
every k zero (p ∷ ps) = p ∷ every k k ps
every k (suc c) (p ∷ ps) = every k c ps

-- `round(n / d)`, a half to the even side
abbrev pub rounded : ℕ → ℕ → ℕ
rounded n d =
    if ltb (2 * (n % d)) d
    then n / d
    else if ltb d (2 * (n % d))
    then n / d + 1
    else if (n / d) % 2 == 0
    then n / d
    else n / d + 1

-- `out[::step] + [out[-1]]`, for `step` of at least 2
abbrev pub thinned : ℕ → List Point → List Point
thinned max_points [] = []
thinned max_points (p ∷ ps) =
    every (max 2 (rounded (length (p ∷ ps)) max_points) - 1) 0 (p ∷ ps) ++ last_from p ps ∷ []

-- The `while` loop.
unfoldable pub thin : ℕ → ℕ → List Point → Option (List Point)
thin zero max_points ps = none
thin (suc fuel) max_points ps =
    let later = thin fuel max_points (thinned max_points ps) in
    if ltb max_points (length ps) then later else some ps

-- `abs`, and `x ** 0.5`
pub record LineMath : Type 0 where
  pub abs : Double → Double
  pub root : Double → Double

module _ (f : Float) (math : LineMath) where
  abbrev zero_float : Double
  zero_float = f.decimal 0 1

  -- The distance of a point from the line, or from the first point if the ends are one.
  unfoldable pub deviation : Point → Point → Point → Double
  deviation (x1, y1) (x2, y2) (x, y) =
      let dx = f.sub x2 x1 in
      let dy = f.sub y2 y1 in
      let norm = math.root (f.add (f.mul dx dx) (f.mul dy dy)) in
      if not (f.eq norm (f.decimal 0 0))
      then f.div
          (math.abs (f.sub (f.add (f.sub (f.mul dy x) (f.mul dx y)) (f.mul x2 y1)) (f.mul y2 x1)))
          norm
      else math.root (f.add (f.pow (f.sub x x1) 2) (f.pow (f.sub y y1) 2))

  -- The worst deviation and its index, from the index `i` on; the last point is passed over.
  unfoldable pub worst_from : Point → Point → ℕ → Double × ℕ → List Point → Double × ℕ
  unfolding deviation
  worst_from a b i found [] = found
  worst_from a b i found (p ∷ []) = found
  worst_from a b i (worst, index) (p ∷ q ∷ ps) =
      let d = deviation a b p in
      worst_from a b (suc i) (if f.lt worst d then (d, i) else (worst, index)) (q ∷ ps)

  -- `a <= b`
  abbrev pub at_most : Double → Double → Bool
  at_most a b = f.lt a b || f.eq a b

  unfoldable pub rdp : ℕ → Double → List Point → Option (List Point)
  unfolding worst_from
  rdp zero eps ps = none
  rdp (suc fuel) eps [] = some []
  rdp (suc fuel) eps (p ∷ []) = some (p ∷ [])
  rdp (suc fuel) eps (p ∷ q ∷ []) = some (p ∷ q ∷ [])
  rdp (suc fuel) eps (p ∷ q ∷ r ∷ ps) =
      let w = worst_from p (last_from r ps) 1 (zero_float, 0) (q ∷ r ∷ ps) in
      elim (at_most w.0 eps) [
        | true ↦ some (p ∷ last_from r ps ∷ [])
        | false ↦
            joined_at (rdp fuel eps (take_points (suc w.1) (p ∷ q ∷ r ∷ ps)))
              (rdp fuel eps (drop_points w.1 (p ∷ q ∷ r ∷ ps)))
      ]

  abbrev then_thin : ℕ → Option (List Point) → Option (List Point)
  then_thin max_points none = none
  then_thin max_points (some ps) = thin (suc (length ps)) max_points ps

  -- Each call of `rdp` has fewer points than the one that makes it, and so has each round of thinning,
  -- so that one more than the points is enough for both.
  unfoldable pub simplify_line : Double → ℕ → List Point → Option (List Point)
  unfolding rdp thin
  simplify_line tolerance max_points ps =
      if leb (length ps) 2
      then some ps
      else then_thin max_points (rdp (suc (length ps)) tolerance ps)
