-- ===== src/Geo/Lines/Simple.antt =====
-- What `simplify_line` of apps/api/app/utils/geo.py returns.
use mathlib.Core.Path.{subst}
use aidflow.Prelude.{
  ℕ, suc, ◌≤◌, ◌≡◌, refl, sym, ap, ◌∙◌, true, false, leb, if◌then◌else◌, some, List, [], ◌∷◌,
  length, In, arith,
}
use aidflow.Models.{Double}
use aidflow.Geo.{Float}
use aidflow.Geo.Places.{Point}
use aidflow.Geo.Lines.{LineMath, zero_float, at_most, rdp, then_thin, simplify_line}
use aidflow.Geo.Lines.Ends.{IsBetween-within, rdp_lem}
use aidflow.Geo.Lines.Shorter.{Thinned, thin_lem}

-- `simplify_line` ends for every line of at least two points, if the tolerance is not negative and at
-- least three points are allowed. It keeps the first and the last point, has no point that the line
-- does not have, and has no more points than are allowed.
pub simplify_line_lem :
    (f : Float) (math : LineMath) (tolerance : Double) (max_points : ℕ) (a b : Point)
    (ps : List Point)
    → at_most f math (zero_float f math) tolerance ≡ true
    → 3 ≤ max_points
    → Thinned max_points a (b ∷ ps) (simplify_line f math tolerance max_points (a ∷ b ∷ ps))
unfolding simplify_line
simplify_line_lem f math tolerance max_points a b [] h m = record {
  out = a ∷ b ∷ [];
  returns = refl;
  between = record {
    tail = b ∷ [];
    first_is = refl;
    longer = omega arith;
    last_is = refl;
    points = λ x i. i;
  };
  size = omega (arith, m);
}
simplify_line_lem f math tolerance max_points a b (c ∷ ps) h m =
    let (mid, e, l) =
      rdp_lem f math tolerance h (suc (length (a ∷ b ∷ c ∷ ps))) a b (c ∷ ps) (omega arith) in
    let r = thin_lem (suc (length (a ∷ l.tail))) max_points a l.tail m l.longer (omega arith) in
    record {
      out = r.out;
      returns =
          ap
            (λ t.
              if t
              then some (a ∷ b ∷ c ∷ ps)
              else then_thin f math max_points
                  (rdp f math (suc (length (a ∷ b ∷ c ∷ ps))) tolerance (a ∷ b ∷ c ∷ ps)))
            (long (length ps))
          ∙ ap (then_thin f math max_points) (e ∙ ap some l.first_is)
          ∙ r.returns;
      between =
          IsBetween-within l.last_is (λ x i. l.points x (subst (λ qs. In x qs) (sym l.first_is) i))
            r.between;
      size = r.size;
    }
  where
    long : (n : ℕ) → leb (suc (suc (suc n))) 2 ≡ false
    long n = ground arith
