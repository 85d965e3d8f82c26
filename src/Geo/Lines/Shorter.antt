-- ===== src/Geo/Lines/Shorter.antt =====
-- The thinning loop of `simplify_line` of apps/api/app/utils/geo.py.
use mathlib.Core.Path.{subst}
use aidflow.Prelude.{
  In-append, ℕ, zero, suc, ◌+◌, ◌*◌, ◌-◌, ◌≤◌, ◌<◌, max, ◌≡◌, refl, inl, inr, Bool, true, false,
  Option, some, List, [], ◌∷◌, ◌++◌, length, length-append, In, ltb, arith, if◌then◌else◌,
}
use aidflow.Geo.Places.{Point}
use aidflow.Geo.Lines.{last_from, every, rounded, thinned, thin}
use aidflow.Geo.Lines.Ends.{IsBetween, IsBetween-within, last_from-append}

In-every : (x : Point) (k c : ℕ) (ps : List Point) → In x (every k c ps) → In x ps
In-every x k c [] i = i
In-every x k zero (p ∷ ps) (inl e) = inl e
In-every x k zero (p ∷ ps) (inr i) = inr (In-every x k k ps i)
In-every x k (suc c) (p ∷ ps) i = inr (In-every x k c ps i)

-- With a step of at least two, at most every second point stays.
length-every :
    (k c : ℕ) (ps : List Point)
    → 1 ≤ k
    → (2 * length (every k c ps) ≤ length ps + 1) × (1 ≤ c → 2 * length (every k c ps) ≤ length ps)
length-every k c [] h = (omega arith, λ _. omega arith)
length-every k zero (p ∷ ps) h =
    let (a, b) = length-every k k ps h in (omega (arith, b h), λ z. absurd (omega (arith, z)))
length-every k (suc c) (p ∷ ps) h =
    let (a, b) = length-every k c ps h in (omega (arith, a), λ _. omega (arith, a))

-- The last point of a line is one of its points.
last-In : (a : Point) (t : List Point) → In (last_from a t) (a ∷ t)
last-In a [] = inl refl
last-In a (b ∷ t) = inr (last-In b t)

abbrev passes : ℕ → Point → List Point → ℕ
passes max_points a t = max 2 (rounded (length (a ∷ t)) max_points) - 1

passes-le : (max_points : ℕ) (a : Point) (t : List Point) → 1 ≤ passes max_points a t
passes-le max_points a t = go (rounded (length (a ∷ t)) max_points)
  where
    go : (n : ℕ) → 1 ≤ max 2 n - 1
    go n = ground arith

thinned-IsBetween :
    (max_points : ℕ) (a : Point) (t : List Point)
    → IsBetween a (last_from a t) (a ∷ t) (thinned max_points (a ∷ t))
thinned-IsBetween max_points a t = record {
  tail = every k k t ++ last_from a t ∷ [];
  first_is = refl;
  longer = omega (arith, length-append (every k k t) (last_from a t ∷ []));
  last_is = last_from-append a (last_from a t) (every k k t) [];
  points = λ x i. elim (In-append x (a ∷ every k k t) (last_from a t ∷ []) i) [
    | inl (inl e) ↦ inl e
    | inl (inr j) ↦ inr (In-every x k k t j)
    | inr (inl e) ↦ subst (λ y. In y (a ∷ t)) e (last-In a t)
    | inr (inr j) ↦ absurd j
  ];
}
  where
    k : ℕ
    k = passes max_points a t

length-thinned :
    (max_points : ℕ) (a : Point) (t : List Point)
    → 3 ≤ max_points
    → max_points < length (a ∷ t)
    → length (thinned max_points (a ∷ t)) < length (a ∷ t)
length-thinned max_points a t h l = omega (
  arith,
  h,
  l,
  length-append (every (passes max_points a t) 0 (a ∷ t)) (last_from a t ∷ []),
  (length-every (passes max_points a t) 0 (a ∷ t) (passes-le max_points a t)).0,
)

-- What the loop returns for a line.
pub record Thinned (max_points : ℕ) (a : Point) (t : List Point) (o : Option (List Point))
    : Type 0 where
  pub out : List Point
  pub returns : o ≡ some out
  pub between : IsBetween a (last_from a t) (a ∷ t) out
  pub size : length out ≤ max_points

either :
    (b : Bool) (later now : Option (List Point)) {max_points : ℕ} {a : Point} {t : List Point}
    → (b ≡ true → Thinned max_points a t later)
    → (b ≡ false → Thinned max_points a t now)
    → Thinned max_points a t (if b then later else now)
either true later now f g = f refl
either false later now f g = g refl

pub thin_lem :
    (fuel max_points : ℕ) (a : Point) (t : List Point)
    → 3 ≤ max_points
    → 1 ≤ length t
    → length (a ∷ t) < fuel
    → Thinned max_points a t (thin fuel max_points (a ∷ t))
unfolding thin thinned-IsBetween
thin_lem zero max_points a t h l k = absurd (omega (arith, k))
thin_lem (suc fuel) max_points a t h l k =
    either (ltb max_points (length (a ∷ t))) _ _
      (λ e.
        let b = thinned-IsBetween max_points a t in
        let r =
          thin_lem fuel max_points a b.tail h b.longer
            (omega (arith, k, length-thinned max_points a t h (ground (arith, e)))) in
        record {
          out = r.out;
          returns = r.returns;
          between = IsBetween-within b.last_is b.points r.between;
          size = r.size;
        })
      (λ e. record {
        out = a ∷ t;
        returns = refl;
        between = record {
          tail = t;
          first_is = refl;
          longer = l;
          last_is = refl;
          points = λ x i. i;
        };
        size = ground (arith, e);
      })
