-- ===== src/Geo/Lines/Ends.antt =====
-- Lines that keep their ends, for `rdp` of apps/api/app/utils/geo.py.
use mathlib.Core.Path.{subst}
use aidflow.Prelude.{
  In-append, ℕ, zero, suc, ◌+◌, ◌≤◌, ◌≡◌, refl, sym, ap, ◌∙◌, inl, inr, ◌⊎◌, Bool, true, false,
  Option, some, List, [], ◌∷◌, ◌++◌, length, length-append, In, arith, if◌then◌else◌,
}
use aidflow.Models.{Double}
use aidflow.Geo.{Float}
use aidflow.Geo.Places.{Point}
use aidflow.Geo.Lines.{
  LineMath, zero_float, take_points, drop_points, all_but_last, last_from, joined_at, worst_from,
  deviation, at_most, rdp,
}

-- A line of at least two points from one point to another, with points of a third list.
pub record IsBetween (a b : Point) (all : List Point) (ps : List Point) : Type 0 where
  pub tail : List Point
  pub first_is : ps ≡ a ∷ tail
  pub longer : 1 ≤ length tail
  pub last_is : last_from a tail ≡ b
  pub points : (x : Point) → In x ps → In x all

pub last_from-append :
    (x z : Point) (ys zs : List Point) → last_from x (ys ++ z ∷ zs) ≡ last_from z zs
last_from-append x z [] zs = refl
last_from-append x z (y ∷ ys) zs = last_from-append y z ys zs

In-all_but_last : (x : Point) (ps : List Point) → In x (all_but_last ps) → In x ps
In-all_but_last x [] i = i
In-all_but_last x (p ∷ []) i = inr i
In-all_but_last x (p ∷ q ∷ ps) (inl e) = inl e
In-all_but_last x (p ∷ q ∷ ps) (inr i) = inr (In-all_but_last x (q ∷ ps) i)

In-take_points : (x : Point) (n : ℕ) (ps : List Point) → In x (take_points n ps) → In x ps
In-take_points x zero ps i = absurd i
In-take_points x (suc n) [] i = i
In-take_points x (suc n) (p ∷ ps) (inl e) = inl e
In-take_points x (suc n) (p ∷ ps) (inr i) = inr (In-take_points x n ps i)

length-take_points : (n : ℕ) (ps : List Point) → length (take_points n ps) ≤ n
length-take_points zero ps = omega arith
length-take_points (suc n) [] = omega arith
length-take_points (suc n) (p ∷ ps) = omega (arith, length-take_points n ps)

-- Two lines, one after the other, without the last point of the first.
joined-IsBetween :
    {a m n b : Point} {all left right : List Point}
    → IsBetween a m all left
    → IsBetween n b all right
    → IsBetween a b all (all_but_last left ++ right)
joined-IsBetween {a} {m} {n} {b} {all} {left} {right} l r = record {
  tail = all_but_last l.tail ++ right;
  first_is = ap (λ ps. all_but_last ps ++ right) l.first_is ∙ front l.tail l.longer;
  longer = long;
  last_is =
      ap (λ ps. last_from a (all_but_last l.tail ++ ps)) r.first_is
      ∙ last_from-append a n (all_but_last l.tail) r.tail
      ∙ r.last_is;
  points = λ x i. elim (In-append x (all_but_last left) right i) [
    | inl j ↦ l.points x (In-all_but_last x left j)
    | inr j ↦ r.points x j
  ];
}
  where
    front :
        (t : List Point)
        → 1 ≤ length t
        → all_but_last (a ∷ t) ++ right ≡ a ∷ (all_but_last t ++ right)
    front [] h = absurd (omega (arith, h))
    front (x ∷ t) h = refl

    long : 1 ≤ length (all_but_last l.tail ++ right)
    long = omega (arith, length-append (all_but_last l.tail) right, ap length r.first_is)

pub IsBetween-within :
    {a b c : Point} {all more ps : List Point}
    → b ≡ c
    → ((x : Point) → In x all → In x more)
    → IsBetween a b all ps
    → IsBetween a c more ps
IsBetween-within e h l = record {
  tail = l.tail;
  first_is = l.first_is;
  longer = l.longer;
  last_is = l.last_is ∙ e;
  points = λ x i. h x (l.points x i);
}

-- What is left after `j` points, of a line with two points more.
record Dropped (j : ℕ) (xs : List Point) : Type 0 where
  pub first : Point
  pub second : Point
  pub rest : List Point
  pub dropped : drop_points j xs ≡ first ∷ second ∷ rest
  pub same_last : (x : Point) → last_from x xs ≡ last_from second rest
  pub size : length rest + 2 + j ≡ length xs
  pub points : (x : Point) → In x (first ∷ second ∷ rest) → In x xs

drop-Dropped : (j : ℕ) (xs : List Point) → j + 2 ≤ length xs → Dropped j xs
drop-Dropped zero [] h = absurd (omega (arith, h))
drop-Dropped zero (a ∷ []) h = absurd (omega (arith, h))
drop-Dropped zero (a ∷ b ∷ xs) h = record {
  first = a;
  second = b;
  rest = xs;
  dropped = refl;
  same_last = λ x. refl;
  size = omega arith;
  points = λ x i. i;
}
drop-Dropped (suc j) [] h = absurd (omega (arith, h))
drop-Dropped (suc j) (a ∷ xs) h =
    let d = drop-Dropped j xs (omega (arith, h)) in
    record {
      first = d.first;
      second = d.second;
      rest = d.rest;
      dropped = d.dropped;
      same_last = λ x. d.same_last a;
      size = omega (arith, d.size);
      points = λ x i. inr (d.points x i);
    }

found_step :
    (c : Bool) (d worst : Double) (i index n : ℕ) (res : Double × ℕ)
    → 1 ≤ n
    → (res ≡ (if c then (d, i) else (worst, index))) ⊎ ((suc i ≤ res.1) × (res.1 + 2 ≤ suc i + n))
    → (res ≡ (worst, index)) ⊎ ((i ≤ res.1) × (res.1 + 2 ≤ i + suc n))
found_step c d worst i index n res h (inr (l, u)) = inr (omega (arith, l), omega (arith, u))
found_step true d worst i index n res h (inl e) =
    let k : res.1 ≡ i = ap (λ x. x.1) e in inr (omega (arith, k), omega (arith, k, h))
found_step false d worst i index n res h (inl e) = inl e

module _ (f : Float) (math : LineMath) where
  -- The index of the worst point is inside the line, if there is one.
  worst_from-index :
      (a b : Point) (i : ℕ) (found : Double × ℕ) (ps : List Point)
      → (worst_from f math a b i found ps ≡ found)
        ⊎ ((i ≤ (worst_from f math a b i found ps).1)
            × ((worst_from f math a b i found ps).1 + 2 ≤ i + length ps))
  unfolding worst_from
  worst_from-index a b i found [] = inl refl
  worst_from-index a b i found (p ∷ []) = inl refl
  worst_from-index a b i (worst, index) (p ∷ q ∷ ps) =
      found_step (f.lt worst (deviation f math a b p)) (deviation f math a b p) worst i index
        (length (q ∷ ps)) _ (omega arith) (worst_from-index a b (suc i) _ (q ∷ ps))

  -- What `rdp` returns for a line of at least two points.
  abbrev pub Halved : Point → Point → List Point → Option (List Point) → Type 0
  Halved p q ps o =
      (out : List Point) × (o ≡ some out) × IsBetween p (last_from q ps) (p ∷ q ∷ ps) out

  ends :
      (p q : Point) (ps : List Point)
      → IsBetween p (last_from q ps) (p ∷ q ∷ ps) (p ∷ last_from q ps ∷ [])
  ends p q ps = record {
    tail = last_from q ps ∷ [];
    first_is = refl;
    longer = omega arith;
    last_is = refl;
    points = λ x i. end_in x i;
  }
    where
      last_in : (a : Point) (xs : List Point) → In (last_from a xs) (a ∷ xs)
      last_in a [] = inl refl
      last_in a (b ∷ xs) = inr (last_in b xs)

      end_in : (x : Point) → In x (p ∷ last_from q ps ∷ []) → In x (p ∷ q ∷ ps)
      end_in x (inl e) = inl e
      end_in x (inr (inl e)) = inr (subst (λ y. In y (q ∷ ps)) e (last_in q ps))
      end_in x (inr (inr i)) = absurd i

  -- The worst point of a line, and the two ways on.
  abbrev w : Point → Point → Point → List Point → Double × ℕ
  w p q r ps = worst_from f math p (last_from r ps) 1 (zero_float f math, 0) (q ∷ r ∷ ps)

  abbrev cut : ℕ → Double → Point → Point → Point → List Point → Bool → Option (List Point)
  cut fuel eps p q r ps b = elim b [
    | true ↦ some (p ∷ last_from r ps ∷ [])
    | false ↦
        joined_at (rdp f math fuel eps (take_points (suc (w p q r ps).1) (p ∷ q ∷ r ∷ ps)))
          (rdp f math fuel eps (drop_points (w p q r ps).1 (p ∷ q ∷ r ∷ ps)))
  ]

  module _ (eps : Double) (h : at_most f math (zero_float f math) eps ≡ true) where
    -- Both halves of a line, cut at a point inside it.
    rdp_halves :
        (fuel n : ℕ) (p q : Point) (ps : List Point)
        → 1 ≤ n
        → n + 1 ≤ length (q ∷ ps)
        → ((a b : Point) (xs : List Point)
            → length (a ∷ b ∷ xs) ≤ length (q ∷ ps)
            → Halved a b xs (rdp f math fuel eps (a ∷ b ∷ xs)))
        → Halved p q ps (
            joined_at
              (rdp f math fuel eps (take_points (suc n) (p ∷ q ∷ ps)))
              (rdp f math fuel eps (drop_points n (p ∷ q ∷ ps))))
    rdp_halves fuel zero p q ps one k ih = absurd (omega (arith, one))
    rdp_halves fuel (suc j) p q ps one k ih =
        let (left, le, lb) =
          ih p q (take_points j ps) (omega (arith, k, length-take_points j ps)) in
        let d = drop-Dropped j (q ∷ ps) (omega (arith, k)) in
        let (right, re, rb) = ih d.first d.second d.rest (omega (arith, d.size)) in
        let re' = ap (rdp f math fuel eps) d.dropped ∙ re in
        (
          all_but_last left ++ right,
          ap (λ o. joined_at o (rdp f math fuel eps (drop_points (suc j) (p ∷ q ∷ ps)))) le
              ∙ ap (λ o. joined_at (some left) o) re',
          joined-IsBetween
              (IsBetween-within refl (λ x i. In-take_points x (suc (suc j)) (p ∷ q ∷ ps) i) lb)
              (IsBetween-within (sym (d.same_last p)) (λ x i. inr (d.points x i)) rb),
        )

    pub rdp_lem :
        (fuel : ℕ) (p q : Point) (ps : List Point)
        → length (p ∷ q ∷ ps) ≤ fuel
        → Halved p q ps (rdp f math fuel eps (p ∷ q ∷ ps))
    unfolding rdp
    rdp_lem zero p q ps k = absurd (omega (arith, k))
    rdp_lem (suc fuel) p q [] k = (p ∷ q ∷ [], refl, ends p q [])
    rdp_lem (suc fuel) p q (r ∷ ps) k =
        either (at_most f math (w p q r ps).0 eps) refl
          (worst_from-index p (last_from r ps) 1 (zero_float f math, 0) (q ∷ r ∷ ps))
          (λ a b xs m. rdp_lem fuel a b xs (omega (arith, m, k)))
      where
        either :
            (b : Bool)
            → at_most f math (w p q r ps).0 eps ≡ b
            → (w p q r ps ≡ (zero_float f math, 0))
              ⊎ ((1 ≤ (w p q r ps).1) × ((w p q r ps).1 + 2 ≤ 1 + length (q ∷ r ∷ ps)))
            → ((a b : Point) (xs : List Point)
                → length (a ∷ b ∷ xs) ≤ length (q ∷ r ∷ ps)
                → Halved a b xs (rdp f math fuel eps (a ∷ b ∷ xs)))
            → Halved p q (r ∷ ps) (cut fuel eps p q r ps b)
        either true e g ih = (p ∷ last_from r ps ∷ [], refl, ends p q (r ∷ ps))
        either false e (inl g) ih =
            let m = sym (ap (λ x. at_most f math x.0 eps) g) ∙ e in cc (h, m)
        either false e (inr (l, u)) ih =
            rdp_halves fuel (w p q r ps).1 p q (r ∷ ps) l (omega (arith, u)) ih
