-- ===== src/Geo.antt =====
-- Distances on the map: `haversine_m` and `bbox_for` of apps/api/app/utils/geo.py, over the
-- operations on doubles. Those are not part of the program, so they come as a record.
pub mod Towns
pub mod Places
pub mod Lines
pub mod Examples
use aidflow.Prelude.{ℕ, Bool, ◌≡◌, true, ltb, ◌==◌}
use aidflow.Models.{Double}

-- The arithmetic of Python's floats and of its `math` module. `decimal m k` is the literal with the
-- digits `m`, of which `k` stand behind the point.
pub record Float : Type 0 where
  pub decimal : ℕ → ℕ → Double
  pub add : Double → Double → Double
  pub sub : Double → Double → Double
  pub mul : Double → Double → Double
  pub div : Double → Double → Double
  pub pow : Double → ℕ → Double
  pub larger : Double → Double → Double
  pub radians : Double → Double
  pub sin : Double → Double
  pub cos : Double → Double
  pub asin : Double → Double
  pub sqrt : Double → Double
  pub lt : Double → Double → Bool
  pub eq : Double → Double → Bool

-- What the program relies on: apart from NaN, which is no number, doubles are in a linear order,
-- so that a rank tells `<` and `==` (equal ranks where `==` holds, as for 0.0 and -0.0).
pub record IsOrdered (f : Float) : Type 0 where
  pub is_number : Double → Bool
  pub rank : Double → ℕ
  pub lt_rank :
      (a b : Double) → is_number a ≡ true → is_number b ≡ true → f.lt a b ≡ ltb (rank a) (rank b)
  pub eq_rank :
      (a b : Double) → is_number a ≡ true → is_number b ≡ true → f.eq a b ≡ (rank a == rank b)

module _ (f : Float) where
  -- EARTH_RADIUS_M = 6_371_008.8
  abbrev earth_radius_m : Double
  earth_radius_m = f.decimal 63710088 1

  unfoldable pub haversine_m : Double → Double → Double → Double → Double
  haversine_m lat1 lon1 lat2 lon2 =
      let p1 = f.radians lat1 in
      let p2 = f.radians lat2 in
      let dphi = f.sub p2 p1 in
      let dl = f.radians (f.sub lon2 lon1) in
      let two = f.decimal 2 0 in
      let a =
        f.add (f.pow (f.sin (f.div dphi two)) 2)
          (f.mul (f.mul (f.cos p1) (f.cos p2)) (f.pow (f.sin (f.div dl two)) 2)) in
      f.mul (f.mul two earth_radius_m) (f.asin (f.sqrt a))

  -- (min_lat, min_lon, max_lat, max_lon)
  unfoldable pub bbox_for : Double → Double → Double → Double × Double × Double × Double
  bbox_for lat lon radius_m =
      let degree = f.decimal 1113200 1 in
      let dlat = f.div radius_m degree in
      let dlon = f.div radius_m (f.mul degree (f.larger (f.cos (f.radians lat)) (f.decimal 1 6))) in
      (f.sub lat dlat, f.sub lon dlon, f.add lat dlat, f.add lon dlon)
