-- ===== src/Geo/Towns/Shape.antt =====
-- A row of the tables of places: a name, and the literals of its latitude and longitude, each as its
-- digits and how many of them stand behind the point.
use aidflow.Prelude.{ℕ, String}

pub record Place : Type 0 where
  pub name : String
  pub lat : ℕ × ℕ
  pub lon : ℕ × ℕ

abbrev pub at : String → ℕ → ℕ → ℕ → ℕ → Place
at name a b c d = record { name = name; lat = (a, b); lon = (c, d) }
