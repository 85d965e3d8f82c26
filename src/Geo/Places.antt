-- ===== src/Geo/Places.antt =====
-- Places by name: the centroids and `mean_point` of apps/api/app/utils/geo.py.
use Prim.Native.Char.{code}
use aidflow.Prelude.{
  String, Option, none, some, List, [], ◌∷◌, first, map, length, str_eq, strip, text_or,
  if◌then◌else◌,
}
use aidflow.Prelude.{◌==◌}
use aidflow.Models.{Double}
use aidflow.Geo.{Float}
use aidflow.Geo.Towns.{Place, at, town_centroids}

abbrev pub county_centroids : List Place
county_centroids =
    at "台北市" 2503 2 12156 2
    ∷ at "新北市" 2501 2 12146 2
    ∷ at "基隆市" 2513 2 12174 2
    ∷ at "桃園市" 2499 2 12130 2
    ∷ at "新竹市" 2480 2 12097 2
    ∷ at "新竹縣" 2470 2 12112 2
    ∷ at "苗栗縣" 2456 2 12082 2
    ∷ at "台中市" 2415 2 12068 2
    ∷ at "彰化縣" 2405 2 12052 2
    ∷ at "南投縣" 2391 2 12069 2
    ∷ at "雲林縣" 2371 2 12043 2
    ∷ at "嘉義市" 2348 2 12045 2
    ∷ at "嘉義縣" 2346 2 12029 2
    ∷ at "台南市" 2300 2 12020 2
    ∷ at "高雄市" 2263 2 12030 2
    ∷ at "屏東縣" 2255 2 12055 2
    ∷ at "宜蘭縣" 2470 2 12174 2
    ∷ at "花蓮縣" 2399 2 12160 2
    ∷ at "台東縣" 2279 2 12111 2
    ∷ at "澎湖縣" 2357 2 11958 2
    ∷ at "金門縣" 2443 2 11832 2
    ∷ at "連江縣" 2616 2 11995 2
    ∷ []

-- `text.replace("臺", "台")`
unfoldable pub modern : String → String
modern String.[] = String.[]
modern (String.◌∷◌ c s) =
    let rest = modern s in if code c == 33274 then String.◌∷◌ "台" rest else String.◌∷◌ c rest

unfoldable pub normalize_admin : Option String → String
unfolding modern strip
normalize_admin name = strip (modern (text_or name ""))

abbrev named : String → List Place → Option Place
named name places = first (λ p. str_eq p.name name) places

abbrev in_county : String → List (String × List Place) → Option (List Place)
in_county c [] = none
in_county c ((name, ps) ∷ rest) =
    let later = in_county c rest in if str_eq name c then some ps else later

abbrev town_of : Option (List Place) → String → Option Place
town_of none t = none
town_of (some ps) t = named t ps

unfoldable pub place_for : Option String → Option String → Option Place
unfolding normalize_admin
place_for county town =
    elim (town_of (in_county (normalize_admin county) town_centroids) (normalize_admin town)) [
      | some p ↦ some p
      | none ↦ named (normalize_admin county) county_centroids
    ]

abbrev pub Point : Type 0
Point = Double × Double

module _ (f : Float) where
  -- The floats of a row.
  abbrev pub point : Place → Point
  point p = (f.decimal p.lat.0 p.lat.1, f.decimal p.lon.0 p.lon.1)

  abbrev pub taiwan_center : Point
  taiwan_center = (f.decimal 2375 2, f.decimal 1210 1)

  abbrev pub point_of : Option Place → Option Point
  point_of none = none
  point_of (some p) = some (point p)

  unfoldable pub centroid_for : Option String → Option String → Option Point
  unfolding place_for
  centroid_for county town = point_of (place_for county town)

  abbrev sum_of : Double → List Double → Double
  sum_of acc [] = acc
  sum_of acc (x ∷ xs) = sum_of (f.add acc x) xs

  abbrev mean : List Double → Double
  mean xs = f.div (sum_of (f.decimal 0 0) xs) (f.decimal (length xs) 0)

  -- `none` is the `ValueError` of an empty list.
  unfoldable pub mean_point : List Point → Option Point
  mean_point [] = none
  mean_point (p ∷ ps) = some (mean (map (λ q. q.0) (p ∷ ps)), mean (map (λ q. q.1) (p ∷ ps)))
