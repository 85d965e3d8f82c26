-- ===== src/Geo/Towns.antt =====
-- `TOWN_CENTROIDS` of apps/api/app/utils/town_centroids.py: the townships of each county.
mod Shape
mod First
mod Second
mod Third
mod Fourth
pub use Shape.*
use aidflow.Prelude.{String, List, [], ◌∷◌}
use aidflow.Geo.Towns.First.{nantou, taichung, taipei, tainan, taitung}
use aidflow.Geo.Towns.Second.{chiayi_city, chiayi_county, keelung, yilan, pingtung, changhua}
use aidflow.Geo.Towns.Third.{new_taipei, hsinchu_city, hsinchu_county, taoyuan, penghu, hualien}
use aidflow.Geo.Towns.Fourth.{miaoli, lienchiang, kinmen, yunlin, kaohsiung}

abbrev pub town_centroids : List (String × List Place)
town_centroids =
    ("南投縣", nantou)
    ∷ ("台中市", taichung)
    ∷ ("台北市", taipei)
    ∷ ("台南市", tainan)
    ∷ ("台東縣", taitung)
    ∷ ("嘉義市", chiayi_city)
    ∷ ("嘉義縣", chiayi_county)
    ∷ ("基隆市", keelung)
    ∷ ("宜蘭縣", yilan)
    ∷ ("屏東縣", pingtung)
    ∷ ("彰化縣", changhua)
    ∷ ("新北市", new_taipei)
    ∷ ("新竹市", hsinchu_city)
    ∷ ("新竹縣", hsinchu_county)
    ∷ ("桃園市", taoyuan)
    ∷ ("澎湖縣", penghu)
    ∷ ("花蓮縣", hualien)
    ∷ ("苗栗縣", miaoli)
    ∷ ("連江縣", lienchiang)
    ∷ ("金門縣", kinmen)
    ∷ ("雲林縣", yunlin)
    ∷ ("高雄市", kaohsiung)
    ∷ []
