-- ===== src/Platforms/Slugs.antt =====
-- The slug of a platform: apps/api/app/utils/slug.py, and `_slug_base` and `_unique_slug` of
-- apps/api/app/services/platform_service.py.
use aidflow.Prelude.{
  strip, String, not, Option, some, List, [], ◌∷◌, any, select, str_eq, is_empty, text_or, ◌⧺◌,
  if◌then◌else◌,
}
use aidflow.Geo.Places.{modern}
use aidflow.Platforms.Rows.{Site}

-- What comes from Python's library: the normal form NFKC, `str.lower`, `pattern.sub` for the three
-- patterns of the file by what they match, `strip("-")`, and the digits of a UUID.
pub record SlugTools : Type 0 where
  pub nfkc : String → String
  pub lower : String → String
  pub join_separators : String → String
  pub drop_other : String → String
  pub join_hyphens : String → String
  pub strip_hyphens : String → String
  pub suffix : String

unfoldable pub slugify : SlugTools → String → String
unfolding strip
slugify tools title =
    let words = tools.lower (strip (tools.nfkc title)) in
    text_or
      (some
        (tools.strip_hyphens (tools.join_hyphens (tools.drop_other (tools.join_separators words)))))
      "incident"

abbrev roman : List (String × String)
roman =
    ("南投縣", "nantou")
    ∷ ("花蓮縣", "hualien")
    ∷ ("台東縣", "taitung")
    ∷ ("屏東縣", "pingtung")
    ∷ ("高雄市", "kaohsiung")
    ∷ ("台南市", "tainan")
    ∷ ("嘉義縣", "chiayi")
    ∷ ("雲林縣", "yunlin")
    ∷ ("彰化縣", "changhua")
    ∷ ("台中市", "taichung")
    ∷ ("苗栗縣", "miaoli")
    ∷ ("新竹縣", "hsinchu")
    ∷ ("桃園市", "taoyuan")
    ∷ ("新北市", "newtaipei")
    ∷ ("台北市", "taipei")
    ∷ ("基隆市", "keelung")
    ∷ ("宜蘭縣", "yilan")
    ∷ []

abbrev roman_of : List (String × String) → String → String
roman_of [] c = ""
roman_of ((name, r) ∷ rest) c = let later = roman_of rest c in if str_eq name c then r else later

abbrev first_two : List String → List String
first_two (a ∷ b ∷ _) = a ∷ b ∷ []
first_two xs = xs

-- `"-".join(parts)`
abbrev hyphened : List String → String
hyphened [] = ""
hyphened (p ∷ []) = p
hyphened (p ∷ q ∷ rest) = p ⧺ "-" ⧺ hyphened (q ∷ rest)

unfoldable pub slug_base : SlugTools → Option String → List String → String → String
unfolding modern
slug_base tools county hazards name =
    let base = hyphened (
      select (λ p. not (is_empty p))
        (roman_of roman (modern (text_or county "")) ∷ first_two hazards)) in
    if is_empty base then slugify tools name else base

-- `_unique_slug`
unfoldable pub unique_slug : SlugTools → Site → String → String
unique_slug tools s base =
    let slug = slugify tools base in
    if any (λ p. str_eq p.slug slug) s.platforms then slug ⧺ "-" ⧺ tools.suffix else slug
