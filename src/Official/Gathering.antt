-- ===== src/Official/Gathering.antt =====
-- What a layer shows when some of its sources fail.
use aidflow.Prelude.{
  ◌≡◌, refl, ap, sym, ◌∙◌, String, Bool, true, false, ◌&&◌, Option, some, List, [], ◌∷◌, ◌++◌, any,
  map, length, member, str_eq, if◌then◌else◌,
}
use mathlib.Core.List.{append_assoc, append-nil}
use aidflow.Models.{Time}
use aidflow.Official.Sources.{
  GeoFeature, Fetched, got, disabled, unavailable, broken, find_fetchers, layer_fetchers,
}
use aidflow.Official.Fetching.{
  quakes, nothing, result_of, fetch_from, Upstream, LayerResult, Gathered, gather, gather_all,
  with_quakes, fetched_result, fetch_layer, status_of,
}

abbrev pub delivered : Fetched → List GeoFeature
delivered (got fs) = fs
delivered _ = []

abbrev pub is_got : Fetched → Bool
is_got (got fs) = true
is_got _ = false

abbrev pub is_failed : Fetched → Bool
is_failed (unavailable reason) = true
is_failed (broken kind) = true
is_failed _ = false

-- What the sources of a layer answer.
abbrev pub answers : Upstream → String → Option String → List String → List Fetched
answers up layer county cids = map (λ cid. up.fetch cid layer county) cids

abbrev pub all_delivered : List Fetched → List GeoFeature
all_delivered [] = []
all_delivered (a ∷ rest) = delivered a ++ all_delivered rest

abbrev word : Fetched → String
word (got fs) = "ok"
word (disabled reason) = "disabled"
word (unavailable reason) = "unavailable"
word (broken kind) = "unavailable"

gathered_features :
    (up : Upstream) (layer : String) (county : Option String) (cids : List String) (g : Gathered)
    → (gather_all up layer county cids g).features
      ≡ g.features ++ all_delivered (answers up layer county cids)
unfolding gather_all
gathered_features up layer county [] g = sym (append-nil g.features)
gathered_features up layer county (cid ∷ cids) g =
    gathered_features up layer county cids (gather up cid (up.fetch cid layer county) g)
    ∙ one (up.fetch cid layer county)
  where
    one :
        (a : Fetched)
        → (gather up cid a g).features ++ all_delivered (answers up layer county cids)
          ≡ g.features ++ (delivered a ++ all_delivered (answers up layer county cids))
    one (got fs) = append_assoc g.features fs _
    one (disabled reason) = refl
    one (unavailable reason) = refl
    one (broken kind) = refl

gathered_statuses :
    (up : Upstream) (layer : String) (county : Option String) (cids : List String) (g : Gathered)
    → (gather_all up layer county cids g).statuses
      ≡ g.statuses ++ map word (answers up layer county cids)
unfolding gather_all
gathered_statuses up layer county [] g = sym (append-nil g.statuses)
gathered_statuses up layer county (cid ∷ cids) g =
    gathered_statuses up layer county cids (gather up cid (up.fetch cid layer county) g)
    ∙ one (up.fetch cid layer county)
  where
    one :
        (a : Fetched)
        → (gather up cid a g).statuses ++ map word (answers up layer county cids)
          ≡ g.statuses ++ (word a ∷ map word (answers up layer county cids))
    one (got fs) = append_assoc g.statuses ("ok" ∷ []) _
    one (disabled reason) = append_assoc g.statuses ("disabled" ∷ []) _
    one (unavailable reason) = append_assoc g.statuses ("unavailable" ∷ []) _
    one (broken kind) = append_assoc g.statuses ("unavailable" ∷ []) _

member-ok : (rs : List Fetched) → member "ok" (map word rs) ≡ any is_got rs
member-ok [] = refl
member-ok (got fs ∷ rs) = refl
member-ok (disabled reason ∷ rs) = member-ok rs
member-ok (unavailable reason ∷ rs) = member-ok rs
member-ok (broken kind ∷ rs) = member-ok rs

member-unavailable : (rs : List Fetched) → member "unavailable" (map word rs) ≡ any is_failed rs
member-unavailable [] = refl
member-unavailable (got fs ∷ rs) = member-unavailable rs
member-unavailable (disabled reason ∷ rs) = member-unavailable rs
member-unavailable (unavailable reason ∷ rs) = refl
member-unavailable (broken kind ∷ rs) = refl

-- The earthquakes that are added.
abbrev pub quake_features : Upstream → String → List String → List GeoFeature
quake_features up layer hazards =
    if str_eq layer "official_alert" && member "earthquake" hazards && up.is_live "cwa_connector"
    then delivered up.earthquakes
    else []

-- An answer of the weather service that `_fetch_layer` does not expect goes on to its caller.
abbrev pub is_broken : Fetched → Bool
is_broken (broken kind) = true
is_broken _ = false

quaked :
    (up : Upstream) (layer : String) (hazards : List String) (g : Gathered)
    → is_broken up.earthquakes ≡ false
    → (h : Gathered) × (with_quakes up layer hazards g ≡ some h)
      × (h.features ≡ g.features ++ quake_features up layer hazards)
      × (h.statuses ≡ g.statuses)
unfolding with_quakes
quaked up layer hazards g e = go up.earthquakes asks e
  where
    asks : Bool
    asks =
        str_eq layer "official_alert" && member "earthquake" hazards && up.is_live "cwa_connector"

    go :
        (q : Fetched) (b : Bool)
        → is_broken q ≡ false
        → (h : Gathered) × ((if b then quakes q g else some g) ≡ some h)
          × (h.features ≡ g.features ++ (if b then delivered q else []))
          × (h.statuses ≡ g.statuses)
    go (got fs) true e = (_, refl, refl, refl)
    go (disabled reason) true e = (_, refl, sym (append-nil g.features), refl)
    go (unavailable reason) true e = (_, refl, sym (append-nil g.features), refl)
    go (broken kind) true e = cc
    go q false e = (g, refl, sym (append-nil g.features), refl)

-- The status of a layer with such answers.
abbrev pub expected_status : List Fetched → String
expected_status rs =
    if any is_got rs then "ok" else if any is_failed rs then "unavailable" else "disabled"

-- A layer of the table of fetchers has an answer whatever its sources do, unless the earthquakes of the
-- weather service come in a shape that nobody expects. It has exactly what the sources delivered, in
-- their order, and the earthquakes where they are asked for; a source that fails hides no other. The
-- status is "ok" where a source delivered, else "unavailable" where one failed, else "disabled".
pub fetch_layer_lem :
    (up : Upstream) (layer : String) (county : Option String) (hazards : List String) (at : Time)
    (cids : List String)
    → find_fetchers layer_fetchers layer ≡ some cids
    → is_broken up.earthquakes ≡ false
    → (v : LayerResult) × (fetch_layer up layer county hazards at ≡ some v)
      × (v.features
          ≡ all_delivered (answers up layer county cids) ++ quake_features up layer hazards)
      × (v.count ≡ length v.features)
      × (v.status ≡ expected_status (answers up layer county cids))
unfolding fetch_layer fetched_result status_of
fetch_layer_lem up layer county hazards at cids found calm =
    let g = gather_all up layer county cids nothing in
    let (h, e, fs, ss) = quaked up layer hazards g calm in
    let rs = answers up layer county cids in
    let words : h.statuses ≡ map word rs = ss ∙ gathered_statuses up layer county cids nothing in
    (
      fetched_result layer cids at h,
      ap (fetch_from up layer county hazards at) found ∙ ap (result_of layer cids at) e,
      fs
          ∙ ap (λ l. l ++ quake_features up layer hazards)
              (gathered_features up layer county cids nothing),
      refl,
      ap status_of words ∙ cc (member-ok rs, member-unavailable rs),
    )
