-- ===== src/Platforms/Create/Outcome.antt =====
-- What `create_platform` leaves behind on each of its ways out.
use mathlib.Core.Path.{subst}
use aidflow.Prelude.{
  ◌∙◌, arith, any, str_eq, Bool-cases, is_text, text_or, ◌⧺◌, ℕ, ◌+◌, String, ◌≡◌, ◌≢◌, refl, sym,
  ap, ◌⊎◌, inl, inr, Bool, true, false, none, some, List, [], ◌∷◌, ◌++◌, map, select, All,
  if◌then◌else◌,
}
use aidflow.Models.{Time}
use aidflow.Geo.{Float}
use aidflow.Clusters.Policy.{ClusterPolicy, policy_from_dict}
use aidflow.Modules.{Registry, unknown_id}
use aidflow.Modules.Hazards.{is_hazard}
use aidflow.Modules.Scenarios.{compose_profile}
use aidflow.Platforms.Rows.{PlatformRow, ModuleConfig, Site, draft, published, is_published}
use aidflow.Platforms.Selection.{
  Selection, unknown_module, unknown_layer, chosen, no_fuel, first_unknown_layer,
}
use aidflow.Platforms.Selection.Correct.{IsComplete, Resolved, resolve_lem}
use aidflow.Platforms.Slugs.{SlugTools, slugify, slug_base, unique_slug}
use aidflow.Platforms.Create.{
  NewPlatform, PlatformError, no_hazard, no_module, no_layer, unknown_status, stuck, slug_taken,
  has_slug, or_list, resolve_selection, module_rows, platform_row, insert_platform, place,
  create_for, create_platform,
}

-- The rows of the modules of a new platform.
module_rows-ids :
    (reg : Registry) (id : ℕ) (policy : ClusterPolicy) (n : ℕ) (ms : List String)
    → map (λ c. c.module_id) (module_rows reg id policy n ms) ≡ ms
unfolding module_rows
module_rows-ids reg id policy n [] = refl
module_rows-ids reg id policy n (m ∷ ms) =
    ap (λ xs. m ∷ xs) (module_rows-ids reg id policy (n + 1) ms)

module_rows-platform :
    (reg : Registry) (id : ℕ) (policy : ClusterPolicy) (n : ℕ) (ms : List String)
    → All (λ c. c.platform_id ≡ id) (module_rows reg id policy n ms)
unfolding module_rows
module_rows-platform reg id policy n [] = tt
module_rows-platform reg id policy n (m ∷ ms) =
    (refl, module_rows-platform reg id policy (n + 1) ms)

module _ (f : Float) (base : ClusterPolicy) (tools : SlugTools) (reg : Registry) (now : Time) where
  -- The modules and layers that the caller names, or else the profile of the hazards.
  abbrev pub wanted_modules : NewPlatform → List String
  wanted_modules new =
      or_list new.modules
        (compose_profile reg (select is_hazard new.hazards) new.county new.towns []).modules

  abbrev pub wanted_layers : NewPlatform → List String
  wanted_layers new =
      or_list new.layers
        (compose_profile reg (select is_hazard new.hazards) new.county new.towns []).layers

  -- The slug that the caller names, or else that of the hazards.
  abbrev pub wanted_slug : NewPlatform → String
  wanted_slug new =
      if is_text new.slug
      then text_or new.slug ""
      else slug_base tools new.county (select is_hazard new.hazards) new.name

  -- What holds of a new platform.
  pub record IsCreated (new : NewPlatform) (s : Site) (p : PlatformRow) (s' : Site) : Type 0 where
    -- one row more, with what the caller names, and of a platform that has a known hazard
    pub identity : p.id ≡ s.db.next_id
    pub name : p.name ≡ new.name
    pub brief : p.brief ≡ new.brief
    pub county : p.county ≡ new.county
    pub towns : p.towns ≡ new.towns
    -- its slug was free, and it is the one that the caller or the hazards name, or that with a suffix
    pub free : any (λ q. str_eq q.slug p.slug) s.platforms ≡ false
    pub slug :
        (p.slug ≡ slugify tools (wanted_slug new))
        ⊎ ((p.slug ≡ slugify tools (wanted_slug new) ⧺ "-" ⧺ tools.suffix)
            × (any (λ q. str_eq q.slug (slugify tools (wanted_slug new))) s.platforms ≡ true))
    pub row : s'.platforms ≡ s.platforms ++ p ∷ []
    pub hazards : p.hazards ≡ select is_hazard new.hazards
    pub some_hazard : p.hazards ≢ []
    -- the modules and layers are those that the selection requires
    pub complete : IsComplete reg (wanted_modules new) (wanted_layers new) p.modules p.layers
    -- one configuration for each module, in their order
    pub configs : List ModuleConfig
    pub configs_added : s'.configs ≡ s.configs ++ configs
    pub configs_of : map (λ c. c.module_id) configs ≡ p.modules
    pub configs_own : All (λ c. c.platform_id ≡ p.id) configs
    -- the date of the publication is there exactly if it is published
    pub status : is_published p.status ≡ new.publish
    pub dated : p.published_at ≡ (if new.publish then some now else none)

  abbrev pub Creates : NewPlatform → Site → Site → PlatformError ⊎ PlatformRow → Type 0
  Creates new s s' (inl no_hazard) = (s' ≡ s) × (select is_hazard new.hazards ≡ [])
  Creates new s s' (inl (no_module id)) = (s' ≡ s) × (unknown_id reg (wanted_modules new) ≡ some id)
  Creates new s s' (inl (no_layer k)) =
      (s' ≡ s) × (first_unknown_layer reg (wanted_layers new) ≡ some k)
  Creates new s s' (inl (unknown_status t)) = ⊥
  Creates new s s' (inl stuck) = ⊥
  Creates new s s' (inl (slug_taken t)) =
      (s' ≡ s)
      × (t ≡ slugify tools (wanted_slug new) ⧺ "-" ⧺ tools.suffix)
      × (any (λ q. str_eq q.slug (slugify tools (wanted_slug new))) s.platforms ≡ true)
      × (any (λ q. str_eq q.slug t) s.platforms ≡ true)
  Creates new s s' (inr p) = IsCreated new s p s'

  new_status : (b : Bool) → is_published (if b then published else draft) ≡ b
  new_status true = refl
  new_status false = refl

  unique_slug_cases :
      (s : Site) (wanted : String)
      → ((unique_slug tools s wanted ≡ slugify tools wanted)
          × (any (λ q. str_eq q.slug (slugify tools wanted)) s.platforms ≡ false))
        ⊎ ((unique_slug tools s wanted ≡ slugify tools wanted ⧺ "-" ⧺ tools.suffix)
            × (any (λ q. str_eq q.slug (slugify tools wanted)) s.platforms ≡ true))
  unfolding unique_slug
  unique_slug_cases s wanted =
      elim (Bool-cases (any (λ q. str_eq q.slug (slugify tools wanted)) s.platforms)) [
        | inl e ↦ inr (rw e refl, e)
        | inr e ↦ inl (rw e refl, e)
      ]

  slug-platform_row :
      (new : NewPlatform) (hz modules layers : List String) (s : Site)
      → select is_hazard new.hazards ≡ hz
      → (platform_row f base tools reg now new hz modules layers s).slug
        ≡ unique_slug tools s (wanted_slug new)
  unfolding platform_row
  slug-platform_row new hz modules layers s e =
      ap
        (λ z.
          unique_slug tools s (
            if is_text new.slug
            then text_or new.slug ""
            else slug_base tools new.county z new.name))
        (sym e)

  row-IsCreated :
      (new : NewPlatform) (h : String) (hz modules layers : List String) (s : Site)
      → select is_hazard new.hazards ≡ h ∷ hz
      → IsComplete reg (wanted_modules new) (wanted_layers new) modules layers
      → has_slug (platform_row f base tools reg now new (h ∷ hz) modules layers s).slug s ≡ false
      → IsCreated new s (platform_row f base tools reg now new (h ∷ hz) modules layers s) (
          insert_platform f base tools reg now new
            (platform_row f base tools reg now new (h ∷ hz) modules layers s)
            s)
  unfolding insert_platform platform_row
  row-IsCreated new h hz modules layers s e c u = record {
    identity = refl;
    name = refl;
    brief = refl;
    county = refl;
    towns = refl;
    free = u;
    slug =
        let q = slug-platform_row new (h ∷ hz) modules layers s e in
        elim (unique_slug_cases s (wanted_slug new)) [
          | inl (a, b) ↦ inl (q ∙ a)
          | inr (a, b) ↦ inr (q ∙ a, b)
        ];
    row = refl;
    hazards = sym e;
    some_hazard = λ k. cc k;
    complete = c;
    configs =
        module_rows reg s.db.next_id (policy_from_dict base new.cluster_policy) (s.db.next_id + 1)
          modules;
    configs_added = refl;
    configs_of =
        module_rows-ids reg s.db.next_id (policy_from_dict base new.cluster_policy)
          (s.db.next_id + 1) modules;
    configs_own =
        module_rows-platform reg s.db.next_id (policy_from_dict base new.cluster_policy)
          (s.db.next_id + 1) modules;
    status = new_status new.publish;
    dated = refl;
  }

  taken :
      (new : NewPlatform) (h : String) (hz modules layers : List String) (s : Site)
      → select is_hazard new.hazards ≡ h ∷ hz
      → has_slug (platform_row f base tools reg now new (h ∷ hz) modules layers s).slug s ≡ true
      → Creates new s s
          (inl (slug_taken (platform_row f base tools reg now new (h ∷ hz) modules layers s).slug))
  taken new h hz modules layers s e u =
      let q = slug-platform_row new (h ∷ hz) modules layers s e in
      elim (unique_slug_cases s (wanted_slug new)) [
        | inl (a, b) ↦
            let c = subst (λ t. has_slug t s ≡ true) (q ∙ a) u in absurd (ground (arith, b, c))
        | inr (a, b) ↦ (refl, q ∙ a, b, u)
      ]

  place-Creates :
      (new : NewPlatform) (h : String) (hz : List String) (c : Selection) (s : Site)
      → select is_hazard new.hazards ≡ h ∷ hz
      → Resolved reg (wanted_modules new) (wanted_layers new) c
      → Creates new s
          (place f base tools reg now new (h ∷ hz) c s).0
          (place f base tools reg now new (h ∷ hz) c s).1
  place-Creates new h hz (unknown_module id) s e r = (refl, r)
  place-Creates new h hz (unknown_layer k) s e r = (refl, r.1)
  place-Creates new h hz no_fuel s e r = absurd r
  place-Creates new h hz (chosen modules layers) s e r =
      elim (Bool-cases
        (has_slug (platform_row f base tools reg now new (h ∷ hz) modules layers s).slug s)) [
          | inl u ↦ rw u (taken new h hz modules layers s e u)
          | inr u ↦ rw u (row-IsCreated new h hz modules layers s e r u)
        ]

  -- `create_platform` changes nothing when it raises: for hazards none of which is known, else for a
  -- module or a layer that the registry does not have, else where both the slug and the slug with the
  -- random suffix belong to other platforms already. Otherwise it adds one platform with what the caller
  -- names and a slug that no other platform has, whose modules and layers are complete and which has one
  -- configuration for each module; it has a date of publication exactly if it is published.
  pub create_platform_lem :
      (new : NewPlatform) (s : Site)
      → Creates new s
          (create_platform f base tools reg now new s).0
          (create_platform f base tools reg now new s).1
  unfolding create_platform resolve_selection
  create_platform_lem new s = go (select is_hazard new.hazards) refl
    where
      go :
          (hz : List String)
          → select is_hazard new.hazards ≡ hz
          → Creates new s
              (create_for f base tools reg now new hz s).0
              (create_for f base tools reg now new hz s).1
      go [] e = (refl, e)
      go (h ∷ hz) e =
          place-Creates new h hz
            (resolve_selection reg (h ∷ hz) new.county new.towns new.modules new.layers) s e
            (subst
              (λ z.
                Resolved reg (wanted_modules new) (wanted_layers new)
                  (resolve_selection reg z new.county new.towns new.modules new.layers))
              e (resolve_lem reg (wanted_modules new) (wanted_layers new)))
