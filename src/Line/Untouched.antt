-- ===== src/Line/Untouched.antt =====
-- The links between platforms and groups through the calls of
-- apps/api/app/services/platform_service.py.
use aidflow.Prelude.{
  ℕ, String, ◌≡◌, refl, sym, ap, ◌∙◌, inl, inr, Bool, true, false, not, ◌&&◌, Option, none, some,
  List, [], ◌∷◌, ◌++◌, select, str_eq, ◌==◌, is_empty, Bool-cases, arith, if◌then◌else◌,
}
use aidflow.Models.{Time, Payload, Json, uuid, text, put_key, get_key, merge}
use aidflow.Models.Table.{get}
use aidflow.Geo.{Float}
use aidflow.Clusters.Policy.{ClusterPolicy, RawPolicy, policy_from_dict}
use aidflow.Modules.{Registry}
use aidflow.Platforms.Rows.{
  PlatformRow, PlatformStatus, draft, published, archived, LineGroup, Site, change_platform,
  get_platform,
}
use aidflow.Platforms.Slugs.{SlugTools}
use aidflow.Platforms.Create.{
  NewPlatform, PlatformError, unknown_status, has_slug, policy_json, platform_row, insert_platform,
  create_platform, place, create_for,
}
use aidflow.Platforms.Manage.{
  ConfigUpdate, with_event, event_type, slug_in, with_policy, new_configuration, configured,
  update_configuration, status_of, with_status, set_status,
}
use aidflow.Platforms.Prune.{unlinked, delete_platform, delete_all}
use aidflow.Platforms.Selection.{Selection, unknown_module, unknown_layer, chosen, no_fuel}
use aidflow.Modules.Hazards.{is_hazard}
use aidflow.Line.{group_of, as_text, named_by, owner, target}
use aidflow.Line.Linked.{get_key-put_key, owner-map}
use aidflow.Line.Links.{
  unless, without_platform, without_platform-some, eq_of, IsLinked, Same-IsLinked,
}
use aidflow.Line.Keeps.{change_platform-Same}

-- A configuration says nothing of the group.
abbrev pub is_silent : Payload → Bool
is_silent [] = true
is_silent ((k, v) ∷ c) = not (str_eq "line_group_id" k) && is_silent c

silent_here :
    (k : String) (v : Json) (c : Payload)
    → is_silent ((k, v) ∷ c) ≡ true
    → str_eq "line_group_id" k ≡ false
silent_here k v c h = ground (arith, h)

get_key-merge :
    (base extra : Payload)
    → is_silent extra ≡ true
    → get_key "line_group_id" (merge base extra) ≡ get_key "line_group_id" base
get_key-merge base [] h = refl
get_key-merge base ((k, v) ∷ c) h =
    get_key-merge (put_key k v base) c (ground (arith, h))
    ∙ get_key-put_key "line_group_id" k v base
    ∙ ap (λ b. if b then v else get_key "line_group_id" base) (silent_here k v c h)

group_of-configured :
    (base : ClusterPolicy) (u : ConfigUpdate) (p : PlatformRow)
    → is_silent u.configuration ≡ true
    → group_of (configured base u p) ≡ group_of p
unfolding configured new_configuration
group_of-configured base u p h = ap as_text (
    get_key-merge (with_policy base u.cluster_policy p.configuration) u.configuration h
    ∙ policy u.cluster_policy)
  where
    policy :
        (o : Option RawPolicy)
        → get_key "line_group_id" (with_policy base o p.configuration)
          ≡ get_key "line_group_id" p.configuration
    policy none = refl
    policy (some raw) =
        get_key-put_key "line_group_id" "cluster_policy" (policy_json (policy_from_dict base raw))
          p.configuration

pub update_configuration-IsLinked :
    (base : ClusterPolicy) (id : ℕ) (u : ConfigUpdate) (s : Site)
    → is_silent u.configuration ≡ true
    → IsLinked s
    → IsLinked (update_configuration base id u s)
unfolding update_configuration target get_platform
update_configuration-IsLinked base id u s h l = Same-IsLinked l (
    let e =
      change_platform-Same id (configured base u) s (configured-id base u)
        (λ p. group_of-configured base u p h) in
    record { targets = e.targets; owners = e.owners })
  where
    configured-id :
        (base : ClusterPolicy) (u : ConfigUpdate) (p : PlatformRow)
        → (configured base u p).id ≡ p.id
    configured-id base u p = refl

with_status-platform :
    (now : Time) (st : PlatformStatus) (p : PlatformRow)
    → ((with_status now st p).id ≡ p.id) × (group_of (with_status now st p) ≡ group_of p)
unfolding with_status
with_status-platform now draft p = (refl, refl)
with_status-platform now published p = (refl, refl)
with_status-platform now archived p = (refl, refl)

pub set_status-IsLinked :
    (now : Time) (id : ℕ) (t : String) (s : Site) → IsLinked s → IsLinked (set_status now id t s).0
unfolding set_status target get_platform
set_status-IsLinked now id t s l = go (status_of t)
  where
    go :
        (o : Option PlatformStatus)
        → IsLinked
            (elim o as (λ _. Site × Option PlatformError) [
              | none ↦ (s, some (unknown_status t))
              | some st ↦ (
                with_event
                    (event_type st)
                    id
                    (("platform_id", uuid id) ∷ ("slug", text (slug_in s id)) ∷ [])
                    (change_platform id (with_status now st) s),
                none,
              )
            ]).0
    go none = l
    go (some st) = Same-IsLinked l (
        let e =
          change_platform-Same id (with_status now st) s (λ p. (with_status-platform now st p).0)
            (λ p. (with_status-platform now st p).1) in
        record { targets = e.targets; owners = e.owners })

get-append :
    (j : ℕ) (ps : List PlatformRow) (q : PlatformRow)
    → group_of q ≡ none
    → named_by (get (λ p. p.id) j (ps ++ q ∷ [])) ≡ named_by (get (λ p. p.id) j ps)
unfolding get
get-append j [] q h = elim (Bool-cases (q.id == j)) [
  | inl e ↦ ap (λ b. named_by (if b then some q else none)) e ∙ h
  | inr e ↦ ap (λ b. named_by (if b then some q else none)) e
]
get-append j (p ∷ ps) q h = elim (Bool-cases (p.id == j)) [
  | inl e ↦ ground (arith, e)
  | inr e ↦ ground (arith, e, get-append j ps q h)
]

-- The rows of a deleted platform.
get-delete_same :
    (id : ℕ) (ps : List PlatformRow) → get (λ p. p.id) id (select (λ p. not (p.id == id)) ps) ≡ none
unfolding get
get-delete_same id [] = refl
get-delete_same id (p ∷ ps) = ground (arith, get-delete_same id ps)

get-delete_other :
    (id j : ℕ) (ps : List PlatformRow)
    → (j == id) ≡ false
    → get (λ p. p.id) j (select (λ p. not (p.id == id)) ps) ≡ get (λ p. p.id) j ps
unfolding get
get-delete_other id j [] e = refl
get-delete_other id j (p ∷ ps) e = elim (Bool-cases (p.id == j)) [
  | inl k ↦ ground (arith, k, e, get-delete_other id j ps e)
  | inr k ↦ ground (arith, k, get-delete_other id j ps e)
]

unlinked-platform :
    (id : ℕ) (r : LineGroup)
    → ((unlinked id r).group_id ≡ r.group_id)
      × ((unlinked id r).platform_id ≡ without_platform id r.platform_id)
unlinked-platform id r = go r.platform_id refl
  where
    go :
        (o : Option ℕ)
        → r.platform_id ≡ o
        → ((unlinked id r).group_id ≡ r.group_id)
          × ((unlinked id r).platform_id ≡ without_platform id r.platform_id)
    go none e = (ground (arith, e), ground (arith, e))
    go (some p) e = (ground (arith, e), ground (arith, e))

owner-delete :
    (id : ℕ) (g : String) (s : Site)
    → owner (delete_platform id s) g ≡ without_platform id (owner s g)
unfolding delete_platform
owner-delete id g s =
    owner-map (unlinked id) (without_platform id) g s.groups (λ r. (unlinked-platform id r).0)
      (λ r _. (unlinked-platform id r).1) (λ _. refl)

delete_platform-IsLinked : (id : ℕ) (s : Site) → IsLinked s → IsLinked (delete_platform id s)
unfolding target get_platform delete_platform
delete_platform-IsLinked id s l = record { names = names; held = held; real = real }
  where
    keeps :
        (j : ℕ) (g : String)
        → target (delete_platform id s) j ≡ some g
        → ((j == id) ≡ false) × (target s j ≡ some g)
    keeps j g t = elim (Bool-cases (j == id)) [
      | inl e ↦
          let q =
            sym (ap named_by (get-delete_same id s.platforms))
            ∙ ap (target (delete_platform id s)) (sym (eq_of e))
            ∙ t in
          cc q
      | inr e ↦ (e, ap named_by (sym (get-delete_other id j s.platforms e)) ∙ t)
    ]

    names :
        (j : ℕ) (g : String)
        → target (delete_platform id s) j ≡ some g
        → owner (delete_platform id s) g ≡ some j
    names j g t =
        let (e, u) = keeps j g t in
        owner-delete id g s
        ∙ ap (without_platform id) (l.names j g u)
        ∙ ap (λ b. unless b (some j)) e

    held :
        (j : ℕ) (g : String)
        → owner (delete_platform id s) g ≡ some j
        → target (delete_platform id s) j ≡ some g
    held j g o =
        let (u, e) = without_platform-some id j (owner s g) (sym (owner-delete id g s) ∙ o) in
        ap named_by (get-delete_other id j s.platforms e) ∙ l.held j g u

    real : (j : ℕ) (g : String) → target (delete_platform id s) j ≡ some g → is_empty g ≡ false
    real j g t = let (e, u) = keeps j g t in l.real j g u

pub delete_all-IsLinked :
    (ps : List PlatformRow) (s : Site) → IsLinked s → IsLinked (delete_all ps s)
unfolding delete_all
delete_all-IsLinked [] s l = l
delete_all-IsLinked (p ∷ ps) s l =
    delete_all-IsLinked ps (delete_platform p.id s) (delete_platform-IsLinked p.id s l)

module _ (f : Float) (base : ClusterPolicy) (tools : SlugTools) (reg : Registry) (now : Time) where
  insert_platform-IsLinked :
      (new : NewPlatform) (p : PlatformRow) (s : Site)
      → group_of p ≡ none
      → IsLinked s
      → IsLinked (insert_platform f base tools reg now new p s)
  unfolding insert_platform target get_platform
  insert_platform-IsLinked new p s h l =
      Same-IsLinked l (record { targets = λ j. get-append j s.platforms p h; owners = λ g. refl })

  group_of-platform_row :
      (new : NewPlatform) (hz modules layers : List String) (s : Site)
      → is_silent new.configuration ≡ true
      → group_of (platform_row f base tools reg now new hz modules layers s) ≡ none
  unfolding platform_row
  group_of-platform_row new hz modules layers s h = ap as_text (get_key-merge _ new.configuration h)

  place-IsLinked :
      (new : NewPlatform) (hz : List String) (c : Selection) (s : Site)
      → is_silent new.configuration ≡ true
      → IsLinked s
      → IsLinked (place f base tools reg now new hz c s).0
  place-IsLinked new hz (unknown_module id) s h l = l
  place-IsLinked new hz (unknown_layer k) s h l = l
  place-IsLinked new hz no_fuel s h l = l
  place-IsLinked new hz (chosen modules layers) s h l =
      elim (Bool-cases
        (has_slug (platform_row f base tools reg now new hz modules layers s).slug s)) [
          | inl u ↦ rw u l
          | inr u ↦ rw u (
              insert_platform-IsLinked new
                (platform_row f base tools reg now new hz modules layers s) s
                (group_of-platform_row new hz modules layers s h) l)
        ]

  pub create_platform-IsLinked :
      (new : NewPlatform) (s : Site)
      → is_silent new.configuration ≡ true
      → IsLinked s
      → IsLinked (create_platform f base tools reg now new s).0
  unfolding create_platform
  create_platform-IsLinked new s h l = go (select is_hazard new.hazards)
    where
      go : (hz : List String) → IsLinked (create_for f base tools reg now new hz s).0
      go [] = l
      go (z ∷ hz) = place-IsLinked new (z ∷ hz) _ s h l
