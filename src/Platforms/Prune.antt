-- ===== src/Platforms/Prune.antt =====
-- `prune_generated` of apps/api/app/services/platform_service.py: the retirement of generated
-- platforms in demo mode, and what the foreign keys of apps/api/app/db/models.py delete with them.
pub mod Newest
use aidflow.Prelude.{
  ℕ, zero, suc, ◌-◌, String, Bool, true, false, not, ◌&&◌, ◌||◌, Option, none, some, List, [], ◌∷◌,
  map, select, length, ◌==◌, is_empty, sort_with, if◌then◌else◌,
}
use aidflow.Models.{
  Json, null, flag, number, uuid, text, texts, changes, account, limits, view, opaque, get_key,
}
use aidflow.Platforms.Rows.{PlatformRow, LineGroup, Site}
use aidflow.Platforms.Manage.{newer}

-- `settings.DEMO_MODE`, and `settings.DEMO_KEEP_GENERATED`, where `none` is a negative number.
pub record DemoSettings : Type 0 where
  pub demo_mode : Bool
  pub keep_generated : Option ℕ

-- The truth of a JSON value.
abbrev pub is_truthy : Json → Bool
is_truthy null = false
is_truthy (flag b) = b
is_truthy (number n) = if n == 0 then false else true
is_truthy (uuid n) = true
is_truthy (text s) = if is_empty s then false else true
is_truthy (texts []) = false
is_truthy (texts (_ ∷ _)) = true
is_truthy (changes []) = false
is_truthy (changes (_ ∷ _)) = true
is_truthy (account name role active reset) = true
is_truthy (limits _ _ _ _) = true
is_truthy (view _ _ _) = true
is_truthy (opaque _ b) = b

abbrev pub holds_id : ℕ → List ℕ → Bool
holds_id x [] = false
holds_id x (y ∷ ys) = x == y || holds_id x ys

-- A platform that may go: not the built-in demo, and not a protected one.
abbrev pub is_disposable : List ℕ → PlatformRow → Bool
is_disposable protect p =
    not (is_truthy (get_key "demo_key" p.configuration)) && not (holds_id p.id protect)

-- `xs[n:]`
abbrev pub drop_first : ℕ → List PlatformRow → List PlatformRow
drop_first zero ps = ps
drop_first (suc n) [] = []
drop_first (suc n) (p ∷ ps) = drop_first n ps

unfoldable pub disposable : List ℕ → Site → List PlatformRow
unfolding sort_with
disposable protect s = select (is_disposable protect) (sort_with newer s.platforms)

-- The rows that `db.delete` loses: those with a foreign key to the platform, `ON DELETE CASCADE`.
abbrev pub spare : {R : Type 0} → (R → ℕ) → ℕ → List R → List R
spare key id rows = select (λ r. not (key r == id)) rows

-- `ON DELETE SET NULL`
abbrev pub unlinked : ℕ → LineGroup → LineGroup
unlinked id g = elim g.platform_id [
  | none ↦ g
  | some p ↦ if p == id then record g { platform_id = none } else g
]

unfoldable pub delete_platform : ℕ → Site → Site
delete_platform id s = record {
  platforms = spare (λ p. p.id) id s.platforms;
  configs = spare (λ c. c.platform_id) id s.configs;
  groups = map (unlinked id) s.groups;
  db = record s.db {
    reports = spare (λ r. r.platform_id) id s.db.reports;
    clusters = spare (λ c. c.platform_id) id s.db.clusters;
    cases = spare (λ c. c.platform_id) id s.db.cases;
    events = spare (λ e. e.platform_id) id s.db.events;
    photos = spare (λ p. p.platform_id) id s.db.photos;
  };
}

unfoldable pub delete_all : List PlatformRow → Site → Site
unfolding delete_platform
delete_all [] s = s
delete_all (p ∷ ps) s = delete_all ps (delete_platform p.id s)

abbrev pub limit_of : DemoSettings → Option (Option ℕ) → Option ℕ
limit_of settings none = settings.keep_generated
limit_of settings (some keep) = keep

-- The platforms that go, with demo mode and the limit; a negative limit keeps all.
unfoldable pub gone_for : Bool → Option ℕ → List ℕ → Site → List PlatformRow
unfolding disposable
gone_for false limit protect s = []
gone_for true none protect s = []
gone_for true (some limit) protect s = drop_first (limit - length protect) (disposable protect s)

unfoldable pub retired : DemoSettings → Option (Option ℕ) → List ℕ → Site → List PlatformRow
unfolding gone_for
retired settings keep protect s = gone_for settings.demo_mode (limit_of settings keep) protect s

-- The slugs that were removed come with the database after the deletion.
unfoldable pub prune_generated :
    DemoSettings → Option (Option ℕ) → List ℕ → Site → Site × List String
unfolding retired delete_all
prune_generated settings keep protect s =
    let gone = retired settings keep protect s in (delete_all gone s, map (λ p. p.slug) gone)
