-- ===== src/Platforms/Examples.antt =====
-- A small registry, and runs of the platform services on it.
use aidflow.Prelude.{
  ℕ, String, ◌≡◌, refl, Bool, true, false, Option, none, some, List, [], ◌∷◌, arith,
}
use aidflow.Models.{empty_db, Time, Payload, Json}
use aidflow.Clusters.Examples.{flat, raw}
use aidflow.Clusters.Policy.{default_policy}
use aidflow.Modules.{ModuleSpec, Registry}
use aidflow.Modules.Scenarios.{ScenarioProfile}
use aidflow.Platforms.Rows.{PlatformRow, Site, draft}
use aidflow.Platforms.Selection.{chosen, resolve, ordered_layers}
use aidflow.Platforms.Selection.Correct.{IsComplete, resolve_lem}
use aidflow.Platforms.Slugs.{SlugTools}
use aidflow.Platforms.Create.{NewPlatform, create_platform}
use aidflow.Platforms.Create.Outcome.{Creates, create_platform_lem}
use aidflow.Platforms.Prune.{DemoSettings, prune_generated}
use aidflow.Platforms.Prune.Newest.{AreUnique, Keeps, prune_generated_lem}

abbrev spec : String → Bool → List String → Option String → ModuleSpec
spec id core deps key = record {
  id = id;
  name = id;
  domain = "report";
  module_type = "feature";
  surfaces = [];
  applicable_hazards = "*" ∷ [];
  default_enabled = true;
  core = core;
  dependencies = deps;
  layer_key = key;
  source = none;
}

-- A form that needs the map, a map that needs the base, and a layer that needs the form.
abbrev pub registry : Registry
registry =
    spec "base" true [] none
    ∷ spec "map" false ("base" ∷ []) none
    ∷ spec "form" false ("map" ∷ "gone" ∷ []) none
    ∷ record (spec "heat" false ("form" ∷ []) (some "heatmap")) { module_type = "layer" }
    ∷ spec "spare" false [] none
    ∷ []

resolved :
    resolve registry [] ("heatmap" ∷ [])
    ≡ chosen ("base" ∷ "map" ∷ "form" ∷ "heat" ∷ []) ("heatmap" ∷ [])
unfolding resolve ordered_layers
resolved = refl

resolve_lem_example :
    IsComplete registry [] ("heatmap" ∷ []) ("base" ∷ "map" ∷ "form" ∷ "heat" ∷ []) ("heatmap" ∷ [])
unfolding resolve ordered_layers
resolve_lem_example = resolve_lem registry [] ("heatmap" ∷ [])

abbrev pub slug_tools : SlugTools
slug_tools = record {
  nfkc = λ t. t;
  lower = λ t. t;
  join_separators = λ t. t;
  drop_other = λ t. t;
  join_hyphens = λ t. t;
  strip_hyphens = λ t. t;
  suffix = "a1b2c3d4";
}

abbrev pub new : NewPlatform
new = record {
  name = "豪雨";
  brief = none;
  hazards = "flood" ∷ [];
  county = none;
  towns = [];
  modules = some [];
  layers = some ("heatmap" ∷ []);
  report_categories = [];
  cluster_policy = raw;
  configuration = [];
  publish = true;
  source = "console";
  slug = some "rain";
}

abbrev pub site : Site
site = record { platforms = []; configs = []; groups = []; db = empty_db }

create_platform_lem_example :
    Creates flat default_policy slug_tools registry 5 new site
      (create_platform flat default_policy slug_tools registry 5 new site).0
      (create_platform flat default_policy slug_tools registry 5 new site).1
create_platform_lem_example = create_platform_lem flat default_policy slug_tools registry 5 new site

abbrev pub profile : ScenarioProfile
profile = record {
  hazards = [];
  primary_hazard = "generic";
  label = "";
  county = none;
  towns = [];
  report_categories = [];
  layers = [];
  modules = [];
}

abbrev pub row : ℕ → Time → Payload → PlatformRow
row id at cfg = record {
  id = id;
  slug = "p";
  name = "p";
  brief = none;
  county = none;
  towns = [];
  hazards = [];
  primary_hazard = "generic";
  scenario = profile;
  status = draft;
  modules = [];
  layers = [];
  configuration = cfg;
  center_lat = 0;
  center_lon = 0;
  created_at = at;
  published_at = none;
}

-- A demo platform, and two that were generated.
abbrev crowded : Site
crowded = record site {
  platforms = row 1 10 (("demo_key", Json.text "nantou") ∷ []) ∷ row 2 20 [] ∷ row 3 30 [] ∷ [];
}

crowded-AreUnique : AreUnique crowded.platforms
crowded-AreUnique x = ground arith

abbrev demo : DemoSettings
demo = record { demo_mode = true; keep_generated = some 1 }

prune_generated_lem_example : Keeps 0 [] crowded (prune_generated demo (some (some 0)) [] crowded).0
prune_generated_lem_example = prune_generated_lem demo (some (some 0)) [] crowded crowded-AreUnique
