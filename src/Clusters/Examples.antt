-- ===== src/Clusters/Examples.antt =====
-- Runs of the theorems on apps/api/app/services/cluster_service.py, with a toy arithmetic in place of
-- the doubles: numbers, and a flat map.
use aidflow.Prelude.{
  ℕ, ◌+◌, ◌-◌, ◌*◌, ◌≤◌, max, String, ◌≡◌, refl, Bool, true, false, not, ◌&&◌, Option, none, some,
  List, [], ◌∷◌, arith, length, count, ltb, ◌==◌, member, is_text, is_empty, if◌then◌else◌,
}
use aidflow.Models.{Db, Report, ReportCluster}
use aidflow.Models.Table.{get, save}
use aidflow.Categories.{are_similar}
use aidflow.Geo.{bbox_for, Float, IsOrdered, haversine_m}
use aidflow.Cases.Examples.{tools, platform, report, db}
use aidflow.Clusters.Policy.{
  ClusterPolicy, default_policy, RawPolicy, Setting, missing, policy_from_dict, IsSane,
  policy_from_dict-IsSane,
}
use aidflow.Clusters.Matching.{ClusterCandidate, Query, pick_cluster}
use aidflow.Clusters.Nearest.{Picked, pick_cluster_lem}
use aidflow.Clusters.Counting.{
  count_unique_reporters, is_distinct, among, count_unique_reporters_lem,
}
use aidflow.Clusters.Process.{Processed, find_cluster, process_located}
use aidflow.Clusters.Threshold.{Located, process_located_lem}

abbrev pub flat : Float
flat = record {
  decimal = λ m k. m;
  add = λ a b. a + b;
  sub = λ a b. a - b;
  mul = λ a b. a * b;
  div = λ a b. a;
  pow = λ a n. a * a;
  larger = λ a b. max a b;
  radians = λ a. a;
  sin = λ a. a;
  cos = λ a. 1;
  asin = λ a. a;
  sqrt = λ a. a;
  lt = λ a b. ltb a b;
  eq = λ a b. a == b;
}

abbrev flat_order : IsOrdered flat
flat_order = record {
  is_number = λ a. true;
  rank = λ a. a;
  lt_rank = λ a b h k. refl;
  eq_rank = λ a b h k. refl;
}

abbrev here : Query
here = record { lat = 23; lon = 120; category = "road_blocked"; reported_at = 1750000000000000 }

abbrev near : ClusterCandidate
near = record {
  id = 1;
  category = "road_blocked";
  lat = 23;
  lon = 120;
  last_reported_at = 1750000000000000;
}

abbrev far : ClusterCandidate
far = record near { id = 2; lat = 30 }

pick_cluster_lem_example :
    Picked flat flat_order default_policy here
      (far ∷ near ∷ [])
      (pick_cluster flat default_policy here (far ∷ near ∷ []))
pick_cluster_lem_example =
    pick_cluster_lem flat flat_order default_policy here (far ∷ near ∷ []) (refl, (refl, tt))

abbrev one_person : ClusterPolicy
one_person = record default_policy { required_unique_reporters = 1 }

abbrev found : ReportCluster × Db
found = find_cluster flat platform one_person (report 11 (some "a")) 23 120 db

-- A first report that makes a case at once, where one person is enough.
processed :
    (out : Processed) × (process_located flat tools 1750000060000000 platform one_person
        (report 11 (some "a"))
        23
        120
        db
      ≡ some out)
unfolding process_located save bbox_for are_similar haversine_m count_unique_reporters
processed = (_, refl)

in_tables :
    (old : Report) × (before : ReportCluster) × (get (λ r. r.id) 11 found.1.reports ≡ some old)
    × (get (λ c. c.id) found.0.id found.1.clusters ≡ some before)
unfolding find_cluster get bbox_for are_similar haversine_m
in_tables = (_, _, refl, refl)

process_located_lem_example : Located flat one_person (report 11 (some "a")) found processed.0
process_located_lem_example =
    process_located_lem flat tools 1750000060000000 platform one_person (report 11 (some "a"))
      in_tables.0 23 120 db in_tables.1 processed.0 (in_tables.2, in_tables.3) processed.1

abbrev keys : List (Option String)
keys = some "a" ∷ none ∷ some "b" ∷ some "a" ∷ some "" ∷ []

count_unique_reporters_lem_example :
    (ks : List String) × (is_distinct ks ≡ true)
    × ((k : String) → member k ks ≡ (not (is_empty k) && among k keys))
    × (count_unique_reporters keys true
        ≡ length ks + (if true then count (λ k. not (is_text k)) keys else 0))
count_unique_reporters_lem_example = count_unique_reporters_lem keys true

-- A radius far too large, no window, and a number that is none.
abbrev pub raw : RawPolicy
raw = record {
  required_unique_reporters = Setting.value (some 3) true;
  radius_meters = Setting.value (some 90000) true;
  time_window_minutes = missing;
  count_anonymous_reporters = Setting.value (some 0) false;
}

default_policy-IsSane : IsSane default_policy
default_policy-IsSane = ground arith

policy_from_dict-IsSane_example :
    IsSane (policy_from_dict default_policy raw)
    × ((n r w : ℕ) (b c d : Bool)
        → 1 ≤ n
        → 10 ≤ r
        → r ≤ 5000
        → 1 ≤ w
        → w ≤ 10080
        → raw.required_unique_reporters ≡ Setting.value (some n) b
        → raw.radius_meters ≡ Setting.value (some r) c
        → raw.time_window_minutes ≡ Setting.value (some w) d
        → ((policy_from_dict default_policy raw).required_unique_reporters ≡ n)
          × ((policy_from_dict default_policy raw).radius_meters ≡ r)
          × ((policy_from_dict default_policy raw).time_window_minutes ≡ w))
policy_from_dict-IsSane_example = policy_from_dict-IsSane default_policy raw default_policy-IsSane
