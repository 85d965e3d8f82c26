-- ===== src/Clusters/Policy.antt =====
-- `ClusterPolicy` and `policy_from_dict` of apps/api/app/services/cluster_service.py, with the
-- defaults of apps/api/app/core/config.py.
use aidflow.Prelude.{ℕ, ◌*◌, ◌≤◌, min, max, ◌≡◌, Bool, true, Option, some, arith}

pub record ClusterPolicy : Type 0 where
  pub required_unique_reporters : ℕ
  pub radius_meters : ℕ
  pub time_window_minutes : ℕ
  pub count_anonymous_reporters : Bool

-- `settings.default_cluster_policy`
abbrev pub default_policy : ClusterPolicy
default_policy = record {
  required_unique_reporters = 2;
  radius_meters = 100;
  time_window_minutes = 60;
  count_anonymous_reporters = true;
}

-- What stands in a JSON field: `None`, or a value by what `int` and `bool` make of it. The first is
-- `none` where `int` raises, and 0 for a negative number, which the clamps below treat alike.
pub data Setting : Type 0 where
  missing : Setting
  value : Option ℕ → Bool → Setting

-- The dict `cluster_policy` of a platform's configuration; an absent key is `missing`.
pub record RawPolicy : Type 0 where
  pub required_unique_reporters : Setting
  pub radius_meters : Setting
  pub time_window_minutes : Setting
  pub count_anonymous_reporters : Setting

-- `int(merged[key])`, where a missing value falls back to the default.
abbrev int_or : ℕ → Setting → Option ℕ
int_or d missing = some d
int_or d (value n b) = n

-- `bool(merged[key])`
abbrev bool_or : Bool → Setting → Bool
bool_or d missing = d
bool_or d (value n b) = b

clamped : ClusterPolicy → Option ℕ → Option ℕ → Option ℕ → Bool → ClusterPolicy
clamped base (some required) (some radius) (some window) anon = record {
  required_unique_reporters = max 1 required;
  radius_meters = min (max 10 radius) 5000;
  time_window_minutes = min (max 1 window) (7 * 24 * 60);
  count_anonymous_reporters = anon;
}
clamped base _ _ _ anon = base

unfoldable pub policy_from_dict : ClusterPolicy → RawPolicy → ClusterPolicy
unfolding clamped
policy_from_dict base raw =
    clamped base (int_or base.required_unique_reporters raw.required_unique_reporters)
      (int_or base.radius_meters raw.radius_meters)
      (int_or base.time_window_minutes raw.time_window_minutes)
      (bool_or base.count_anonymous_reporters raw.count_anonymous_reporters)

-- Bounds within which clustering works.
pub record IsSane (p : ClusterPolicy) : Type 0 where
  pub required : 1 ≤ p.required_unique_reporters
  pub radius_low : 10 ≤ p.radius_meters
  pub radius_high : p.radius_meters ≤ 5000
  pub window_low : 1 ≤ p.time_window_minutes
  pub window_high : p.time_window_minutes ≤ 10080

-- Whatever the platform's configuration holds, the policy is sane if the configured defaults are;
-- and fields that are sane already are taken over as they are.
pub policy_from_dict-IsSane :
    (base : ClusterPolicy) (raw : RawPolicy)
    → IsSane base
    → IsSane (policy_from_dict base raw)
      × ((n r w : ℕ) (b c d : Bool)
          → 1 ≤ n
          → 10 ≤ r
          → r ≤ 5000
          → 1 ≤ w
          → w ≤ 10080
          → raw.required_unique_reporters ≡ value (some n) b
          → raw.radius_meters ≡ value (some r) c
          → raw.time_window_minutes ≡ value (some w) d
          → ((policy_from_dict base raw).required_unique_reporters ≡ n)
            × ((policy_from_dict base raw).radius_meters ≡ r)
            × ((policy_from_dict base raw).time_window_minutes ≡ w))
unfolding policy_from_dict
policy_from_dict-IsSane base raw h =
    (ground arith, λ n r w b c d h1 h2 h3 h4 h5 p q s. ground arith)
