-- ===== src/Clusters/Matching.antt =====
-- The pure matching of apps/api/app/services/cluster_service.py: `pick_cluster`.
use aidflow.Prelude.{
  ℕ, ◌+◌, ◌*◌, String, Bool, not, Option, none, some, List, [], ◌∷◌, ltb, if◌then◌else◌,
}
use aidflow.Models.{Double, Time}
use aidflow.Geo.{Float, haversine_m}
use aidflow.Categories.{are_similar}
use aidflow.Clusters.Policy.{ClusterPolicy}

pub record ClusterCandidate : Type 0 where
  pub id : ℕ
  pub category : String
  pub lat : Double
  pub lon : Double
  pub last_reported_at : Time

-- The best candidate so far with its key: the distance, and the time, of which the later is better
-- (the code compares the negated timestamps).
pub record Best : Type 0 where
  pub distance : Double
  pub reported_at : Time
  pub candidate : ClusterCandidate

-- `timedelta(minutes=…)` in microseconds
abbrev pub minutes : ℕ → Time
minutes n = n * 60000000

-- A report to match: the keyword arguments of `pick_cluster`.
pub record Query : Type 0 where
  pub lat : Double
  pub lon : Double
  pub category : String
  pub reported_at : Time

module _ (f : Float) (policy : ClusterPolicy) (q : Query) where
  unfoldable pub distance_of : ClusterCandidate → Double
  distance_of c = haversine_m f q.lat q.lon c.lat c.lon

  -- Tuples are compared at the first place where they differ.
  unfoldable pub precedes : Double → Time → Best → Bool
  precedes d at b = if f.eq d b.distance then ltb b.reported_at at else f.lt d b.distance

  unfoldable pub best_of : Option Best → Best → Best
  unfolding precedes
  best_of none new = new
  best_of (some old) new = if precedes new.distance new.reported_at old then new else old

  -- One round of the loop: each `continue` keeps the best so far.
  unfoldable pub pick_step : Option Best → ClusterCandidate → Option Best
  unfolding distance_of best_of
  pick_step best c =
      let window = minutes policy.time_window_minutes in
      let d = distance_of c in
      if not (are_similar c.category q.category)
      then best
      else if ltb (c.last_reported_at + window) q.reported_at
      then best
      else if ltb (q.reported_at + window) c.last_reported_at
      then best
      else if f.lt (f.decimal policy.radius_meters 0) d
      then best
      else some
          (best_of best (record { distance = d; reported_at = c.last_reported_at; candidate = c }))

  unfoldable pub pick_from : Option Best → List ClusterCandidate → Option Best
  unfolding pick_step
  pick_from best [] = best
  pick_from best (c ∷ cs) = pick_from (pick_step best c) cs

  abbrev pub candidate_of : Option Best → Option ClusterCandidate
  candidate_of none = none
  candidate_of (some b) = some b.candidate

  unfoldable pub pick_cluster : List ClusterCandidate → Option ClusterCandidate
  unfolding pick_from
  pick_cluster candidates = candidate_of (pick_from none candidates)
