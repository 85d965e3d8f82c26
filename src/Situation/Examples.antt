-- ===== src/Situation/Examples.antt =====
-- The picture of the platform of Portal.Examples.
use aidflow.Prelude.{ℕ, ◌+◌, ◌-◌, ◌*◌, ◌≡◌, refl, count}
use aidflow.CaseStates.{
  value, pending_review, reported_emic, emic_processing, community_open, community_submitted,
  closed,
}
use aidflow.Portal.Examples.{here}
use aidflow.Situation.Buckets.{hour, hour_of, cases_in, trend_buckets}
use aidflow.Situation.Summary.{not_finished, not_dismissed, situation}
use aidflow.Situation.Partition.{at, situation_lem}
use aidflow.Situation.Trend.{each_hour, bucket_at, trend_buckets_lem}

abbrev noon : ℕ
noon = 1750000000000000

one_open : (situation here.db 0 noon).cases_community ≡ 1
unfolding situation value
one_open = refl

situation_lem_example :
    let p = situation here.db 0 noon in
    (p.cases_open ≡ count not_finished (cases_in 0 here.db))
    × (p.cases_open ≡ p.cases_pending + p.cases_active + p.cases_community)
    × (p.cases_total ≡ p.cases_open + p.cases_done)
    × (p.cases_total ≡ count not_dismissed (cases_in 0 here.db))
    × (p.cases_pending ≡ count (at pending_review) (cases_in 0 here.db))
    × (p.cases_active
        ≡ count (at reported_emic) (cases_in 0 here.db)
          + count (at emic_processing) (cases_in 0 here.db))
    × (p.cases_community
        ≡ count (at community_open) (cases_in 0 here.db)
          + count (at community_submitted) (cases_in 0 here.db))
    × (p.cases_done ≡ count (at closed) (cases_in 0 here.db))
situation_lem_example = situation_lem here.db 0 noon

trend_buckets_lem_example :
    trend_buckets here.db 0 noon 24
    ≡ each_hour (bucket_at here.db 0) (hour_of noon + hour - 24 * hour) 24
trend_buckets_lem_example = trend_buckets_lem here.db 0 noon 24
