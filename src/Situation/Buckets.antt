-- ===== src/Situation/Buckets.antt =====
-- `trend_buckets` and `trend_direction` of apps/api/app/services/situation_service.py. A moment is in
-- microseconds and UTC, so that the hour that it falls into is a division.
use aidflow.Prelude.{
  ℕ, zero, suc, ◌+◌, ◌-◌, ◌*◌, ◌%◌, String, ◌&&◌, none, some, List, [], ◌∷◌, map, length, select,
  drop, take, leb, ltb, ◌==◌, if◌then◌else◌,
}
use aidflow.Models.{Db, Report, IncidentCase, Time}

-- One hour.
abbrev pub hour : ℕ
hour = 3600000000

-- `ts.replace(minute=0, second=0, microsecond=0)`
abbrev pub hour_of : Time → Time
hour_of t = t - t % hour

pub record Bucket : Type 0 where
  pub start : Time
  pub reports : ℕ
  pub cases_created : ℕ
  pub cases_resolved : ℕ

abbrev pub empty_bucket : Time → Bucket
empty_bucket t = record { start = t; reports = 0; cases_created = 0; cases_resolved = 0 }

-- `{start + timedelta(hours=i): … for i in range(hours)}`
unfoldable pub empty_buckets : Time → ℕ → List Bucket
empty_buckets t zero = []
empty_buckets t (suc n) = empty_bucket t ∷ empty_buckets (t + hour) n

-- `buckets[b][…] += 1`, if `b` is among the buckets
unfoldable pub tick : (Bucket → Bucket) → Time → List Bucket → List Bucket
tick f t [] = []
tick f t (b ∷ bs) = let later = tick f t bs in if b.start == t then f b ∷ bs else b ∷ later

-- The loop over the moments of the rows from `start` on.
unfoldable pub tick_all : (Bucket → Bucket) → List Time → List Bucket → List Bucket
unfolding tick
tick_all f [] bs = bs
tick_all f (t ∷ ts) bs = tick_all f ts (tick f (hour_of t) bs)

abbrev pub more_reports : Bucket → Bucket
more_reports b = record b { reports = b.reports + 1 }

abbrev pub more_created : Bucket → Bucket
more_created b = record b { cases_created = b.cases_created + 1 }

abbrev pub more_resolved : Bucket → Bucket
more_resolved b = record b { cases_resolved = b.cases_resolved + 1 }

-- The first hour that is shown, with a clock that is so many hours after 1970.
abbrev pub first_hour : Time → ℕ → Time
first_hour now hours = hour_of now + hour - hours * hour

abbrev pub from_time : Time → List Time → List Time
from_time start ts = select (λ t. leb start t) ts

abbrev pub closing_times : List IncidentCase → List Time
closing_times [] = []
closing_times (c ∷ cs) =
    let rest = closing_times cs in elim c.closed_at [ none ↦ rest | some t ↦ t ∷ rest ]

-- The rows of a platform.
abbrev pub cases_in : ℕ → Db → List IncidentCase
cases_in pid db = select (λ c. c.platform_id == pid) db.cases

abbrev pub reports_in : ℕ → Db → List Report
reports_in pid db = select (λ r. r.platform_id == pid) db.reports

unfoldable pub trend_buckets : Db → ℕ → Time → ℕ → List Bucket
unfolding empty_buckets tick_all
trend_buckets db pid now hours =
    let start = first_hour now hours in
    tick_all more_resolved (from_time start (closing_times (cases_in pid db))) (
      tick_all more_created (from_time start (map (λ c. c.created_at) (cases_in pid db))) (
        tick_all more_reports (from_time start (map (λ r. r.created_at) (reports_in pid db)))
          (empty_buckets start hours)))

abbrev pub sum_reports : List Bucket → ℕ
sum_reports [] = 0
sum_reports (b ∷ bs) = b.reports + sum_reports bs

-- The comparisons with `n * 1.3` are over whole numbers: for the counts of a platform the product of
-- doubles is 13n / 10 where that is whole, and otherwise on the same side of each whole number.
unfoldable pub trend_direction : List Bucket → String
trend_direction buckets =
    if ltb (length buckets) 6
    then "steady"
    else let recent = sum_reports (drop (length buckets - 3) buckets) in
      let previous = sum_reports (take 3 (drop (length buckets - 6) buckets)) in
      if leb (previous * 13) (recent * 10) && leb 2 (recent - previous)
      then "rising"
      else if leb (recent * 13) (previous * 10) && leb 2 (previous - recent)
      then "falling"
      else "steady"
