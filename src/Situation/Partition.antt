-- ===== src/Situation/Partition.antt =====
-- The numbers of the situation picture fit together.
use aidflow.Prelude.{
  ℕ, ◌+◌, ◌≡◌, refl, ◌∙◌, String, Bool, Option, some, List, [], ◌∷◌, map, arith, count, length,
}
use aidflow.Models.{Db, IncidentCase, Time}
use aidflow.CaseStates.{
  CaseStatus, value, same, pending_review, reported_emic, emic_processing, community_open,
  community_submitted, closed, dismissed,
}
use aidflow.CaseStates.Flow.{str_eq-value}
use aidflow.Situation.Counting.{count_of, sum_of}
use aidflow.Situation.Buckets.{cases_in}
use aidflow.Situation.Summary.{sum_for, status_counts, situation, not_finished, not_dismissed}
use aidflow.Situation.Groups.{is_key, is_value, count_of-group, sum_of-group}

abbrev pub at : CaseStatus → IncidentCase → Bool
at s c = same c.status s

-- The column `status` of the rows.
abbrev column : List IncidentCase → List (Option String)
column cs = map (λ c. some (value c.status)) cs

count-at :
    (s : CaseStatus) (cs : List IncidentCase)
    → count (is_key (value s)) (column cs) ≡ count (at s) cs
count-at s [] = refl
count-at s (c ∷ cs) = ground (arith, str_eq-value c.status s, count-at s cs)

count-all : (cs : List IncidentCase) → count is_value (column cs) ≡ length cs
count-all [] = refl
count-all (c ∷ cs) = omega (arith, count-all cs)

count_of-status :
    (db : Db) (pid : ℕ) (s : CaseStatus)
    → count_of (value s) (status_counts db pid) ≡ count (at s) (cases_in pid db)
unfolding status_counts
count_of-status db pid s =
    count_of-group (value s) (column (cases_in pid db)) ∙ count-at s (cases_in pid db)

sum_of-status : (db : Db) (pid : ℕ) → sum_of (status_counts db pid) ≡ length (cases_in pid db)
unfolding status_counts
sum_of-status db pid = sum_of-group (column (cases_in pid db)) ∙ count-all (cases_in pid db)

-- Each case is at exactly one status.
by_status :
    (cs : List IncidentCase)
    → (length cs
        ≡ count (at pending_review) cs
          + count (at reported_emic) cs
          + count (at emic_processing) cs
          + count (at community_open) cs
          + count (at community_submitted) cs
          + count (at closed) cs
          + count (at dismissed) cs)
      × (count not_finished cs
          ≡ count (at pending_review) cs
            + count (at reported_emic) cs
            + count (at emic_processing) cs
            + count (at community_open) cs
            + count (at community_submitted) cs)
      × (count not_dismissed cs + count (at dismissed) cs ≡ length cs)
by_status [] = (refl, refl, refl)
by_status (c ∷ cs) = ground (arith, by_status cs)

-- On the picture of a platform, the open cases are those that are neither closed nor dismissed; each is
-- pending, with EMIC or with the community, so that these three numbers sum to it. The total is the open
-- cases and the closed ones, which is all but the dismissed; and each number of a phase counts the cases
-- of the platform that are in the phase.
pub situation_lem :
    (db : Db) (pid : ℕ) (now : Time)
    → let p = situation db pid now in
      (p.cases_open ≡ count not_finished (cases_in pid db))
      × (p.cases_open ≡ p.cases_pending + p.cases_active + p.cases_community)
      × (p.cases_total ≡ p.cases_open + p.cases_done)
      × (p.cases_total ≡ count not_dismissed (cases_in pid db))
      × (p.cases_pending ≡ count (at pending_review) (cases_in pid db))
      × (p.cases_active
          ≡ count (at reported_emic) (cases_in pid db)
            + count (at emic_processing) (cases_in pid db))
      × (p.cases_community
          ≡ count (at community_open) (cases_in pid db)
            + count (at community_submitted) (cases_in pid db))
      × (p.cases_done ≡ count (at closed) (cases_in pid db))
unfolding situation sum_for
situation_lem db pid now =
    let (a, b, c) = by_status (cases_in pid db) in
    omega (
      arith,
      a,
      b,
      c,
      sum_of-status db pid,
      count_of-status db pid pending_review,
      count_of-status db pid reported_emic,
      count_of-status db pid emic_processing,
      count_of-status db pid community_open,
      count_of-status db pid community_submitted,
      count_of-status db pid closed,
      count_of-status db pid dismissed,
    )
