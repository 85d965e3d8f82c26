-- ===== src/Situation/Trend.antt =====
-- The hours of the trend.
use aidflow.Prelude.{
  ℕ, zero, suc, ◌+◌, ◌-◌, ◌*◌, ◌%◌, ◌≤◌, ◌≡◌, refl, sym, ◌∙◌, ap, Bool, ◌&&◌, List, [], ◌∷◌, map,
  arith, count, leb, ltb, ◌==◌, if◌then◌else◌, Bool-cases, inl, inr,
}
use aidflow.Models.{Db, Report, IncidentCase, Time}
use aidflow.Situation.Buckets.{
  Bucket, hour, hour_of, empty_bucket, empty_buckets, tick, tick_all, more_reports, more_created,
  more_resolved, first_hour, from_time, closing_times, cases_in, reports_in, trend_buckets,
}

-- A moment is in the hour that starts at a moment.
abbrev pub in_hour : Time → Time → Bool
in_hour start t = leb start t && ltb t (start + hour)

-- One bucket for each of `n` hours from `start` on, as a function of its start.
abbrev pub each_hour : (Time → Bucket) → Time → ℕ → List Bucket
each_hour g start zero = []
each_hour g start (suc n) = g start ∷ each_hour g (start + hour) n

-- What the bucket of an hour should hold: the number of reports of the platform made in this hour, of
-- cases made in it, and of cases closed in it.
abbrev pub bucket_at : Db → ℕ → Time → Bucket
bucket_at db pid start = record {
  start = start;
  reports = count (λ r. in_hour start r.created_at) (reports_in pid db);
  cases_created = count (λ c. in_hour start c.created_at) (cases_in pid db);
  cases_resolved = count (in_hour start) (closing_times (cases_in pid db));
}

each_hour-eq :
    (g h : Time → Bucket) (start n : ℕ)
    → start % hour ≡ 0
    → ((t : Time) → start ≤ t → t % hour ≡ 0 → g t ≡ h t)
    → each_hour g start n ≡ each_hour h start n
each_hour-eq g h start zero full e = refl
each_hour-eq g h start (suc n) full e =
    let rest =
      each_hour-eq g h (start + hour) n (omega (arith, full))
        (λ t le k. e t (omega (arith, le)) k) in
    let now = e start (omega arith) full in λ i. now i ∷ rest i

each_hour-empty : (start n : ℕ) → empty_buckets start n ≡ each_hour empty_bucket start n
unfolding empty_buckets
each_hour-empty start zero = refl
each_hour-empty start (suc n) = λ i. empty_bucket start ∷ each_hour-empty (start + hour) n i

-- A step `f` of a bucket that adds to one of its columns; `add n` are `n` of them.
record Adds (f : Bucket → Bucket) (add : ℕ → Bucket → Bucket) : Type 0 where
  none : (b : Bucket) → add 0 b ≡ b
  more : (n : ℕ) (b : Bucket) → add n (f b) ≡ add (n + 1) b
  kept : (n : ℕ) (b : Bucket) → (add n b).start ≡ b.start
  step : (b : Bucket) → (f b).start ≡ b.start

module _ (f : Bucket → Bucket) (add : ℕ → Bucket → Bucket) (adds : Adds f add) where
  abbrev ticked : Time → (Time → Bucket) → Time → Bucket
  ticked t g u = if u == t then f (g u) else g u

  ticked-past :
      (t : Time) (g : Time → Bucket) (start n : ℕ)
      → start % hour ≡ 0
      → t + 1 ≤ start
      → each_hour (ticked t g) start n ≡ each_hour g start n
  ticked-past t g start n full lt =
      each_hour-eq (ticked t g) g start n full (λ u le k. ground (arith, lt, le))

  tick-each :
      (t : Time) (g : Time → Bucket) (start n : ℕ)
      → ((u : Time) → (g u).start ≡ u)
      → start % hour ≡ 0
      → tick f t (each_hour g start n) ≡ each_hour (ticked t g) start n
  unfolding tick
  tick-each t g start zero at full = refl
  tick-each t g start (suc n) at full =
      let later = each_hour g (start + hour) n in
      elim (Bool-cases (start == t)) [
        | inl e ↦
            let past = ticked-past t g (start + hour) n (omega (arith, full)) (ground (arith, e)) in
            ap (λ k. if k == t then f (g start) ∷ later else g start ∷ tick f t later) (at start)
            ∙ rw e (λ i. f (g start) ∷ sym past i)
        | inr e ↦
            let rest = tick-each t g (start + hour) n at (omega (arith, full)) in
            ap (λ k. if k == t then f (g start) ∷ later else g start ∷ tick f t later) (at start)
            ∙ rw e (λ i. g start ∷ rest i)
      ]

  abbrev filled : List Time → (Time → Bucket) → Time → Bucket
  filled ts g u = add (count (λ t. hour_of t == u) ts) (g u)

  tick_all-each :
      (ts : List Time) (g : Time → Bucket) (start n : ℕ)
      → ((u : Time) → (g u).start ≡ u)
      → start % hour ≡ 0
      → tick_all f ts (each_hour g start n) ≡ each_hour (filled ts g) start n
  unfolding tick_all
  tick_all-each [] g start n at full =
      each_hour-eq g (filled [] g) start n full (λ u le k. sym (adds.none (g u)))
  tick_all-each (t ∷ ts) g start n at full =
      let first = tick-each (hour_of t) g start n at full in
      let rest =
        tick_all-each ts (ticked (hour_of t) g) start n (λ u. ground (arith, at u, adds.step (g u)))
          full in
      ap (tick_all f ts) first
      ∙ rest
      ∙ each_hour-eq (filled ts (ticked (hour_of t) g)) (filled (t ∷ ts) g) start n full
          (λ u le k. ground (arith, adds.more (count (λ s. hour_of s == u) ts) (g u)))

-- In an hour from `start` on, the rows before `start` do not count.
count-from_time :
    (start u : Time) (ts : List Time)
    → start ≤ u
    → u % hour ≡ 0
    → 0 + count (λ t. hour_of t == u) (from_time start ts) ≡ count (in_hour u) ts
count-from_time start u [] le full = omega arith
count-from_time start u (t ∷ ts) le full =
    ground (arith, count-from_time start u ts le full, le, full)

count-map :
    {A : Type 0} (f : A → Time) (p : Time → Bool) (xs : List A)
    → count p (map f xs) ≡ count (λ x. p (f x)) xs
count-map f p [] = refl
count-map f p (x ∷ xs) = ground (arith, count-map f p xs)

abbrev add_reports : ℕ → Bucket → Bucket
add_reports n b = record b { reports = b.reports + n }

abbrev add_created : ℕ → Bucket → Bucket
add_created n b = record b { cases_created = b.cases_created + n }

abbrev add_resolved : ℕ → Bucket → Bucket
add_resolved n b = record b { cases_resolved = b.cases_resolved + n }

reports-Adds : Adds more_reports add_reports
reports-Adds = record {
  none = λ b. ap (λ x. record b { reports = x }) (omega arith);
  more = λ n b. ap (λ x. record b { reports = x }) (omega arith);
  kept = λ n b. refl;
  step = λ b. refl;
}

created-Adds : Adds more_created add_created
created-Adds = record {
  none = λ b. ap (λ x. record b { cases_created = x }) (omega arith);
  more = λ n b. ap (λ x. record b { cases_created = x }) (omega arith);
  kept = λ n b. refl;
  step = λ b. refl;
}

resolved-Adds : Adds more_resolved add_resolved
resolved-Adds = record {
  none = λ b. ap (λ x. record b { cases_resolved = x }) (omega arith);
  more = λ n b. ap (λ x. record b { cases_resolved = x }) (omega arith);
  kept = λ n b. refl;
  step = λ b. refl;
}

-- The trend has one bucket for each of the hours up to the current one, in their order, and each bucket
-- holds the number of reports of the platform that were made in its hour, of its cases that were made in
-- it, and of its cases that were closed in it.
pub trend_buckets_lem :
    (db : Db) (pid now hours : ℕ)
    → trend_buckets db pid now hours
      ≡ each_hour (bucket_at db pid) (hour_of now + hour - hours * hour) hours
unfolding trend_buckets
trend_buckets_lem db pid now hours =
    let start = first_hour now hours in
    let full : start % hour ≡ 0 = omega arith in
    let ts = map (λ r. r.created_at) (reports_in pid db) in
    let us = map (λ c. c.created_at) (cases_in pid db) in
    let vs = closing_times (cases_in pid db) in
    let zero_at = λ (t : Time). empty_bucket t in
    let one = filled more_reports add_reports reports-Adds (from_time start ts) zero_at in
    let two = filled more_created add_created created-Adds (from_time start us) one in
    let three = filled more_resolved add_resolved resolved-Adds (from_time start vs) two in
    ap
      (λ bs. tick_all more_resolved (from_time start vs) (
        tick_all more_created (from_time start us) (tick_all more_reports (from_time start ts) bs)))
      (each_hour-empty start hours)
    ∙ ap
        (λ bs.
          tick_all more_resolved (from_time start vs)
            (tick_all more_created (from_time start us) bs))
        (tick_all-each more_reports add_reports reports-Adds (from_time start ts) zero_at start
          hours (λ u. refl) full)
    ∙ ap (tick_all more_resolved (from_time start vs)) (
        tick_all-each more_created add_created created-Adds (from_time start us) one start hours
          (λ u. refl) full)
    ∙ tick_all-each more_resolved add_resolved resolved-Adds (from_time start vs) two start hours
        (λ u. refl) full
    ∙ each_hour-eq three (bucket_at db pid) start hours full (λ u le k. λ i. record {
      start = u;
      reports =
          (count-from_time start u ts le k
              ∙ count-map (λ (r : Report). r.created_at) (in_hour u) (reports_in pid db))
            i;
      cases_created =
          (count-from_time start u us le k
              ∙ count-map (λ (c : IncidentCase). c.created_at) (in_hour u) (cases_in pid db))
            i;
      cases_resolved = count-from_time start u vs le k i;
    })
