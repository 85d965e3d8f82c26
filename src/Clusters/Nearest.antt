-- ===== src/Clusters/Nearest.antt =====
-- The choice that `pick_cluster` of apps/api/app/services/cluster_service.py makes.
use mathlib.Core.Path.{subst}
use aidflow.Prelude.{
  ◌+◌, ◌≡◌, refl, sym, ◌∙◌, ap, ◌⊎◌, inl, inr, Bool, true, false, not, ◌&&◌, Option, none, some,
  List, [], ◌∷◌, arith, In, All, ltb, if◌then◌else◌, Bool-cases,
}
use aidflow.Models.{Double, Time}
use aidflow.Geo.{Float, IsOrdered}
use aidflow.Categories.{are_similar}
use aidflow.Clusters.Policy.{ClusterPolicy}
use aidflow.Clusters.Matching.{
  ClusterCandidate, Best, Query, minutes, distance_of, precedes, best_of, pick_step, pick_from,
  pick_cluster, candidate_of,
}

module _ (f : Float) (policy : ClusterPolicy) (q : Query) where
  -- Similar in category, within the time window on either side, and within the radius.
  abbrev pub matches : ClusterCandidate → Bool
  matches c =
      are_similar c.category q.category
      && not (ltb (c.last_reported_at + minutes policy.time_window_minutes) q.reported_at)
      && not (ltb (q.reported_at + minutes policy.time_window_minutes) c.last_reported_at)
      && not (f.lt (f.decimal policy.radius_meters 0) (distance_of f policy q c))

  abbrev entry : ClusterCandidate → Best
  entry c = record {
    distance = distance_of f policy q c;
    reported_at = c.last_reported_at;
    candidate = c;
  }

  pick_step_lem :
      (best : Option Best) (c : ClusterCandidate)
      → pick_step f policy q best c
        ≡ (if matches c then some (best_of f policy q best (entry c)) else best)
  unfolding pick_step
  pick_step_lem best c = ground arith

  chosen_by :
      (best : Option Best) (c : ClusterCandidate) (b : Bool)
      → ((if b then some (best_of f policy q best (entry c)) else best) ≡ best)
        ⊎ (((if b then some (best_of f policy q best (entry c)) else best) ≡ some (entry c))
            × (b ≡ true))
  unfolding best_of
  chosen_by none c true = inr (refl, refl)
  chosen_by (some old) c true =
      go (precedes f policy q (entry c).distance (entry c).reported_at old)
    where
      go :
          (p : Bool)
          → (some (if p then entry c else old) ≡ some old)
            ⊎ ((some (if p then entry c else old) ≡ some (entry c)) × (true ≡ true))
      go true = inr (refl, refl)
      go false = inl refl
  chosen_by best c false = inl refl

  -- Where the result comes from.
  abbrev FromList : Option Best → List ClusterCandidate → Option Best → Type 0
  FromList best cs r =
      (r ≡ best) ⊎ ((c : ClusterCandidate) × (r ≡ some (entry c)) × In c cs × (matches c ≡ true))

  from_step :
      (best : Option Best) (c : ClusterCandidate) (cs : List ClusterCandidate) (r : Option Best)
      → FromList (pick_step f policy q best c) cs r
      → FromList best (c ∷ cs) r
  from_step best c cs r (inr (d, e, m, k)) = inr (d, e, inr m, k)
  from_step best c cs r (inl e) = elim (chosen_by best c (matches c)) [
    | inl keep ↦ inl (e ∙ pick_step_lem best c ∙ keep)
    | inr (new, ok') ↦ inr (c, e ∙ pick_step_lem best c ∙ new, inl refl, ok')
  ]

  pick_from-FromList :
      (best : Option Best) (cs : List ClusterCandidate)
      → FromList best cs (pick_from f policy q best cs)
  unfolding pick_from
  pick_from-FromList best [] = inl refl
  pick_from-FromList best (c ∷ cs) =
      from_step best c cs (pick_from f policy q (pick_step f policy q best c) cs)
        (pick_from-FromList (pick_step f policy q best c) cs)

  -- Every distance that the loop compares is a number.
  abbrev pub AllNumbers : IsOrdered f → List ClusterCandidate → Type 0
  AllNumbers o cs = All (λ c. o.is_number (distance_of f policy q c) ≡ true) cs

module _ (f : Float) (o : IsOrdered f) (policy : ClusterPolicy) (q : Query) where
  -- Neither is `b` missing nor is the key better than that of `b`.
  abbrev NotBeaten : Double → Time → Option Best → Type 0
  NotBeaten d at none = ⊥
  NotBeaten d at (some b) = (precedes f policy q d at b ≡ false) × (o.is_number b.distance ≡ true)

  -- The best so far, if any, lies at a number.
  abbrev Numbered : Option Best → Type 0
  Numbered none = Unit
  Numbered (some b) = o.is_number b.distance ≡ true

  precedes_self :
      (b : Best)
      → o.is_number b.distance ≡ true
      → precedes f policy q b.distance b.reported_at b ≡ false
  unfolding precedes
  precedes_self b n =
      ground (arith, o.lt_rank b.distance b.distance, o.eq_rank b.distance b.distance)

  -- What does not beat the old best does not beat one that does.
  precedes_trans :
      (d : Double) (at : Time) (a b : Best)
      → o.is_number d ≡ true
      → o.is_number a.distance ≡ true
      → o.is_number b.distance ≡ true
      → precedes f policy q d at a ≡ false
      → precedes f policy q b.distance b.reported_at a ≡ true
      → precedes f policy q d at b ≡ false
  unfolding precedes
  precedes_trans d at a b m n p h k = ground (
    arith,
    o.lt_rank d a.distance,
    o.eq_rank d a.distance,
    o.lt_rank b.distance a.distance,
    o.eq_rank b.distance a.distance,
    o.lt_rank d b.distance,
    o.eq_rank d b.distance,
  )

  better_of :
      (d : Double) (at : Time) (old new : Best) (p : Bool)
      → precedes f policy q new.distance new.reported_at old ≡ p
      → o.is_number d ≡ true
      → o.is_number new.distance ≡ true
      → NotBeaten d at (some old)
      → NotBeaten d at (some (if p then new else old))
  better_of d at old new true e m n (h, k) = (precedes_trans d at old new m k n h e, n)
  better_of d at old new false e m n h = h

  new_of :
      (old new : Best) (p : Bool)
      → precedes f policy q new.distance new.reported_at old ≡ p
      → o.is_number old.distance ≡ true
      → o.is_number new.distance ≡ true
      → NotBeaten new.distance new.reported_at (some (if p then new else old))
  new_of old new true e m n = (precedes_self new n, n)
  new_of old new false e m n = (e, m)

  -- One round keeps what is not beaten,
  step_keeps :
      (d : Double) (at : Time) (best : Option Best) (c : ClusterCandidate)
      → o.is_number d ≡ true
      → o.is_number (distance_of f policy q c) ≡ true
      → NotBeaten d at best
      → NotBeaten d at (pick_step f policy q best c)
  unfolding best_of
  step_keeps d at none c m n h = absurd h
  step_keeps d at (some old) c m n h = rw pick_step_lem (elim (Bool-cases (matches f policy q c)) [
    | inl e ↦ rw e (better_of d at old (entry f policy q c) _ refl m n h)
    | inr e ↦ rw e h
  ])

  -- makes the candidate unbeaten where it matches,
  step_adds :
      (best : Option Best) (c : ClusterCandidate)
      → Numbered best
      → o.is_number (distance_of f policy q c) ≡ true
      → matches f policy q c ≡ true
      → NotBeaten (distance_of f policy q c) c.last_reported_at (pick_step f policy q best c)
  unfolding best_of
  step_adds none c m n e = rw (pick_step_lem, e) (precedes_self (entry f policy q c) n, n)
  step_adds (some old) c m n e = rw (pick_step_lem, e) (new_of old (entry f policy q c) _ refl m n)

  -- and stays at numbers.
  step-Numbered :
      (best : Option Best) (c : ClusterCandidate)
      → Numbered best
      → o.is_number (distance_of f policy q c) ≡ true
      → Numbered (pick_step f policy q best c)
  step-Numbered best c m n = elim (chosen_by f policy q best c (matches f policy q c)) [
    | inl keep ↦ rw (pick_step_lem, keep) m
    | inr (new, _) ↦ rw (pick_step_lem, new) n
  ]

  pick_keeps :
      (d : Double) (at : Time) (best : Option Best) (cs : List ClusterCandidate)
      → o.is_number d ≡ true
      → AllNumbers f policy q o cs
      → NotBeaten d at best
      → NotBeaten d at (pick_from f policy q best cs)
  unfolding pick_from
  pick_keeps d at best [] m a h = h
  pick_keeps d at best (c ∷ cs) m (n, a) h =
      pick_keeps d at (pick_step f policy q best c) cs m a (step_keeps d at best c m n h)

  pick_adds :
      (best : Option Best) (cs : List ClusterCandidate) (c : ClusterCandidate)
      → Numbered best
      → AllNumbers f policy q o cs
      → In c cs
      → matches f policy q c ≡ true
      → NotBeaten (distance_of f policy q c) c.last_reported_at (pick_from f policy q best cs)
  unfolding pick_from
  pick_adds best [] c m a i k = elim i [ ]
  pick_adds best (x ∷ cs) c m (n, a) (inl e) k =
      subst
        (λ y.
          matches f policy q y ≡ true
          → NotBeaten (distance_of f policy q y) y.last_reported_at
              (pick_from f policy q (pick_step f policy q best x) cs))
        e
        (λ k'.
          pick_keeps (distance_of f policy q x) x.last_reported_at (pick_step f policy q best x) cs
            n a (step_adds best x m n k'))
        k
  pick_adds best (x ∷ cs) c m (n, a) (inr i) k =
      pick_adds (pick_step f policy q best x) cs c (step-Numbered best x m n) a i k

  none_ne : {b : Best} → none ≡ some b → ⊥
  none_ne h = cc

  -- The answer is right for the candidates.
  abbrev pub Picked : List ClusterCandidate → Option ClusterCandidate → Type 0
  Picked cs r =
      ((r ≡ none) × All (λ c. matches f policy q c ≡ false) cs)
      ⊎ ((b : ClusterCandidate) × (r ≡ some b)
          × In b cs
          × (matches f policy q b ≡ true)
          × ((c : ClusterCandidate)
              → In c cs
              → matches f policy q c ≡ true
              → precedes f policy q (distance_of f policy q c) c.last_reported_at
                  (entry f policy q b)
                ≡ false))

  -- A report joins no cluster exactly where no candidate matches it (similar in category, within
  -- the time window and within the radius). Otherwise the answer is a candidate that matches, and
  -- no matching candidate is nearer, or as near and reported more recently.
  pub pick_cluster_lem :
      (cs : List ClusterCandidate)
      → AllNumbers f policy q o cs
      → Picked cs (pick_cluster f policy q cs)
  unfolding pick_cluster
  pick_cluster_lem cs a = go (pick_from f policy q none cs) refl
    where
      none_match :
          (cs' : List ClusterCandidate)
          → ((c : ClusterCandidate) → In c cs' → matches f policy q c ≡ true → ⊥)
          → All (λ c. matches f policy q c ≡ false) cs'
      none_match [] h = tt
      none_match (c ∷ cs') h = (
        elim (Bool-cases (matches f policy q c)) [ inl e ↦ absurd (h c (inl refl) e) | inr e ↦ e ],
        none_match cs' (λ d i. h d (inr i)),
      )

      unbeaten :
          (r : Option Best)
          → pick_from f policy q none cs ≡ r
          → (c : ClusterCandidate) → In c cs
          → matches f policy q c ≡ true
          → NotBeaten (distance_of f policy q c) c.last_reported_at r
      unbeaten r e c i k =
          subst (λ t. NotBeaten (distance_of f policy q c) c.last_reported_at t) e
            (pick_adds none cs c tt a i k)

      go :
          (r : Option Best)
          → pick_from f policy q none cs ≡ r
          → Picked cs (candidate_of f policy q r)
      go none e = inl (refl, none_match cs (λ c i k. unbeaten none e c i k))
      go (some b) e = elim (pick_from-FromList f policy q none cs) [
        | inl none' ↦ absurd (none_ne (sym none' ∙ e))
        | inr (c, p, i, k) ↦ inr (
          c,
          ap (λ (t : Option Best). candidate_of f policy q t) (sym e ∙ p),
          i,
          k,
          λ d j l. (unbeaten (some (entry f policy q c)) p d j l).0,
        )
      ]
