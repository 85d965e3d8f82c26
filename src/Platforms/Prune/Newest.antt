-- ===== src/Platforms/Prune/Newest.antt =====
-- Which platforms `prune_generated` keeps.
use aidflow.Prelude.{
  ℕ, zero, suc, ◌+◌, ◌-◌, ◌≤◌, ◌≡◌, refl, ap, ◌∙◌, inl, inr, Bool, true, false, not, ◌&&◌, Option,
  none, some, List, [], ◌∷◌, any, select, count, length, ◌==◌, In, Bool-cases, arith, sort_with,
  sort_with-IsChain, select-IsChain, IsChain, count-sort_with, count-select, count-split, count-ext,
  count-In, any-count,
}
use aidflow.Platforms.Rows.{PlatformRow, Site}
use aidflow.Platforms.Manage.{newer}
use aidflow.Platforms.Prune.{
  DemoSettings, is_disposable, drop_first, disposable, delete_platform, delete_all, limit_of,
  gone_for, retired, prune_generated,
}

-- No identifier is taken twice.
abbrev pub AreUnique : List PlatformRow → Type 0
AreUnique ps = (x : ℕ) → count (λ p. p.id == x) ps ≤ 1

abbrev pub take_first : ℕ → List PlatformRow → List PlatformRow
take_first zero ps = []
take_first (suc n) [] = []
take_first (suc n) (p ∷ ps) = p ∷ take_first n ps

abbrev is_in : List PlatformRow → PlatformRow → Bool
is_in gone p = any (λ g. g.id == p.id) gone

count-delete_all :
    (q : PlatformRow → Bool) (gone : List PlatformRow) (s : Site)
    → count q (delete_all gone s).platforms ≡ count (λ p. not (is_in gone p) && q p) s.platforms
unfolding delete_all delete_platform
count-delete_all q [] s = refl
count-delete_all q (g ∷ gone) s =
    count-delete_all q gone (delete_platform g.id s)
    ∙ count-select (λ p. not (is_in gone p) && q p) (λ p. not (p.id == g.id)) s.platforms
    ∙ count-ext _ _ s.platforms (λ p _. ground arith)

count-parts :
    (q : PlatformRow → Bool) (n : ℕ) (ps : List PlatformRow)
    → count q ps ≡ count q (take_first n ps) + count q (drop_first n ps)
count-parts q zero ps = omega arith
count-parts q (suc n) [] = omega arith
count-parts q (suc n) (p ∷ ps) = ground (arith, count-parts q n ps)

count-none :
    (q : PlatformRow → Bool) (ps : List PlatformRow)
    → ((p : PlatformRow) → In p ps → q p ≡ false)
    → count q ps ≡ 0
count-none q [] h = refl
count-none q (p ∷ ps) h = ground (arith, h p (inl refl), count-none q ps (λ x i. h x (inr i)))

In-is_in : (p : PlatformRow) (gone : List PlatformRow) → In p gone → is_in gone p ≡ true
In-is_in p [] i = absurd i
In-is_in p (g ∷ gone) (inl e) = let k = ap (λ x. x.id) e in ground (arith, k)
In-is_in p (g ∷ gone) (inr i) = ground (arith, In-is_in p gone i)

module _ (disp q : PlatformRow → Bool) (n : ℕ) (ps : List PlatformRow) (u : AreUnique ps) where
  abbrev able : List PlatformRow
  able = select disp ps

  abbrev gone : List PlatformRow
  gone = drop_first n able

  -- The number of platforms with an identifier among those that go and those that stay.
  by_id :
      (x : ℕ)
      → count (λ p. p.id == x) (take_first n able)
          + count (λ p. p.id == x) gone
          + count (λ p. not (disp p) && p.id == x) ps
        ≤ 1
  by_id x = omega (
    arith,
    u x,
    count-split (λ p. p.id == x) disp ps,
    count-select (λ p. p.id == x) disp ps,
    count-parts (λ p. p.id == x) n able,
  )

  stays : (p : PlatformRow) → In p (take_first n able) → is_in gone p ≡ false
  stays p i = elim (Bool-cases (is_in gone p)) [
    | inr e ↦ e
    | inl e ↦ absurd (
        omega (
          arith,
          by_id p.id,
          any-count (λ g. g.id == p.id) gone e,
          count-In (λ x. x.id == p.id) p (take_first n able) i (ground arith),
        ))
  ]

  stays_too : (p : PlatformRow) → In p ps → disp p ≡ false → is_in gone p ≡ false
  stays_too p i d = elim (Bool-cases (is_in gone p)) [
    | inr e ↦ e
    | inl e ↦ absurd (
        omega (
          arith,
          by_id p.id,
          any-count (λ g. g.id == p.id) gone e,
          count-In (λ x. not (disp x) && x.id == p.id) p ps i (ground (arith, d)),
        ))
  ]

  count-kept :
      count (λ p. not (is_in gone p) && q p) ps
      ≡ count (λ p. not (disp p) && q p) ps + count q (take_first n able)
  count-kept = omega (
    arith,
    count-split (λ p. not (is_in gone p) && q p) disp ps,
    count-select (λ p. not (is_in gone p) && q p) disp ps,
    count-parts (λ p. not (is_in gone p) && q p) n able,
    count-ext (λ p. not (is_in gone p) && q p) q (take_first n able)
        (λ p i. ap (λ b. not b && q p) (stays p i)),
    count-none (λ p. not (is_in gone p) && q p) gone
        (λ p i. ap (λ b. not b && q p) (In-is_in p gone i)),
    count-ext (λ p. not (disp p) && (not (is_in gone p) && q p)) (λ p. not (disp p) && q p) ps
        (λ p i. agree p i),
  )
    where
      agree :
          (p : PlatformRow)
          → In p ps
          → (not (disp p) && (not (is_in gone p) && q p)) ≡ (not (disp p) && q p)
      agree p i = elim (Bool-cases (disp p)) [
        | inl e ↦ ground (arith, e)
        | inr e ↦ ground (arith, e, stays_too p i e)
      ]

newer-total : (a b : PlatformRow) → newer a b ≡ false → newer b a ≡ true
newer-total a b h = ground (arith, h)

newer_trans : (a b c : PlatformRow) → newer a b ≡ true → newer b c ≡ true → newer a c ≡ true
newer_trans a b c h k = ground (arith, h, k)

-- What is left when platforms go: those that may not go, and the newest of the others.
pub record Keeps (n : ℕ) (protect : List ℕ) (s s' : Site) : Type 0 where
  pub newest : IsChain newer (disposable protect s)
  pub left :
      (q : PlatformRow → Bool)
      → count q s'.platforms
        ≡ count (λ p. not (is_disposable protect p) && q p) s.platforms
          + count q (take_first n (disposable protect s))

abbrev pub Pruned : Bool → Option ℕ → List ℕ → Site → Site → Type 0
Pruned false limit protect s s' = s' ≡ s
Pruned true none protect s s' = s' ≡ s
Pruned true (some n) protect s s' = Keeps (n - length protect) protect s s'

sorted-AreUnique : (ps : List PlatformRow) → AreUnique ps → AreUnique (sort_with newer ps)
sorted-AreUnique ps u x = omega (arith, u x, count-sort_with newer (λ p. p.id == x) ps)

gone_for_lem :
    (b : Bool) (o : Option ℕ) (protect : List ℕ) (s : Site)
    → AreUnique s.platforms
    → Pruned b o protect s (delete_all (gone_for b o protect s) s)
unfolding gone_for disposable delete_all
gone_for_lem false o protect s u = refl
gone_for_lem true none protect s u = refl
gone_for_lem true (some n) protect s u = record {
  newest =
      select-IsChain newer newer_trans (is_disposable protect) (sort_with newer s.platforms)
        (sort_with-IsChain newer newer-total s.platforms);
  left = λ q. omega (
    arith,
    count-delete_all q (drop_first (n - length protect) (disposable protect s)) s,
    count-sort_with newer
        (λ p. not (is_in (drop_first (n - length protect) (disposable protect s)) p) && q p)
        s.platforms,
    count-sort_with newer (λ p. not (is_disposable protect p) && q p) s.platforms,
    count-kept (is_disposable protect) q (n - length protect) (sort_with newer s.platforms)
        (sorted-AreUnique s.platforms u),
  );
}

-- In demo mode, with a limit that is not negative, `prune_generated` keeps every platform that
-- carries a demo key or is protected and, of the others, the newest, as many as the limit, which each
-- protected identifier lowers by one down to zero; so a limit of zero keeps none of the others. It
-- adds no platform, and it does nothing without demo mode or with a negative limit. The platforms
-- have different identifiers.
pub prune_generated_lem :
    (settings : DemoSettings) (keep : Option (Option ℕ)) (protect : List ℕ) (s : Site)
    → AreUnique s.platforms
    → Pruned settings.demo_mode
        (limit_of settings keep)
        protect
        s
        (prune_generated settings keep protect s).0
unfolding prune_generated retired
prune_generated_lem settings keep protect s u =
    gone_for_lem settings.demo_mode (limit_of settings keep) protect s u
