-- ===== src/Cases/Keeps.antt =====
-- Invariants of the actions of a case, one rule for each way to build an action.
use aidflow.Prelude.{Bool, true, false, if◌then◌else◌}
use aidflow.Cases.Session.{
  CaseError, Result, ok, err, Session, Action, pure, raise, continue, ◌>>=◌,
}

-- Whether the action returns or raises, what it leaves satisfies `P`.
pub record Keeps {A : Type 0} (P : Session → Type 0) (m : Action A) : Type 0 where
  pub at : (s : Session) → P s → P (m s).1

module _ {A B : Type 0} {P : Session → Type 0} where
  keeps_continue :
      (r : Result A) (f : A → Action B) (s : Session)
      → ((a : A) → Keeps P (f a))
      → P s
      → P (continue r f s).1
  keeps_continue (ok a) f s k h = (k a).at s h
  keeps_continue (err e) f s k h = h

  pub Keeps-bind :
      (m : Action A) (f : A → Action B) → Keeps P m → ((a : A) → Keeps P (f a)) → Keeps P (m >>= f)
  Keeps-bind m f km kf = record {
    at = λ s h. let (r, s') = m s in keeps_continue r f s' kf (km.at s h);
  }

module _ {A : Type 0} {P : Session → Type 0} where
  pub Keeps-pure : (a : A) → Keeps P (pure a)
  Keeps-pure a = record { at = λ s h. h }

  pub Keeps-raise : (e : CaseError) → Keeps P (raise {A = A} e)
  Keeps-raise e = record { at = λ s h. h }

  pub Keeps-if : (b : Bool) (m n : Action A) → Keeps P m → Keeps P n → Keeps P (if b then m else n)
  Keeps-if true m n km kn = km
  Keeps-if false m n km kn = kn

  -- A guard that raises before anything is written.
  pub Keeps-guard :
      (b : Session → Bool) (e : CaseError) (m : Action A)
      → Keeps P m
      → Keeps P (λ s. if b s then (err e, s) else m s)
  Keeps-guard b e m k = record { at = λ s h. go (b s) s h }
    where
      go : (c : Bool) (s : Session) → P s → P (if c then (err e, s) else m s).1
      go true s h = h
      go false s h = k.at s h

pub ruleset keeps_rules = (Keeps-bind, Keeps-pure, Keeps-raise, Keeps-if)
