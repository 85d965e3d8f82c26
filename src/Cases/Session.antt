-- ===== src/Cases/Session.antt =====
-- A service call on one case: it works on the live object of the case and on the database of the
-- open transaction, and may raise. What was written before a raise stays in the session until the
-- caller rolls back, so the state comes back beside the error.
use aidflow.Prelude.{String}
use aidflow.Models.{Db, IncidentCase}

-- The exceptions of apps/api/app/services/case_service.py and apps/api/app/domain/case_states.py.
pub data CaseError : Type 0 where
  invalid_transition : String → String → CaseError
  case_action : String → CaseError

pub data Result (A : Type 0) : Type 0 where
  ok : A → Result A
  err : CaseError → Result A

pub record Session : Type 0 where
  pub case : IncidentCase
  pub db : Db

abbrev pub Action : Type 0 → Type 0
Action A = Session → Result A × Session

abbrev pub pure : {A : Type 0} → A → Action A
pure a s = (ok a, s)

abbrev pub raise : {A : Type 0} → CaseError → Action A
raise e s = (err e, s)

abbrev pub continue : {A B : Type 0} → Result A → (A → Action B) → Action B
continue (ok a) f s = f a s
continue (err e) f s = (err e, s)

infixl 10 ◌>>=◌ ◌>>◌
abbrev pub ◌>>=◌ : {A B : Type 0} → Action A → (A → Action B) → Action B
◌>>=◌ m f s = let (r, s') = m s in continue r f s'

abbrev pub ◌>>◌ : {A B : Type 0} → Action A → Action B → Action B
m >> n = m >>= λ _. n

-- A change of attributes of the live object.
abbrev pub modify : (IncidentCase → IncidentCase) → Action (Unit {0})
modify f s = (ok tt, record s { case = f s.case })
