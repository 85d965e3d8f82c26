-- ===== src/Console/Examples.antt =====
-- An officer reviews the case of Cases.Examples, and looks at it.
use mathlib.Core.Path.{subst}
use aidflow.Prelude.{◌≡◌, ◌⊎◌, true, none, some, [], ◌∷◌, some_inj, sym, ◌∙◌}
use aidflow.Models.{IncidentCase}
use aidflow.Accounts.Rows.{Claims}
use aidflow.Accounts.Examples.{unicode, office, crypto, claims}
use aidflow.Access.Examples.{request, production}
use aidflow.Cases.Actions.{failed}
use aidflow.Cases.Queries.{get_case}
use aidflow.Cases.History.{IsConsistent}
use aidflow.Cases.Examples.{newborn, newborn_found, newborn-IsConsistent}
use aidflow.Platforms.Rows.{Site}
use aidflow.Platforms.Examples.{row}
use aidflow.Notices.Examples.{outside}
use aidflow.Portal.Examples.{patterns}
use aidflow.Console.{Api, Command, reviews, act}
use aidflow.Console.Safe.{Untouched, CarriedOut, act_lem}
use aidflow.Console.Records.{view_case, view_report}
use aidflow.Console.Privacy.{Screened, alone, view_lem}

-- The clerk of the office, who is an officer, holds the token.
abbrev officer_claims : Claims
officer_claims = record claims { sub = 2 }

abbrev api : Api
api = record {
  uni = unicode;
  crypto = record crypto { decode = λ now t. some officer_claims };
  cfg = production;
  accounts = office;
  now = 1750000100000000;
  emic = record { is_api = true; submit = λ c d. failed "timeout" };
  out = outside;
}

abbrev site : Site
site = record { platforms = row 1 10 [] ∷ []; configs = []; groups = []; db = newborn.db }

abbrev to_community : Command
to_community = reviews "community" none

sound :
    (c : IncidentCase)
    → get_case site.db newborn.case.id ≡ some c
    → IsConsistent (record { case = c; db = site.db })
sound c h =
    subst (λ (d : IncidentCase). IsConsistent (record { case = d; db = newborn.db }))
      (some_inj (sym newborn_found ∙ h)) newborn-IsConsistent.0

-- The officer may do so.
act_lem_example :
    Untouched api request site newborn.case.id to_community
      (act api request site newborn.case.id to_community)
    ⊎ CarriedOut api request site newborn.case.id to_community
        (act api request site newborn.case.id to_community)
act_lem_example = act_lem api request site newborn.case.id to_community sound

view_lem_example :
    Screened (λ v. v.reports) api request site (view_case patterns api request site newborn.case.id)
    × Screened alone api request site (view_report patterns api request site newborn.case.id)
view_lem_example = view_lem patterns api request site newborn.case.id
