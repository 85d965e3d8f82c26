-- ===== src/Reports/Rows.antt =====
-- What an intake is given and answers: apps/api/app/services/report_service.py.
use aidflow.Prelude.{ℕ, String, Bool, Option, List}
use aidflow.Models.{Platform, Double}
use aidflow.Privacy.{Hashing}
use aidflow.Clusters.Policy.{RawPolicy}
use aidflow.Clusters.Process.{Processed}

-- What the intake reads of a platform besides its columns: the keys of its `report_categories`, its
-- cluster policy, and the town centres of its county.
pub record Setup : Type 0 where
  pub platform : Platform
  pub category_keys : List String
  pub policy : RawPolicy
  pub towns : List (String × Double × Double)

-- The fields of `ReportCreate` that the intake reads.
pub record ReportCreate : Type 0 where
  pub category : String
  pub description : Option String
  pub severity : Option String
  pub lat : Option Double
  pub lon : Option Double
  pub town : Option String
  pub address : Option String
  pub reporter_role : String
  pub reporter_name : Option String
  pub reporter_contact : Option String
  pub reporter_email : Option String
  pub notify_opt_in : Bool

-- The hash that makes the key of a reporter, and `secrets.token_urlsafe`.
pub record Secrets : Type 0 where
  pub hashing : Hashing
  pub token : ℕ → String

pub data IntakeError : Type 0 where
  platform_not_accepting : IntakeError
  invalid_category : String → List String → IntakeError
  -- an exception that is none of the service's own: the transaction is rolled back
  failed : IntakeError

-- The identifier of the report, with what `process_report` left, or an exception.
pub data IntakeResult : Type 0 where
  stored : ℕ → Processed → IntakeResult
  refused : IntakeError → IntakeResult
