-- ===== src/Reasoning/Storage/Tables.antt =====
-- src/reasoning/storage.rs: the tables of deployments and manual validations.
use ai_sre.Prelude.{ℕ, Bool, Option, List, [], Text}

-- a row of `deployment_receipt_audit`
pub record AuditRow : Type 0 where
  pub receipt_digest : Text
  pub receipt_json : Text

-- a row of `qualified_deployments`
pub record DeploymentRow : Type 0 where
  pub deployment_id : Text
  pub receipt_digest : Text
  pub receipt_json : Text
  pub eligible : Bool

-- a row of `manual_validation_attempts`
pub record AttemptRow : Type 0 where
  pub artifact_digest : Text
  pub request_json : Text
  pub receipt_json : Option Text

-- a row of `manual_validation_recoveries`, in the order of its sequence
pub record RecoveryRow : Type 0 where
  pub artifact_digest : Text
  pub request_digest : Text
  pub request_json : Text
  pub receipt_json : Option Text
  pub operator_uid : ℕ
  pub operator_gid : ℕ
  pub reason : Text
  pub recovered_at : ℕ

pub record Reviews : Type 0 where
  pub audits : List AuditRow
  pub deployments : List DeploymentRow
  pub attempts : List AttemptRow
  pub recoveries : List RecoveryRow

abbrev pub no_reviews : Reviews
no_reviews = record { audits = []; deployments = []; attempts = []; recoveries = [] }
