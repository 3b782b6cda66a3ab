-- ===== src/Reasoning/Journal.antt =====
-- src/reasoning/journal.rs: the facts of the append-only incident journal.
pub mod Projection
use ai_sre.Prelude.{ℕ, Bool, Option, none, List, [], ◌∷◌, ◌++◌, length, Text}
use ai_sre.Prelude.Map.{Map}
use ai_sre.Reasoning.Coordinator.{AttemptRecord}
use ai_sre.Reasoning.Incident.{AlertStatus}
use ai_sre.Reasoning.Router.{ProviderKind}

pub data Phase : Type 0 where
  investigation reasoning human_wait execution : Phase

pub data DeploymentQualificationReason : Type 0 where
  qualified failed_initial_assessment revoked contradictory_receipt : DeploymentQualificationReason

pub data ManualValidationStage : Type 0 where
  response_failed reserved receipt_received recovery_authorized : ManualValidationStage

-- src/reasoning/evidence.rs
pub data EvidenceSource : Type 0 where
  grafana_logs grafana_metrics git_desired_state deployment_history health : EvidenceSource
  observability_metadata : EvidenceSource

-- src/reasoning/tools.rs
pub data ToolResultClass : Type 0 where
  succeeded denied truncated stale exhausted unavailable : ToolResultClass

-- The arguments stand in the order of the source's fields.
pub data JournalEvent : Type 0 where
  manual_handoff_acknowledged :
      (handoff_digest artifact_digest : Text)
      → (operator_uid operator_gid offered_at_unix_seconds acknowledged_at_unix_seconds : ℕ)
      → JournalEvent
  manual_validation :
      (artifact_digest request_digest : Text)
      → (stage : ManualValidationStage) → (at_unix_seconds response_elapsed_ms : Option ℕ)
      → JournalEvent
  manual_repair_validated :
      (handoff_digest artifact_digest : Text) → (at_unix_seconds : ℕ) → JournalEvent
  manual_repair_prepared :
      (artifact_digest qualification_digest : Text) → (at_unix_seconds : ℕ) → JournalEvent
  deployment_qualification :
      (deployment_id receipt_digest : Text)
      → (eligible : Bool) → (reason : Option DeploymentQualificationReason) → (at_unix_seconds : ℕ)
      → JournalEvent
  incident_opened :
      (incident_id alert_name : Text)
      → (labels annotations : Map Text) → (event_time source_event_id : Text) → JournalEvent
  alert_deduplicated : (incident_id event_time source_event_id : Text) → JournalEvent
  alert_out_of_order :
      (incident_id : Text)
      → (status : AlertStatus) → (event_time source_event_id : Text) → JournalEvent
  incident_recovered : (incident_id event_time source_event_id : Text) → JournalEvent
  incident_completed : (incident_id : Text) → JournalEvent
  incident_resumed : (incident_id event_time source_event_id : Text) → JournalEvent
  evidence_committed :
      (evidence_id : Text)
      → (source : EvidenceSource) → (content_digest : Option Text) → (at_ms : ℕ) → JournalEvent
  phase_started phase_finished : (phase : Phase) → (at_ms : ℕ) → JournalEvent
  provider_attempt : AttemptRecord → JournalEvent
  tool_requested :
      (provider : ProviderKind)
      → (call_id tool query_digest : Text) → (evidence_queries_before at_ms : ℕ) → JournalEvent
  tool_context :
      (provider : ProviderKind)
      → (call_id tool query_digest : Text) → (result_class : ToolResultClass)
      → (elapsed_ms output_bytes evidence_queries_before evidence_queries_after at_ms : ℕ)
      → JournalEvent
  terminal : (provider : Option ProviderKind) → JournalEvent

pub record JournalContext : Type 0 where
  pub incident_id : Text
  pub run_id : Text

pub record JournalEntry : Type 0 where
  pub sequence : ℕ
  pub context : Option JournalContext
  pub event : JournalEvent

-- `IncidentJournal::append`, without the store
unfoldable pub append : List JournalEntry → JournalEvent → List JournalEntry
append entries event =
    entries ++ record { sequence = length entries; context = none; event = event } ∷ []
