-- ===== src/Reasoning/Journal/Projection.antt =====
-- src/reasoning/journal.rs: the efficiency metrics, rebuilt from the facts. A sum that the code does
-- not saturate wraps at its width.
pub mod Counts
mod Examples
use ai_sre.Prelude.{
  ℕ, ◌+◌, ◌-◌, ◌^◌, ◌%◌, Bool, true, false, ◌&&◌, Option, none, some, List, [], ◌∷◌, max, leb, Text,
  same_text, text_lt, if◌then◌else◌,
}
use ai_sre.Reasoning.Budget.{saturating_add_u64}
use ai_sre.Reasoning.Coordinator.{AttemptRecord}
use ai_sre.Reasoning.Journal.{
  Phase, investigation, reasoning, human_wait, execution, JournalEvent, JournalEntry,
  JournalContext, ManualValidationStage, response_failed, reserved, receipt_received,
  recovery_authorized, ToolResultClass, succeeded, manual_handoff_acknowledged, manual_validation,
  manual_repair_validated, manual_repair_prepared, phase_started, phase_finished, provider_attempt,
  tool_context, terminal, incident_opened, alert_deduplicated, alert_out_of_order,
  incident_recovered,
}
use ai_sre.Reasoning.Router.{ProviderKind}

pub record EfficiencyProjection : Type 0 where
  pub manual_validation_timed_failed_responses : ℕ
  pub manual_handoff_acknowledgements : ℕ
  pub manual_handoff_timed_acknowledgements : ℕ
  pub manual_handoff_wait_seconds : ℕ
  pub manual_validation_failed_responses : ℕ
  pub manual_validation_failed_response_ms : ℕ
  pub manual_validation_timed_receipts : ℕ
  pub manual_validation_response_ms : ℕ
  pub manual_validation_reservations : ℕ
  pub manual_validation_receipts : ℕ
  pub manual_validation_recoveries : ℕ
  pub manual_repair_preparations : ℕ
  pub manual_repair_validated_handoffs : ℕ
  pub end_to_end_ms : ℕ
  pub active_machine_ms : ℕ
  pub provider_time_ms : ℕ
  pub human_wait_ms : ℕ
  pub provider_attempts : ℕ
  pub evidence_queries : ℕ
  pub tokens : ℕ
  pub known_cost_micro_usd : ℕ
  pub unknown_cost_attempts : ℕ
  pub tool_calls : ℕ
  pub successful_tool_calls : ℕ
  pub tool_elapsed_ms : ℕ
  pub tool_output_bytes : ℕ
  pub terminal_provider : Option ProviderKind

-- `EfficiencyProjection::default`
abbrev pub default_projection : EfficiencyProjection
default_projection = record {
  manual_validation_timed_failed_responses = 0;
  manual_handoff_acknowledgements = 0;
  manual_handoff_timed_acknowledgements = 0;
  manual_handoff_wait_seconds = 0;
  manual_validation_failed_responses = 0;
  manual_validation_failed_response_ms = 0;
  manual_validation_timed_receipts = 0;
  manual_validation_response_ms = 0;
  manual_validation_reservations = 0;
  manual_validation_receipts = 0;
  manual_validation_recoveries = 0;
  manual_repair_preparations = 0;
  manual_repair_validated_handoffs = 0;
  end_to_end_ms = 0;
  active_machine_ms = 0;
  provider_time_ms = 0;
  human_wait_ms = 0;
  provider_attempts = 0;
  evidence_queries = 0;
  tokens = 0;
  known_cost_micro_usd = 0;
  unknown_cost_attempts = 0;
  tool_calls = 0;
  successful_tool_calls = 0;
  tool_elapsed_ms = 0;
  tool_output_bytes = 0;
  terminal_provider = none;
}

abbrev add_u64 : ℕ → ℕ → ℕ
add_u64 a b = (a + b) % 2 ^ 64

abbrev add_u32 : ℕ → ℕ → ℕ
add_u32 a b = (a + b) % 2 ^ 32

abbrev unwrap_or_default : Option ℕ → ℕ
unwrap_or_default none = 0
unwrap_or_default (some n) = n

abbrev add_cost : Option ℕ → EfficiencyProjection → EfficiencyProjection
add_cost (some cost) p = record p { known_cost_micro_usd = add_u64 p.known_cost_micro_usd cost }
add_cost none p = record p { unknown_cost_attempts = add_u32 p.unknown_cost_attempts 1 }

abbrev add_attempt : EfficiencyProjection → AttemptRecord → EfficiencyProjection
add_attempt p attempt = add_cost attempt.facts.cost_micro_usd (record p {
  provider_attempts = add_u32 p.provider_attempts 1;
  provider_time_ms = add_u64 p.provider_time_ms attempt.facts.elapsed_ms;
  evidence_queries = add_u32 p.evidence_queries attempt.facts.evidence_queries;
  tokens = add_u64 p.tokens (unwrap_or_default attempt.facts.tokens);
})

-- by `acknowledged.checked_sub(offered)`
abbrev add_wait : Option ℕ → EfficiencyProjection → EfficiencyProjection
add_wait none p = p
add_wait (some wait) p = record p {
  manual_handoff_timed_acknowledgements = add_u64 p.manual_handoff_timed_acknowledgements 1;
  manual_handoff_wait_seconds = saturating_add_u64 p.manual_handoff_wait_seconds wait;
}

abbrev pub checked_sub : ℕ → ℕ → Option ℕ
checked_sub a b = if leb b a then some (a - b) else none

abbrev add_failed_response : Option ℕ → EfficiencyProjection → EfficiencyProjection
add_failed_response none p = p
add_failed_response (some elapsed) p = record p {
  manual_validation_timed_failed_responses = add_u64 p.manual_validation_timed_failed_responses 1;
  manual_validation_failed_response_ms =
      saturating_add_u64 p.manual_validation_failed_response_ms elapsed;
}

abbrev add_response : Option ℕ → EfficiencyProjection → EfficiencyProjection
add_response none p = p
add_response (some elapsed) p = record p {
  manual_validation_timed_receipts = add_u64 p.manual_validation_timed_receipts 1;
  manual_validation_response_ms = saturating_add_u64 p.manual_validation_response_ms elapsed;
}

abbrev add_stage : ManualValidationStage → Option ℕ → EfficiencyProjection → EfficiencyProjection
add_stage response_failed elapsed p = add_failed_response elapsed (record p {
  manual_validation_failed_responses = add_u64 p.manual_validation_failed_responses 1;
})
add_stage reserved elapsed p = record p {
  manual_validation_reservations = add_u64 p.manual_validation_reservations 1;
}
add_stage receipt_received elapsed p =
    add_response elapsed
      (record p { manual_validation_receipts = add_u64 p.manual_validation_receipts 1 })
add_stage recovery_authorized elapsed p = record p {
  manual_validation_recoveries = add_u64 p.manual_validation_recoveries 1;
}

abbrev pub is_success : ToolResultClass → Bool
is_success succeeded = true
is_success _ = false

abbrev add_success : ToolResultClass → EfficiencyProjection → EfficiencyProjection
add_success result_class p =
    if is_success result_class
    then record p { successful_tool_calls = add_u32 p.successful_tool_calls 1 }
    else p

abbrev same_phase : Phase → Phase → Bool
same_phase investigation investigation = true
same_phase reasoning reasoning = true
same_phase human_wait human_wait = true
same_phase execution execution = true
same_phase _ _ = false

abbrev Starts : Type 0
Starts = List (Phase × Option ℕ)

abbrev pub no_starts : Starts
no_starts = (investigation, none) ∷ (reasoning, none) ∷ (human_wait, none) ∷ (execution, none) ∷ []

-- `iter_mut().find(…)` and the assignment to its slot
set_start : Phase → ℕ → Starts → Starts
set_start phase at_ms [] = []
set_start phase at_ms ((item, slot) ∷ starts) =
    let rest = set_start phase at_ms starts in
    if same_phase item phase then (item, some at_ms) ∷ starts else (item, slot) ∷ rest

start_of : Phase → Starts → Option ℕ
start_of phase [] = none
start_of phase ((item, slot) ∷ starts) =
    let rest = start_of phase starts in if same_phase item phase then slot else rest

abbrev add_duration : Phase → ℕ → EfficiencyProjection → EfficiencyProjection
add_duration human_wait duration p = record p { human_wait_ms = add_u64 p.human_wait_ms duration }
add_duration _ duration p = record p { active_machine_ms = add_u64 p.active_machine_ms duration }

-- a phase that was not started has no duration
abbrev finish_phase : Phase → ℕ → Option ℕ → EfficiencyProjection → EfficiencyProjection
finish_phase phase at_ms none p = p
finish_phase phase at_ms (some start) p =
    add_duration phase (at_ms - start) (record p { end_to_end_ms = max p.end_to_end_ms at_ms })

-- the projection and the starts of the phases
abbrev pub Progress : Type 0
Progress = EfficiencyProjection × Starts

unfoldable pub project_event : Progress → JournalEvent → Progress
unfolding set_start start_of
project_event (p, starts) (manual_handoff_acknowledged _ _ _ _ offered acknowledged) = (
  add_wait (checked_sub acknowledged offered)
      (record p { manual_handoff_acknowledgements = add_u64 p.manual_handoff_acknowledgements 1 }),
  starts,
)
project_event (p, starts) (manual_repair_prepared _ _ _) =
    (record p { manual_repair_preparations = add_u64 p.manual_repair_preparations 1 }, starts)
project_event (p, starts) (manual_repair_validated _ _ _) = (
  record p { manual_repair_validated_handoffs = add_u64 p.manual_repair_validated_handoffs 1 },
  starts,
)
project_event (p, starts) (manual_validation _ _ stage _ elapsed) =
    (add_stage stage elapsed p, starts)
project_event (p, starts) (tool_context _ _ _ _ result_class elapsed_ms output_bytes _ _ _) = (
  add_success result_class (record p {
    tool_calls = add_u32 p.tool_calls 1;
    tool_elapsed_ms = add_u64 p.tool_elapsed_ms elapsed_ms;
    tool_output_bytes = add_u64 p.tool_output_bytes output_bytes;
  }),
  starts,
)
project_event (p, starts) (phase_started phase at_ms) = (p, set_start phase at_ms starts)
project_event (p, starts) (phase_finished phase at_ms) =
    (finish_phase phase at_ms (start_of phase starts) p, starts)
project_event (p, starts) (provider_attempt attempt) = (add_attempt p attempt, starts)
project_event (p, starts) (terminal provider) = (record p { terminal_provider = provider }, starts)
project_event (p, starts) _ = (p, starts)

-- the loop of `project_matching`
unfoldable pub project_from : (JournalEntry → Bool) → Progress → List JournalEntry → Progress
unfolding project_event
project_from include progress [] = progress
project_from include progress (entry ∷ entries) =
    project_from include (if include entry then project_event progress entry.event else progress)
      entries

unfoldable pub project_matching : (JournalEntry → Bool) → List JournalEntry → EfficiencyProjection
unfolding project_from
project_matching include entries = (project_from include (default_projection, no_starts) entries).0

-- `project`
unfoldable pub project : List JournalEntry → EfficiencyProjection
unfolding project_matching
project entries = project_matching (λ _. true) entries

abbrev pub is_scoped : JournalContext → Option JournalContext → Bool
is_scoped context none = false
is_scoped context (some c) =
    same_text c.incident_id context.incident_id && same_text c.run_id context.run_id

-- `project_scoped`
unfoldable pub project_scoped : JournalContext → List JournalEntry → EfficiencyProjection
unfolding project_matching
project_scoped context entries = project_matching (λ entry. is_scoped context entry.context) entries

-- the incident of an event that `incident_ids` lists
abbrev id_of : JournalEvent → Option Text
id_of (incident_opened incident_id _ _ _ _ _) = some incident_id
id_of (alert_deduplicated incident_id _ _) = some incident_id
id_of (alert_out_of_order incident_id _ _ _) = some incident_id
id_of (incident_recovered incident_id _ _) = some incident_id
id_of _ = none

-- a BTreeSet is a list in the order of its texts
insert_id : Text → List Text → List Text
insert_id id [] = id ∷ []
insert_id id (i ∷ ids) =
    let rest = insert_id id ids in
    if same_text id i then i ∷ ids else if text_lt id i then id ∷ i ∷ ids else i ∷ rest

abbrev insert_some : Option Text → List Text → List Text
insert_some none ids = ids
insert_some (some id) ids = insert_id id ids

unfoldable pub incident_ids : List JournalEntry → List Text
unfolding insert_id
incident_ids [] = []
incident_ids (entry ∷ entries) = insert_some (id_of entry.event) (incident_ids entries)
