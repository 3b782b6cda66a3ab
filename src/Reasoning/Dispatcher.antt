-- ===== src/Reasoning/Dispatcher.antt =====
-- src/reasoning/dispatcher.rs: lifecycle correlation of incident signals, written ahead to the
-- journal and rebuilt from it.
pub mod Process
pub mod Agreement
pub mod Keys
pub mod Replay
pub mod Episodes
pub mod Pending
mod Examples
use ai_sre.Prelude.{
  ℕ, suc, ◌+◌, ◌%◌, ◌^◌, Bool, true, false, not, ◌&&◌, Option, none, some, List, [], ◌∷◌, ◌++◌,
  Result, ok, err, ◌==◌, if◌then◌else◌, Text, text, same_text, strip_prefix,
}
use ai_sre.Prelude.Decimal.{show, parse}
use ai_sre.Prelude.Int.{ℤ, ltb_ℤ}
use ai_sre.Prelude.Map
use ai_sre.Prelude.Map.{Map}
use ai_sre.Reasoning.Budget.{u64_max}
use ai_sre.Reasoning.Incident.{AlertStatus, IncidentSignal}
use ai_sre.Reasoning.Incident.Time.{parse_rfc3339_millis}
use ai_sre.Reasoning.Journal.{
  JournalEvent, JournalEntry, incident_opened, alert_deduplicated, alert_out_of_order,
  incident_recovered, incident_completed, incident_resumed,
}
use ai_sre.Reasoning.Storage
use ai_sre.Reasoning.Storage.{
  JournalStore, JournalStoreError, OutboxMessage, StoredReport, append, append_with_outbox,
  append_with_outbox_and_report,
}

pub data DispatchOutcome : Type 0 where
  accepted deduplicated resumed : DispatchOutcome

pub data DispatchError : Type 0 where
  journal : JournalStoreError → DispatchError
  invalid_signal : DispatchError

-- episode, completed (while firing), last event time, its milliseconds, last source event
pub data LifecycleState : Type 0 where
  firing :
      (episode : ℕ)
      → (completed : Bool) → (last_event_time : Text) → (last_event_time_ms : Option ℤ)
      → (last_source_event_id : Text) → LifecycleState
  resolved :
      (episode : ℕ)
      → (last_event_time : Text) → (last_event_time_ms : Option ℤ) → (last_source_event_id : Text)
      → LifecycleState

pub record IncidentDispatcher : Type 0 where
  pub journal : JournalStore
  pub lifecycle : Map LifecycleState

-- `rsplit_once`: the split at the last place where the separator stands
unfoldable pub rsplit_once : Text → Text → Option (Text × Text)
rsplit_once sep [] = none
rsplit_once sep (c ∷ s) = elim (rsplit_once sep s) [
  | some (a, b) ↦ some (c ∷ a, b)
  | none ↦ elim (strip_prefix sep (c ∷ s)) [ some rest ↦ some ([], rest) | none ↦ none ]
]

abbrev pub episode_mark : Text
episode_mark = text "-episode-"

abbrev pub incident_mark : Text
incident_mark = text "incident-"

-- `id.strip_prefix("incident-").unwrap_or(id)`
without_mark : Text → Text
without_mark id = elim (strip_prefix incident_mark id) [ some key ↦ key | none ↦ id ]

unfoldable pub correlation_key : Text → Text
unfolding without_mark rsplit_once
correlation_key id = elim (rsplit_once episode_mark id) [
  | some (key, _) ↦ without_mark key
  | none ↦ without_mark id
]

unfoldable pub episode_number : Text → ℕ
unfolding rsplit_once
episode_number id = elim (rsplit_once episode_mark id) [
  | some (_, value) ↦ elim (parse u64_max value) [ some n ↦ n | none ↦ 1 ]
  | none ↦ 1
]

-- `format!("incident-{key}-episode-{episode}")`
pub episode_id : Text → ℕ → Text
episode_id key episode = incident_mark ++ (key ++ (episode_mark ++ show episode))

-- the identity of an episode that is under way
pub current_id : Text → ℕ → Text
unfolding episode_id
current_id key episode = if episode == 1 then incident_mark ++ key else episode_id key episode

-- `episode + 1` on a `u64`
abbrev pub next_episode : ℕ → ℕ
next_episode episode = (episode + 1) % 2 ^ 64

-- the `if let Some(Firing …) = lifecycle.get(&key)` of a completion
unfoldable pub complete_key : Map LifecycleState → Text → Map LifecycleState
complete_key lifecycle key = elim (Map.get lifecycle key) [
  | some (LifecycleState.firing episode _ t ms src) ↦
      Map.insert lifecycle key (LifecycleState.firing episode true t ms src)
  | _ ↦ lifecycle
]

pub resume_key : Map LifecycleState → Text → Text → Text → Map LifecycleState
resume_key lifecycle key event_time source_event_id = elim (Map.get lifecycle key) [
  | some (LifecycleState.firing episode completed _ _ _) ↦ Map.insert lifecycle key (
      LifecycleState.firing episode completed event_time (parse_rfc3339_millis event_time)
        source_event_id)
  | _ ↦ lifecycle
]

-- one turn of the loop of `new`
unfoldable pub replay_event : Map LifecycleState → JournalEvent → Map LifecycleState
unfolding complete_key resume_key
replay_event lifecycle (incident_opened id _ _ _ event_time source_event_id) =
    Map.insert lifecycle (correlation_key id) (
      LifecycleState.firing (episode_number id) false event_time (parse_rfc3339_millis event_time)
        source_event_id)
replay_event lifecycle (incident_recovered id event_time source_event_id) =
    Map.insert lifecycle (correlation_key id) (
      LifecycleState.resolved (episode_number id) event_time (parse_rfc3339_millis event_time)
        source_event_id)
replay_event lifecycle (incident_completed id) = complete_key lifecycle (correlation_key id)
replay_event lifecycle (incident_resumed id event_time source_event_id) =
    resume_key lifecycle (correlation_key id) event_time source_event_id
replay_event lifecycle _ = lifecycle

unfoldable pub replay : Map LifecycleState → List JournalEntry → Map LifecycleState
replay lifecycle [] = lifecycle
replay lifecycle (entry ∷ entries) = replay (replay_event lifecycle entry.event) entries

-- `IncidentDispatcher::new`
unfoldable pub new : JournalStore → IncidentDispatcher
unfolding replay replay_event
new store = record { journal = store; lifecycle = replay [] store.journal }
