-- ===== src/Reasoning/Dispatcher/Process.antt =====
-- src/reasoning/dispatcher.rs: what the dispatcher does with a signal, a batch and a completion. A
-- method returns the dispatcher beside its result.
pub mod Consistent
pub mod Arms
pub mod Batches
pub mod Effects
use ai_sre.Prelude.{
  ℕ, Bool, true, false, ◌&&◌, Option, none, some, List, [], ◌∷◌, Result, ok, err, if◌then◌else◌,
  Text, same_text,
}
use ai_sre.Prelude.Int.{ℤ, ltb_ℤ}
use ai_sre.Prelude.Map
use ai_sre.Prelude.Map.{Map}
use ai_sre.Reasoning.Incident.{AlertStatus, IncidentSignal}
use ai_sre.Reasoning.Journal.{
  JournalEvent, incident_opened, alert_deduplicated, alert_out_of_order, incident_recovered,
  incident_completed, incident_resumed,
}
use ai_sre.Reasoning.Storage.{
  JournalStore, JournalStoreError, OutboxMessage, StoredReport, append, append_with_outbox,
  append_with_outbox_and_report,
}
use ai_sre.Reasoning.Dispatcher.{
  DispatchOutcome, accepted, deduplicated, resumed, DispatchError, journal, invalid_signal,
  LifecycleState, IncidentDispatcher, correlation_key, episode_id, current_id, next_episode,
  complete_key,
}

-- `self.journal.append(event)?` and what the source does behind it
unfoldable pub record_event {ℓ} :
    {A : Type ℓ}
    → IncidentDispatcher
    → JournalEvent
    → Map LifecycleState
    → A
    → IncidentDispatcher × Result DispatchError A
record_event d event lifecycle a =
    let (store, r) = append d.journal event in
    elim r [
      | ok _ ↦ (record { journal = store; lifecycle = lifecycle }, ok a)
      | err e ↦ (record d { journal = store }, err (journal e))
    ]

abbrev pub Dispatched : Type 0
Dispatched = IncidentDispatcher × Result DispatchError (IncidentSignal × DispatchOutcome)

-- the facts that a signal leaves behind
opened : IncidentSignal → JournalEvent
opened i =
    incident_opened i.incident_id i.alert_name i.labels i.annotations i.event_time i.source_event_id

deduplicated_event : IncidentSignal → JournalEvent
deduplicated_event i = alert_deduplicated i.incident_id i.event_time i.source_event_id

recovered : IncidentSignal → JournalEvent
recovered i = incident_recovered i.incident_id i.event_time i.source_event_id

resumed_event : IncidentSignal → JournalEvent
resumed_event i = incident_resumed i.incident_id i.event_time i.source_event_id

pub fires : ℕ → IncidentSignal → LifecycleState
fires episode i = LifecycleState.firing episode false i.event_time i.event_time_ms i.source_event_id

pub resolves : ℕ → IncidentSignal → LifecycleState
resolves episode i = LifecycleState.resolved episode i.event_time i.event_time_ms i.source_event_id

-- the signal with the identity of an episode
abbrev of_episode : IncidentSignal → ℕ → Text → IncidentSignal
of_episode i episode id = record i { episode = episode; incident_id = id }

-- a signal that is older than the last one of its key
out_of_order : IncidentDispatcher → IncidentSignal → Dispatched
out_of_order d i =
    record_event d (alert_out_of_order i.incident_id i.status i.event_time i.source_event_id)
      d.lifecycle (i, deduplicated)

-- the same firing again, behind a completed episode
redelivered : IncidentDispatcher → IncidentSignal → Dispatched
unfolding deduplicated_event
redelivered d i = record_event d (deduplicated_event i) d.lifecycle (i, deduplicated)

-- a recovery behind a recovery
recovered_again : IncidentDispatcher → IncidentSignal → ℕ → Dispatched
unfolding deduplicated_event resolves
recovered_again d i episode =
    let i' = of_episode i episode (current_id i.correlation_id episode) in
    record_event d (deduplicated_event i')
      (Map.insert d.lifecycle i.correlation_id (resolves episode i')) (i', deduplicated)

-- a firing behind a completed or a resolved episode opens the next one
reopened : IncidentDispatcher → IncidentSignal → ℕ → Dispatched
unfolding opened fires
reopened d i episode =
    let i' =
      of_episode i (next_episode episode) (episode_id i.correlation_id (next_episode episode)) in
    record_event d (opened i')
      (Map.insert d.lifecycle i.correlation_id (fires (next_episode episode) i')) (i', accepted)

-- a firing within an episode that is under way
continued : IncidentDispatcher → IncidentSignal → ℕ → Dispatched
unfolding resumed_event fires
continued d i episode =
    let i' = of_episode i episode (current_id i.correlation_id episode) in
    record_event d (resumed_event i') (Map.insert d.lifecycle i.correlation_id (fires episode i'))
      (i', resumed)

-- the recovery of an episode
closed : IncidentDispatcher → IncidentSignal → ℕ → Dispatched
unfolding recovered resolves
closed d i episode =
    let i' = of_episode i episode (current_id i.correlation_id episode) in
    record_event d (recovered i') (Map.insert d.lifecycle i.correlation_id (resolves episode i'))
      (i', accepted)

-- the first signal of a key
first_firing : IncidentDispatcher → IncidentSignal → Dispatched
unfolding opened fires
first_firing d i =
    record_event d (opened i) (Map.insert d.lifecycle i.correlation_id (fires i.episode i))
      (i, accepted)

first_recovery : IncidentDispatcher → IncidentSignal → Dispatched
unfolding recovered resolves
first_recovery d i =
    record_event d (recovered i) (Map.insert d.lifecycle i.correlation_id (resolves i.episode i))
      (i, accepted)

-- the `match` on the status and the current state
arm : IncidentDispatcher → IncidentSignal → AlertStatus → Option LifecycleState → Dispatched
unfolding redelivered recovered_again reopened continued closed first_firing first_recovery
arm d i AlertStatus.firing (some (LifecycleState.firing episode true _ _ src)) =
    if same_text i.source_event_id src then redelivered d i else reopened d i episode
arm d i AlertStatus.resolved (some (LifecycleState.resolved episode _ _ _)) =
    recovered_again d i episode
arm d i AlertStatus.firing (some (LifecycleState.firing episode false _ _ _)) =
    continued d i episode
arm d i AlertStatus.firing (some (LifecycleState.resolved episode _ _ _)) = reopened d i episode
arm d i AlertStatus.resolved (some (LifecycleState.firing episode _ _ _ _)) = closed d i episode
arm d i AlertStatus.firing none = first_firing d i
arm d i AlertStatus.resolved none = first_recovery d i

abbrev pub last_time : Option LifecycleState → Option ℤ
last_time none = none
last_time (some (LifecycleState.firing _ _ _ ms _)) = ms
last_time (some (LifecycleState.resolved _ _ ms _)) = ms

-- is the signal's time before the last one of its key?
abbrev pub is_stale : ℤ → Option ℤ → Bool
is_stale t none = false
is_stale t (some last) = ltb_ℤ t last

-- a signal with the time that was read from it
process_timed : IncidentDispatcher → IncidentSignal → Option ℤ → Dispatched
unfolding out_of_order arm
process_timed d i none = (d, err invalid_signal)
process_timed d i (some t) =
    let current = Map.get d.lifecycle i.correlation_id in
    if is_stale t (last_time current) then out_of_order d i else arm d i i.status current

unfoldable pub process_one : IncidentDispatcher → IncidentSignal → Dispatched
unfolding process_timed
process_one d i = process_timed d i i.event_time_ms

-- `process`: the first error ends the batch, and what was recorded before it stays
unfoldable pub process :
    IncidentDispatcher
    → List IncidentSignal
    → IncidentDispatcher × Result DispatchError (List DispatchOutcome)
process d [] = (d, ok [])
process d (i ∷ batch) =
    let (d', r) = process_one d i in
    let rest = process d' batch in
    elim r [
      | err e ↦ (d', err e)
      | ok (_, outcome) ↦
          (rest.0, elim rest.1 [ ok outcomes ↦ ok (outcome ∷ outcomes) | err e ↦ err e ])
    ]

abbrev pub is_firing : AlertStatus → Bool
is_firing AlertStatus.firing = true
is_firing AlertStatus.resolved = false

abbrev pub is_accepted : DispatchOutcome → Bool
is_accepted accepted = true
is_accepted _ = false

unfoldable pub process_new :
    IncidentDispatcher
    → List IncidentSignal
    → IncidentDispatcher × Result DispatchError (List IncidentSignal)
process_new d [] = (d, ok [])
process_new d (i ∷ batch) =
    let (d', r) = process_one d i in
    let rest = process_new d' batch in
    elim r [
      | err e ↦ (d', err e)
      | ok (i', outcome) ↦ (
        rest.0,
        elim rest.1 [
          | ok found ↦ ok (if is_accepted outcome && is_firing i'.status then i' ∷ found else found)
          | err e ↦ err e
        ],
      )
    ]

-- behind the append of a completion
completed_by :
    IncidentDispatcher
    → Text
    → JournalStore × Result JournalStoreError (Unit {0})
    → IncidentDispatcher × Result DispatchError (Unit {0})
completed_by d id (store, r) = elim r [
  | ok _ ↦
      (record { journal = store; lifecycle = complete_key d.lifecycle (correlation_key id) }, ok tt)
  | err e ↦ (record d { journal = store }, err (journal e))
]

unfoldable pub mark_completed_with_outbox :
    IncidentDispatcher
    → Text
    → Option OutboxMessage
    → IncidentDispatcher × Result DispatchError (Unit {0})
unfolding completed_by
mark_completed_with_outbox d id outbox =
    completed_by d id (append_with_outbox d.journal (incident_completed id ∷ []) outbox)

unfoldable pub mark_completed :
    IncidentDispatcher → Text → IncidentDispatcher × Result DispatchError (Unit {0})
unfolding mark_completed_with_outbox
mark_completed d id = mark_completed_with_outbox d id none

unfoldable pub mark_completed_with_report :
    IncidentDispatcher
    → Text
    → Option OutboxMessage
    → StoredReport
    → IncidentDispatcher × Result DispatchError (Unit {0})
unfolding completed_by
mark_completed_with_report d id outbox report =
    completed_by d id
      (append_with_outbox_and_report d.journal (incident_completed id ∷ []) outbox report)
