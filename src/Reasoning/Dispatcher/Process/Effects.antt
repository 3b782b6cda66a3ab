-- ===== src/Reasoning/Dispatcher/Process/Effects.antt =====
-- src/reasoning/dispatcher.rs: what a signal does to the lifecycle, and to the journal.
use ai_sre.Prelude.{
  ℕ, length, ◌≡◌, refl, ap, sym, ◌∙◌, ◌⊎◌, true, false, Option, none, some, List, [], ◌∷◌, ◌++◌,
  Text, same_text, if◌then◌else◌, inl, inr, Bool-cases, Result, ok, err,
}
use ai_sre.Prelude.Int.{ℤ}
use ai_sre.Prelude.Map
use ai_sre.Prelude.Map.{Map, get-insert}
use ai_sre.Reasoning.Incident.{AlertStatus, IncidentSignal}
use ai_sre.Reasoning.Journal.{
  JournalEvent, JournalEntry, incident_opened, incident_recovered, incident_resumed,
  alert_deduplicated, alert_out_of_order, incident_completed,
}
use ai_sre.Reasoning.Storage.{
  JournalStore, OutboxMessage, entries_from, append_with_outbox, append, append_scoped,
  append_events, JournalStoreError, sqlite,
}
use ai_sre.Reasoning.Storage.Appends.{append_events_cases, committed, rolled_back, unreported}
use ai_sre.Reasoning.Storage.Committed.{journal-stored}
use ai_sre.Reasoning.Storage.Untouched.{no_change-KeepsJournal}
use ai_sre.Reasoning.Dispatcher.{
  LifecycleState, firing, resolved, IncidentDispatcher, DispatchError, DispatchOutcome, accepted,
  deduplicated, resumed, journal, invalid_signal, next_episode, episode_id, current_id,
  complete_key, correlation_key,
}
use ai_sre.Reasoning.Dispatcher.Process.{
  record_event, Dispatched, out_of_order, redelivered, recovered_again, reopened, continued, closed,
  first_firing, first_recovery, arm, last_time, is_stale, process_one, process_timed, fires,
  completed_by, mark_completed_with_outbox, resolves,
}

-- the state machine of one key: the outcome of a signal, and the next state if there is one
abbrev pub transition :
    IncidentSignal → AlertStatus → Option LifecycleState → DispatchOutcome × Option LifecycleState
transition i AlertStatus.firing none = (accepted, some (fires i.episode i))
transition i AlertStatus.resolved none = (accepted, some (resolves i.episode i))
transition i AlertStatus.firing (some (firing e false _ _ _)) = (resumed, some (fires e i))
transition i AlertStatus.firing (some (firing e true _ _ src)) =
    if same_text i.source_event_id src
    then (deduplicated, none)
    else (accepted, some (fires (next_episode e) i))
transition i AlertStatus.firing (some (resolved e _ _ _)) =
    (accepted, some (fires (next_episode e) i))
transition i AlertStatus.resolved (some (firing e _ _ _ _)) = (accepted, some (resolves e i))
transition i AlertStatus.resolved (some (resolved e _ _ _)) = (deduplicated, some (resolves e i))

abbrev pub after : IncidentDispatcher → Text → Option LifecycleState → Map LifecycleState
after d key none = d.lifecycle
after d key (some v) = Map.insert d.lifecycle key v

-- the signal that is answered with the episode it belongs to, and the fact that it leaves behind
abbrev pub in_episode : IncidentSignal → ℕ → Text → IncidentSignal
in_episode i e id = record i { episode = e; incident_id = id }

abbrev pub opening : IncidentSignal → ℕ → IncidentSignal × JournalEvent
opening i e =
    let id = episode_id i.correlation_id e in
    (
      in_episode i e id,
      incident_opened id i.alert_name i.labels i.annotations i.event_time i.source_event_id,
    )

abbrev pub trace :
    IncidentSignal → AlertStatus → Option LifecycleState → IncidentSignal × JournalEvent
trace i AlertStatus.firing none = (
  i,
  incident_opened i.incident_id i.alert_name i.labels i.annotations i.event_time i.source_event_id,
)
trace i AlertStatus.resolved none =
    (i, incident_recovered i.incident_id i.event_time i.source_event_id)
trace i AlertStatus.firing (some (firing e false _ _ _)) =
    let id = current_id i.correlation_id e in
    (in_episode i e id, incident_resumed id i.event_time i.source_event_id)
trace i AlertStatus.firing (some (firing e true _ _ src)) =
    if same_text i.source_event_id src
    then (i, alert_deduplicated i.incident_id i.event_time i.source_event_id)
    else opening i (next_episode e)
trace i AlertStatus.firing (some (resolved e _ _ _)) = opening i (next_episode e)
trace i AlertStatus.resolved (some (firing e _ _ _ _)) =
    let id = current_id i.correlation_id e in
    (in_episode i e id, incident_recovered id i.event_time i.source_event_id)
trace i AlertStatus.resolved (some (resolved e _ _ _)) =
    let id = current_id i.correlation_id e in
    (in_episode i e id, alert_deduplicated id i.event_time i.source_event_id)

abbrev pub late : IncidentSignal → JournalEvent
late i = alert_out_of_order i.incident_id i.status i.event_time i.source_event_id

-- one more entry, without a scope
abbrev pub Appended : JournalEvent → List JournalEntry → List JournalEntry → Type 0
Appended e old new = new ≡ old ++ record { sequence = length old; context = none; event = e } ∷ []

-- how a signal ends: refused for want of a time, or because the journal could not be written;
-- out of order and only journalled; or as the state machine says, and journalled
pub data ProcessCase (d : IncidentDispatcher) (i : IncidentSignal) (o : Dispatched) : Type 0 where
  untimed : i.event_time_ms ≡ none → o ≡ (d, err invalid_signal) → ProcessCase d i o
  unwritten :
      (t : ℤ)
      → i.event_time_ms ≡ some t
      → (e : JournalEvent)
      → (e ≡ (
          if is_stale t (last_time (Map.get d.lifecycle i.correlation_id))
          then late i
          else (trace i i.status (Map.get d.lifecycle i.correlation_id)).1))
      → (x : JournalStoreError) → (append d.journal e).1 ≡ err x
      → o.1 ≡ err (journal x)
      → o.0.lifecycle ≡ d.lifecycle
      → o.0.journal.journal ≡ d.journal.journal
      → ProcessCase d i o
  stale :
      (t : ℤ)
      → i.event_time_ms ≡ some t
      → is_stale t (last_time (Map.get d.lifecycle i.correlation_id)) ≡ true
      → o.1 ≡ ok (i, deduplicated)
      → o.0.lifecycle ≡ d.lifecycle
      → Appended (late i) d.journal.journal o.0.journal.journal
      → ProcessCase d i o
  moved :
      (t : ℤ)
      → i.event_time_ms ≡ some t
      → is_stale t (last_time (Map.get d.lifecycle i.correlation_id)) ≡ false
      → (i' : IncidentSignal) (e : JournalEvent)
      → trace i i.status (Map.get d.lifecycle i.correlation_id) ≡ (i', e)
      → (outcome : DispatchOutcome) (next : Option LifecycleState)
      → transition i i.status (Map.get d.lifecycle i.correlation_id) ≡ (outcome, next)
      → o.1 ≡ ok (i', outcome)
      → o.0.lifecycle ≡ after d i.correlation_id next
      → Appended e d.journal.journal o.0.journal.journal
      → ProcessCase d i o

-- an append with its event, or a refusal without effect
data RecordCase {A : Type 0} (d : IncidentDispatcher) (e : JournalEvent) (m : Map LifecycleState)
    (a : A) (o : IncidentDispatcher × Result DispatchError A) : Type 0 where
  recorded :
      o.1 ≡ ok a
      → o.0.lifecycle ≡ m
      → Appended e d.journal.journal o.0.journal.journal
      → RecordCase d e m a o
  unrecorded :
      (x : JournalStoreError)
      → (append d.journal e).1 ≡ err x
      → o.1 ≡ err (journal x)
      → o.0.lifecycle ≡ d.lifecycle
      → o.0.journal.journal ≡ d.journal.journal
      → RecordCase d e m a o

append_failed :
    (s : JournalStore) (e : JournalEvent)
    → (append_events s (e ∷ []) none (λ t. t)).1 ≡ err sqlite
    → (append s e).1 ≡ err sqlite
unfolding append append_scoped
append_failed s e failed = rw (failed, append_scoped) refl

record_event_cases :
    {A : Type 0} (d : IncidentDispatcher) (e : JournalEvent) (m : Map LifecycleState) (a : A)
    → RecordCase d e m a (record_event d e m a)
unfolding record_event append append_scoped
record_event_cases d e m a = elim (append_events_cases d.journal (e ∷ []) none (λ t. t)) [
  | committed later fit free eq done ↦
      rw (done, record_event)
        (recorded refl refl (
          ap (λ t. t.journal) eq
          ∙ ap (λ j. j ++ entries_from (length d.journal.journal) none (e ∷ []))
              (journal-stored d.journal (e ∷ []) none (λ t. t) no_change-KeepsJournal)))
  | unreported later fit free eq failed ↦
      rw (failed, record_event)
        (unrecorded sqlite (append_failed d.journal e failed) refl refl (
          ap (λ t. t.journal) eq
          ∙ journal-stored d.journal (e ∷ []) none (λ t. t) no_change-KeepsJournal))
  | rolled_back later eq failed ↦
      rw (failed, record_event)
        (unrecorded sqlite (append_failed d.journal e failed) refl refl (ap (λ t. t.journal) eq))
]

stale_case :
    (d : IncidentDispatcher) (i : IncidentSignal) (t : ℤ)
    → i.event_time_ms ≡ some t
    → is_stale t (last_time (Map.get d.lifecycle i.correlation_id)) ≡ true
    → (o : Dispatched) → RecordCase d (late i) d.lifecycle (i, deduplicated) o
    → ProcessCase d i o
stale_case d i t ms old o (recorded done m j) = stale t ms old done m j
stale_case d i t ms old o (unrecorded x lost failed m j) =
    unwritten t ms (late i) (rw old refl) x lost failed m j

-- an arm records its event, and its outcome and state are those of the state machine
module _ (d : IncidentDispatcher) (i : IncidentSignal) (t : ℤ) (ms : i.event_time_ms ≡ some t)
    (fresh : is_stale t (last_time (Map.get d.lifecycle i.correlation_id)) ≡ false) where
  arm_case :
      (i' : IncidentSignal) (e : JournalEvent) (outcome : DispatchOutcome)
      (next : Option LifecycleState) (o : Dispatched)
      → trace i i.status (Map.get d.lifecycle i.correlation_id) ≡ (i', e)
      → transition i i.status (Map.get d.lifecycle i.correlation_id) ≡ (outcome, next)
      → RecordCase d e (after d i.correlation_id next) (i', outcome) o
      → ProcessCase d i o
  arm_case i' e outcome next o f k (recorded done m j) =
      moved t ms fresh i' e f outcome next k done m j
  arm_case i' e outcome next o f k (unrecorded x lost failed m j) =
      unwritten t ms e (rw fresh (sym (ap (λ p. p.1) f))) x lost failed m j

  by_state :
      (status : AlertStatus) (current : Option LifecycleState)
      → i.status ≡ status
      → Map.get d.lifecycle i.correlation_id ≡ current
      → ProcessCase d i (arm d i status current)
  unfolding arm redelivered recovered_again reopened continued closed first_firing first_recovery
      fires resolves
  by_state AlertStatus.firing none s h =
      arm_case _ _ _ (some _) _ (rw (s, h) refl) (rw (s, h) refl) (record_event_cases d _ _ _)
  by_state AlertStatus.resolved none s h =
      arm_case _ _ _ (some _) _ (rw (s, h) refl) (rw (s, h) refl) (record_event_cases d _ _ _)
  by_state AlertStatus.firing (some (firing e false _ _ src)) s h =
      arm_case _ _ _ (some _) _ (rw (s, h) refl) (rw (s, h) refl) (record_event_cases d _ _ _)
  by_state AlertStatus.firing (some (firing e true _ _ src)) s h =
      elim (Bool-cases (same_text i.source_event_id src)) [
        | inl same ↦ rw same (
            arm_case i _ deduplicated none _ (rw (s, h) (rw same refl)) (rw (s, h) (rw same refl))
              (record_event_cases d _ _ _))
        | inr other ↦ rw other (
            arm_case _ _ _ (some _) _ (rw (s, h) (rw other refl)) (rw (s, h) (rw other refl))
              (record_event_cases d _ _ _))
      ]
  by_state AlertStatus.firing (some (resolved e _ _ src)) s h =
      arm_case _ _ _ (some _) _ (rw (s, h) refl) (rw (s, h) refl) (record_event_cases d _ _ _)
  by_state AlertStatus.resolved (some (firing e c _ _ src)) s h =
      arm_case _ _ _ (some _) _ (rw (s, h) refl) (rw (s, h) refl) (record_event_cases d _ _ _)
  by_state AlertStatus.resolved (some (resolved e _ _ src)) s h =
      arm_case _ _ _ (some _) _ (rw (s, h) refl) (rw (s, h) refl) (record_event_cases d _ _ _)

timed_case :
    (d : IncidentDispatcher) (i : IncidentSignal) (time : Option ℤ)
    → i.event_time_ms ≡ time
    → ProcessCase d i (process_timed d i time)
unfolding process_timed out_of_order
timed_case d i none e = untimed e refl
timed_case d i (some t) e =
    elim (Bool-cases (is_stale t (last_time (Map.get d.lifecycle i.correlation_id)))) [
      | inl old ↦ rw old (stale_case d i t e old _ (record_event_cases d _ _ _))
      | inr fresh ↦ rw fresh (by_state d i t e fresh i.status _ refl refl)
    ]

pub process_one_cases :
    (d : IncidentDispatcher) (i : IncidentSignal) → ProcessCase d i (process_one d i)
unfolding process_one
process_one_cases d i = timed_case d i i.event_time_ms refl

-- a firing behind the firing that opened an episode
pub transition-fires :
    (e : ℕ) (i : IncidentSignal)
    → transition i AlertStatus.firing (some (fires e i)) ≡ (resumed, some (fires e i))
unfolding fires
transition-fires e i = refl

pub fires_lem :
    (e : ℕ) (i : IncidentSignal)
    → fires e i ≡ firing e false i.event_time i.event_time_ms i.source_event_id
unfolding fires
fires_lem e i = refl

completed_by-lifecycle :
    (d : IncidentDispatcher) (id : Text) (o : JournalStore × Result JournalStoreError (Unit {0}))
    → ((completed_by d id o).0.lifecycle ≡ d.lifecycle)
      ⊎ ((completed_by d id o).0.lifecycle ≡ complete_key d.lifecycle (correlation_key id))
unfolding completed_by
completed_by-lifecycle d id (t, ok _) = inr refl
completed_by-lifecycle d id (t, err x) = inl refl

-- a completion marks the episode of its key, or fails and changes no state
pub completion-lifecycle :
    (d : IncidentDispatcher) (id : Text) (outbox : Option OutboxMessage)
    → ((mark_completed_with_outbox d id outbox).0.lifecycle ≡ d.lifecycle)
      ⊎ ((mark_completed_with_outbox d id outbox).0.lifecycle
          ≡ complete_key d.lifecycle (correlation_key id))
unfolding mark_completed_with_outbox
completion-lifecycle d id outbox =
    completed_by-lifecycle d id (append_with_outbox d.journal (incident_completed id ∷ []) outbox)
