-- ===== src/Reasoning/Dispatcher/Pending.antt =====
-- src/reasoning/dispatcher.rs: the investigations that a restart takes up again.
pub mod Complete
use ai_sre.Prelude.{
  ℕ, Bool, true, false, Option, none, some, List, [], ◌∷◌, ◌==◌, if◌then◌else◌, Text, same_text,
  ◌≡◌, arith,
}
use ai_sre.Prelude.Int.{ℤ}
use ai_sre.Prelude.Map.{Map}
use ai_sre.Reasoning.Incident.{AlertStatus, IncidentSignal}
use ai_sre.Reasoning.Journal.{JournalEvent, JournalEntry, incident_opened}
use ai_sre.Reasoning.Dispatcher.{
  LifecycleState, firing, resolved, IncidentDispatcher, correlation_key, episode_id,
}

-- what is taken over from the event that opened an episode
pub record Opening : Type 0 where
  pub incident_id : Text
  pub alert_name : Text
  pub labels : Map Text
  pub annotations : Map Text

unfoldable pub opening_of : Text → JournalEvent → Option Opening
opening_of key (incident_opened id name labels annotations _ _) =
    if same_text (correlation_key id) key
    then some
        (record { incident_id = id; alert_name = name; labels = labels; annotations = annotations })
    else none
opening_of key _ = none

-- `entries().iter().rev().find_map(…)`
unfoldable pub last_opening : Text → List JournalEntry → Option Opening
unfolding opening_of
last_opening key [] = none
last_opening key (entry ∷ entries) = elim (last_opening key entries) [
  | some opening ↦ some opening
  | none ↦ opening_of key entry.event
]

-- the signal of an episode that is under way
pub taken_up : Text → ℕ → Text → Option ℤ → Text → Opening → IncidentSignal
taken_up key episode time ms src o = record {
  correlation_id = key;
  incident_id = if episode == 1 then o.incident_id else episode_id key episode;
  episode = episode;
  alert_name = o.alert_name;
  status = AlertStatus.firing;
  labels = o.labels;
  annotations = o.annotations;
  event_time = time;
  source_event_id = src;
  event_time_ms = ms;
}

pending_one : List JournalEntry → Text → LifecycleState → Option IncidentSignal
unfolding last_opening taken_up
pending_one entries key (firing episode false time ms src) = elim (last_opening key entries) [
  | some o ↦ some (taken_up key episode time ms src o)
  | none ↦ none
]
pending_one entries key (firing _ true _ _ _) = none
pending_one entries key (resolved _ _ _ _) = none

pending_in : List JournalEntry → Map LifecycleState → List IncidentSignal
unfolding pending_one
pending_in entries [] = []
pending_in entries ((key, state) ∷ m) = elim (pending_one entries key state) [
  | some i ↦ i ∷ pending_in entries m
  | none ↦ pending_in entries m
]

unfoldable pub pending_investigations : IncidentDispatcher → List IncidentSignal
unfolding pending_in
pending_investigations d = pending_in d.journal.journal d.lifecycle
