-- ===== src/Reasoning/Dispatcher/Examples.antt =====
-- src/reasoning/dispatcher.rs: runs at concrete signals.
use ai_sre.Prelude.{ok, some}
use ai_sre.Reasoning.Storage.Tables.{no_reviews}
use ai_sre.Reasoning.Incident.{IncidentSignal}
use ai_sre.Prelude.{ℕ}
use ai_sre.Prelude.Int.{pos}
use ai_sre.Reasoning.Dispatcher.{IncidentDispatcher, accepted}
use ai_sre.Reasoning.Dispatcher.Episodes.{Opens, accepted-Opens}
use ai_sre.Reasoning.Dispatcher.Pending.{pending_investigations}
use ai_sre.Reasoning.Dispatcher.Pending.Complete.{Listed, pending-Listed, signal_of, last_seen}
use ai_sre.Reasoning.Dispatcher.Process.{process_one, fires, record_event}
use ai_sre.Reasoning.Journal.{JournalEvent, JournalEntry, incident_opened, incident_resumed}
use ai_sre.Reasoning.Storage.{append, append_scoped, append_events}
use ai_sre.Prelude.{◌≡◌, refl, none, List, [], ◌∷◌, arith, text}
use ai_sre.Prelude.Map
use ai_sre.Reasoning.Incident.{AlertSignal, AlertStatus, normalize}
use ai_sre.Reasoning.Incident.Identity.{normalize-IsNormal}
use ai_sre.Reasoning.Journal.{phase_started, investigation}
use ai_sre.Reasoning.Storage.{JournalStore, commits, rolls_back}
use ai_sre.Reasoning.Dispatcher.{new, rsplit_once, correlation_key, episode_number, episode_id}
use ai_sre.Reasoning.Dispatcher.Agreement.{Agree}
use ai_sre.Reasoning.Dispatcher.Keys.{IsClean, key_and_number-episode_id}
use ai_sre.Reasoning.Dispatcher.Process.Arms.{IsFair}
use ai_sre.Reasoning.Dispatcher.Replay.{
  Call, receives, receives_new, completes, investigates, run, restart-Agree,
}

abbrev store : JournalStore
store = record {
  codec = record { to_json = λ e. []; from_json = λ t. none };
  journal = [];
  rows = [];
  outbox = [];
  reports = [];
  markers = [];
  reviews = no_reviews;
  outcomes = commits ∷ rolls_back ∷ [];
}

abbrev pod_down : AlertSignal
pod_down = record {
  status = AlertStatus.firing;
  fingerprint = text "abc123";
  labels = (text "alertname", text "PodDown") ∷ [];
  annotations = [];
  starts_at = text "2026-08-10T12:00:00Z";
  ends_at = text "2026-08-10T13:00:00Z";
  generator_url = [];
}

abbrev pod_up : AlertSignal
pod_up = record pod_down { status = AlertStatus.resolved }

pod_down-IsClean : IsClean (normalize pod_down).correlation_id
unfolding rsplit_once normalize
pod_down-IsClean = refl

pod_up-IsClean : IsClean (normalize pod_up).correlation_id
unfolding rsplit_once normalize
pod_up-IsClean = refl

key_and_number-episode_id_example :
    (correlation_key (episode_id (text "abc123") 12) ≡ text "abc123")
    × (episode_number (episode_id (text "abc123") 12) ≡ 12)
key_and_number-episode_id_example = key_and_number-episode_id (text "abc123") 12 (omega arith)

-- a firing, whose repetition fails to be recorded, its completion, and two recoveries
abbrev calls : List Call
calls =
    receives_new (normalize pod_down ∷ [])
    ∷ receives (normalize pod_down ∷ [])
    ∷ investigates (phase_started investigation 5) none
    ∷ completes (text "incident-abc123") none
    ∷ receives (normalize pod_up ∷ normalize pod_up ∷ [])
    ∷ []

restart-Agree_example :
    let d = run (new store) calls in
    Agree (Map.get (new d.journal).lifecycle (text "abc123")) (Map.get d.lifecycle (text "abc123"))
restart-Agree_example =
    let down : IsFair (normalize pod_down) = (normalize-IsNormal pod_down, pod_down-IsClean) in
    let up : IsFair (normalize pod_up) = (normalize-IsNormal pod_up, pod_up-IsClean) in
    restart-Agree store calls (text "abc123")
      ((down, tt), ((down, tt), (refl, (tt, ((up, (up, tt)), tt)))))

abbrev signal : IncidentSignal
signal = record {
  correlation_id = text "abc123";
  incident_id = text "incident-abc123";
  episode = 1;
  alert_name = text "PodDown";
  status = AlertStatus.firing;
  labels = [];
  annotations = [];
  event_time = text "2026-08-10T12:00:00Z";
  source_event_id = text "abc123:firing";
  event_time_ms = some (pos 1786363200000);
}

abbrev busy : IncidentDispatcher
busy = record { journal = store; lifecycle = [] }

signal_accepted : (process_one busy signal).1 ≡ ok (signal, accepted)
unfolding process_one record_event append append_scoped append_events Map.get
signal_accepted = refl

accepted-Opens_example :
    (e : ℕ) × Opens signal (Map.get busy.lifecycle (text "abc123")) e
    × (Map.get (process_one busy signal).0.lifecycle (text "abc123") ≡ some (fires e signal))
accepted-Opens_example = accepted-Opens busy signal signal refl signal_accepted

abbrev other_signal : IncidentSignal
other_signal = record signal {
  correlation_id = text "def456";
  incident_id = text "incident-def456";
}

abbrev opened_event : JournalEvent
opened_event =
    incident_opened (text "incident-abc123-episode-2") (text "PodDown") [] []
      (text "2026-08-10T12:00:00Z") (text "abc123:firing")

abbrev resumed_event : JournalEvent
resumed_event =
    incident_resumed (text "incident-abc123-episode-2") (text "2026-08-10T12:05:00Z")
      (text "abc123:again")

abbrev facts : List JournalEntry
facts =
    record { sequence = 0; context = none; event = opened_event }
    ∷ record { sequence = 1; context = none; event = resumed_event }
    ∷ []

-- a store whose journal leaves an episode under way
abbrev open_store : JournalStore
open_store = record store { journal = facts }

under_way_key : correlation_key (text "incident-abc123-episode-2") ≡ text "abc123"
unfolding correlation_key
under_way_key = refl

pending-Listed_example :
    Listed
      (signal_of (text "incident-abc123-episode-2") (text "PodDown") [] [] (
        last_seen
          (correlation_key (text "incident-abc123-episode-2"))
          (text "2026-08-10T12:00:00Z", text "abc123:firing")
          (record { sequence = 1; context = none; event = resumed_event } ∷ [])))
      (pending_investigations (new open_store))
pending-Listed_example =
    pending-Listed open_store []
      (record { sequence = 1; context = none; event = resumed_event } ∷ []) 0 none
      (text "incident-abc123-episode-2") (text "PodDown") [] [] (text "2026-08-10T12:00:00Z")
      (text "abc123:firing") refl (refl, tt)

resumed_last :
    last_seen
      (text "abc123")
      (text "2026-08-10T12:00:00Z", text "abc123:firing")
      (record { sequence = 1; context = none; event = resumed_event } ∷ [])
    ≡ (text "2026-08-10T12:05:00Z", text "abc123:again")
unfolding last_seen correlation_key
resumed_last = refl
