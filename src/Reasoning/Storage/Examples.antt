-- ===== src/Reasoning/Storage/Examples.antt =====
-- src/reasoning/storage.rs: runs at a concrete store.
use ai_sre.Prelude.{
  ◌≡◌, refl, true, none, some, List, [], ◌∷◌, text, map, Text, same_text, if◌then◌else◌, ◌==◌, ok,
}
use ai_sre.Prelude.Map
use ai_sre.Reasoning.Storage.Tables.{no_reviews}
use ai_sre.Reasoning.Journal.{
  JournalEvent, incident_completed, phase_started, phase_finished, investigation,
}
use ai_sre.Reasoning.Storage.{
  JournalStore, OutboxMessage, append_checkpoint_scoped, mark_outbox_delivered, EventCodec, commits,
  rolls_back, ambiguous, replay_rows, append_events, append_scoped, append_with_outbox_scoped,
  pending_messages,
}
use ai_sre.Reasoning.Storage.Committed.{IsDurable}
use ai_sre.Reasoning.Storage.Durable.{
  IsReopened, Call, appends, with_outbox, checkpoints, delivers, step, run, run-reopen,
}

abbrev to_json : JournalEvent → Text
to_json (phase_started _ _) = text "started"
to_json (incident_completed _) = text "completed"
to_json (phase_finished _ at) = if at == 9 then text "finished" else text "finished again"
to_json _ = []

-- reads back the events of the calls below
abbrev codec : EventCodec
codec = record {
  to_json = to_json;
  from_json = λ t.
      if same_text t (text "started")
      then some (phase_started investigation 5)
      else if same_text t (text "completed")
      then some (incident_completed (text "incident-a"))
      else if same_text t (text "finished")
      then some (phase_finished investigation 9)
      else if same_text t (text "finished again")
      then some (phase_finished investigation 10)
      else none;
}

abbrev pub empty_store : JournalStore
empty_store = record {
  codec = codec;
  journal = [];
  rows = [];
  outbox = [];
  reports = [];
  markers = [];
  reviews = no_reviews;
  outcomes = [];
}

-- the third transaction is undone
abbrev failing_store : JournalStore
failing_store = record empty_store { outcomes = commits ∷ commits ∷ rolls_back ∷ [] }

failing-IsDurable : IsDurable true failing_store
unfolding replay_rows
failing-IsDurable = record { more = []; replayed = refl; exact = (refl, (tt, (tt, (tt, tt)))) }

-- the second transaction is kept and reports an error
abbrev ambiguous_store : JournalStore
ambiguous_store = record empty_store { outcomes = commits ∷ ambiguous ∷ [] }

abbrev message : OutboxMessage
message = record { delivery_id = text "d1"; body = text "done" }

abbrev calls : List Call
calls =
    appends (phase_started investigation 5) none
    ∷ with_outbox (incident_completed (text "incident-a") ∷ []) (some message) none
    ∷ appends (phase_finished investigation 9) none
    ∷ checkpoints (text "c") (phase_finished investigation 10 ∷ []) none
    ∷ delivers (text "d1") 12
    ∷ []

calls_journal : map (λ e. e.sequence) (run failing_store calls).journal ≡ 0 ∷ 1 ∷ 2 ∷ []
unfolding run step append_scoped append_events append_with_outbox_scoped append_checkpoint_scoped
    mark_outbox_delivered Map.get
calls_journal = refl

calls_delivered : pending_messages (run failing_store calls).outbox ≡ []
unfolding run step append_scoped append_events append_with_outbox_scoped append_checkpoint_scoped
    mark_outbox_delivered Map.get pending_messages
calls_delivered = refl

run-reopen_example : IsReopened true (run failing_store calls)
run-reopen_example =
    run-reopen true failing_store calls (refl, ((refl, tt), (refl, ((refl, tt), (tt, tt)))))
      failing-IsDurable

-- behind the error memory lacks a fact, and no later append succeeds before a restart
ambiguous_journal : map (λ e. e.sequence) (run ambiguous_store calls).journal ≡ 0 ∷ []
unfolding run step append_scoped append_events append_with_outbox_scoped append_checkpoint_scoped
    mark_outbox_delivered Map.get
ambiguous_journal = refl

ambiguous_rows : map (λ row. row.sequence) (run ambiguous_store calls).rows ≡ 0 ∷ 1 ∷ []
unfolding run step append_scoped append_events append_with_outbox_scoped append_checkpoint_scoped
    mark_outbox_delivered Map.get
ambiguous_rows = refl

checkpoint_new :
    (append_checkpoint_scoped empty_store (text "c") (phase_finished investigation 10 ∷ []) none).1
    ≡ ok true
unfolding append_checkpoint_scoped append_events Map.get
checkpoint_new = refl

abbrev outbox_store : JournalStore
outbox_store = record empty_store {
  outbox = record { message = message; delivered_at_ms = none } ∷ [];
}

delivered_first : (mark_outbox_delivered outbox_store (text "d1") 12).1 ≡ ok true
unfolding mark_outbox_delivered
delivered_first = refl
