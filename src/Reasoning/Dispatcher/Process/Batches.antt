-- ===== src/Reasoning/Dispatcher/Process/Batches.antt =====
-- src/reasoning/dispatcher.rs: about batches, completions and their replay.
use ai_sre.Prelude.{
  ◌≡◌, refl, true, Option, none, some, List, [], ◌∷◌, Text, Result, ok, err, Result-cases, All, inl,
  inr,
}
use ai_sre.Prelude.Map
use ai_sre.Prelude.Map.{Map}
use ai_sre.Reasoning.Incident.{IncidentSignal}
use ai_sre.Reasoning.Journal.{incident_completed}
use ai_sre.Reasoning.Storage.{
  JournalStore, JournalStoreError, OutboxMessage, StoredReport, add_message, add_report,
  append_with_outbox, append_with_outbox_scoped, append_with_outbox_and_report,
}
use ai_sre.Reasoning.Storage.Untouched.{message-KeepsJournal, report-KeepsJournal}
use ai_sre.Reasoning.Dispatcher.{
  LifecycleState, firing, resolved, IncidentDispatcher, replay, replay_event, complete_key,
  correlation_key,
}
use ai_sre.Reasoning.Dispatcher.Agreement.{Agree, AgreeMaps, Agree-insert}
use ai_sre.Reasoning.Dispatcher.Process.{
  process_one, process, process_new, completed_by, mark_completed_with_outbox,
  mark_completed_with_report,
}
use ai_sre.Reasoning.Dispatcher.Process.Consistent.{IsConsistent, after_append}
use ai_sre.Reasoning.Dispatcher.Process.Arms.{IsFair, process_one-IsConsistent}

pub process-IsConsistent :
    (d : IncidentDispatcher) (batch : List IncidentSignal)
    → IsConsistent d
    → All IsFair batch
    → IsConsistent (process d batch).0
unfolding process
process-IsConsistent d [] consistent fair = consistent
process-IsConsistent d (i ∷ batch) consistent fair =
    let here = process_one-IsConsistent d i consistent fair.0 in
    elim (Result-cases (process_one d i).1) [
      | inl (a, e) ↦ rw (e, process) (process-IsConsistent (process_one d i).0 batch here fair.1)
      | inr (x, e) ↦ rw (e, process) here
    ]

pub process_new-IsConsistent :
    (d : IncidentDispatcher) (batch : List IncidentSignal)
    → IsConsistent d
    → All IsFair batch
    → IsConsistent (process_new d batch).0
unfolding process_new
process_new-IsConsistent d [] consistent fair = consistent
process_new-IsConsistent d (i ∷ batch) consistent fair =
    let here = process_one-IsConsistent d i consistent fair.0 in
    elim (Result-cases (process_one d i).1) [
      | inl (a, e) ↦
          rw (e, process_new) (process_new-IsConsistent (process_one d i).0 batch here fair.1)
      | inr (x, e) ↦ rw (e, process_new) here
    ]

module _ (r m : Map LifecycleState) (agree : AgreeMaps r m) (key : Text) where
  complete_states :
      (ro mo : Option LifecycleState)
      → Map.get r key ≡ ro
      → Map.get m key ≡ mo
      → Agree ro mo
      → AgreeMaps (complete_key r key) (complete_key m key)
  unfolding complete_key
  complete_states none none hr hm a = rw (hr, hm, complete_key) agree
  complete_states none (some (firing _ _ _ _ _)) hr hm a = absurd a
  complete_states none (some (resolved _ _ _ _)) hr hm a = absurd a
  complete_states (some (firing _ _ _ _ _)) none hr hm a = absurd a
  complete_states (some (resolved _ _ _ _)) none hr hm a = absurd a
  complete_states (some (firing _ _ _ _ _)) (some (resolved _ _ _ _)) hr hm a = absurd a
  complete_states (some (resolved _ _ _ _)) (some (firing _ _ _ _ _)) hr hm a = absurd a
  complete_states (some (resolved _ _ _ _)) (some (resolved _ _ _ _)) hr hm a =
      rw (hr, hm, complete_key) agree
  complete_states (some (firing e c t ms src)) (some (firing e' c' t' ms' src')) hr hm a =
      let (same_e, _, same_t, same_ms, same_src, bound) = a in
      rw (hr, hm, complete_key)
        (Agree-insert r m key agree (firing e true t ms src) (firing e' true t' ms' src')
          (same_e, refl, same_t, same_ms, same_src, bound))

  pub complete-AgreeMaps : AgreeMaps (complete_key r key) (complete_key m key)
  complete-AgreeMaps = complete_states (Map.get r key) (Map.get m key) refl refl (agree key)

module _ (d : IncidentDispatcher) (id : Text) (consistent : IsConsistent d) where
  completed_event :
      AgreeMaps
        (replay_event (replay [] d.journal.journal) (incident_completed id))
        (complete_key d.lifecycle (correlation_key id))
  unfolding replay_event
  completed_event = complete-AgreeMaps _ d.lifecycle consistent (correlation_key id)

  completed_by-IsConsistent :
      (o : JournalStore × Result JournalStoreError (Unit {0}))
      → ((o.1 ≡ ok tt)
          → AgreeMaps (replay [] o.0.journal) (complete_key d.lifecycle (correlation_key id)))
        × ((x : JournalStoreError) → (o.1 ≡ err x) → AgreeMaps (replay [] o.0.journal) d.lifecycle)
      → IsConsistent (completed_by d id o).0
  unfolding completed_by
  completed_by-IsConsistent (t, ok _) after = after.0 refl
  completed_by-IsConsistent (t, err x) after = after.1 x refl

  pub with_outbox-IsConsistent :
      (outbox : Option OutboxMessage) → IsConsistent (mark_completed_with_outbox d id outbox).0
  unfolding mark_completed_with_outbox append_with_outbox append_with_outbox_scoped
  with_outbox-IsConsistent outbox =
      completed_by-IsConsistent (append_with_outbox d.journal (incident_completed id ∷ []) outbox) (
        after_append d.journal (incident_completed id) none (add_message outbox)
          (message-KeepsJournal outbox) d.lifecycle _ consistent completed_event)

  pub with_report-IsConsistent :
      (outbox : Option OutboxMessage) (report : StoredReport)
      → IsConsistent (mark_completed_with_report d id outbox report).0
  unfolding mark_completed_with_report append_with_outbox_and_report
  with_report-IsConsistent outbox report =
      completed_by-IsConsistent
        (append_with_outbox_and_report d.journal (incident_completed id ∷ []) outbox report)
        (after_append d.journal (incident_completed id) none (add_report outbox report)
          (report-KeepsJournal outbox report) d.lifecycle _ consistent completed_event)
