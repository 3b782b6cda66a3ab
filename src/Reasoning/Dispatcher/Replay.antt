-- ===== src/Reasoning/Dispatcher/Replay.antt =====
-- src/reasoning/dispatcher.rs: about the lifecycle in memory and its replay.
use ai_sre.Prelude.{
  ◌≡◌, refl, Bool, true, false, Option, none, some, List, [], ◌∷◌, Text, All, Result-cases, inl,
  inr,
}
use ai_sre.Prelude.Map
use ai_sre.Prelude.Map.{Map}
use ai_sre.Reasoning.Incident.{IncidentSignal}
use ai_sre.Reasoning.Incident.Time.{parse_rfc3339_millis}
use ai_sre.Reasoning.Journal.{
  JournalEvent, JournalContext, JournalEntry, incident_opened, incident_recovered,
  incident_completed, incident_resumed,
}
use ai_sre.Reasoning.Storage.Untouched.{no_change-KeepsJournal}
use ai_sre.Reasoning.Storage.{
  JournalStore, OutboxMessage, StoredReport, append_scoped, append_events,
}
use ai_sre.Reasoning.Dispatcher.{
  LifecycleState, firing, resolved, IncidentDispatcher, new, replay, replay_event, resume_key,
  correlation_key, episode_number,
}
use ai_sre.Reasoning.Dispatcher.Agreement.{Agree, AgreeMaps, Agree-refl, Agree-insert}
use ai_sre.Reasoning.Dispatcher.Keys.{episode_number-le}
use ai_sre.Reasoning.Dispatcher.Process.{
  process, process_new, mark_completed_with_outbox, mark_completed_with_report,
}
use ai_sre.Reasoning.Dispatcher.Process.Consistent.{IsConsistent, after_append}
use ai_sre.Reasoning.Dispatcher.Process.Arms.{IsFair}
use ai_sre.Reasoning.Dispatcher.Process.Batches.{
  process-IsConsistent, process_new-IsConsistent, complete-AgreeMaps, with_outbox-IsConsistent,
  with_report-IsConsistent,
}

module _ (r m : Map LifecycleState) (agree : AgreeMaps r m) where
  resume_states :
      (key time src : Text) (ro mo : Option LifecycleState)
      → Map.get r key ≡ ro
      → Map.get m key ≡ mo
      → Agree ro mo
      → AgreeMaps (resume_key r key time src) (resume_key m key time src)
  unfolding resume_key
  resume_states key time src none none hr hm a = rw (hr, hm, resume_key) agree
  resume_states key time src none (some (firing _ _ _ _ _)) hr hm a = absurd a
  resume_states key time src none (some (resolved _ _ _ _)) hr hm a = absurd a
  resume_states key time src (some (firing _ _ _ _ _)) none hr hm a = absurd a
  resume_states key time src (some (resolved _ _ _ _)) none hr hm a = absurd a
  resume_states key time src (some (firing _ _ _ _ _)) (some (resolved _ _ _ _)) hr hm a = absurd a
  resume_states key time src (some (resolved _ _ _ _)) (some (firing _ _ _ _ _)) hr hm a = absurd a
  resume_states key time src (some (resolved _ _ _ _)) (some (resolved _ _ _ _)) hr hm a =
      rw (hr, hm, resume_key) agree
  resume_states key time src (some (firing e c _ _ _)) (some (firing e' c' _ _ _)) hr hm a =
      let (same_e, same_c, _, _, _, bound) = a in
      let ms = parse_rfc3339_millis time in
      rw (hr, hm, resume_key)
        (Agree-insert r m key agree (firing e c time ms src) (firing e' c' time ms src)
          (same_e, same_c, refl, refl, refl, bound))

  event-AgreeMaps : (e : JournalEvent) → AgreeMaps (replay_event r e) (replay_event m e)
  unfolding replay_event
  event-AgreeMaps (incident_opened id _ _ _ time src) =
      Agree-insert r m (correlation_key id) agree _ _ (
        Agree-refl (firing (episode_number id) false time (parse_rfc3339_millis time) src)
          (episode_number-le id))
  event-AgreeMaps (incident_recovered id time src) =
      Agree-insert r m (correlation_key id) agree _ _ (
        Agree-refl (resolved (episode_number id) time (parse_rfc3339_millis time) src)
          (episode_number-le id))
  event-AgreeMaps (incident_completed id) = complete-AgreeMaps r m agree (correlation_key id)
  event-AgreeMaps (incident_resumed id time src) =
      resume_states (correlation_key id) time src _ _ refl refl (agree (correlation_key id))
  event-AgreeMaps _ = agree

replay-AgreeMaps :
    (r m : Map LifecycleState) (es : List JournalEntry)
    → AgreeMaps r m
    → AgreeMaps (replay r es) (replay m es)
unfolding replay
replay-AgreeMaps r m [] agree = agree
replay-AgreeMaps r m (e ∷ es) agree =
    replay-AgreeMaps (replay_event r e.event) (replay_event m e.event) es
      (event-AgreeMaps r m agree e.event)

new-IsConsistent : (s : JournalStore) → IsConsistent (new s)
unfolding new
new-IsConsistent s = replay-AgreeMaps [] [] s.journal (λ k. unfold Map.get in tt)

-- the facts that a restart reads the lifecycle from
abbrev pub is_lifecycle : JournalEvent → Bool
is_lifecycle (incident_opened _ _ _ _ _ _) = true
is_lifecycle (incident_recovered _ _ _) = true
is_lifecycle (incident_completed _) = true
is_lifecycle (incident_resumed _ _ _) = true
is_lifecycle _ = false

-- a call of the dispatcher's owner, `investigates` an append through `journal_mut`
pub data Call : Type 0 where
  receives receives_new : List IncidentSignal → Call
  completes : Text → Option OutboxMessage → Call
  reports : Text → Option OutboxMessage → StoredReport → Call
  investigates : JournalEvent → Option JournalContext → Call

abbrev pub IsFairCall : Call → Type 0
IsFairCall (receives batch) = All IsFair batch
IsFairCall (receives_new batch) = All IsFair batch
IsFairCall (completes _ _) = Unit
IsFairCall (reports _ _ _) = Unit
IsFairCall (investigates e _) = is_lifecycle e ≡ false

unfoldable pub step : IncidentDispatcher → Call → IncidentDispatcher
step d (receives batch) = (process d batch).0
step d (receives_new batch) = (process_new d batch).0
step d (completes id outbox) = (mark_completed_with_outbox d id outbox).0
step d (reports id outbox report) = (mark_completed_with_report d id outbox report).0
step d (investigates e c) = record d { journal = (append_scoped d.journal e c).0 }

unfoldable pub run : IncidentDispatcher → List Call → IncidentDispatcher
run d [] = d
run d (c ∷ cs) = run (step d c) cs

ignored :
    (m : Map LifecycleState) (e : JournalEvent) → is_lifecycle e ≡ false → replay_event m e ≡ m
unfolding replay_event
ignored m (incident_opened _ _ _ _ _ _) h = absurd (cc)
ignored m (incident_recovered _ _ _) h = absurd (cc)
ignored m (incident_completed _) h = absurd (cc)
ignored m (incident_resumed _ _ _) h = absurd (cc)
ignored m _ h = refl

investigates-IsConsistent :
    (d : IncidentDispatcher) (e : JournalEvent) (c : Option JournalContext)
    → IsConsistent d
    → is_lifecycle e ≡ false
    → IsConsistent (step d (investigates e c))
unfolding step append_scoped
investigates-IsConsistent d e c h other =
    let same = ignored (replay [] d.journal.journal) e other in
    let after =
      after_append d.journal e c (λ t. t) no_change-KeepsJournal d.lifecycle d.lifecycle h
        (rw same h) in
    elim (Result-cases (append_events d.journal (e ∷ []) c (λ t. t)).1) [
      | inl (_, eq) ↦ after.0 eq
      | inr (x, eq) ↦ after.1 x eq
    ]

step-IsConsistent :
    (d : IncidentDispatcher) (c : Call) → IsConsistent d → IsFairCall c → IsConsistent (step d c)
unfolding step
step-IsConsistent d (receives batch) h fair = process-IsConsistent d batch h fair
step-IsConsistent d (receives_new batch) h fair = process_new-IsConsistent d batch h fair
step-IsConsistent d (completes id outbox) h fair = with_outbox-IsConsistent d id h outbox
step-IsConsistent d (reports id outbox report) h fair =
    with_report-IsConsistent d id h outbox report
step-IsConsistent d (investigates e c) h fair = investigates-IsConsistent d e c h fair

run-IsConsistent :
    (d : IncidentDispatcher) (cs : List Call)
    → IsConsistent d
    → All IsFairCall cs
    → IsConsistent (run d cs)
unfolding run
run-IsConsistent d [] h fair = h
run-IsConsistent d (c ∷ cs) h fair =
    run-IsConsistent (step d c) cs (step-IsConsistent d c h fair.0) fair.1

-- Start a dispatcher over any store and call it in any way, whichever transactions fail: batches of
-- normalized signals whose keys hold no mark of an episode, completions, reports, and the other
-- facts of an investigation. A dispatcher that is then started over the same store has, for every
-- key, the state that was in memory: a firing is the same, and a recovery has the same episode and
-- a time that is no later.
pub restart-Agree :
    (s : JournalStore) (cs : List Call) (key : Text)
    → All IsFairCall cs
    → let d = run (new s) cs in
      Agree (Map.get (new d.journal).lifecycle key) (Map.get d.lifecycle key)
unfolding new
restart-Agree s cs key fair = run-IsConsistent (new s) cs (new-IsConsistent s) fair key
