-- ===== src/Reasoning/Dispatcher/Process/Consistent.antt =====
-- src/reasoning/dispatcher.rs: about one recorded event and its replay.
use ai_sre.Prelude.{
  ℕ, ◌≤◌, ◌≡◌, false, Option, none, some, [], ◌∷◌, ◌++◌, length, arith, Text, inl, inr, ok, err,
  Result-cases,
}
use ai_sre.Prelude.Int.{ℤ}
use ai_sre.Prelude.Map
use ai_sre.Prelude.Map.{Map, get-insert}
use ai_sre.Reasoning.Budget.{u64_max}
use ai_sre.Reasoning.Incident.Time.{parse_rfc3339_millis}
use ai_sre.Reasoning.Journal.{JournalEvent, JournalContext}
use ai_sre.Reasoning.Storage.{
  JournalStore, JournalStoreError, append, append_scoped, append_events, entries_from,
}
use ai_sre.Reasoning.Storage.Appends.{append_events_cases, committed, rolled_back, unreported}
use ai_sre.Reasoning.Storage.Committed.{journal-stored}
use ai_sre.Reasoning.Storage.Untouched.{KeepsJournal, no_change-KeepsJournal}
use ai_sre.Reasoning.Dispatcher.{
  LifecycleState, firing, resolved, IncidentDispatcher, replay, replay_event, correlation_key,
  episode_number, resume_key,
}
use ai_sre.Reasoning.Dispatcher.Agreement.{
  Agree, AgreeMaps, Agree-refl, replayed_firing, Agree-insert, replay_snoc,
}
use ai_sre.Reasoning.Dispatcher.Process.{record_event}

-- memory and a replay of the store's journal agree
abbrev pub IsConsistent : IncidentDispatcher → Type 0
IsConsistent d = AgreeMaps (replay [] d.journal.journal) d.lifecycle

replay_added :
    (s : JournalStore) (e : JournalEvent) (context : Option JournalContext)
    → replay [] (s.journal ++ entries_from (length s.journal) context (e ∷ []))
      ≡ replay_event (replay [] s.journal) e
replay_added s e context = replay_snoc [] s.journal _

module _ (s : JournalStore) (e : JournalEvent) (context : Option JournalContext)
    (change : JournalStore → JournalStore) (keeps : KeepsJournal change)
    (m m' : Map LifecycleState) where
  -- a transaction with one event, and the lifecycle that goes with its end
  pub after_append :
      AgreeMaps (replay [] s.journal) m
      → AgreeMaps (replay_event (replay [] s.journal) e) m'
      → let (t, r) = append_events s (e ∷ []) context change in
        ((r ≡ ok tt) → AgreeMaps (replay [] t.journal) m')
        × ((x : JournalStoreError) → (r ≡ err x) → AgreeMaps (replay [] t.journal) m)
  after_append old new = elim (append_events_cases s (e ∷ []) context change) [
    | committed later fit free eq ok_r ↦ (
      λ _. rw (eq, journal-stored s (e ∷ []) context change keeps, replay_added s e context) new,
      λ x failed. absurd (ground arith),
    )
    | rolled_back later eq err_r ↦ (λ succeeded. absurd (ground arith), λ x _. rw eq old)
    | unreported later fit free eq err_r ↦ (
      λ succeeded. absurd (ground arith),
      λ x _. rw (eq, journal-stored s (e ∷ []) context change keeps) old,
    )
  ]

pub record_event-IsConsistent :
    {A : Type 0} (d : IncidentDispatcher) (e : JournalEvent) (m' : Map LifecycleState) (a : A)
    → IsConsistent d
    → AgreeMaps (replay_event (replay [] d.journal.journal) e) m'
    → IsConsistent (record_event d e m' a).0
unfolding record_event append append_scoped
record_event-IsConsistent d e m' a old new =
    let after =
      after_append d.journal e none (λ t. t) no_change-KeepsJournal d.lifecycle m' old new in
    elim (Result-cases (append_events d.journal (e ∷ []) none (λ t. t)).1) [
      | inl (u, h) ↦ rw (h, record_event) (after.0 h)
      | inr (x, h) ↦ rw (h, record_event) (after.1 x h)
    ]

-- what an identity is read back as
abbrev pub Reads : Text → Text → ℕ → Type 0
Reads id key n = (correlation_key id ≡ key) × (episode_number id ≡ n) × (n ≤ u64_max)

module _ (r m : Map LifecycleState) (agree : AgreeMaps r m) (id key : Text) (n : ℕ)
    (reads : Reads id key n) (time : Text) (ms : Option ℤ) (parsed : ms ≡ parse_rfc3339_millis time)
    (src : Text) where
  pub replay_opened :
      AgreeMaps
        (Map.insert r
          (correlation_key id)
          (firing (episode_number id) false time (parse_rfc3339_millis time) src))
        (Map.insert m key (firing n false time ms src))
  replay_opened =
      rw (reads.0, reads.1, parsed)
        (Agree-insert r m key agree _ _
          (Agree-refl (firing n false time (parse_rfc3339_millis time) src) reads.2))

  pub replay_recovered :
      AgreeMaps
        (Map.insert r
          (correlation_key id)
          (resolved (episode_number id) time (parse_rfc3339_millis time) src))
        (Map.insert m key (resolved n time ms src))
  replay_recovered =
      rw (reads.0, reads.1, parsed)
        (Agree-insert r m key agree _ _
          (Agree-refl (resolved n time (parse_rfc3339_millis time) src) reads.2))

  pub replay_resumed :
      (t : Text) (last : Option ℤ) (source : Text)
      → Agree (Map.get r key) (some (firing n false t last source))
      → AgreeMaps
          (resume_key r (correlation_key id) time src)
          (Map.insert m key (firing n false time ms src))
  unfolding resume_key
  replay_resumed t last source h =
      rw (reads.0, parsed)
        (rw (replayed_firing (Map.get r key) n false t last source h, resume_key)
          (Agree-insert r m key agree _ _
            (Agree-refl (firing n false time (parse_rfc3339_millis time) src) reads.2)))
