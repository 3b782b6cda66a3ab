-- ===== src/Reasoning/Dispatcher/Process/Arms.antt =====
-- src/reasoning/dispatcher.rs: about the arms of the dispatch and their replay.
use ai_sre.Prelude.{
  ℕ, ◌≤◌, ◌≡◌, refl, subst, true, false, Option, none, some, [], arith, Text, same_text, inl, inr,
  Bool-cases,
}
use ai_sre.Prelude.Int.{ℤ, ltb_ℤ→le}
use ai_sre.Prelude.Map
use ai_sre.Prelude.Map.{Map, get-insert}
use ai_sre.Reasoning.Budget.{u64_max}
use ai_sre.Reasoning.Incident.{AlertStatus, IncidentSignal}
use ai_sre.Reasoning.Incident.Identity.{IsNormal}
use ai_sre.Reasoning.Dispatcher.{
  LifecycleState, firing, resolved, IncidentDispatcher, replay, replay_event, current_id,
  episode_id, next_episode,
}
use ai_sre.Reasoning.Dispatcher.Agreement.{
  NotAfter, Agree, episode_of, episode_bound, recovered_later, Agree-set,
}
use ai_sre.Reasoning.Dispatcher.Keys.{
  IsClean, key_and_number-episode_id, key_and_number-first, key_and_number-current_id,
}
use ai_sre.Reasoning.Dispatcher.Process.{
  out_of_order, redelivered, recovered_again, reopened, continued, closed, first_firing,
  first_recovery, arm, last_time, is_stale, process_one, process_timed, opened, fires, recovered,
  resolves, resumed_event, deduplicated_event,
}
use ai_sre.Reasoning.Dispatcher.Process.Consistent.{
  IsConsistent, record_event-IsConsistent, Reads, replay_opened, replay_recovered, replay_resumed,
}

-- a signal as the intake normalizes it, with a key whose identities can be read back
abbrev pub IsFair : IncidentSignal → Type 0
IsFair i = IsNormal i × IsClean i.correlation_id

first-Reads : (i : IncidentSignal) → IsFair i → Reads i.incident_id i.correlation_id i.episode
first-Reads i fair =
    let (normal, clean) = fair in
    let (k, n) = key_and_number-first i.correlation_id clean in
    rw (normal.incident_id, normal.episode) (k, n, omega arith)

current-Reads :
    (i : IncidentSignal) (n : ℕ)
    → IsFair i
    → n ≤ u64_max
    → Reads (current_id i.correlation_id n) i.correlation_id n
current-Reads i n fair bound =
    let (k, e) = key_and_number-current_id i.correlation_id n fair.1 bound in (k, e, bound)

next-Reads : (key : Text) (n : ℕ) → Reads (episode_id key (next_episode n)) key (next_episode n)
next-Reads key n =
    let bound : next_episode n ≤ u64_max = omega arith in
    let (k, e) = key_and_number-episode_id key (next_episode n) bound in (k, e, bound)

module _ (d : IncidentDispatcher) (i : IncidentSignal) (consistent : IsConsistent d)
    (fair : IsFair i) where
  -- the state of the signal's key has an episode within the width
  bound_of :
      (v : LifecycleState) → Map.get d.lifecycle i.correlation_id ≡ some v → episode_of v ≤ u64_max
  bound_of v h = episode_bound (Map.get (replay [] d.journal.journal) i.correlation_id) v (
      subst (λ o. Agree (Map.get (replay [] d.journal.journal) i.correlation_id) o) h
        (consistent i.correlation_id))

  first_firing-IsConsistent : IsConsistent (first_firing d i).0
  unfolding first_firing replay_event opened fires
  first_firing-IsConsistent = record_event-IsConsistent d (opened i) _ _ consistent (
      replay_opened _ d.lifecycle consistent i.incident_id i.correlation_id i.episode
        (first-Reads i fair) i.event_time i.event_time_ms fair.0.event_time_ms i.source_event_id)

  first_recovery-IsConsistent : IsConsistent (first_recovery d i).0
  unfolding first_recovery replay_event recovered resolves
  first_recovery-IsConsistent = record_event-IsConsistent d (recovered i) _ _ consistent (
      replay_recovered _ d.lifecycle consistent i.incident_id i.correlation_id i.episode
        (first-Reads i fair) i.event_time i.event_time_ms fair.0.event_time_ms i.source_event_id)

  reopened-IsConsistent : (n : ℕ) → IsConsistent (reopened d i n).0
  unfolding reopened replay_event opened fires
  reopened-IsConsistent n = record_event-IsConsistent d _ _ _ consistent (
      replay_opened _ d.lifecycle consistent (episode_id i.correlation_id (next_episode n))
        i.correlation_id (next_episode n) (next-Reads i.correlation_id n) i.event_time
        i.event_time_ms fair.0.event_time_ms i.source_event_id)

  closed-IsConsistent : (n : ℕ) → n ≤ u64_max → IsConsistent (closed d i n).0
  unfolding closed replay_event recovered resolves
  closed-IsConsistent n bound = record_event-IsConsistent d _ _ _ consistent (
      replay_recovered _ d.lifecycle consistent (current_id i.correlation_id n) i.correlation_id n
        (current-Reads i n fair bound) i.event_time i.event_time_ms fair.0.event_time_ms
        i.source_event_id)

  continued-IsConsistent :
      (n : ℕ) (t : Text) (last : Option ℤ) (source : Text)
      → n ≤ u64_max
      → Map.get d.lifecycle i.correlation_id ≡ some (firing n false t last source)
      → IsConsistent (continued d i n).0
  unfolding continued replay_event resumed_event fires
  continued-IsConsistent n t last source bound h = record_event-IsConsistent d _ _ _ consistent (
      replay_resumed _ d.lifecycle consistent (current_id i.correlation_id n) i.correlation_id n
        (current-Reads i n fair bound) i.event_time i.event_time_ms fair.0.event_time_ms
        i.source_event_id t last source
        (subst (λ o. Agree (Map.get (replay [] d.journal.journal) i.correlation_id) o) h
          (consistent i.correlation_id)))

  recovered_again-IsConsistent :
      (n : ℕ) (t : Text) (last : Option ℤ) (source : Text)
      → Map.get d.lifecycle i.correlation_id ≡ some (resolved n t last source)
      → ((a : ℤ) → last ≡ some a → NotAfter last i.event_time_ms)
      → IsConsistent (recovered_again d i n).0
  unfolding recovered_again replay_event deduplicated_event resolves
  recovered_again-IsConsistent n t last source h later =
      record_event-IsConsistent d _ _ _ consistent (
        Agree-set _ d.lifecycle i.correlation_id consistent
          (resolved n i.event_time i.event_time_ms i.source_event_id)
          (recovered_later (Map.get (replay [] d.journal.journal) i.correlation_id) n t i.event_time
            last i.event_time_ms source i.source_event_id
            (subst (λ o. Agree (Map.get (replay [] d.journal.journal) i.correlation_id) o) h
              (consistent i.correlation_id))
            later))

  redelivered-IsConsistent : IsConsistent (redelivered d i).0
  unfolding redelivered replay_event deduplicated_event
  redelivered-IsConsistent = record_event-IsConsistent d _ d.lifecycle _ consistent consistent

  out_of_order-IsConsistent : IsConsistent (out_of_order d i).0
  unfolding out_of_order replay_event
  out_of_order-IsConsistent = record_event-IsConsistent d _ d.lifecycle _ consistent consistent

  -- a signal that is not stale is no earlier than the last time
  not_stale :
      (t : ℤ) (last : Option ℤ)
      → i.event_time_ms ≡ some t
      → is_stale t last ≡ false
      → (a : ℤ) → last ≡ some a
      → NotAfter last i.event_time_ms
  not_stale t none ms fresh a e = tt
  not_stale t (some b) ms fresh a e = rw ms (ltb_ℤ→le t b fresh)

  arm-IsConsistent :
      (status : AlertStatus) (t : ℤ) (current : Option LifecycleState)
      → Map.get d.lifecycle i.correlation_id ≡ current
      → i.event_time_ms ≡ some t
      → is_stale t (last_time current) ≡ false
      → IsConsistent (arm d i status current).0
  unfolding arm
  arm-IsConsistent AlertStatus.firing t none h ms fresh = first_firing-IsConsistent
  arm-IsConsistent AlertStatus.resolved t none h ms fresh = first_recovery-IsConsistent
  arm-IsConsistent AlertStatus.firing t (some (firing n true last_t last src)) h ms fresh =
      elim (Bool-cases (same_text i.source_event_id src)) [
        | inl e ↦ rw e redelivered-IsConsistent
        | inr e ↦ rw e (reopened-IsConsistent n)
      ]
  arm-IsConsistent AlertStatus.firing t (some (firing n false last_t last src)) h ms fresh =
      continued-IsConsistent n last_t last src (bound_of (firing n false last_t last src) h) h
  arm-IsConsistent AlertStatus.firing t (some (resolved n last_t last src)) h ms fresh =
      reopened-IsConsistent n
  arm-IsConsistent AlertStatus.resolved t (some (firing n c last_t last src)) h ms fresh =
      closed-IsConsistent n (bound_of (firing n c last_t last src) h)
  arm-IsConsistent AlertStatus.resolved t (some (resolved n last_t last src)) h ms fresh =
      recovered_again-IsConsistent n last_t last src h (not_stale t last ms fresh)

  timed-IsConsistent :
      (time : Option ℤ) → i.event_time_ms ≡ time → IsConsistent (process_timed d i time).0
  unfolding process_timed
  timed-IsConsistent none e = consistent
  timed-IsConsistent (some t) e =
      let current = Map.get d.lifecycle i.correlation_id in
      elim (Bool-cases (is_stale t (last_time current))) [
        | inl stale ↦ rw stale out_of_order-IsConsistent
        | inr fresh ↦ rw fresh (arm-IsConsistent i.status t current refl e fresh)
      ]

  pub process_one-IsConsistent : IsConsistent (process_one d i).0
  unfolding process_one
  process_one-IsConsistent = timed-IsConsistent i.event_time_ms refl
