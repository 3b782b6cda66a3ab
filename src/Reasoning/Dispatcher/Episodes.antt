-- ===== src/Reasoning/Dispatcher/Episodes.antt =====
-- src/reasoning/dispatcher.rs: about the signals that open an episode.
use ai_sre.Prelude.{
  ℕ, ◌≡◌, refl, ap, ◌∙◌, true, false, Option, none, some, arith, Text, same_text, same_text_refl,
  inl, inr, Bool-cases, ok, subst, Bool, List, [], ◌∷◌,
}
use ai_sre.Prelude.Int.{ℤ}
use ai_sre.Prelude.Map
use ai_sre.Prelude.Map.{Map, get-insert}
use ai_sre.Reasoning.Incident.{AlertStatus, IncidentSignal}
use ai_sre.Reasoning.Dispatcher.{
  LifecycleState, firing, resolved, IncidentDispatcher, accepted, next_episode,
}
use ai_sre.Reasoning.Dispatcher.Process.{process_one, fires, mark_completed_with_outbox}
use ai_sre.Reasoning.Storage.{OutboxMessage}
use ai_sre.Reasoning.Dispatcher.Process.Effects.{
  transition, after, untimed, unwritten, stale, moved, process_one_cases,
}

-- The episode that a firing opens: the signal's own for a new key, the next one behind an episode
-- that was completed or resolved. There is none while an episode is under way.
pub data Opens (i : IncidentSignal) : Option LifecycleState → ℕ → Type 0 where
  first : Opens i none i.episode
  behind_completed :
      (e : ℕ) (t : Text) (ms : Option ℤ) (src : Text)
      → same_text i.source_event_id src ≡ false
      → Opens i (some (firing e true t ms src)) (next_episode e)
  behind_resolved :
      (e : ℕ) (t : Text) (ms : Option ℤ) (src : Text)
      → Opens i (some (resolved e t ms src)) (next_episode e)

transition-Opens :
    (i : IncidentSignal) (current next : Option LifecycleState)
    → transition i AlertStatus.firing current ≡ (accepted, next)
    → (e : ℕ) × Opens i current e × (next ≡ some (fires e i))
transition-Opens i none next h = (i.episode, first, ground arith)
transition-Opens i (some (firing e false t ms src)) next h = absurd (ground arith)
transition-Opens i (some (firing e true t ms src)) next h =
    elim (Bool-cases (same_text i.source_event_id src)) [
      | inl same ↦ absurd (ground arith)
      | inr other ↦ (next_episode e, behind_completed e t ms src other, ground arith)
    ]
transition-Opens i (some (resolved e t ms src)) next h =
    (next_episode e, behind_resolved e t ms src, ground arith)

module _ (d : IncidentDispatcher) (i i' : IncidentSignal)
    (is_firing : i.status ≡ AlertStatus.firing)
    (opened : (process_one d i).1 ≡ ok (i', accepted)) where
  -- A firing that is accepted opens an episode where none is under way, and is the key's state then.
  pub accepted-Opens :
      (e : ℕ) × Opens i (Map.get d.lifecycle i.correlation_id) e
      × (Map.get (process_one d i).0.lifecycle i.correlation_id ≡ some (fires e i))
  accepted-Opens = elim (process_one_cases d i) [
    | untimed _ eq ↦ absurd (ground (arith, ap (λ o. o.1) eq))
    | unwritten t _ _ _ _ _ failed _ _ ↦ absurd (ground arith)
    | stale t _ _ done _ _ ↦ absurd (ground arith)
    | moved t _ _ j _ _ outcome next move done m _ ↦
        let now : outcome ≡ accepted = ground arith in
        let (e, opens, v) = transition-Opens i (Map.get d.lifecycle i.correlation_id) next (
          subst (λ s. transition i s (Map.get d.lifecycle i.correlation_id) ≡ (accepted, next))
            is_firing (move ∙ ap (λ o. (o, next)) now)) in
        (
          e,
          opens,
          ap (λ l. Map.get l i.correlation_id) (m ∙ ap (after d i.correlation_id) v)
              ∙ get-insert d.lifecycle i.correlation_id (fires e i) i.correlation_id
              ∙ rw (same_text_refl i.correlation_id) refl,
        )
  ]

-- what is called in between: the completion of an episode, or a signal
pub data Meanwhile : Type 0 where
  finishes : Text → Option OutboxMessage → Meanwhile
  signals : IncidentSignal → Meanwhile

-- not a signal of the key
abbrev pub Spares : Text → Meanwhile → Type 0
Spares key (finishes _ _) = Unit
Spares key (signals j) = same_text j.correlation_id key ≡ false

unfoldable pub meanwhile_step : IncidentDispatcher → Meanwhile → IncidentDispatcher
meanwhile_step d (finishes id outbox) = (mark_completed_with_outbox d id outbox).0
meanwhile_step d (signals j) = (process_one d j).0

unfoldable pub meanwhile : IncidentDispatcher → List Meanwhile → IncidentDispatcher
meanwhile d [] = d
meanwhile d (m ∷ ms) = meanwhile (meanwhile_step d m) ms

-- the key's episode is the one that the signal opened, completed or not
abbrev pub Holds : IncidentSignal → ℕ → Map LifecycleState → Type 0
Holds i e m =
    (c : Bool) × (Map.get m i.correlation_id
      ≡ some (firing e c i.event_time i.event_time_ms i.source_event_id))

abbrev completed : Option LifecycleState → Option LifecycleState
completed (some (firing e _ t ms src)) = some (firing e true t ms src)
completed state = state
