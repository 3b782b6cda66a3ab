-- ===== src/Reasoning/Coordinator/Dropped.antt =====
-- src/reasoning/coordinator.rs: about a run whose active provider was dropped.
use ai_sre.Prelude.{
  ◌≡◌, ◌≢◌, sym, ap, ◌∙◌, subst, true, false, some, List, [], ◌∷◌, ◌++◌, ok, err, arith, inl, inr,
}
use ai_sre.Reasoning.Budget.{Reservation, BudgetState}
use ai_sre.Reasoning.Router.{ProviderKind, deterministic, contains, insert, next_admitted}
use ai_sre.Reasoning.Router.Order.{same_provider_iff, contains-insert, next_admitted-IsNext}
use ai_sre.Reasoning.Coordinator.{
  ReasoningConfig, ReasoningRun, AttemptRecord, AttemptFacts, FailureClass, new, admit,
  reserve_evidence_query, admit_deterministic, fail_with, wrong_provider,
}
use ai_sre.Reasoning.Coordinator.Admission.{
  stopped, busy, out, refused, started, admit_cases, admit_deterministic_cases,
}
use ai_sre.Reasoning.Coordinator.Completion.{
  CompletionCase, recorded, dropped, ignored, fail_with_cases, succeed_with_cases, fail_with_other,
}
use ai_sre.Reasoning.Coordinator.Invariant.{
  Call, admits, queries, admits_deterministic, fails, succeeds, step, run, recorded_in, IsRun,
  ActiveIs, run-IsRun,
}
use ai_sre.Reasoning.Coordinator.Progress.{new-initial, initial-IsRun}

-- the provider is attempted, not active, and has no record
pub record IsDropped (a : ProviderKind) (s : ReasoningRun) : Type 0 where
  pub attempted : contains s.attempted a ≡ true
  pub inactive : s.active ≢ some a
  pub unrecorded : recorded_in s.attempts a ≡ false

recorded_in-snoc :
    (attempts : List AttemptRecord) (r : AttemptRecord) (a : ProviderKind)
    → recorded_in attempts a ≡ false
    → r.provider ≢ a
    → recorded_in (attempts ++ r ∷ []) a ≡ false
recorded_in-snoc [] r a h other = ground (arith, (same_provider_iff r.provider a).0)
recorded_in-snoc (b ∷ attempts) r a h other = ground (arith, recorded_in-snoc attempts r a)

started-IsDropped :
    (a : ProviderKind) (s : ReasoningRun) (p : ProviderKind) (b : BudgetState)
    → IsDropped a s
    → next_admitted s.attempted s.order s.admission ≡ some p
    → IsDropped a (record s { budget = b; attempted = insert p s.attempted; active = some p })
started-IsDropped a s p b h e =
    let fresh = (next_admitted-IsNext s.attempted s.order s.admission p e).fresh in
    record {
      attempted = ground (arith, contains-insert s.attempted p a, h.attempted);
      inactive = λ q. cc (q, fresh, h.attempted);
      unrecorded = h.unrecorded;
    }

completion-IsDropped :
    (a : ProviderKind) (s : ReasoningRun) (p : ProviderKind) (t : ReasoningRun)
    → IsDropped a s
    → CompletionCase s p t
    → IsDropped a t
completion-IsDropped a s p t h (recorded r st e active eq) = rw eq (record {
  attempted = h.attempted;
  inactive = λ q. cc q;
  unrecorded =
      recorded_in-snoc s.attempts r a h.unrecorded (λ q. h.inactive (active ∙ ap some (sym e ∙ q)));
})
completion-IsDropped a s p t h (dropped other eq) =
    rw eq (record { attempted = h.attempted; inactive = λ q. cc q; unrecorded = h.unrecorded })
completion-IsDropped a s p t h (ignored other eq) = rw eq h

admit-IsDropped :
    (a : ProviderKind) (s : ReasoningRun) (r : Reservation)
    → IsDropped a s
    → IsDropped a (admit s r).0
admit-IsDropped a s r h = elim (admit_cases s r) [
  | stopped st e eq ↦ rw eq h
  | busy p open_run e eq ↦ rw eq h
  | out open_run idle e eq ↦
      rw eq (record { attempted = h.attempted; inactive = h.inactive; unrecorded = h.unrecorded })
  | refused p x open_run idle e over eq ↦ rw eq h
  | started p open_run idle e fits eq ↦ rw eq (started-IsDropped a s p _ h e)
]

deterministic-IsDropped :
    (a : ProviderKind) (s : ReasoningRun) → IsDropped a s → IsDropped a (admit_deterministic s).0
deterministic-IsDropped a s h = elim (admit_deterministic_cases s) [
  | inl eq ↦ rw eq h
  | inr (open_run, idle, e, eq) ↦ rw eq (started-IsDropped a s deterministic s.budget h e)
]

step-IsDropped :
    (a : ProviderKind) (s : ReasoningRun) (c : Call) → IsDropped a s → IsDropped a (step s c)
unfolding step
step-IsDropped a s (admits r) h = admit-IsDropped a s r h
step-IsDropped a s queries h =
    unfold reserve_evidence_query in
    record { attempted = h.attempted; inactive = h.inactive; unrecorded = h.unrecorded }
step-IsDropped a s admits_deterministic h = deterministic-IsDropped a s h
step-IsDropped a s (fails p f x) h = completion-IsDropped a s p _ h (fail_with_cases s p f x)
step-IsDropped a s (succeeds p x) h = completion-IsDropped a s p _ h (succeed_with_cases s p x)

run-IsDropped :
    (a : ProviderKind) (s : ReasoningRun) (cs : List Call) → IsDropped a s → IsDropped a (run s cs)
unfolding run
run-IsDropped a s [] h = h
run-IsDropped a s (c ∷ cs) h = run-IsDropped a (step s c) cs (step-IsDropped a s c h)

mismatch-IsDropped :
    (s : ReasoningRun) (a p : ProviderKind) (f : FailureClass) (x : AttemptFacts)
    → IsRun s
    → s.active ≡ some a
    → a ≢ p
    → IsDropped a (fail_with s p f x).0
mismatch-IsDropped s a p f x h e other =
    let active : ActiveIs s (some a) = subst (ActiveIs s) e h.active_new in
    rw (fail_with_other s p x f a e other)
      (record { attempted = active.0; inactive = λ q. cc q; unrecorded = active.1 })

-- At any time of a created run, a failure that is reported for another provider than the active one is
-- refused and yet drops the active one: whatever is called from then on, that provider is not
-- active again and no outcome of it is recorded.
pub fail_with-drops :
    (config : ReasoningConfig) (s : ReasoningRun) (cs ds : List Call) (a p : ProviderKind)
    (f : FailureClass) (x : AttemptFacts)
    → new config ≡ ok s
    → (run s cs).active ≡ some a
    → a ≢ p
    → let after = fail_with (run s cs) p f x in
      (after.1 ≡ err wrong_provider)
      × ((run after.0 ds).active ≢ some a)
      × (recorded_in (run after.0 ds).attempts a ≡ false)
fail_with-drops config s cs ds a p f x h e other =
    let reached : IsRun (run s cs) =
      run-IsRun s cs (rw (new-initial config s h) (initial-IsRun config)) in
    let end =
      run-IsDropped a (fail_with (run s cs) p f x).0 ds
        (mismatch-IsDropped (run s cs) a p f x reached e other) in
    (ap (λ o. o.1) (fail_with_other (run s cs) p x f a e other), end.inactive, end.unrecorded)
