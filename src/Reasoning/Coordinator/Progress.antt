-- ===== src/Reasoning/Coordinator/Progress.antt =====
-- src/reasoning/coordinator.rs: about all calls of a run and about retries.
use ai_sre.Prelude.{
  Result, err, ◌⊎◌, ℕ, zero, suc, ◌≤◌, ◌<◌, ◌≡◌, refl, true, Option, none, some, List, [], ◌∷◌,
  ◌++◌, ok, arith, length, inl, inr, All, subst, ap, ◌∙◌,
}
use ai_sre.Reasoning.Budget
use ai_sre.Reasoning.Budget.{Reservation, BudgetState, BudgetError, reserve}
use ai_sre.Reasoning.Budget.Bounds.{IsFinite, IsWithin, reserve-IsWithin, config-reserve}
use ai_sre.Reasoning.Router.{ProviderKind, insert, ProviderOrder, allows, admission}
use ai_sre.Reasoning.Router.Order.{remaining, next_admitted-remaining}
use ai_sre.Reasoning.Coordinator.{
  ReasoningConfig, ReasoningRun, new, admit, reserve_evidence_query, admit_deterministic, exhausted,
  fail, no_facts, temporarily_unavailable, failed, CoordinatorError, budget,
}
use ai_sre.Reasoning.Coordinator.Admission.{
  stopped, busy, out, refused, started, admit_cases, admit_deterministic_cases,
}
use ai_sre.Reasoning.Coordinator.Completion.{
  CompletionCase, recorded, dropped, ignored, fail_with_cases, succeed_with_cases, fail_with_active,
}
use ai_sre.Reasoning.Coordinator.Invariant.{
  Call, admits, queries, admits_deterministic, fails, succeeds, step, run, DistinctAttempts, IsRun,
  run-IsRun, remaining-le-length,
}

-- a created run has attempted nothing
abbrev pub initial : ReasoningConfig → ReasoningRun
initial config = record {
  order = config.provider_order;
  admission = admission config.admitted_providers;
  budget = Budget.new config.budget;
  attempted = [];
  active = none;
  status = none;
  attempts = [];
}

pub new-initial :
    (config : ReasoningConfig) (s : ReasoningRun) → new config ≡ ok s → s ≡ initial config
unfolding new
new-initial config s h = ground arith

pub initial-IsRun : (config : ReasoningConfig) → IsRun (initial config)
initial-IsRun config = record {
  bounded = omega (arith, remaining-le-length config.provider_order.providers);
  active_new = tt;
  recorded_attempted = tt;
  recorded_admitted = tt;
  distinct = tt;
}

-- what no call changes
pub record SameSetup (s t : ReasoningRun) : Type 0 where
  pub order : t.order ≡ s.order
  pub admission : t.admission ≡ s.admission
  pub config : t.budget.config ≡ s.budget.config

completion-SameSetup :
    (s : ReasoningRun) (p : ProviderKind) (t : ReasoningRun) → CompletionCase s p t → SameSetup s t
completion-SameSetup s p t (recorded a st e active eq) =
    rw eq (record { order = refl; admission = refl; config = refl })
completion-SameSetup s p t (dropped other eq) =
    rw eq (record { order = refl; admission = refl; config = refl })
completion-SameSetup s p t (ignored other eq) =
    rw eq (record { order = refl; admission = refl; config = refl })

step-SameSetup : (s : ReasoningRun) (c : Call) → SameSetup s (step s c)
unfolding step
step-SameSetup s (admits r) =
    unfold admit in
    record {
      order = ground arith;
      admission = ground arith;
      config = ground (arith, config-reserve s.budget r);
    }
step-SameSetup s queries =
    unfold reserve_evidence_query in
    record { order = refl; admission = refl; config = config-reserve s.budget _ }
step-SameSetup s admits_deterministic =
    unfold admit_deterministic in
    record { order = ground arith; admission = ground arith; config = ground arith }
step-SameSetup s (fails p f x) = completion-SameSetup s p _ (fail_with_cases s p f x)
step-SameSetup s (succeeds p x) = completion-SameSetup s p _ (succeed_with_cases s p x)

run-SameSetup : (s : ReasoningRun) (cs : List Call) → SameSetup s (run s cs)
unfolding run
run-SameSetup s [] = record { order = refl; admission = refl; config = refl }
run-SameSetup s (c ∷ cs) =
    let one = step-SameSetup s c in
    let rest = run-SameSetup (step s c) cs in
    record {
      order = rest.order ∙ one.order;
      admission = rest.admission ∙ one.admission;
      config = rest.config ∙ one.config;
    }

-- Whatever is called after a run is created, in whatever order: no provider has two records, every
-- recorded provider was admitted, and there are at most as many records as providers in the order.
pub run-attempts :
    (config : ReasoningConfig) (s : ReasoningRun) (cs : List Call)
    → new config ≡ ok s
    → DistinctAttempts (run s cs).attempts
      × All
          (λ a. allows (admission config.admitted_providers) a.provider ≡ true)
          (run s cs).attempts
      × (length (run s cs).attempts ≤ length config.provider_order.providers)
run-attempts config s cs h =
    let e = new-initial config s h in
    let kept = run-SameSetup s cs in
    let r : IsRun (run s cs) = run-IsRun s cs (rw e (initial-IsRun config)) in
    let same_order : (run s cs).order ≡ config.provider_order = kept.order ∙ ap (λ t. t.order) e in
    let same_adm : (run s cs).admission ≡ admission config.admitted_providers =
      kept.admission ∙ ap (λ t. t.admission) e in
    (
      r.distinct,
      subst (λ adm. All (λ a. allows adm a.provider ≡ true) (run s cs).attempts) same_adm
          r.recorded_admitted,
      omega (arith, r.bounded, ap (λ (o : ProviderOrder). length o.providers) same_order),
    )

completion-IsWithin :
    (s : ReasoningRun) (p : ProviderKind) (t : ReasoningRun)
    → IsWithin s.budget
    → CompletionCase s p t
    → IsWithin t.budget
completion-IsWithin s p t h (recorded a st e active eq) = rw eq h
completion-IsWithin s p t h (dropped other eq) = rw eq h
completion-IsWithin s p t h (ignored other eq) = rw eq h

admit-IsWithin :
    (s : ReasoningRun) (r : Reservation)
    → IsFinite s.budget.config
    → IsWithin s.budget
    → IsWithin (admit s r).0.budget
admit-IsWithin s r f h = elim (admit_cases s r) [
  | stopped st e eq ↦ rw eq h
  | busy p open_run e eq ↦ rw eq h
  | out open_run idle e eq ↦ rw eq h
  | refused p x open_run idle e over eq ↦ rw eq h
  | started p open_run idle e fits eq ↦ rw eq (reserve-IsWithin s.budget r f h)
]

deterministic-IsWithin :
    (s : ReasoningRun) → IsWithin s.budget → IsWithin (admit_deterministic s).0.budget
deterministic-IsWithin s h = elim (admit_deterministic_cases s) [
  | inl eq ↦ rw eq h
  | inr (open_run, idle, e, eq) ↦ rw eq h
]

step-IsWithin :
    (s : ReasoningRun) (c : Call)
    → IsFinite s.budget.config
    → IsWithin s.budget
    → IsWithin (step s c).budget
unfolding step
step-IsWithin s (admits r) f h = admit-IsWithin s r f h
step-IsWithin s queries f h = unfold reserve_evidence_query in reserve-IsWithin s.budget _ f h
step-IsWithin s admits_deterministic f h = deterministic-IsWithin s h
step-IsWithin s (fails p f x) _ h = completion-IsWithin s p _ h (fail_with_cases s p f x)
step-IsWithin s (succeeds p x) _ h = completion-IsWithin s p _ h (succeed_with_cases s p x)

within :
    (s : ReasoningRun) (cs : List Call)
    → IsFinite s.budget.config
    → IsWithin s.budget
    → IsWithin (run s cs).budget
unfolding run
within s [] f h = h
within s (c ∷ cs) f h =
    within (step s c) cs (rw (step-SameSetup s c).config f) (step-IsWithin s c f h)

initial-IsWithin :
    (config : ReasoningConfig) → IsFinite config.budget → IsWithin (initial config).budget
unfolding Budget.new
initial-IsWithin config f = ground arith

-- Under finite ceilings the four totals of a created run stay within them, whatever is called.
pub run-IsWithin :
    (config : ReasoningConfig) (s : ReasoningRun) (cs : List Call)
    → new config ≡ ok s
    → IsFinite config.budget
    → IsWithin (run s cs).budget
unfolding Budget.new
run-IsWithin config s cs h f =
    rw (new-initial config s h) (within (initial config) cs f (initial-IsWithin config f))

-- one provider after the other is admitted and fails, until no provider is admitted
unfoldable pub retry :
    ℕ → ReasoningRun → Reservation → ReasoningRun × Result CoordinatorError (Option ProviderKind)
retry zero s r = (s, ok none)
retry (suc n) s r = elim (admit s r).1 [
  | ok (some p) ↦ retry n (fail (admit s r).0 p).0 r
  | ok none ↦ admit s r
  | err e ↦ admit s r
]

retry_next :
    (n : ℕ) (s : ReasoningRun) (r : Reservation) (t : ReasoningRun) (p : ProviderKind)
    → admit s r ≡ (t, ok (some p))
    → retry (suc n) s r ≡ retry n (fail t p).0 r
unfolding retry
retry_next n s r t p eq = rw (eq, retry) (rw eq)

abbrev failed_run : ReasoningRun → ProviderKind → ReasoningRun
failed_run t p = record t {
  attempts =
      t.attempts
      ++ record { provider = p; outcome = failed temporarily_unavailable; facts = no_facts } ∷ [];
  active = none;
}

fail_active :
    (t : ReasoningRun) (p : ProviderKind) → t.active ≡ some p → (fail t p).0 ≡ failed_run t p
unfolding fail
fail_active t p e = ap (λ o. o.0) (fail_with_active t p no_facts temporarily_unavailable e)

abbrev pub Ends : ReasoningRun × Result CoordinatorError (Option ProviderKind) → Type 0
Ends o = (o.0.status ≡ some exhausted) ⊎ ((e : BudgetError) × (o.1 ≡ err (budget e)))

-- A run that is open and idle, whose every admitted provider fails, ends within one round more than
-- it has providers left: it is exhausted, or a reservation was refused.
pub retry-Ends :
    (n : ℕ) (s : ReasoningRun) (r : Reservation)
    → s.status ≡ none
    → s.active ≡ none
    → remaining s.attempted s.order.providers < n
    → Ends (retry n s r)
unfolding retry
retry-Ends zero s r open_run idle h = elim h [ ]
retry-Ends (suc n) s r open_run idle h = elim (admit_cases s r) [
  | stopped st e eq ↦ absurd (ground arith)
  | busy p _ e eq ↦ absurd (ground arith)
  | out _ _ e eq ↦ rw (eq, retry) (inl (ap (λ o. o.0.status) eq))
  | refused p x _ _ e over eq ↦ rw (eq, retry) (inr (x, ap (λ o. o.1) eq))
  | started p _ _ e fits eq ↦
      let t = record s {
        budget = (reserve s.budget r).0;
        attempted = insert p s.attempted;
        active = some p;
      } in
      rw (retry_next n s r t p eq) (
        rw (fail_active t p refl) (
          retry-Ends n (failed_run t p) r open_run refl
            (omega (arith, next_admitted-remaining s.attempted s.order s.admission p e))))
]
