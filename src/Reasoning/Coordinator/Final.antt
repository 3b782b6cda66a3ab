-- ===== src/Reasoning/Coordinator/Final.antt =====
-- src/reasoning/coordinator.rs: about runs that have ended.
use ai_sre.Prelude.{◌≡◌, refl, ap, ◌∙◌, subst, Option, some, List, [], ◌∷◌, ok, arith, inl, inr}
use ai_sre.Reasoning.Router.{ProviderKind}
use ai_sre.Reasoning.Coordinator.{
  ReasoningConfig, ReasoningRun, AttemptRecord, RunStatus, new, admit, reserve_evidence_query,
  admit_deterministic,
}
use ai_sre.Reasoning.Coordinator.Admission.{admit_deterministic_cases}
use ai_sre.Reasoning.Coordinator.Completion.{
  CompletionCase, recorded, dropped, ignored, fail_with_cases, succeed_with_cases,
}
use ai_sre.Reasoning.Coordinator.Invariant.{
  Call, admits, queries, admits_deterministic, fails, succeeds, step, run, IsRun, ActiveIs,
  step-IsRun, run-IsRun,
}
use ai_sre.Reasoning.Coordinator.Progress.{new-initial, initial-IsRun}

-- the outcome and the records of a run
abbrev Outcome : Type 0
Outcome = Option RunStatus × List AttemptRecord

abbrev pub outcome : ReasoningRun → Outcome
outcome s = (s.status, s.attempts)

module _ (s : ReasoningRun) (st : RunStatus) (r : IsRun s) (ended : s.status ≡ some st) where
  not_active : (p : ProviderKind) → ¬ (s.active ≡ some p)
  not_active p e = cc (ended, (subst (ActiveIs s) e r.active_new).3)

  outcome-completion :
      (p : ProviderKind) (t : ReasoningRun) → CompletionCase s p t → outcome t ≡ outcome s
  outcome-completion p t (recorded a st' e active eq) = absurd (not_active p active)
  outcome-completion p t (dropped other eq) = ap outcome eq
  outcome-completion p t (ignored other eq) = ap outcome eq

  outcome-deterministic : outcome (admit_deterministic s).0 ≡ outcome s
  outcome-deterministic = elim (admit_deterministic_cases s) [
    | inl eq ↦ ap (λ o. outcome o.0) eq
    | inr (open_run, _, _, _) ↦ cc (ended, open_run)
  ]

  outcome-step : (c : Call) → outcome (step s c) ≡ outcome s
  unfolding step
  outcome-step (admits x) = unfold admit in ground arith
  outcome-step queries = unfold reserve_evidence_query in refl
  outcome-step admits_deterministic = outcome-deterministic
  outcome-step (fails p f x) = outcome-completion p _ (fail_with_cases s p f x)
  outcome-step (succeeds p x) = outcome-completion p _ (succeed_with_cases s p x)

outcome-run :
    (s : ReasoningRun) (st : RunStatus) (cs : List Call)
    → IsRun s
    → s.status ≡ some st
    → outcome (run s cs) ≡ outcome s
unfolding run
outcome-run s st [] r ended = refl
outcome-run s st (c ∷ cs) r ended =
    let one = outcome-step s st r ended c in
    outcome-run (step s c) st cs (step-IsRun s c r) (ap (λ o. o.0) one ∙ ended) ∙ one

-- Once the calls after a run's creation have ended it, succeeded or exhausted, no further calls
-- change its status or its records.
pub run_final :
    (config : ReasoningConfig) (s : ReasoningRun) (before after : List Call) (st : RunStatus)
    → new config ≡ ok s
    → (run s before).status ≡ some st
    → ((run (run s before) after).status ≡ some st)
      × ((run (run s before) after).attempts ≡ (run s before).attempts)
run_final config s before after st h ended =
    let r = run-IsRun s before (rw (new-initial config s h) (initial-IsRun config)) in
    let same = outcome-run (run s before) st after r ended in
    (ap (λ o. o.0) same ∙ ended, ap (λ o. o.1) same)
