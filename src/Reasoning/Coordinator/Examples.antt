-- ===== src/Reasoning/Coordinator/Examples.antt =====
-- src/reasoning/coordinator.rs: runs at concrete configurations.
use ai_sre.Prelude.{
  ◌≤◌, ◌≡◌, ◌≢◌, false, refl, true, some, List, [], ◌∷◌, ok, err, arith, length, All,
}
use ai_sre.Reasoning.Budget.{Reservation}
use ai_sre.Reasoning.Budget
use ai_sre.Reasoning.Budget.Bounds.{IsFinite, IsWithin}
use ai_sre.Reasoning.Router.{open_ai, gemini, admission, allows, validate, next_admitted}
use ai_sre.Reasoning.Coordinator.{
  RunStatus, exhausted, temporarily_unavailable, no_facts, wrong_provider, default_reasoning, new,
  admit, fail, fail_with, succeed_with, reserve_evidence_query,
}
use ai_sre.Reasoning.Coordinator.Choice.{AdmitChoice, admit_choice}
use ai_sre.Reasoning.Coordinator.Dropped.{fail_with-drops}
use ai_sre.Reasoning.Coordinator.Invariant.{
  Call, admits, queries, fails, succeeds, step, run, DistinctAttempts, recorded_in,
}
use ai_sre.Reasoning.Coordinator.Progress.{
  initial, run-attempts, run-IsWithin, retry, Ends, retry-Ends,
}
use ai_sre.Reasoning.Coordinator.Final.{run_final}

abbrev call : Reservation
call = record { provider_calls = 1; tokens = 8000; evidence_queries = 6; cost_micro_usd = 500000 }

new_default : new default_reasoning ≡ ok (initial default_reasoning)
unfolding new validate admission allows
new_default = refl

-- the first provider fails, the second succeeds
abbrev fallback : List Call
fallback =
    admits call
    ∷ fails open_ai temporarily_unavailable no_facts
    ∷ admits call
    ∷ queries
    ∷ succeeds gemini no_facts
    ∷ []

fallback_succeeds :
    (run (initial default_reasoning) fallback).status ≡ some (RunStatus.succeeded gemini)
unfolding run admit fail_with succeed_with next_admitted admission Budget.new Budget.reserve step
    reserve_evidence_query
fallback_succeeds = refl

default-IsFinite : IsFinite default_reasoning.budget
default-IsFinite = record {
  provider_calls = omega arith;
  tokens = omega arith;
  evidence_queries = omega arith;
  limit = 2000000;
  limited = refl;
  cost = omega arith;
}

admit_choice_example : AdmitChoice (initial default_reasoning) call
admit_choice_example = admit_choice (initial default_reasoning) call

admitted_first : (run (initial default_reasoning) (admits call ∷ [])).active ≡ some open_ai
unfolding run step admit next_admitted admission Budget.new Budget.reserve
admitted_first = refl

fail_with-drops_example :
    let after =
      fail_with
        (run (initial default_reasoning) (admits call ∷ []))
        gemini
        temporarily_unavailable
        no_facts in
    (after.1 ≡ err wrong_provider)
    × ((run after.0 (admits call ∷ succeeds open_ai no_facts ∷ [])).active ≢ some open_ai)
    × (recorded_in (run after.0 (admits call ∷ succeeds open_ai no_facts ∷ [])).attempts open_ai
        ≡ false)
fail_with-drops_example =
    fail_with-drops default_reasoning (initial default_reasoning) (admits call ∷ [])
      (admits call ∷ succeeds open_ai no_facts ∷ []) open_ai gemini temporarily_unavailable no_facts
      new_default admitted_first (λ e. cc)

run-attempts_example :
    DistinctAttempts (run (initial default_reasoning) fallback).attempts
    × All
        (λ a. allows (admission default_reasoning.admitted_providers) a.provider ≡ true)
        (run (initial default_reasoning) fallback).attempts
    × (length (run (initial default_reasoning) fallback).attempts ≤ 4)
run-attempts_example =
    run-attempts default_reasoning (initial default_reasoning) fallback new_default

run-IsWithin_example : IsWithin (run (initial default_reasoning) fallback).budget
run-IsWithin_example =
    run-IsWithin default_reasoning (initial default_reasoning) fallback new_default default-IsFinite

-- four providers, so five rounds are enough
retry-Ends_example : Ends (retry 5 (initial default_reasoning) call)
retry-Ends_example = retry-Ends 5 (initial default_reasoning) call refl refl (omega arith)

retry_exhausts : (retry 5 (initial default_reasoning) call).0.status ≡ some exhausted
unfolding retry admit fail_with fail next_admitted admission Budget.new Budget.reserve
retry_exhausts = refl

run_final_example :
    ((run (run (initial default_reasoning) fallback) (admits call ∷ queries ∷ [])).status
      ≡ some (RunStatus.succeeded gemini))
    × ((run (run (initial default_reasoning) fallback) (admits call ∷ queries ∷ [])).attempts
        ≡ (run (initial default_reasoning) fallback).attempts)
run_final_example =
    run_final default_reasoning (initial default_reasoning) fallback (admits call ∷ queries ∷ [])
      (RunStatus.succeeded gemini) new_default fallback_succeeds
