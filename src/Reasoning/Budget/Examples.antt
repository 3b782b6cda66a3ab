-- ===== src/Reasoning/Budget/Examples.antt =====
-- src/reasoning/budget.rs: runs at concrete budgets.
use ai_sre.Prelude.{◌^◌, ◌-◌, ◌<◌, ◌≡◌, refl, ◌⊎◌, none, [], ◌∷◌, ok, err, arith}
use ai_sre.Reasoning.Budget.{
  BudgetState, BudgetError, Reservation, default_config, new, reserve, totals,
}
use ai_sre.Reasoning.Budget.Bounds.{
  IsFinite, IsWithin, Fits, added, reserve_all, reserve_all-IsWithin, reserve_cases, reserve_wraps,
}

abbrev call : Reservation
call = record { provider_calls = 1; tokens = 8000; evidence_queries = 6; cost_micro_usd = 500000 }

default-IsFinite : IsFinite default_config
default-IsFinite = record {
  provider_calls = omega arith;
  tokens = omega arith;
  evidence_queries = omega arith;
  limit = 2000000;
  limited = refl;
  cost = omega arith;
}

new_default-IsWithin : IsWithin (new default_config)
unfolding new
new_default-IsWithin = omega arith

fifth_call_refused :
    (reserve (reserve_all (new default_config) (call ∷ call ∷ call ∷ call ∷ [])) call).1
    ≡ err BudgetError.provider_calls
unfolding reserve new
fifth_call_refused = refl

totals_after_two :
    totals (reserve_all (new default_config) (call ∷ call ∷ [])) ≡ (2, 16000, 12, 1000000)
unfolding reserve new totals
totals_after_two = refl

reserve_all-IsWithin_example :
    IsWithin (reserve_all (new default_config) (call ∷ call ∷ call ∷ call ∷ call ∷ []))
unfolding new
reserve_all-IsWithin_example =
    reserve_all-IsWithin (new default_config) (call ∷ call ∷ call ∷ call ∷ call ∷ [])
      default-IsFinite new_default-IsWithin

reserve_cases_example :
    (Fits (new default_config) call
      × (reserve (new default_config) call ≡ (added (new default_config) call, ok tt)))
    ⊎ ((¬ Fits (new default_config) call)
        × (e : BudgetError) × (reserve (new default_config) call ≡ (new default_config, err e)))
unfolding new
reserve_cases_example = reserve_cases (new default_config) call default-IsFinite

-- no cost ceiling, and almost the largest cost recorded
abbrev uncapped : BudgetState
uncapped = record {
  config = record default_config { max_cost_micro_usd = none };
  provider_calls = 0;
  tokens = 0;
  evidence_queries = 0;
  reserved_cost_micro_usd = 2 ^ 64 - 1;
}

reserve_wraps_example :
    (reserve uncapped call).0.reserved_cost_micro_usd < uncapped.reserved_cost_micro_usd
unfolding reserve
reserve_wraps_example =
    reserve_wraps uncapped call refl (omega arith) (omega arith) (omega arith) refl
