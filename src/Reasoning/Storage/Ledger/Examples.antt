-- ===== src/Reasoning/Storage/Ledger/Examples.antt =====
-- src/reasoning/storage.rs: runs at concrete reservations.
use ai_sre.Prelude.{ℕ, ◌^◌, ◌≡◌, refl, true, false, some, List, [], ◌∷◌, ok, Text, text}
use ai_sre.Prelude.Int.{pos, ◌+ℤ◌, ◌-ℤ◌}
use ai_sre.Prelude.Map
use ai_sre.Reasoning.Storage.{commits, rolls_back}
use ai_sre.Reasoning.Storage.Ledger.{
  CostTables, reserved_of, holds_real, reserve_cost, reconcile_cost,
}
use ai_sre.Reasoning.Storage.Ledger.Sums.{IsBalanced, expected, cost}
use ai_sre.Reasoning.Storage.Ledger.Balance.{
  CostCall, reserves, reconciles, cost_step, cost_run, run_balances,
}
use ai_sre.Prelude.{arith, none}
use ai_sre.Reasoning.Storage.{i64_max}
use ai_sre.Reasoning.Storage.Ledger.Ceilings.{AreWithin, reserve_cost-AreWithin}
use ai_sre.Reasoning.Storage.Ledger.Retry.{reserve_cost_once}

-- the third transaction fails
abbrev tables : CostTables
tables = record {
  ledgers = [];
  reservations = [];
  scopes = [];
  outcomes = commits ∷ commits ∷ rolls_back ∷ [];
}

tables-IsBalanced : IsBalanced tables
unfolding reserved_of Map.get
tables-IsBalanced = record { sums = λ x. refl; known = tt }

abbrev budget_scopes : List (Text × ℕ)
budget_scopes = (text "global", 1000) ∷ (text "incident", 500) ∷ []

abbrev cost_calls : List CostCall
cost_calls =
    reserves (text "r1") 400 budget_scopes 1
    ∷ reconciles (text "r1") (some 150)
    ∷ reserves (text "r2") 300 budget_scopes 2
    ∷ reserves (text "r2") 300 budget_scopes 3
    ∷ []

cost_calls_reserved : reserved_of (cost_run tables cost_calls).ledgers (text "incident") ≡ pos 450
unfolding reserved_of holds_real cost_run cost_step reserve_cost reconcile_cost ◌+ℤ◌ ◌-ℤ◌ Map.get
    Map.insert
cost_calls_reserved = refl

incident_integral : holds_real (cost_run tables cost_calls).ledgers (text "incident") ≡ false
unfolding holds_real cost_run cost_step reserve_cost reconcile_cost reserved_of ◌+ℤ◌ ◌-ℤ◌ Map.get
    Map.insert
incident_integral = refl

run_balances_example :
    let t = cost_run tables cost_calls in
    reserved_of t.ledgers (text "incident")
    ≡ pos (expected (cost t.reservations) t.scopes (text "incident"))
run_balances_example =
    run_balances tables cost_calls (text "incident") tables-IsBalanced incident_integral

-- two reservations at the largest ceiling
large_real :
    holds_real
      (cost_run tables (
        reserves (text "r1") (2 ^ 62) ((text "all", i64_max) ∷ []) 1
        ∷ reserves (text "r2") (2 ^ 62) ((text "all", i64_max) ∷ []) 2
        ∷ [])).ledgers
      (text "all")
    ≡ true
unfolding holds_real cost_run cost_step reserve_cost reserved_of ◌+ℤ◌ Map.get Map.insert
large_real = refl

reserved_first : (reserve_cost tables (text "r1") 400 budget_scopes 1).1 ≡ ok tt
unfolding reserve_cost reserved_of holds_real ◌+ℤ◌ Map.get Map.insert
reserved_first = refl

reserve_cost_once_example :
    let t = (reserve_cost tables (text "r1") 400 budget_scopes 1).0 in
    reserve_cost t (text "r1") 900 [] 5 ≡ (t, ok tt)
reserve_cost_once_example =
    reserve_cost_once tables (text "r1") 400 900 budget_scopes [] 1 5 reserved_first

not_reserved : Map.get tables.reservations (text "r1") ≡ none
unfolding Map.get
not_reserved = refl

reserve_cost-AreWithin_example :
    AreWithin (reserve_cost tables (text "r1") 400 budget_scopes 1).0.ledgers budget_scopes
reserve_cost-AreWithin_example =
    reserve_cost-AreWithin tables (text "r1") 400 budget_scopes 1 not_reserved
      (omega arith, (omega arith, tt)) reserved_first
