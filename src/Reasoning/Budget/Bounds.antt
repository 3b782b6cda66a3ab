-- ===== src/Reasoning/Budget/Bounds.antt =====
-- src/reasoning/budget.rs: about the ceilings and the branches of reserve.
use ai_sre.Prelude.{
  ℕ, ◌+◌, ◌≤◌, ◌<◌, ◌≡◌, ◌⊎◌, inl, inr, Option, none, some, List, [], ◌∷◌, ok, err, arith,
  Result-cases,
}
use ai_sre.Reasoning.Budget.{
  BudgetConfig, BudgetState, Reservation, BudgetError, u32_max, u64_max, reserve,
}

-- The ceilings stay below the largest value of their width, and the cost has one.
pub record IsFinite (c : BudgetConfig) : Type 0 where
  pub provider_calls : c.max_provider_calls < u32_max
  pub tokens : c.max_tokens < u64_max
  pub evidence_queries : c.max_evidence_queries < u32_max
  pub limit : ℕ
  pub limited : c.max_cost_micro_usd ≡ some limit
  pub cost : limit < u64_max

abbrev pub AtMost : Option ℕ → ℕ → Type 0
AtMost none n = Unit
AtMost (some limit) n = n ≤ limit

pub record IsWithin (s : BudgetState) : Type 0 where
  pub provider_calls : s.provider_calls ≤ s.config.max_provider_calls
  pub tokens : s.tokens ≤ s.config.max_tokens
  pub evidence_queries : s.evidence_queries ≤ s.config.max_evidence_queries
  pub cost : AtMost s.config.max_cost_micro_usd s.reserved_cost_micro_usd

-- The four totals have room for the whole reservation.
pub record Fits (s : BudgetState) (r : Reservation) : Type 0 where
  pub provider_calls : s.provider_calls + r.provider_calls ≤ s.config.max_provider_calls
  pub tokens : s.tokens + r.tokens ≤ s.config.max_tokens
  pub evidence_queries : s.evidence_queries + r.evidence_queries ≤ s.config.max_evidence_queries
  pub cost : AtMost s.config.max_cost_micro_usd (s.reserved_cost_micro_usd + r.cost_micro_usd)

-- the totals with the whole reservation on top, with no wrap
abbrev pub added : BudgetState → Reservation → BudgetState
added s r = record s {
  provider_calls = s.provider_calls + r.provider_calls;
  tokens = s.tokens + r.tokens;
  evidence_queries = s.evidence_queries + r.evidence_queries;
  reserved_cost_micro_usd = s.reserved_cost_micro_usd + r.cost_micro_usd;
}

pub config-reserve : (s : BudgetState) (r : Reservation) → (reserve s r).0.config ≡ s.config
unfolding reserve
config-reserve s r = ground arith

pub reserve-IsWithin :
    (s : BudgetState) (r : Reservation) → IsFinite s.config → IsWithin s → IsWithin (reserve s r).0
unfolding reserve
reserve-IsWithin s r f h = ground arith

-- With finite ceilings a reservation that fits in all four totals is admitted and added to them
-- exactly.
pub reserve-Fits :
    (s : BudgetState) (r : Reservation)
    → IsFinite s.config
    → Fits s r
    → reserve s r ≡ (added s r, ok tt)
unfolding reserve
reserve-Fits s r f h = ground arith

-- With finite ceilings a reservation that is admitted fits in all four totals.
pub reserve_ok :
    (s : BudgetState) (r : Reservation) → IsFinite s.config → (reserve s r).1 ≡ ok tt → Fits s r
unfolding reserve
reserve_ok s r f h = ground arith

-- A reservation that is refused changes nothing.
pub reserve_error_unchanged :
    (s : BudgetState) (r : Reservation) {e : BudgetError}
    → (reserve s r).1 ≡ err e
    → (reserve s r).0 ≡ s
unfolding reserve
reserve_error_unchanged s r h = ground arith

-- Reservations in turn, each admitted or refused.
abbrev pub reserve_all : BudgetState → List Reservation → BudgetState
reserve_all s [] = s
reserve_all s (r ∷ rs) = reserve_all (reserve s r).0 rs

-- From a budget within finite ceilings, any sequence of reservations, admitted or refused, leaves
-- each of the four totals within its ceiling.
pub reserve_all-IsWithin :
    (s : BudgetState) (rs : List Reservation)
    → IsFinite s.config
    → IsWithin s
    → IsWithin (reserve_all s rs)
reserve_all-IsWithin s [] f h = h
reserve_all-IsWithin s (r ∷ rs) f h =
    reserve_all-IsWithin (reserve s r).0 rs (rw config-reserve f) (reserve-IsWithin s r f h)

refused :
    (s : BudgetState) (r : Reservation) (e : BudgetError)
    → IsFinite s.config
    → (reserve s r).1 ≡ err e
    → ¬ Fits s r
refused s r e f h fits = cc (reserve-Fits s r f fits)

-- With finite ceilings a reservation is admitted exactly if it fits in all four totals, and is then
-- added to each of them with no wrap; else an error comes back and nothing changes.
pub reserve_cases :
    (s : BudgetState) (r : Reservation)
    → IsFinite s.config
    → (Fits s r × (reserve s r ≡ (added s r, ok tt)))
      ⊎ ((¬ Fits s r) × (e : BudgetError) × (reserve s r ≡ (s, err e)))
reserve_cases s r f = elim (Result-cases (reserve s r).1) [
  | inl (a, h) ↦ let fits : Fits s r = reserve_ok s r f h in inl (fits, reserve-Fits s r f fits)
  | inr (e, h) ↦ inr (refused s r e f h, e, cc (reserve_error_unchanged s r h))
]

-- Without a cost ceiling, an admitted reservation whose cost takes the recorded cost past the
-- largest `u64` makes the recorded cost smaller.
pub reserve_wraps :
    (s : BudgetState) (r : Reservation)
    → s.config.max_cost_micro_usd ≡ none
    → s.reserved_cost_micro_usd ≤ u64_max
    → r.cost_micro_usd ≤ u64_max
    → u64_max < s.reserved_cost_micro_usd + r.cost_micro_usd
    → (reserve s r).1 ≡ ok tt
    → (reserve s r).0.reserved_cost_micro_usd < s.reserved_cost_micro_usd
unfolding reserve
reserve_wraps s r none_set hs hr over h = ground arith
