-- ===== src/Reasoning/Budget.antt =====
-- src/reasoning/budget.rs: incident budget reservation. A `u32` or `u64` is a native number; the
-- additions that the source leaves unchecked wrap at the width of their field, as in a release
-- build, and the saturating ones stop at the largest value.
pub mod Bounds
mod Examples
use ai_sre.Prelude.{
  ℕ, ◌+◌, ◌-◌, ◌%◌, ◌^◌, min, Bool, false, Option, none, some, Result, ok, err, ltb, if◌then◌else◌,
}

abbrev pub u32_max : ℕ
u32_max = 2 ^ 32 - 1

abbrev pub u64_max : ℕ
u64_max = 2 ^ 64 - 1

pub record BudgetConfig : Type 0 where
  pub max_provider_calls : ℕ
  pub max_tokens : ℕ
  pub max_evidence_queries : ℕ
  pub max_wall_time_secs : ℕ
  pub max_cost_micro_usd : Option ℕ

-- `BudgetConfig::default`
abbrev pub default_config : BudgetConfig
default_config = record {
  max_provider_calls = 4;
  max_tokens = 32000;
  max_evidence_queries = 24;
  max_wall_time_secs = 300;
  max_cost_micro_usd = some 2000000;
}

pub record BudgetState : Type 0 where
  pub config : BudgetConfig
  pub provider_calls : ℕ
  pub tokens : ℕ
  pub evidence_queries : ℕ
  pub reserved_cost_micro_usd : ℕ

pub record Reservation : Type 0 where
  pub provider_calls : ℕ
  pub tokens : ℕ
  pub evidence_queries : ℕ
  pub cost_micro_usd : ℕ

pub data BudgetError : Type 0 where
  provider_calls tokens evidence_queries cost : BudgetError

-- `BudgetState::new`
unfoldable pub new : BudgetConfig → BudgetState
new config = record {
  config = config;
  provider_calls = 0;
  tokens = 0;
  evidence_queries = 0;
  reserved_cost_micro_usd = 0;
}

abbrev pub saturating_add_u32 : ℕ → ℕ → ℕ
saturating_add_u32 a b = min (a + b) u32_max

abbrev pub saturating_add_u64 : ℕ → ℕ → ℕ
saturating_add_u64 a b = min (a + b) u64_max

-- `is_some_and` over the optional cost ceiling
abbrev pub exceeds_cost : Option ℕ → ℕ → Bool
exceeds_cost none total = false
exceeds_cost (some limit) total = ltb limit total

-- the four additions of an admitted reservation
commit : BudgetState → Reservation → BudgetState
commit s r = record s {
  provider_calls = (s.provider_calls + r.provider_calls) % 2 ^ 32;
  tokens = (s.tokens + r.tokens) % 2 ^ 64;
  evidence_queries = (s.evidence_queries + r.evidence_queries) % 2 ^ 32;
  reserved_cost_micro_usd = (s.reserved_cost_micro_usd + r.cost_micro_usd) % 2 ^ 64;
}

-- The state comes back beside the result: a refusal leaves it as it was.
unfoldable pub reserve : BudgetState → Reservation → BudgetState × Result BudgetError (Unit {0})
unfolding commit
reserve s r =
    if ltb s.config.max_provider_calls (saturating_add_u32 s.provider_calls r.provider_calls)
    then (s, err BudgetError.provider_calls)
    else if ltb s.config.max_tokens (saturating_add_u64 s.tokens r.tokens)
    then (s, err BudgetError.tokens)
    else if ltb s.config.max_evidence_queries
        (saturating_add_u32 s.evidence_queries r.evidence_queries)
    then (s, err BudgetError.evidence_queries)
    else if exceeds_cost s.config.max_cost_micro_usd
        (saturating_add_u64 s.reserved_cost_micro_usd r.cost_micro_usd)
    then (s, err cost)
    else (commit s r, ok tt)

-- `BudgetState::totals`
unfoldable pub totals : BudgetState → ℕ × ℕ × ℕ × ℕ
totals s = (s.provider_calls, s.tokens, s.evidence_queries, s.reserved_cost_micro_usd)
