-- ===== src/Reasoning/Coordinator.antt =====
-- src/reasoning/coordinator.rs: the state machine of one bounded reasoning run. A method that
-- mutates the run returns it beside the result.
pub mod Admission
pub mod Completion
pub mod Choice
pub mod Dropped
pub mod Invariant
pub mod Progress
pub mod Final
mod Examples
use Prim.Native.String.{String}
use ai_sre.Prelude.{
  ℕ, Bool, true, false, not, Option, none, some, List, [], ◌∷◌, ◌++◌, Result, ok, err, any, map_err,
  ◌>>=◌, ◌>>◌, if◌then◌else◌,
}
use ai_sre.Reasoning.Budget
use ai_sre.Reasoning.Budget.{BudgetConfig, BudgetState, BudgetError, Reservation, reserve}
use ai_sre.Reasoning.Router.{
  ProviderKind, deterministic, same_provider, insert, ProviderOrder, default_order,
  ProviderAdmission, admission, allows, validate, next_admitted,
}

pub record ReasoningConfig : Type 0 where
  pub provider_order : ProviderOrder
  pub admitted_providers : List ProviderKind
  pub budget : BudgetConfig
  pub max_tool_turns : ℕ

-- `ReasoningConfig::default`
abbrev pub default_reasoning : ReasoningConfig
default_reasoning = record {
  provider_order = default_order;
  admitted_providers = default_order.providers;
  budget = Budget.default_config;
  max_tool_turns = 4;
}

pub data RunStatus : Type 0 where
  succeeded : ProviderKind → RunStatus
  exhausted : RunStatus

pub data FailureClass : Type 0 where
  authentication_required rate_limited temporarily_unavailable malformed_response : FailureClass

pub record AttemptFacts : Type 0 where
  pub elapsed_ms : ℕ
  pub tokens : Option ℕ
  pub evidence_queries : ℕ
  pub cost_micro_usd : Option ℕ

-- `AttemptFacts::default`
abbrev pub no_facts : AttemptFacts
no_facts = record { elapsed_ms = 0; tokens = none; evidence_queries = 0; cost_micro_usd = none }

pub data AttemptOutcome : Type 0 where
  succeeded : AttemptOutcome
  failed : FailureClass → AttemptOutcome

pub record AttemptRecord : Type 0 where
  pub provider : ProviderKind
  pub outcome : AttemptOutcome
  pub facts : AttemptFacts

pub data CoordinatorError : Type 0 where
  invalid_order : String → CoordinatorError
  budget : BudgetError → CoordinatorError
  no_active_run wrong_provider : CoordinatorError

pub record ReasoningRun : Type 0 where
  pub order : ProviderOrder
  pub admission : ProviderAdmission
  pub budget : BudgetState
  pub attempted : List ProviderKind
  pub active : Option ProviderKind
  pub status : Option RunStatus
  pub attempts : List AttemptRecord

fresh_run : ReasoningConfig → ProviderAdmission → Result CoordinatorError ReasoningRun
fresh_run config adm =
    if any (λ p. allows adm p) config.provider_order.providers
    then ok (record {
      order = config.provider_order;
      admission = adm;
      budget = Budget.new config.budget;
      attempted = [];
      active = none;
      status = none;
      attempts = [];
    })
    else err (invalid_order "provider admission set cannot be empty")

-- `ReasoningRun::new`
unfoldable pub new : ReasoningConfig → Result CoordinatorError ReasoningRun
unfolding fresh_run
new config = do
  map_err invalid_order (validate config.provider_order)
  fresh_run config (admission config.admitted_providers)

-- the `?` on a reservation, and the assignments behind it
charge :
    ReasoningRun
    → ProviderKind
    → BudgetState × Result BudgetError (Unit {0})
    → ReasoningRun × Result CoordinatorError (Option ProviderKind)
charge s p (b, err e) = (record s { budget = b }, err (budget e))
charge s p (b, ok _) =
    (record s { budget = b; attempted = insert p s.attempted; active = some p }, ok (some p))

admit_next :
    ReasoningRun
    → Reservation
    → Option ProviderKind
    → ReasoningRun × Result CoordinatorError (Option ProviderKind)
unfolding charge
admit_next s r none = (record s { status = some exhausted }, ok none)
admit_next s r (some p) = charge s p (reserve s.budget r)

unfoldable pub admit :
    ReasoningRun → Reservation → ReasoningRun × Result CoordinatorError (Option ProviderKind)
unfolding admit_next
admit s r = elim s.status [
  | some _ ↦ (s, ok none)
  | none ↦ elim s.active [
    | some _ ↦ (s, err no_active_run)
    | none ↦ admit_next s r (next_admitted s.attempted s.order s.admission)
  ]
]

unfoldable pub reserve_evidence_query :
    ReasoningRun → ReasoningRun × Result CoordinatorError (Unit {0})
reserve_evidence_query s =
    let (b, r) =
      reserve s.budget
        (record { provider_calls = 0; tokens = 0; evidence_queries = 1; cost_micro_usd = 0 }) in
    (record s { budget = b }, map_err budget r)

unfoldable pub next_provider : ReasoningRun → Option ProviderKind
next_provider s = elim s.status [
  | some _ ↦ none
  | none ↦ elim s.active [ some _ ↦ none | none ↦ next_admitted s.attempted s.order s.admission ]
]

admit_if_deterministic :
    ReasoningRun
    → Option ProviderKind
    → ReasoningRun × Result CoordinatorError (Option ProviderKind)
admit_if_deterministic s (some deterministic) = (
  record s { attempted = insert deterministic s.attempted; active = some deterministic },
  ok (some deterministic),
)
admit_if_deterministic s _ = (s, ok none)

unfoldable pub admit_deterministic :
    ReasoningRun → ReasoningRun × Result CoordinatorError (Option ProviderKind)
unfolding admit_if_deterministic next_provider
admit_deterministic s = admit_if_deterministic s (next_provider s)

-- `active.take()` clears the active provider before the match
unfoldable pub fail_with :
    ReasoningRun
    → ProviderKind
    → FailureClass
    → AttemptFacts
    → ReasoningRun × Result CoordinatorError (Unit {0})
fail_with s p failure facts =
    let taken = record s { active = none } in
    elim s.active [
      | some a ↦
          if same_provider a p
          then (
            record taken {
              attempts =
                  s.attempts
                  ++ record { provider = p; outcome = failed failure; facts = facts } ∷ [];
            },
            ok tt,
          )
          else (taken, err wrong_provider)
      | none ↦ (taken, err no_active_run)
    ]

unfoldable pub fail :
    ReasoningRun → ProviderKind → ReasoningRun × Result CoordinatorError (Unit {0})
unfolding fail_with
fail s p = fail_with s p temporarily_unavailable no_facts

unfoldable pub succeed_with :
    ReasoningRun → ProviderKind → AttemptFacts → ReasoningRun × Result CoordinatorError RunStatus
succeed_with s p facts = elim s.active [
  | some a ↦
      if same_provider a p
      then (
        record s {
          attempts =
              s.attempts
              ++ record { provider = p; outcome = AttemptOutcome.succeeded; facts = facts } ∷ [];
          active = none;
          status = some (RunStatus.succeeded p);
        },
        ok (RunStatus.succeeded p),
      )
      else (s, err wrong_provider)
  | none ↦ (s, err no_active_run)
]

unfoldable pub succeed :
    ReasoningRun → ProviderKind → ReasoningRun × Result CoordinatorError RunStatus
unfolding succeed_with
succeed s p = succeed_with s p no_facts
