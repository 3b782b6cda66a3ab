-- ===== src/Reasoning/Coordinator/Choice.antt =====
-- src/reasoning/coordinator.rs: about the provider that an admission chooses.
use ai_sre.Prelude.{◌≡◌, ◌⊎◌, false, true, none, some, ok, err, All}
use ai_sre.Reasoning.Budget.{Reservation, BudgetError, reserve}
use ai_sre.Reasoning.Router.{ProviderKind, contains, allows, insert}
use ai_sre.Reasoning.Router.Order.{IsNext, next_admitted-IsNext, next_admitted-none}
use ai_sre.Reasoning.Coordinator.{ReasoningRun, RunStatus, exhausted, budget, no_active_run, admit}
use ai_sre.Reasoning.Coordinator.Admission.{stopped, busy, out, refused, started, admit_cases}

-- What an admission does, by the order and the providers that were attempted.
pub data AdmitChoice (s : ReasoningRun) (r : Reservation) : Type 0 where
  stays : (st : RunStatus) → s.status ≡ some st → admit s r ≡ (s, ok none) → AdmitChoice s r
  waits :
      (p : ProviderKind)
      → s.status ≡ none
      → s.active ≡ some p
      → admit s r ≡ (s, err no_active_run)
      → AdmitChoice s r
  exhausts :
      s.status ≡ none
      → s.active ≡ none
      → All
          (λ q. (contains s.attempted q ≡ true) ⊎ (allows s.admission q ≡ false))
          s.order.providers
      → admit s r ≡ (record s { status = some exhausted }, ok none)
      → AdmitChoice s r
  overdraws :
      (p : ProviderKind) (e : BudgetError)
      → s.status ≡ none
      → s.active ≡ none
      → IsNext s.attempted s.order s.admission p
      → (reserve s.budget r).1 ≡ err e
      → admit s r ≡ (s, err (budget e))
      → AdmitChoice s r
  chooses :
      (p : ProviderKind)
      → s.status ≡ none
      → s.active ≡ none
      → IsNext s.attempted s.order s.admission p
      → (reserve s.budget r).1 ≡ ok tt
      → admit s r ≡ (
        record s {
          budget = (reserve s.budget r).0;
          attempted = insert p s.attempted;
          active = some p;
        },
        ok (some p),
      )
      → AdmitChoice s r

-- An admission of a stopped run or of a busy one changes nothing. An open, idle run is exhausted if
-- every provider of its order was attempted or is not admitted. Otherwise the first of the order that
-- is admitted and was not attempted is chosen: if the budget refuses it nothing changes, else it
-- becomes attempted and active, and its reservation is charged.
pub admit_choice : (s : ReasoningRun) (r : Reservation) → AdmitChoice s r
admit_choice s r = elim (admit_cases s r) [
  | stopped st e eq ↦ stays st e eq
  | busy p open_run e eq ↦ waits p open_run e eq
  | out open_run idle e eq ↦
      exhausts open_run idle (next_admitted-none s.attempted s.order s.admission e) eq
  | refused p x open_run idle e over eq ↦
      overdraws p x open_run idle (next_admitted-IsNext s.attempted s.order s.admission p e) over eq
  | started p open_run idle e fits eq ↦
      chooses p open_run idle (next_admitted-IsNext s.attempted s.order s.admission p e) fits eq
]
