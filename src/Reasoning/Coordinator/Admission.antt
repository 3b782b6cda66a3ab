-- ===== src/Reasoning/Coordinator/Admission.antt =====
-- src/reasoning/coordinator.rs: every branch of an admission.
use ai_sre.Prelude.{
  ◌≡◌, ap, ◌∙◌, ◌⊎◌, inl, inr, none, some, ok, err, arith, Option-cases, Result-cases,
}
use ai_sre.Reasoning.Budget.{Reservation, BudgetError, reserve}
use ai_sre.Reasoning.Budget.Bounds.{reserve_error_unchanged}
use ai_sre.Reasoning.Router.{ProviderKind, deterministic, insert, next_admitted}
use ai_sre.Reasoning.Coordinator.{
  ReasoningRun, RunStatus, exhausted, budget, no_active_run, admit, admit_next, admit_deterministic,
}

-- What `admit` does with a run and a reservation.
pub data AdmitCase (s : ReasoningRun) (r : Reservation) : Type 0 where
  stopped : (st : RunStatus) → s.status ≡ some st → admit s r ≡ (s, ok none) → AdmitCase s r
  busy :
      (p : ProviderKind)
      → s.status ≡ none
      → s.active ≡ some p
      → admit s r ≡ (s, err no_active_run)
      → AdmitCase s r
  out :
      s.status ≡ none
      → s.active ≡ none
      → next_admitted s.attempted s.order s.admission ≡ none
      → admit s r ≡ (record s { status = some exhausted }, ok none)
      → AdmitCase s r
  refused :
      (p : ProviderKind) (e : BudgetError)
      → s.status ≡ none
      → s.active ≡ none
      → next_admitted s.attempted s.order s.admission ≡ some p
      → (reserve s.budget r).1 ≡ err e
      → admit s r ≡ (s, err (budget e))
      → AdmitCase s r
  started :
      (p : ProviderKind)
      → s.status ≡ none
      → s.active ≡ none
      → next_admitted s.attempted s.order s.admission ≡ some p
      → (reserve s.budget r).1 ≡ ok tt
      → admit s r ≡ (
        record s {
          budget = (reserve s.budget r).0;
          attempted = insert p s.attempted;
          active = some p;
        },
        ok (some p),
      )
      → AdmitCase s r

module _ (s : ReasoningRun) (r : Reservation) where
  admit_stopped : (st : RunStatus) → s.status ≡ some st → admit s r ≡ (s, ok none)
  unfolding admit
  admit_stopped st e = ground arith

  module _ (open_run : s.status ≡ none) where
    admit_busy : (p : ProviderKind) → s.active ≡ some p → admit s r ≡ (s, err no_active_run)
    unfolding admit
    admit_busy p e = ground arith

    admit_idle :
        s.active ≡ none → admit s r ≡ admit_next s r (next_admitted s.attempted s.order s.admission)
    unfolding admit
    admit_idle e = ground arith

  module _ (p : ProviderKind) where
    next_refused :
        (e : BudgetError)
        → (reserve s.budget r).1 ≡ err e
        → admit_next s r (some p) ≡ (s, err (budget e))
    unfolding admit_next
    next_refused e h = ground (arith, reserve_error_unchanged s.budget r h)

    next_started :
        (reserve s.budget r).1 ≡ ok tt
        → admit_next s r (some p) ≡ (
          record s {
            budget = (reserve s.budget r).0;
            attempted = insert p s.attempted;
            active = some p;
          },
          ok (some p),
        )
    unfolding admit_next
    next_started h = ground arith

  next_case : s.status ≡ none → s.active ≡ none → AdmitCase s r
  next_case open_run idle =
      let step = admit_idle open_run idle in
      elim (Option-cases (next_admitted s.attempted s.order s.admission)) [
        | inl e ↦ out open_run idle e (unfold admit_next in cc (step, e))
        | inr (p, e) ↦ elim (Result-cases (reserve s.budget r).1) [
          | inl (u, fits) ↦
              started p open_run idle e fits (step ∙ ap (admit_next s r) e ∙ next_started p fits)
          | inr (x, over) ↦
              refused p x open_run idle e over
                (step ∙ ap (admit_next s r) e ∙ next_refused p x over)
        ]
      ]

  -- An admission of a stopped run or of a busy one changes nothing; with no admitted provider left
  -- it ends the run as exhausted; a refused reservation changes nothing; else the next admitted
  -- provider that was not attempted becomes attempted and active, and its reservation is charged.
  pub admit_cases : AdmitCase s r
  admit_cases = elim (Option-cases s.status) [
    | inr (st, e) ↦ stopped st e (admit_stopped st e)
    | inl open_run ↦ elim (Option-cases s.active) [
      | inr (p, e) ↦ busy p open_run e (admit_busy open_run p e)
      | inl idle ↦ next_case open_run idle
    ]
  ]

-- The deterministic baseline is admitted only as the next provider of an open, idle run, and
-- charges nothing.
pub admit_deterministic_cases :
    (s : ReasoningRun)
    → (admit_deterministic s ≡ (s, ok none))
      ⊎ ((s.status ≡ none)
          × (s.active ≡ none)
          × (next_admitted s.attempted s.order s.admission ≡ some deterministic)
          × (admit_deterministic s ≡ (
            record s { attempted = insert deterministic s.attempted; active = some deterministic },
            ok (some deterministic),
          )))
unfolding admit_deterministic
admit_deterministic_cases s = ground arith
