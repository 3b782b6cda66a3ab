-- ===== src/Reasoning/Coordinator/Invariant.antt =====
-- src/reasoning/coordinator.rs: the invariant of a run.
use ai_sre.Prelude.{
  All-snoc, ℕ, ◌+◌, ◌≤◌, ◌≡◌, refl, Bool, true, false, Option, none, some, List, [], ◌∷◌, ◌++◌,
  arith, length, length-append, sym, inl, inr, All, any, subst, ap, ◌∙◌,
}
use ai_sre.Reasoning.Budget.{Reservation, BudgetState}
use ai_sre.Reasoning.Router.{
  ProviderKind, deterministic, same_provider, contains, insert, allows, next_admitted,
}
use ai_sre.Reasoning.Router.Order.{
  same_provider_iff, contains-insert, remaining, next_admitted-IsNext, next_admitted-remaining,
  IsNext,
}
use ai_sre.Reasoning.Coordinator.{
  ReasoningRun, AttemptRecord, AttemptFacts, RunStatus, FailureClass, admit, reserve_evidence_query,
  admit_deterministic, fail_with, succeed_with, exhausted,
}
use ai_sre.Reasoning.Coordinator.Admission.{
  stopped, busy, out, refused, started, admit_cases, admit_deterministic_cases,
}
use ai_sre.Reasoning.Coordinator.Completion.{
  CompletionCase, recorded, dropped, ignored, fail_with_cases, succeed_with_cases,
}

-- one call of the run's owner
pub data Call : Type 0 where
  admits : Reservation → Call
  queries : Call
  admits_deterministic : Call
  fails : ProviderKind → FailureClass → AttemptFacts → Call
  succeeds : ProviderKind → AttemptFacts → Call

unfoldable pub step : ReasoningRun → Call → ReasoningRun
step s (admits r) = (admit s r).0
step s queries = (reserve_evidence_query s).0
step s admits_deterministic = (admit_deterministic s).0
step s (fails p f x) = (fail_with s p f x).0
step s (succeeds p x) = (succeed_with s p x).0

unfoldable pub run : ReasoningRun → List Call → ReasoningRun
run s [] = s
run s (c ∷ cs) = run (step s c) cs

abbrev pub running : Option ProviderKind → ℕ
running none = 0
running (some _) = 1

abbrev pub recorded_in : List AttemptRecord → ProviderKind → Bool
recorded_in attempts p = any (λ a. same_provider a.provider p) attempts

-- no provider has two records
abbrev pub DistinctAttempts : List AttemptRecord → Type 0
DistinctAttempts [] = Unit
DistinctAttempts (a ∷ as') =
    (any (λ b. same_provider a.provider b.provider) as' ≡ false) × DistinctAttempts as'

-- the active provider is attempted, and has no record yet
abbrev pub ActiveIs : ReasoningRun → Option ProviderKind → Type 0
ActiveIs s none = Unit
ActiveIs s (some p) =
    (contains s.attempted p ≡ true)
    × (recorded_in s.attempts p ≡ false)
    × (allows s.admission p ≡ true)
    × (s.status ≡ none)

pub record IsRun (s : ReasoningRun) : Type 0 where
  pub bounded :
      length s.attempts + running s.active + remaining s.attempted s.order.providers
      ≤ length s.order.providers
  pub active_new : ActiveIs s s.active
  pub recorded_attempted : All (λ a. contains s.attempted a.provider ≡ true) s.attempts
  pub recorded_admitted : All (λ a. allows s.admission a.provider ≡ true) s.attempts
  pub distinct : DistinctAttempts s.attempts

any_snoc :
    (t : AttemptRecord → Bool) (as' : List AttemptRecord) (a : AttemptRecord)
    → any t as' ≡ false
    → t a ≡ false
    → any t (as' ++ a ∷ []) ≡ false
any_snoc t [] a h p = ground arith
any_snoc t (b ∷ as') a h p = ground (arith, any_snoc t as' a)

distinct_snoc :
    (as' : List AttemptRecord) (a : AttemptRecord)
    → DistinctAttempts as'
    → recorded_in as' a.provider ≡ false
    → DistinctAttempts (as' ++ a ∷ [])
distinct_snoc [] a h p = (refl, tt)
distinct_snoc (b ∷ as') a h p =
    (any_snoc _ as' a h.0 (ground arith), distinct_snoc as' a h.1 (ground arith))

attempted_insert :
    (s : List ProviderKind) (p : ProviderKind) (as' : List AttemptRecord)
    → All (λ a. contains s a.provider ≡ true) as'
    → All (λ a. contains (insert p s) a.provider ≡ true) as'
attempted_insert s p [] h = tt
attempted_insert s p (a ∷ as') h =
    (ground (arith, contains-insert s p a.provider), attempted_insert s p as' h.1)

unrecorded :
    (s : List ProviderKind) (p : ProviderKind) (as' : List AttemptRecord)
    → All (λ a. contains s a.provider ≡ true) as'
    → contains s p ≡ false
    → recorded_in as' p ≡ false
unrecorded s p [] h new_p = refl
unrecorded s p (a ∷ as') h new_p =
    ground (arith, unrecorded s p as' h.1 new_p, same_provider_iff a.provider p)

-- what an admission changes, but for the budget
start_IsRun :
    (s : ReasoningRun) (p : ProviderKind) (b : BudgetState)
    → IsRun s
    → s.active ≡ none
    → s.status ≡ none
    → next_admitted s.attempted s.order s.admission ≡ some p
    → IsRun (record s { budget = b; attempted = insert p s.attempted; active = some p })
start_IsRun s p b h idle open_run e =
    let n : IsNext s.attempted s.order s.admission p = next_admitted-IsNext _ _ _ p e in
    record {
      bounded =
          omega (arith, next_admitted-remaining s.attempted s.order s.admission p e, h.bounded);
      active_new = (
        ground (arith, contains-insert s.attempted p p, same_provider_iff p p),
        unrecorded s.attempted p s.attempts h.recorded_attempted n.fresh,
        n.admitted,
        open_run,
      );
      recorded_attempted = attempted_insert s.attempted p s.attempts h.recorded_attempted;
      recorded_admitted = h.recorded_admitted;
      distinct = h.distinct;
    }

stop_IsRun :
    (s : ReasoningRun) (st : Option RunStatus)
    → IsRun s
    → s.active ≡ none
    → IsRun (record s { status = st })
stop_IsRun s st h idle = record {
  bounded = h.bounded;
  active_new = subst (ActiveIs (record s { status = st })) (sym idle) tt;
  recorded_attempted = h.recorded_attempted;
  recorded_admitted = h.recorded_admitted;
  distinct = h.distinct;
}

admit-IsRun : (s : ReasoningRun) (r : Reservation) → IsRun s → IsRun (admit s r).0
admit-IsRun s r h = elim (admit_cases s r) [
  | stopped st e eq ↦ rw eq h
  | busy p open_run e eq ↦ rw eq h
  | out open_run idle e eq ↦ rw eq (stop_IsRun s (some exhausted) h idle)
  | refused p x open_run idle e over eq ↦ rw eq h
  | started p open_run idle e fits eq ↦ rw eq (start_IsRun s p _ h idle open_run e)
]

budget-IsRun : (s : ReasoningRun) (b : BudgetState) → IsRun s → IsRun (record s { budget = b })
budget-IsRun s b h = record {
  bounded = h.bounded;
  active_new = same_active s.active h.active_new;
  recorded_attempted = h.recorded_attempted;
  recorded_admitted = h.recorded_admitted;
  distinct = h.distinct;
}
  where
    same_active : (o : Option ProviderKind) → ActiveIs s o → ActiveIs (record s { budget = b }) o
    same_active none x = x
    same_active (some p) x = x

deterministic-IsRun : (s : ReasoningRun) → IsRun s → IsRun (admit_deterministic s).0
deterministic-IsRun s h = elim (admit_deterministic_cases s) [
  | inl eq ↦ rw eq h
  | inr (open_run, idle, e, eq) ↦ rw eq (start_IsRun s deterministic s.budget h idle open_run e)
]

-- giving up the active provider
idle-IsRun : (s : ReasoningRun) → IsRun s → IsRun (record s { active = none })
idle-IsRun s h = record {
  bounded = omega (arith, h.bounded);
  active_new = tt;
  recorded_attempted = h.recorded_attempted;
  recorded_admitted = h.recorded_admitted;
  distinct = h.distinct;
}

record-IsRun :
    (s : ReasoningRun) (a : AttemptRecord) (st : Option RunStatus)
    → IsRun s
    → s.active ≡ some a.provider
    → IsRun (record s { attempts = s.attempts ++ a ∷ []; active = none; status = st })
record-IsRun s a st h e =
    let new_a : ActiveIs s (some a.provider) = subst (ActiveIs s) e h.active_new in
    record {
      bounded = omega (arith, h.bounded, ap running e, length-append s.attempts (a ∷ []));
      active_new = tt;
      recorded_attempted = All-snoc _ s.attempts a h.recorded_attempted new_a.0;
      recorded_admitted = All-snoc _ s.attempts a h.recorded_admitted new_a.2;
      distinct = distinct_snoc s.attempts a h.distinct new_a.1;
    }

completion-IsRun :
    (s : ReasoningRun) (p : ProviderKind) (t : ReasoningRun)
    → IsRun s
    → CompletionCase s p t
    → IsRun t
completion-IsRun s p t h (recorded a st e active eq) =
    rw eq (record-IsRun s a st h (active ∙ ap some (sym e)))
completion-IsRun s p t h (dropped other eq) = rw eq (idle-IsRun s h)
completion-IsRun s p t h (ignored other eq) = rw eq h

pub step-IsRun : (s : ReasoningRun) (c : Call) → IsRun s → IsRun (step s c)
unfolding step
step-IsRun s (admits r) h = admit-IsRun s r h
step-IsRun s queries h = unfold reserve_evidence_query in budget-IsRun s _ h
step-IsRun s admits_deterministic h = deterministic-IsRun s h
step-IsRun s (fails p f x) h = completion-IsRun s p _ h (fail_with_cases s p f x)
step-IsRun s (succeeds p x) h = completion-IsRun s p _ h (succeed_with_cases s p x)

pub run-IsRun : (s : ReasoningRun) (cs : List Call) → IsRun s → IsRun (run s cs)
unfolding run
run-IsRun s [] h = h
run-IsRun s (c ∷ cs) h = run-IsRun (step s c) cs (step-IsRun s c h)

pub remaining-le-length : (ps : List ProviderKind) → remaining [] ps ≤ length ps
remaining-le-length [] = omega arith
remaining-le-length (p ∷ ps) = omega (arith, remaining-le-length ps)
