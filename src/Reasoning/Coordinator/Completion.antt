-- ===== src/Reasoning/Coordinator/Completion.antt =====
-- src/reasoning/coordinator.rs: every branch of a completion.
use ai_sre.Prelude.{
  ◌≡◌, ◌≢◌, refl, Option, none, some, [], ◌∷◌, ◌++◌, ok, err, arith, ap, ◌∙◌, inl, inr,
  Option-cases, Bool-cases,
}
use ai_sre.Reasoning.Router.{ProviderKind, same_provider}
use ai_sre.Reasoning.Router.Order.{same_provider_iff}
use ai_sre.Reasoning.Coordinator.{
  ReasoningRun, RunStatus, AttemptRecord, AttemptOutcome, FailureClass, AttemptFacts, failed,
  no_active_run, wrong_provider, fail_with, succeed_with,
}

module _ (s : ReasoningRun) (p : ProviderKind) (facts : AttemptFacts) where
  module _ (failure : FailureClass) where
    -- the failure of the active provider is recorded
    pub fail_with_active :
        s.active ≡ some p
        → fail_with s p failure facts ≡ (
          record s {
            attempts =
                s.attempts ++ record { provider = p; outcome = failed failure; facts = facts } ∷ [];
            active = none;
          },
          ok tt,
        )
    unfolding fail_with
    fail_with_active e = ground (arith, (same_provider_iff p p).1)

    pub fail_with_other :
        (a : ProviderKind)
        → s.active ≡ some a
        → a ≢ p
        → fail_with s p failure facts ≡ (record s { active = none }, err wrong_provider)
    unfolding fail_with
    fail_with_other a e other = ground (arith, (same_provider_iff a p).0)

    pub fail_with_idle : s.active ≡ none → fail_with s p failure facts ≡ (s, err no_active_run)
    unfolding fail_with
    fail_with_idle e = ground arith

  pub succeed_with_active :
      s.active ≡ some p
      → succeed_with s p facts ≡ (
        record s {
          attempts =
              s.attempts
              ++ record { provider = p; outcome = AttemptOutcome.succeeded; facts = facts } ∷ [];
          active = none;
          status = some (RunStatus.succeeded p);
        },
        ok (RunStatus.succeeded p),
      )
  unfolding succeed_with
  succeed_with_active e = ground (arith, (same_provider_iff p p).1)

  pub succeed_with_other :
      (a : ProviderKind)
      → s.active ≡ some a
      → a ≢ p
      → succeed_with s p facts ≡ (s, err wrong_provider)
  unfolding succeed_with
  succeed_with_other a e other = ground (arith, (same_provider_iff a p).0)

  pub succeed_with_idle : s.active ≡ none → succeed_with s p facts ≡ (s, err no_active_run)
  unfolding succeed_with
  succeed_with_idle e = ground arith

-- What a completion does to the run, whichever outcome it reports.
pub data CompletionCase (s : ReasoningRun) (p : ProviderKind) (t : ReasoningRun) : Type 0 where
  recorded :
      (a : AttemptRecord) (st : Option RunStatus)
      → a.provider ≡ p
      → s.active ≡ some p
      → t ≡ record s { attempts = s.attempts ++ a ∷ []; active = none; status = st }
      → CompletionCase s p t
  dropped : s.active ≢ some p → t ≡ record s { active = none } → CompletionCase s p t
  ignored : s.active ≢ some p → t ≡ s → CompletionCase s p t

pub fail_with_cases :
    (s : ReasoningRun) (p : ProviderKind) (f : FailureClass) (x : AttemptFacts)
    → CompletionCase s p (fail_with s p f x).0
fail_with_cases s p f x = elim (Option-cases s.active) [
  | inl e ↦ ignored (λ q. cc) (ap (λ r. r.0) (fail_with_idle s p x f e))
  | inr (a, e) ↦ elim (Bool-cases (same_provider a p)) [
    | inl same ↦
        let h : s.active ≡ some p = e ∙ ap some ((same_provider_iff a p).0 same) in
        recorded _ s.status refl h (ap (λ r. r.0) (fail_with_active s p x f h))
    | inr other ↦
        let ne : a ≢ p = λ q. cc ((same_provider_iff a p).1 q) in
        dropped (λ q. ground arith) (ap (λ r. r.0) (fail_with_other s p x f a e ne))
  ]
]

pub succeed_with_cases :
    (s : ReasoningRun) (p : ProviderKind) (x : AttemptFacts)
    → CompletionCase s p (succeed_with s p x).0
succeed_with_cases s p x = elim (Option-cases s.active) [
  | inl e ↦ ignored (λ q. cc) (ap (λ r. r.0) (succeed_with_idle s p x e))
  | inr (a, e) ↦ elim (Bool-cases (same_provider a p)) [
    | inl same ↦
        let h : s.active ≡ some p = e ∙ ap some ((same_provider_iff a p).0 same) in
        recorded _ (some (RunStatus.succeeded p)) refl h
          (ap (λ r. r.0) (succeed_with_active s p x h))
    | inr other ↦
        let ne : a ≢ p = λ q. cc ((same_provider_iff a p).1 q) in
        ignored (λ q. ground arith) (ap (λ r. r.0) (succeed_with_other s p x a e ne))
  ]
]
