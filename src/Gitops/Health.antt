-- ===== src/Gitops/Health.antt =====
-- src/gitops/qualified_deployment.rs: the assessment of post-deployment health. A time is a `u64`,
-- so that a sum that leaves its width is `checked_add`'s none.
pub mod Coverage
pub mod Examples
use ai_sre.Prelude.{
  ℕ, ◌+◌, ◌-◌, ◌^◌, Bool, true, false, not, ◌&&◌, ◌||◌, Option, none, some, List, [], ◌∷◌, Result,
  ok, err, ok_or, guard, ◌>>=◌, ◌>>◌, length, is_empty, leb, ltb, if◌then◌else◌,
}

pub record ObservationPolicy : Type 0 where
  pub window_seconds : ℕ
  pub max_gap_seconds : ℕ
  pub max_age_seconds : ℕ

pub record HealthSample : Type 0 where
  pub observed_at : ℕ
  pub gatus_healthy : Bool
  pub prometheus_healthy : Bool

pub data QualificationError : Type 0 where
  invalid_policy incomplete_health not_current : QualificationError

abbrev pub u64_max : ℕ
u64_max = 2 ^ 64 - 1

-- `a.checked_add(b)`
abbrev pub checked_add : ℕ → ℕ → Option ℕ
checked_add a b = if leb (a + b) u64_max then some (a + b) else none

-- `(low..=high).contains(n)`
abbrev pub within : ℕ → ℕ → ℕ → Bool
within low high n = leb low n && leb n high

abbrev pub valid_policy : ObservationPolicy → Bool
valid_policy p =
    within 60 86400 p.window_seconds
    && within 1 p.window_seconds p.max_gap_seconds
    && within 1 604800 p.max_age_seconds

-- the loop over the samples: the result is the time of the last one
unfoldable pub assess_samples : ℕ → ℕ → ℕ → ℕ → List HealthSample → Result QualificationError ℕ
assess_samples max_gap last_allowed now previous [] = ok previous
assess_samples max_gap last_allowed now previous (s ∷ samples) =
    let rest = assess_samples max_gap last_allowed now s.observed_at samples in
    if not s.gatus_healthy
      || not s.prometheus_healthy
      || leb s.observed_at previous
      || ltb last_allowed s.observed_at
      || ltb now s.observed_at
      || ltb max_gap (s.observed_at - previous)
    then err incomplete_health
    else rest

unfoldable pub assess_health :
    ObservationPolicy → ℕ → ℕ → List HealthSample → Result QualificationError (Unit {0})
unfolding assess_samples
assess_health policy completed_at now samples = do
  guard (valid_policy policy) invalid_policy
  end ← ok_or (checked_add completed_at policy.window_seconds) invalid_policy
  last_allowed ← ok_or (checked_add end policy.max_gap_seconds) invalid_policy
  guard (not (ltb now end || ltb policy.max_age_seconds (now - end))) not_current
  guard (not (is_empty samples || ltb 10000 (length samples))) incomplete_health
  previous ← assess_samples policy.max_gap_seconds last_allowed now completed_at samples
  guard (not (ltb previous end)) incomplete_health
  ok tt
