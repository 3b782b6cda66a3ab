-- ===== src/Gitops/Health/Coverage.antt =====
-- src/gitops/qualified_deployment.rs: about what healthy samples cover.
use ai_sre.Prelude.{
  ℕ, ◌+◌, ◌≤◌, ◌<◌, ◌≡◌, ◌≢◌, ◌↔◌, ◌⊎◌, refl, inl, inr, true, false, List, [], ◌∷◌, ok, length,
  is_empty, leb, arith, Bool-cases, Result-cases,
}
use ai_sre.Gitops.Health.{ObservationPolicy, HealthSample, assess_samples, assess_health, u64_max}

abbrev pub IsHealthy : HealthSample → Type 0
IsHealthy s = (s.gatus_healthy ≡ true) × (s.prometheus_healthy ≡ true)

module _ (max_gap last_allowed now : ℕ) where
  -- healthy samples, each later than the one before and at most a gap behind it, up to `last`
  abbrev pub Chains : ℕ → List HealthSample → ℕ → Type 0
  Chains previous [] last = previous ≡ last
  Chains previous (s ∷ samples) last =
      IsHealthy s
      × (previous < s.observed_at)
      × (s.observed_at ≤ previous + max_gap)
      × (s.observed_at ≤ last_allowed)
      × (s.observed_at ≤ now)
      × Chains s.observed_at samples last

  assess_samples_iff :
      (previous : ℕ) (samples : List HealthSample) (last : ℕ)
      → (assess_samples max_gap last_allowed now previous samples ≡ ok last)
        ↔ Chains previous samples last
  unfolding assess_samples
  assess_samples_iff previous [] last = (λ e. ground arith, λ h. ground arith)
  assess_samples_iff previous (s ∷ samples) last =
      let (to, from) = assess_samples_iff s.observed_at samples last in
      (λ e. ground (arith, to), λ h. ground (arith, from h.5, h.0))

-- the policy's numbers, and a completion time whose window does not leave the width
abbrev pub IsPolicy : ObservationPolicy → ℕ → Type 0
IsPolicy p completed_at =
    (60 ≤ p.window_seconds)
    × (p.window_seconds ≤ 86400)
    × (1 ≤ p.max_gap_seconds)
    × (p.max_gap_seconds ≤ p.window_seconds)
    × (1 ≤ p.max_age_seconds)
    × (p.max_age_seconds ≤ 604800)
    × (completed_at + p.window_seconds + p.max_gap_seconds ≤ u64_max)

pub record IsQualified (p : ObservationPolicy) (completed_at now : ℕ) (samples : List HealthSample)
    : Type 0 where
  pub policy : IsPolicy p completed_at
  pub window_closed : completed_at + p.window_seconds ≤ now
  pub current : now ≤ completed_at + p.window_seconds + p.max_age_seconds
  pub some_sample : samples ≢ []
  pub few_samples : length samples ≤ 10000
  pub last : ℕ
  pub chained :
      Chains p.max_gap_seconds
        (completed_at + p.window_seconds + p.max_gap_seconds)
        now
        completed_at
        samples
        last
  pub covered : completed_at + p.window_seconds ≤ last

not_empty : (samples : List HealthSample) → is_empty samples ≡ false → samples ≢ []
not_empty [] h e = cc
not_empty (s ∷ samples) h e = cc

empty : (samples : List HealthSample) → samples ≢ [] → is_empty samples ≡ false
empty [] h = absurd (h refl)
empty (s ∷ samples) h = refl

module _ (p : ObservationPolicy) (completed_at now : ℕ) (samples : List HealthSample) where
  abbrev end : ℕ
  end = completed_at + p.window_seconds

  IsQualified-of_ok :
      assess_health p completed_at now samples ≡ ok tt → IsQualified p completed_at now samples
  unfolding assess_health
  IsQualified-of_ok e =
      elim (Result-cases
        (assess_samples p.max_gap_seconds (end + p.max_gap_seconds) now completed_at samples)) [
          | inl (last, f) ↦ record {
            policy = ground arith;
            window_closed = ground arith;
            current = ground arith;
            some_sample = not_empty samples (ground arith);
            few_samples = ground arith;
            last = last;
            chained =
                (assess_samples_iff p.max_gap_seconds (end + p.max_gap_seconds) now completed_at
                    samples last).0
                  f;
            covered = ground arith;
          }
          | inr (why, f) ↦ absurd (ground arith)
        ]

  ok_of_qualified :
      IsQualified p completed_at now samples → assess_health p completed_at now samples ≡ ok tt
  unfolding assess_health
  ok_of_qualified h =
      let chain =
        (assess_samples_iff p.max_gap_seconds (end + p.max_gap_seconds) now completed_at samples
            h.last).1
          h.chained in
      let some_sample = empty samples h.some_sample in
      ground
        (arith, h.policy, h.window_closed, h.current, h.few_samples, h.covered, chain, some_sample)

-- The assessment succeeds exactly when the policy is within its limits and its window stays within
-- the width of a time, the window has closed and is no older than the policy allows, and there are
-- one to ten thousand samples, all of them healthy in both checks, in strictly increasing order, no
-- gap longer than allowed (that behind the completion included), none in the future or more than a
-- gap behind the window, and the last one at the end of the window or later.
pub assess_health_iff :
    (p : ObservationPolicy) (completed_at now : ℕ) (samples : List HealthSample)
    → (assess_health p completed_at now samples ≡ ok tt) ↔ IsQualified p completed_at now samples
assess_health_iff p completed_at now samples =
    (IsQualified-of_ok p completed_at now samples, ok_of_qualified p completed_at now samples)

-- a healthy sample stands at the time `t` or at most a gap behind it
abbrev pub IsSeen : ℕ → ℕ → List HealthSample → Type 0
IsSeen gap t [] = ⊥
IsSeen gap t (s ∷ samples) =
    (IsHealthy s × (t ≤ s.observed_at) × (s.observed_at ≤ t + gap)) ⊎ IsSeen gap t samples

chain-IsSeen :
    (gap last_allowed now previous last t : ℕ) (s : HealthSample) (samples : List HealthSample)
    → Chains gap last_allowed now previous (s ∷ samples) last
    → previous ≤ t
    → t ≤ last
    → IsSeen gap t (s ∷ samples)
chain-IsSeen gap last_allowed now previous last t s [] h l u = inl (h.0, ground arith, ground arith)
chain-IsSeen gap last_allowed now previous last t s (s' ∷ samples) h l u =
    elim (Bool-cases (leb t s.observed_at)) [
      | inl e ↦ inl (h.0, ground arith, ground arith)
      | inr e ↦
          inr
            (chain-IsSeen gap last_allowed now s.observed_at last t s' samples h.5 (ground arith) u)
    ]

-- Where the assessment succeeds, no moment of the window went unobserved: for each there is a
-- sample, healthy in both checks, at that moment or at most the allowed gap later.
pub assess_health-IsSeen :
    (p : ObservationPolicy) (completed_at now t : ℕ) (samples : List HealthSample)
    → assess_health p completed_at now samples ≡ ok tt
    → completed_at ≤ t
    → t ≤ completed_at + p.window_seconds
    → IsSeen p.max_gap_seconds t samples
assess_health-IsSeen p completed_at now t [] e l u =
    absurd ((IsQualified-of_ok p completed_at now [] e).some_sample refl)
assess_health-IsSeen p completed_at now t (s ∷ samples) e l u =
    let h = IsQualified-of_ok p completed_at now (s ∷ samples) e in
    chain-IsSeen p.max_gap_seconds _ now completed_at h.last t s samples h.chained l
      (omega (arith, h.covered))
