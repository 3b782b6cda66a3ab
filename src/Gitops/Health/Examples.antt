-- ===== src/Gitops/Health/Examples.antt =====
-- src/gitops/qualified_deployment.rs: about concrete samples.
use ai_sre.Prelude.{ℕ, ◌≡◌, ◌↔◌, refl, arith, true, List, [], ◌∷◌, ok, err}
use ai_sre.Gitops.Health.{ObservationPolicy, HealthSample, incomplete_health, assess_health}
use ai_sre.Gitops.Health.Coverage.{IsQualified, IsSeen, assess_health_iff, assess_health-IsSeen}

abbrev pub policy : ObservationPolicy
policy = record { window_seconds = 60; max_gap_seconds = 30; max_age_seconds = 600 }

abbrev pub healthy_at : ℕ → HealthSample
healthy_at t = record { observed_at = t; gatus_healthy = true; prometheus_healthy = true }

abbrev samples : List HealthSample
samples = healthy_at 1020 ∷ healthy_at 1050 ∷ healthy_at 1070 ∷ []

assess_samples_ok : assess_health policy 1000 1080 samples ≡ ok tt
unfolding assess_health
assess_samples_ok = refl

-- the last sample ends before the window does
assess_short :
    assess_health policy 1000 1080 (healthy_at 1020 ∷ healthy_at 1050 ∷ []) ≡ err incomplete_health
unfolding assess_health
assess_short = refl

assess_health_iff_example :
    (assess_health policy 1000 1080 samples ≡ ok tt) ↔ IsQualified policy 1000 1080 samples
assess_health_iff_example = assess_health_iff policy 1000 1080 samples

assess_health-IsSeen_example : IsSeen 30 1051 samples
assess_health-IsSeen_example =
    assess_health-IsSeen policy 1000 1080 1051 samples assess_samples_ok (omega arith) (omega arith)
