-- ===== src/Promotion/Policy/Examples.antt =====
-- src/policy/promotion.rs: an admission with concrete parameters.
use ai_sre.Prelude.{
  ℕ, ◌≡◌, ◌↔◌, refl, Bool, true, false, none, List, [], ◌∷◌, ◌++◌, Result, ok, err, ◌>>=◌, Text,
  text,
}
use ai_sre.Prelude.Int.{pos}
use ai_sre.Promotion.{
  PromotionError, invalid_fields, a, Payload, PromotionManifest, derived_digest, validate_shape,
  valid_digest,
}
use ai_sre.Promotion.Policy.{RuntimeBinding, AdmittedGate, admit}
use ai_sre.Promotion.Policy.Admissible.{IsAdmissible, admit_iff}
use ai_sre.Promotion.Policy.Shadow.{from_yaml, admits_shadow}
use ai_sre.Prelude.{utf8}
use ai_sre.Prelude.Map
use ai_sre.Prelude.Decimal.{parse}

-- a hash and an encoding that can be evaluated
abbrev sha256 : List ℕ → List ℕ
sha256 bytes = 171 ∷ 205 ∷ bytes

abbrev to_vec : Payload → List ℕ
to_vec p = 1 ∷ []

abbrev some_digest : Text
some_digest = text "sha256:aaaaaaaaaaaaaaaaaaaaaaaaaaaaaaaaaaaaaaaaaaaaaaaaaaaaaaaaaaaaaaaa"

abbrev manifest : PromotionManifest
manifest = record {
  payload = record {
    schema = text "KTD21/v1";
    gate = a;
    predecessor_digest = none;
    corpus_digest = some_digest;
    results_digest = some_digest;
    policy_version = text "policy-1";
    config_version = text "config-1";
    binary_digest = some_digest;
    issued_at = pos 10;
    expires_at = pos 20;
    key_id = text "key-1";
    generation = 1;
    revoked = false;
  };
  manifest_digest = text "sha256:abcd01";
}

abbrev binding : RuntimeBinding
binding = record {
  binary_digest = some_digest;
  policy_version = text "policy-1";
  config_version = text "config-1";
  corpus_digest = some_digest;
  generation = 1;
  revoked_key_ids = text "key-0" ∷ [];
}

abbrev admitted_a : AdmittedGate
admitted_a = record { gate = a; digest = text "sha256:abcd01" }

manifest_admitted : admit sha256 to_vec manifest binding (pos 15) none ≡ ok admitted_a
unfolding admit validate_shape derived_digest valid_digest utf8
manifest_admitted = refl

admit_iff_example :
    (admit sha256 to_vec manifest binding (pos 15) none ≡ ok admitted_a)
    ↔ (IsAdmissible sha256 to_vec manifest binding (pos 15) none × (admitted_a ≡ admitted_a))
admit_iff_example = admit_iff sha256 to_vec manifest binding (pos 15) none admitted_a

-- src/config/evaluation/shadow-gate.yaml
abbrev shadow_gate : Text
shadow_gate =
    text "# Gate A is reviewed before results are collected. This file is immutable\n"
    ++ text "# policy, not a result file; the service has no code path that edits it.\n"
    ++ text "schema: KTD21/v1\n"
    ++ text "gate: A\n"
    ++ text "mode: shadow\n"
    ++ text "minimum_cases: 20\n"
    ++ text "minimum_failure_classes: 5\n"
    ++ text "repeats_per_case: 3\n"
    ++ text "p95_max_seconds: 300\n"
    ++ text "max_evidence_rounds: 2\n"
    ++ text "max_grafana_queries: 8\n"
    ++ text "requires_deterministic_fallback: true\n"
    ++ text "requires_openai: true\n"
    ++ text "requires_gemini: true\n"
    ++ text "requires_deepseek: true\n"
    ++ text "requires_offline_signature: true\n"
    ++ text "action_policy: disabled\n"
    ++ text "external_write_credentials: absent\n"
    ++ []

abbrev shadow_admits : ℕ → Result PromotionError Bool
shadow_admits cases = from_yaml shadow_gate >>= λ policy. ok (admits_shadow policy cases 10 3)

shadow_gate_read : (shadow_admits 20 ≡ ok true) × (shadow_admits 19 ≡ ok false)
unfolding from_yaml admits_shadow Map.insert Map.get parse
shadow_gate_read = (refl, refl)

shadow_gate_key : from_yaml (text "schema: KTD21/v1\nextra: 1") ≡ err invalid_fields
unfolding from_yaml Map.insert
shadow_gate_key = refl
