-- ===== src/Reasoning/Contracts/Examples.antt =====
-- src/reasoning/contracts.rs: about concrete artifacts.
use ai_sre.Prelude.{
  ◌≡◌, ◌≢◌, ◌↔◌, ◌≤◌, refl, false, none, [], ◌∷◌, ok, err, length, All, Text, text, is_blank, utf8,
}
use ai_sre.Reasoning.Contracts.{
  EvidenceRef, DiagnosticReport, AdvisoryRecommendation, unknown_evidence, max_role_prompt_bytes,
  validate_report, validate_recommendation,
}
use ai_sre.Reasoning.Contracts.Citations.{ids_of, IsFound, validate_report_iff}
use ai_sre.Reasoning.Evidence.{EvidenceBoard, complete}
use ai_sre.Reasoning.Journal.{grafana_logs}

abbrev board : EvidenceBoard
board =
    (record {
      evidence_id = text "evidence-0001";
      source = grafana_logs;
      query = text "up";
      payload = text "1";
      metadata = record { status = complete; freshness_ms = none; truncated = false; error = none };
    })
    ∷ []

abbrev cite : Text → EvidenceRef
cite id = record { evidence_id = id }

abbrev report : DiagnosticReport
report = record { summary = text "disk full"; evidence = cite (text "evidence-0001") ∷ [] }

abbrev advice : AdvisoryRecommendation
advice = record {
  summary = text "grow the disk";
  expected_effect = text "space";
  verification = text "df";
  stop_strategy = text "stop at 90%";
  rollback = text "none";
  evidence = cite (text "evidence-0002") ∷ [];
}

advice_unknown :
    validate_recommendation advice (ids_of board) ≡ err (unknown_evidence (text "evidence-0002"))
unfolding validate_recommendation
advice_unknown = refl

validate_report_iff_example : (validate_report report (ids_of board) (text "why?") ≡ ok tt) ↔ (
    (length (utf8 (text "why?")) ≤ max_role_prompt_bytes)
    × (is_blank report.summary ≡ false)
    × (report.evidence ≢ [])
    × All (IsFound board) report.evidence)
validate_report_iff_example = validate_report_iff report board (text "why?")
