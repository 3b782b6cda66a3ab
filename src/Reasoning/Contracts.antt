-- ===== src/Reasoning/Contracts.antt =====
-- src/reasoning/contracts.rs, src/reasoning/validate.rs: the advisory artifacts of the model and
-- their validation. The reader of a report's JSON, serde's, is a parameter.
pub mod Citations
mod Examples
use ai_sre.Prelude.{
  ℕ, ◌*◌, Bool, true, false, not, Option, none, some, List, [], ◌∷◌, Result, ok, err, ok_or, any,
  length, is_empty, ltb, if◌then◌else◌, Text, same_text, is_blank, utf8,
}

abbrev pub max_provider_report_bytes : ℕ
max_provider_report_bytes = 64 * 1024

-- src/reasoning/prompts.rs
abbrev pub max_role_prompt_bytes : ℕ
max_role_prompt_bytes = 32 * 1024

pub record EvidenceRef : Type 0 where
  pub evidence_id : Text

pub record DiagnosticReport : Type 0 where
  pub summary : Text
  pub evidence : List EvidenceRef

pub record AdvisoryRecommendation : Type 0 where
  pub summary : Text
  pub expected_effect : Text
  pub verification : Text
  pub stop_strategy : Text
  pub rollback : Text
  pub evidence : List EvidenceRef

pub data ContractError : Type 0 where
  malformed_provider_response empty_summary missing_evidence missing_safety_field : ContractError
  unknown_evidence : Text → ContractError

abbrev pub holds : List Text → Text → Bool
holds ids id = any (λ available. same_text available id) ids

-- `find_map(…).map_or(Ok(()), Err)` over the citations
abbrev pub citations : List Text → List EvidenceRef → Result ContractError (Unit {0})
citations ids [] = ok tt
citations ids (r ∷ rest) =
    let later = citations ids rest in
    if not (holds ids r.evidence_id) then err (unknown_evidence r.evidence_id) else later

-- `AdvisoryRecommendation::validate_against`
unfoldable pub validate_recommendation :
    AdvisoryRecommendation → List Text → Result ContractError (Unit {0})
validate_recommendation r ids =
    if any is_blank
      (r.summary ∷ r.expected_effect ∷ r.verification ∷ r.stop_strategy ∷ r.rollback ∷ [])
    then err missing_safety_field
    else if is_empty r.evidence
    then err missing_evidence
    else citations ids r.evidence

-- `DiagnosticReport::from_provider_json`
unfoldable pub from_provider_json :
    (Text → Option DiagnosticReport) → Text → Result ContractError DiagnosticReport
unfolding utf8
from_provider_json report_of input =
    if ltb max_provider_report_bytes (length (utf8 input))
    then err malformed_provider_response
    else ok_or (report_of input) malformed_provider_response

-- `DiagnosticReport::validate_against`
unfoldable pub validate_against : DiagnosticReport → List Text → Result ContractError (Unit {0})
validate_against r ids =
    if is_blank r.summary
    then err empty_summary
    else if is_empty r.evidence
    then err missing_evidence
    else citations ids r.evidence

unfoldable pub validate_report :
    DiagnosticReport → List Text → Text → Result ContractError (Unit {0})
unfolding validate_against utf8
validate_report report ids prompt =
    if ltb max_role_prompt_bytes (length (utf8 prompt))
    then err malformed_provider_response
    else validate_against report ids
