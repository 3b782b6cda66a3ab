-- ===== src/Reasoning/Evidence.antt =====
-- src/reasoning/evidence.rs: the evidence board of a run. The length of a text is that of its bytes
-- in UTF-8. `EvidenceSource` is in ai_sre.Reasoning.Journal.
pub mod Redaction
pub mod Payload
pub mod Alike
pub mod Board
mod Examples
use ai_sre.Prelude.{
  ℕ, ◌+◌, ◌*◌, Bool, false, Option, none, List, [], ◌∷◌, ◌++◌, Result, ok, err, length, leb, ltb,
  is_empty, if◌then◌else◌, Text, text, utf8,
}
use ai_sre.Prelude.Decimal.{show}
use ai_sre.Reasoning.Journal.{EvidenceSource}
use ai_sre.Reasoning.Evidence.Payload.{JsonText, redact_payload}
use ai_sre.Reasoning.Evidence.Redaction.{redact_text}

abbrev pub max_evidence_payload_bytes : ℕ
max_evidence_payload_bytes = 64 * 1024

abbrev pub max_evidence_query_bytes : ℕ
max_evidence_query_bytes = 4 * 1024

abbrev pub max_evidence_records : ℕ
max_evidence_records = 64

pub data EvidenceStatus : Type 0 where
  complete partial empty rejected timed_out unavailable budget_exhausted : EvidenceStatus

pub record EvidenceMetadata : Type 0 where
  pub status : EvidenceStatus
  pub freshness_ms : Option ℕ
  pub truncated : Bool
  pub error : Option Text

pub record EvidenceRecord : Type 0 where
  pub evidence_id : Text
  pub source : EvidenceSource
  pub query : Text
  pub payload : List ℕ
  pub metadata : EvidenceMetadata

pub data EvidenceError : Type 0 where
  empty_payload payload_too_large query_too_large record_limit_exceeded : EvidenceError

abbrev pub EvidenceBoard : Type 0
EvidenceBoard = List EvidenceRecord

-- `{n:04}`
abbrev pub four_digits : ℕ → Text
four_digits n =
    if ltb n 10
    then text "000" ++ show n
    else if ltb n 100
    then text "00" ++ show n
    else if ltb n 1000
    then text "0" ++ show n
    else show n

pub evidence_id : ℕ → Text
evidence_id n = text "evidence-" ++ four_digits n

module _ (json : JsonText) where
  -- once the query and the payload are redacted
  commit_redacted :
      EvidenceBoard
      → EvidenceSource
      → Text
      → List ℕ
      → EvidenceMetadata
      → EvidenceBoard × Result EvidenceError Text
  unfolding utf8 evidence_id
  commit_redacted records source query payload metadata =
      let id = evidence_id (length records + 1) in
      if ltb max_evidence_query_bytes (length (utf8 query))
      then (records, err query_too_large)
      else if is_empty payload
      then (records, err empty_payload)
      else if ltb max_evidence_payload_bytes (length payload)
      then (records, err payload_too_large)
      else (
        records
            ++ record {
              evidence_id = id;
              source = source;
              query = query;
              payload = payload;
              metadata = metadata;
            }
              ∷ [],
        ok id,
      )

  -- The board comes back beside the result.
  unfoldable pub commit_with_metadata :
      EvidenceBoard
      → EvidenceSource
      → Text
      → List ℕ
      → EvidenceMetadata
      → EvidenceBoard × Result EvidenceError Text
  unfolding commit_redacted redact_text redact_payload
  commit_with_metadata records source query payload metadata =
      if is_empty payload
      then (records, err empty_payload)
      else if leb max_evidence_records (length records)
      then (records, err record_limit_exceeded)
      else if ltb max_evidence_payload_bytes (length payload)
      then (records, err payload_too_large)
      else commit_redacted records source (redact_text query) (redact_payload json payload) metadata

  unfoldable pub commit :
      EvidenceBoard → EvidenceSource → Text → List ℕ → EvidenceBoard × Result EvidenceError Text
  unfolding commit_with_metadata
  commit records source query payload =
      commit_with_metadata records source query payload
        (record { status = complete; freshness_ms = none; truncated = false; error = none })
