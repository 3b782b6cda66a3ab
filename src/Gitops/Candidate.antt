-- ===== src/Gitops/Candidate.antt =====
-- src/gitops/artifact.rs: the candidates of a manual repair. The hash of a text, sha2's, and the two
-- encodings of a candidate's parts, serde's, are parameters, as the YAML values are.
pub mod Bound
mod Examples
use ai_sre.Prelude.{
  ℕ, ◌+◌, Bool, true, false, not, ◌&&◌, ◌||◌, Option, none, some, List, [], ◌∷◌, ◌++◌, Result, ok,
  err, any, all, length, is_empty, leb, ltb, ◌==◌, if◌then◌else◌, Text, text, same_text,
  strip_prefix, trim, trim_start, trim_end, utf8,
}
use ai_sre.Prelude.Decimal.{show}
use ai_sre.Gitops.Image.{
  Yaml, ScopeError, RenderError, pilot_path, split_inclusive, render, renders, validate_change,
}
use ai_sre.Gitops.Receipt.{ReceiptWire, bad_id, is_id_byte, image_digest}
use ai_sre.Reasoning.Journal.{EvidenceSource, JournalContext}

pub record ManualRepairRequest : Type 0 where
  pub deployment_id : Text
  pub incident_id : Text
  pub run_id : Text
  pub expected_base : Text
  pub current_base : Text
  pub evidence_digest : Text
  pub source : Text
  pub now : ℕ

pub record EvidenceCitation : Type 0 where
  pub evidence_id : Text
  pub source : EvidenceSource
  pub content_digest : Text

pub record CandidateWire : Type 0 where
  pub schema : Text
  pub title : Text
  pub incident_path : Text
  pub evidence_citations : List EvidenceCitation
  pub incident_digest : Text
  pub run_digest : Text
  pub base_sha : Text
  pub source_digest : Text
  pub evidence_digest : Text
  pub qualification_digest : Text
  pub image : Text
  pub patch : Text
  pub description : Text

-- the hash of a text, the digest of a receipt, and `from_str` of a YAML scalar into a string
pub record CandidateCodec : Type 0 where
  pub digest : Text → Text
  pub receipt_digest : ReceiptWire → Text
  pub read_scalar : Text → Option Text

abbrev pub safe_id : Text → Bool
safe_id value = not (bad_id value)

unfoldable pub valid_evidence_digest : Text → Bool
unfolding image_digest
valid_evidence_digest value = image_digest (strip_prefix (text "sha256:") value)

pub record Change : Type 0 where
  pub index : ℕ
  pub before_line : Text
  pub after_line : Text

-- `zip`, `enumerate` and `filter`
unfoldable pub changes : ℕ → List Text → List Text → List Change
changes index [] _ = []
changes index (_ ∷ _) [] = []
changes index (a ∷ olds) (b ∷ news) =
    let rest = changes (index + 1) olds news in
    if same_text a b then rest else record { index = index; before_line = a; after_line = b } ∷ rest

-- the one change, in a line with no comment
abbrev pub single_change : List Change → Option Change
single_change (change ∷ []) = if any (λ c. c == 35) change.before_line then none else some change
single_change _ = none

abbrev is_image_byte : ℕ → Bool
is_image_byte b = is_id_byte b || b == 46 || b == 47 || b == 58 || b == 64

abbrev starts_with : Text → Text → Bool
starts_with prefix s = elim (strip_prefix prefix s) [ none ↦ false | some _ ↦ true ]

valid_old_image : Text → Bool
unfolding utf8
valid_old_image old =
    (starts_with (text "ghcr.io/corentinth/it-tools:") old
      || starts_with (text "ghcr.io/corentinth/it-tools@sha256:") old)
    && leb (length (utf8 old)) 256
    && all is_image_byte (utf8 old)

-- the image that a changed line names
unfoldable pub old_image : (Text → Option Text) → Option Text → Option Text
unfolding trim_start trim_end valid_old_image
old_image read none = none
old_image read (some scalar) = elim (read (trim scalar)) [
  | none ↦ none
  | some old ↦ if valid_old_image old then some old else none
]

ends_line : Text → Bool
ends_line [] = false
ends_line (c ∷ []) = c == 10
ends_line (c ∷ d ∷ s) = ends_line (d ∷ s)

diff_line : ℕ → Text → Text
unfolding ends_line
diff_line mark content =
    mark ∷ content ++ (if ends_line content then [] else text "\n\\ No newline at end of file\n")

unfoldable pub patch_of : Change → Text
unfolding diff_line
patch_of change =
    let line = show (change.index + 1) in
    text "--- a/"
    ++ pilot_path
    ++ text "\n+++ b/"
    ++ pilot_path
    ++ text "\n@@ -"
    ++ line
    ++ text ",1 +"
    ++ line
    ++ text ",1 @@\n"
    ++ diff_line 45 change.before_line
    ++ diff_line 43 change.after_line

unfoldable pub description_of : ManualRepairRequest → Text → Text
description_of request qualification_digest =
    text "Manual repair candidate — not publish-ready.\n\nTarget: "
    ++ text "utility/it-tools; path: "
    ++ pilot_path
    ++ text ".\nBase: "
    ++ request.expected_base
    ++ text "\nQualified deployment receipt: "
    ++ qualification_digest
    ++ text "\nEvidence: "
    ++ request.evidence_digest
    ++ text "\nExpected effect: restore the qualified immutable image.\nRollback: "
    ++ text "restore the previous image scalar only after fresh evidence and "
    ++ text "review.\nLocal scope: passed. Sandbox validation: not run. Remote "
    ++ text "checks: not run.\nOperator application: after fresh validation and "
    ++ text "review, use a clean checkout at the exact base above. This secret-safe "
    ++ text "zero-context patch requires git apply --check --index --unidiff-zero "
    ++ text "before git apply --index --unidiff-zero. Stop on a changed base or "
    ++ text "failed check; never force or fuzz the patch. See "
    ++ text "packaging/validator/OPERATOR.md in ai-sre for the guarded "
    ++ text "procedure.\nNo PR was created; merge and deployment remain "
    ++ text "operator-owned.\n"

module _ (codec : CandidateCodec) where
  unfoldable pub candidate_of :
      ManualRepairRequest → ReceiptWire → List EvidenceCitation → Change → CandidateWire
  unfolding patch_of description_of
  candidate_of request qualified citations change = record {
    schema = text "ai-sre/manual-repair-candidate/v1";
    title = text "fix(utility): restore qualified it-tools image";
    incident_path = text "/incidents/" ++ request.incident_id;
    evidence_citations = citations;
    incident_digest = codec.digest request.incident_id;
    run_digest = codec.digest request.run_id;
    base_sha = request.expected_base;
    source_digest = codec.digest request.source;
    evidence_digest = request.evidence_digest;
    qualification_digest = codec.receipt_digest qualified;
    image = qualified.image;
    patch = patch_of change;
    description = description_of request (codec.receipt_digest qualified);
  }

  -- by the image that the changed line names
  unfoldable pub build_line :
      ManualRepairRequest
      → ReceiptWire
      → List EvidenceCitation
      → Change
      → Option Text
      → Option CandidateWire
  unfolding candidate_of
  build_line request qualified citations change none = none
  build_line request qualified citations change (some _) =
      some (candidate_of request qualified citations change)

  -- by the one change of the source
  unfoldable pub build_change :
      ManualRepairRequest
      → ReceiptWire
      → List EvidenceCitation
      → Option Change
      → Option CandidateWire
  unfolding build_line old_image trim_start trim_end
  build_change request qualified citations none = none
  build_change request qualified citations (some change) =
      build_line request qualified citations change
        (old_image codec.read_scalar (strip_prefix (text "image:") (trim change.before_line)))

  abbrev pub is_valid_change : Result ScopeError (Unit {0}) → Bool
  is_valid_change (ok _) = true
  is_valid_change (err _) = false

  -- by the rendered source
  unfoldable pub build_rendered :
      Yaml
      → ManualRepairRequest
      → ReceiptWire
      → List EvidenceCitation
      → Result RenderError Text
      → Option CandidateWire
  unfolding build_change changes split_inclusive validate_change
  build_rendered yaml request qualified citations (err _) = none
  build_rendered yaml request qualified citations (ok after) =
      if is_valid_change (
        validate_change yaml request.expected_base request.current_base request.source after
          qualified.image (pilot_path ∷ []))
      then build_change request qualified citations
          (single_change (changes 0 (split_inclusive request.source) (split_inclusive after)))
      else none

  unfoldable pub build :
      Yaml → ManualRepairRequest → ReceiptWire → List EvidenceCitation → Option CandidateWire
  unfolding build_rendered render valid_evidence_digest
  build yaml request qualified citations =
      if not (safe_id request.incident_id)
        || not (safe_id request.run_id)
        || not (valid_evidence_digest request.evidence_digest)
      then none
      else build_rendered yaml request qualified citations
          (render yaml request.source qualified.image)

  unfoldable pub binds_handoff : CandidateWire → JournalContext → Text → Bool
  binds_handoff wire scope base =
      same_text wire.base_sha base
      && same_text wire.incident_digest (codec.digest scope.incident_id)
      && same_text wire.run_digest (codec.digest scope.run_id)

  -- a snapshot is its base, its original source and its changed one
  unfoldable pub binds_snapshot : Yaml → CandidateWire → Text → Text → Text → Bool
  unfolding render
  binds_snapshot yaml wire base_sha original_source pilot_source =
      same_text wire.base_sha base_sha
      && same_text wire.source_digest (codec.digest original_source)
      && renders yaml (render yaml original_source wire.image) pilot_source
