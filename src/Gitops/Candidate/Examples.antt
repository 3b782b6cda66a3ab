-- ===== src/Gitops/Candidate/Examples.antt =====
-- src/gitops/artifact.rs: a candidate for a concrete file.
use ai_sre.Prelude.{◌≡◌, refl, true, false, none, some, [], ◌++◌, text, trim_start, trim_end}
use ai_sre.Prelude.Decimal.{show}
use ai_sre.Gitops.Candidate.{
  ManualRepairRequest, CandidateWire, CandidateCodec, patch_of, candidate_of, build,
}
use ai_sre.Gitops.Candidate.Bound.{IsBound, build-IsBound}
use ai_sre.Gitops.Image.Examples.{copies, yaml, image, source, base}
use ai_sre.Gitops.Receipt.{ReceiptWire}
use ai_sre.Gitops.Health.Examples.{policy}

abbrev request : ManualRepairRequest
request = record {
  deployment_id = text "deployment-1";
  incident_id = text "incident-1";
  run_id = text "run-1";
  expected_base = base;
  current_base = base;
  evidence_digest = text "sha256:" ++ copies 64 b'c';
  source = source;
  now = 1100;
}

abbrev wire : ReceiptWire
wire = record {
  schema = text "ai-sre/deployment-receipt/v1";
  repository = text "bodhispace-xyz/bodhispace-homelab";
  service = text "utility/it-tools";
  deployment_id = text "deployment-1";
  commit = base;
  image = image;
  observed_commit = base;
  observed_image = image;
  completed_at = 1000;
  policy_declared_at = 990;
  policy = policy;
  samples = [];
  deployment_succeeded = true;
  revoked = false;
}

-- a hash that is the text itself, and a scalar that stands for itself
abbrev codec : CandidateCodec
codec = record { digest = λ t. t; receipt_digest = λ w. w.deployment_id; read_scalar = some }

patch_example :
    patch_of (record { index = 2; before_line = text "image: a\n"; after_line = text "image: b" })
    ≡ text "--- a/stacks/utility/compose.yml\n+++ b/stacks/utility/compose.yml\n"
      ++ text "@@ -3,1 +3,1 @@\n-image: a\n+image: b\n\\ No newline at end of file\n"
unfolding patch_of show
patch_example = refl

abbrev candidate : CandidateWire
candidate = candidate_of codec request wire [] (record {
  index = 2;
  before_line = text "    image: ghcr.io/corentinth/it-tools:1\n";
  after_line = text "    image: " ++ image ++ text "\n";
})

built : build codec yaml request wire [] ≡ some candidate
unfolding build trim_start trim_end
built = refl

other_base : build codec yaml (record request { current_base = copies 40 b'd' }) wire [] ≡ none
unfolding build
other_base = refl

build-IsBound_example : IsBound codec yaml request wire [] candidate
build-IsBound_example = build-IsBound codec yaml request wire [] candidate built
