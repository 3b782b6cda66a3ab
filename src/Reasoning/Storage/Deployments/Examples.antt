-- ===== src/Reasoning/Storage/Deployments/Examples.antt =====
-- src/reasoning/storage/gitops.rs: about a concrete deployment.
use ai_sre.Prelude.{
  same_text, if◌then◌else◌, ℕ, zero, suc, ◌≡◌, ◌≢◌, refl, true, false, none, some, [], ◌∷◌, ◌++◌,
  ok, Text, text,
}
use ai_sre.Gitops.Health.{assess_health}
use ai_sre.Gitops.Health.Examples.{policy, healthy_at}
use ai_sre.Gitops.Receipt.{ReceiptWire, validate_shape}
use ai_sre.Reasoning.Storage.{JournalStore}
use ai_sre.Reasoning.Storage.Deployments.{
  Codec, is_eligible, last_fact, record_deployment, qualified_deployment,
}
use ai_sre.Reasoning.Storage.Deployments.Invalid.{IsInvalid, invalid_stays}
use ai_sre.Reasoning.Storage.Durable.{deploys, run}
use ai_sre.Reasoning.Storage.Tables.{no_reviews}

abbrev copies : ℕ → ℕ → Text
copies zero c = []
copies (suc n) c = c ∷ copies n c

abbrev image : Text
image = text "ghcr.io/corentinth/it-tools@sha256:" ++ copies 64 b'a'

abbrev wire : ReceiptWire
wire = record {
  schema = text "ai-sre/deployment-receipt/v1";
  repository = text "bodhispace-xyz/bodhispace-homelab";
  service = text "utility/it-tools";
  deployment_id = text "deployment-1";
  commit = copies 40 b'b';
  image = image;
  observed_commit = copies 40 b'b';
  observed_image = image;
  completed_at = 1000;
  policy_declared_at = 990;
  policy = policy;
  samples = healthy_at 1020 ∷ healthy_at 1050 ∷ healthy_at 1070 ∷ [];
  deployment_succeeded = true;
  revoked = false;
}

abbrev revoked_wire : ReceiptWire
revoked_wire = record wire { revoked = true }

-- an encoding that tells the two receipts apart, and a hash that is the text itself
abbrev codec : Codec
codec = record {
  digest = λ t. t;
  to_json = λ w. if w.revoked then text "revoked" else text "receipt";
  from_json = λ t. if same_text t (text "receipt") then some wire else none;
}

abbrev store : JournalStore
store = record {
  codec = record { to_json = λ e. []; from_json = λ t. none };
  journal = [];
  rows = [];
  outbox = [];
  reports = [];
  markers = [];
  reviews = no_reviews;
  outcomes = [];
}

abbrev qualified_store : JournalStore
qualified_store = (record_deployment codec store wire 1080).0

qualified_wire :
    qualified_deployment codec qualified_store (text "deployment-1") 1081 ≡ ok (some wire)
unfolding record_deployment qualified_deployment validate_shape is_eligible assess_health last_fact
qualified_wire = refl

abbrev revoked_store : JournalStore
revoked_store = (record_deployment codec qualified_store revoked_wire 1082).0

revoked-IsInvalid : IsInvalid (text "deployment-1") revoked_store
unfolding record_deployment validate_shape is_eligible assess_health last_fact
revoked-IsInvalid = (
  record {
    deployment_id = text "deployment-1";
    receipt_digest = text "receipt";
    receipt_json = text "receipt";
    eligible = false;
  },
  refl,
  refl,
)

invalid_stays_example :
    let t = run revoked_store (deploys codec wire 1083 ∷ []) in
    (qualified_deployment codec t (text "deployment-1") 1084 ≡ ok none)
    × ((record_deployment codec t wire 1084).0 ≡ t)
    × ((record_deployment codec t wire 1084).1 ≢ ok true)
invalid_stays_example =
    invalid_stays codec revoked_store (deploys codec wire 1083 ∷ []) wire 1084 revoked-IsInvalid
