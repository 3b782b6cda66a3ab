-- ===== src/Reasoning/Storage/Deployments.antt =====
-- src/reasoning/storage/gitops.rs: the qualification of deployments by their receipts. The hash of
-- a text and the JSON encoding of a receipt, sha2's and serde's, are parameters.
pub mod Cases
pub mod Invalid
mod Examples
use ai_sre.Prelude.{
  ℕ, ◌+◌, ◌*◌, Bool, true, false, not, ◌&&◌, ◌||◌, Option, none, some, List, [], ◌∷◌, ◌++◌, Result,
  ok, err, any, find, length, leb, ltb, ◌==◌, if◌then◌else◌, Text, same_text, utf8,
}
use ai_sre.Gitops.Health.{assess_health}
use ai_sre.Gitops.Receipt.{ReceiptWire, validate_shape}
use ai_sre.Reasoning.Journal.{
  JournalEvent, JournalEntry, JournalContext, deployment_qualification,
  DeploymentQualificationReason, qualified, failed_initial_assessment, revoked,
  contradictory_receipt,
}
use ai_sre.Reasoning.Storage.{
  JournalStore, JournalStoreError, sqlite, encoding, non_contiguous_sequence, invalid_deployment,
  append_events, i64_max,
}
use ai_sre.Reasoning.Storage.Tables.{AuditRow, DeploymentRow, Reviews}

-- `digest` of a text's bytes, and serde's encoding of a receipt
pub record Codec : Type 0 where
  pub digest : Text → Text
  pub to_json : ReceiptWire → Text
  pub from_json : Text → Option ReceiptWire

-- `ReceiptWire::digest`
abbrev pub wire_digest : Codec → ReceiptWire → Text
wire_digest codec wire = codec.digest (codec.to_json wire)

-- the test of a result, `is_ok()`
abbrev pub is_ok {ℓ κ} : {E : Type ℓ} {A : Type κ} → Result E A → Bool
is_ok (ok _) = true
is_ok (err _) = false

unfoldable pub is_eligible : ReceiptWire → ℕ → Bool
is_eligible wire now =
    wire.deployment_succeeded
    && not wire.revoked
    && ltb wire.policy_declared_at wire.completed_at
    && same_text wire.commit wire.observed_commit
    && same_text wire.image wire.observed_image
    && is_ok (assess_health wire.policy wire.completed_at now wire.samples)

-- one more event with a change of the tables, if the memory has as many entries as the database
unfoldable pub append_counted :
    JournalStore
    → JournalEvent
    → Option JournalContext
    → (JournalStore → JournalStore)
    → JournalStore × Result JournalStoreError (Unit {0})
unfolding append_events
append_counted s event context change =
    if ltb i64_max (length s.journal) || not (length s.rows == length s.journal)
    then (s, err non_contiguous_sequence)
    else append_events s (event ∷ []) context change

-- what a qualification fact says: the receipt, whether it was eligible, and when
pub record Fact : Type 0 where
  pub receipt_digest : Text
  pub eligible : Bool
  pub at_unix_seconds : ℕ

abbrev pub fact_of : Text → JournalEvent → Option Fact
fact_of id (deployment_qualification deployment_id receipt_digest eligible reason at) =
    if same_text deployment_id id
    then some
        (record { receipt_digest = receipt_digest; eligible = eligible; at_unix_seconds = at })
    else none
fact_of id _ = none

-- `entries().iter().rev().find_map(…)`
unfoldable pub last_fact : Text → List JournalEntry → Option Fact
last_fact id [] = none
last_fact id (entry ∷ entries) = elim (last_fact id entries) [
  | some fact ↦ some fact
  | none ↦ fact_of id entry.event
]

abbrev pub row_of : Text → List DeploymentRow → Option DeploymentRow
row_of id rows = find (λ row. same_text row.deployment_id id) rows

-- `ON CONFLICT(deployment_id) DO UPDATE SET eligible = 0`
unfoldable pub upsert_deployment : DeploymentRow → List DeploymentRow → List DeploymentRow
upsert_deployment new [] = new ∷ []
upsert_deployment new (row ∷ rows) =
    let rest = upsert_deployment new rows in
    if same_text row.deployment_id new.deployment_id
    then record row { eligible = false } ∷ rows
    else row ∷ rest

-- `ON CONFLICT(receipt_digest) DO NOTHING`
insert_audit : AuditRow → List AuditRow → List AuditRow
insert_audit new rows =
    if any (λ row. same_text row.receipt_digest new.receipt_digest) rows
    then rows
    else rows ++ new ∷ []

-- the fact is that of an eligible receipt with this digest
abbrev pub is_recorded : Text → Option Fact → Bool
is_recorded digest none = false
is_recorded digest (some fact) = fact.eligible && same_text fact.receipt_digest digest

abbrev pub is_current : Text → ℕ → Option Fact → Bool
is_current digest now none = false
is_current digest now (some fact) =
    fact.eligible && same_text fact.receipt_digest digest && leb fact.at_unix_seconds now

-- the answer of a call whose transaction was committed
abbrev pub replied :
    {A : Type 0}
    → A
    → JournalStore × Result JournalStoreError (Unit {0})
    → JournalStore × Result JournalStoreError A
replied a (t, ok _) = (t, ok a)
replied a (t, err e) = (t, err e)

module _ (codec : Codec) where
  unfoldable pub add_deployment : ReceiptWire → Bool → JournalStore → JournalStore
  unfolding upsert_deployment insert_audit
  add_deployment wire accepted s = record s {
    reviews = record s.reviews {
      audits =
          insert_audit
            (record { receipt_digest = wire_digest codec wire; receipt_json = codec.to_json wire })
            s.reviews.audits;
      deployments =
          upsert_deployment
            (record {
              deployment_id = wire.deployment_id;
              receipt_digest = wire_digest codec wire;
              receipt_json = codec.to_json wire;
              eligible = accepted;
            })
            s.reviews.deployments;
    };
  }

  -- the fact and the rows of a receipt
  unfoldable pub insert_deployment :
      JournalStore
      → ReceiptWire
      → ℕ
      → Bool
      → DeploymentQualificationReason
      → JournalStore × Result JournalStoreError Bool
  unfolding append_counted add_deployment
  insert_deployment s wire now accepted reason =
      let event =
        deployment_qualification wire.deployment_id (wire_digest codec wire) accepted (some reason)
          now in
      replied accepted (append_counted s event none (add_deployment wire accepted))

  -- behind an eligible row
  unfoldable pub contradict :
      JournalStore → ReceiptWire → ℕ → DeploymentRow → JournalStore × Result JournalStoreError Bool
  unfolding insert_deployment
  contradict s wire now row =
      if not (is_recorded row.receipt_digest (last_fact wire.deployment_id s.journal))
      then (s, err invalid_deployment)
      else if same_text row.receipt_digest (wire_digest codec wire)
      then (s, ok (is_eligible wire now))
      else insert_deployment s wire now false
          (if wire.revoked then revoked else contradictory_receipt)

  -- by the row that is found
  unfoldable pub record_behind :
      JournalStore
      → ReceiptWire
      → ℕ
      → Option DeploymentRow
      → JournalStore × Result JournalStoreError Bool
  unfolding contradict
  record_behind s wire now (some row) =
      if not row.eligible then (s, ok false) else contradict s wire now row
  record_behind s wire now none = insert_deployment s wire now (is_eligible wire now) (
      if wire.revoked
      then revoked
      else if is_eligible wire now
      then qualified
      else failed_initial_assessment)

  unfoldable pub record_deployment :
      JournalStore → ReceiptWire → ℕ → JournalStore × Result JournalStoreError Bool
  unfolding record_behind
  record_deployment s wire now =
      if is_ok (validate_shape wire)
      then record_behind s wire now (row_of wire.deployment_id s.reviews.deployments)
      else (s, err invalid_deployment)

  -- the receipt that the row's JSON encodes
  read_receipt :
      Text → ℕ → DeploymentRow → Option ReceiptWire → Result JournalStoreError (Option ReceiptWire)
  read_receipt id now row none = err encoding
  read_receipt id now row (some wire) =
      if not (is_ok (validate_shape wire))
        || not (same_text wire.deployment_id id)
        || not (same_text (wire_digest codec wire) row.receipt_digest)
      then err invalid_deployment
      else ok (if is_eligible wire now then some wire else none)

  -- the row that is found, if it is eligible
  qualify :
      JournalStore → Text → ℕ → Option DeploymentRow → Result JournalStoreError (Option ReceiptWire)
  unfolding read_receipt utf8
  qualify s id now none = ok none
  qualify s id now (some row) =
      if not row.eligible
      then ok none
      else if not (is_current row.receipt_digest now (last_fact id s.journal))
          || ltb (1024 * 1024) (length (utf8 row.receipt_json))
      then err invalid_deployment
      else read_receipt id now row (codec.from_json row.receipt_json)

  unfoldable pub qualified_deployment :
      JournalStore → Text → ℕ → Result JournalStoreError (Option ReceiptWire)
  unfolding qualify
  qualified_deployment s id now = qualify s id now (row_of id s.reviews.deployments)
