-- ===== src/Reasoning/Storage/Validations.antt =====
-- src/reasoning/storage/manual_validation.rs: the attempts of manual validation. The hash of a text
-- and the two fields that are read from a request's JSON, sha2's and serde_json's, are parameters.
-- What SQLite extracts from the JSON of an event is what serde reads from it.
pub mod Steps
pub mod Recovered
mod Examples
use ai_sre.Prelude.{
  ℕ, ◌+◌, ◌*◌, Bool, true, false, not, ◌&&◌, ◌||◌, Option, none, some, List, [], ◌∷◌, ◌++◌, Result,
  ok, err, any, find, length, leb, ltb, ◌==◌, if◌then◌else◌, Text, same_text, is_blank, utf8,
}
use ai_sre.Reasoning.Budget.{u64_max}
use ai_sre.Reasoning.Journal.{
  JournalEvent, JournalEntry, JournalContext, manual_validation, manual_repair_prepared,
  ManualValidationStage, response_failed, reserved, receipt_received, recovery_authorized,
}
use ai_sre.Reasoning.Storage.{
  JournalStore, JournalStoreError, sqlite, encoding, non_contiguous_sequence, invalid_deployment,
  append_events, i64_max, EventCodec, EventRow,
}
use ai_sre.Reasoning.Storage.Tables.{AttemptRow, RecoveryRow, Reviews}

-- what is read from the JSON of a request: nothing, if it is no JSON
pub record RequestFields : Type 0 where
  pub issued_at : Option ℕ
  pub expires_at : Option ℕ

pub record Hasher : Type 0 where
  pub digest : Text → Text
  pub read_request : Text → Option RequestFields

pub data ManualValidationState : Type 0 where
  uncertain validated : ManualValidationState

pub record ManualValidationAttempt : Type 0 where
  pub state : ManualValidationState
  pub request_json : Text
  pub receipt_json : Option Text

abbrev state_of : Option Text → ManualValidationState
state_of none = uncertain
state_of (some _) = validated

abbrev pub attempt_of : Text → List AttemptRow → Option AttemptRow
attempt_of artifact rows = find (λ row. same_text row.artifact_digest artifact) rows

-- `manual_validation_attempt`
unfoldable pub manual_validation_attempt : JournalStore → Text → Option ManualValidationAttempt
manual_validation_attempt s artifact = elim (attempt_of artifact s.reviews.attempts) [
  | none ↦ none
  | some row ↦ some (record {
    state = state_of row.receipt_json;
    request_json = row.request_json;
    receipt_json = row.receipt_json;
  })
]

abbrev same_id : Option Text → Option Text → Bool
same_id none none = true
same_id (some a) (some b) = same_text a b
same_id _ _ = false

-- the two columns of a scope
abbrev pub Scope : Type 0
Scope = Option Text × Option Text

abbrev same_scope : Scope → Scope → Bool
same_scope (a, b) (c, d) = same_id a c && same_id b d

abbrev prepares : Text → Option JournalEvent → Bool
prepares artifact (some (manual_repair_prepared digest _ _)) = same_text digest artifact
prepares artifact _ = false

-- `SELECT DISTINCT incident_id,run_id` over the rows that prepare the artifact
unfoldable pub scopes_of : EventCodec → Text → List EventRow → List Scope
scopes_of codec artifact [] = []
scopes_of codec artifact (row ∷ rows) =
    let rest = scopes_of codec artifact rows in
    let scope : Scope = (row.incident_id, row.run_id) in
    if prepares artifact (codec.from_json row.event_json) && not (any (same_scope scope) rest)
    then scope ∷ rest
    else rest

-- no scope, or exactly one
abbrev pub single_scope : List Scope → Result JournalStoreError (Option JournalContext)
single_scope [] = ok none
single_scope ((none, none) ∷ []) = ok none
single_scope ((some incident_id, some run_id) ∷ []) =
    ok (some (record { incident_id = incident_id; run_id = run_id }))
single_scope _ = err invalid_deployment

-- the fact of a transition, with a change of the tables
unfoldable pub append_transition :
    JournalStore
    → JournalEvent
    → (JournalStore → JournalStore)
    → Result JournalStoreError (Option JournalContext)
    → JournalStore × Result JournalStoreError (Unit {0})
unfolding append_events
append_transition s event change (ok scope) = append_events s (event ∷ []) scope change
append_transition s event change (err e) = (s, err e)

-- `record_transition` and the commit
unfoldable pub record_transition :
    JournalStore
    → Text
    → Text
    → ManualValidationStage
    → Option ℕ
    → Option ℕ
    → (JournalStore → JournalStore)
    → JournalStore × Result JournalStoreError (Unit {0})
unfolding append_transition scopes_of
record_transition s artifact request_digest stage at_unix_seconds response_elapsed_ms change =
    if ltb i64_max (length s.journal) || not (length s.rows == length s.journal)
    then (s, err non_contiguous_sequence)
    else append_transition s
        (manual_validation artifact request_digest stage at_unix_seconds response_elapsed_ms) change
        (single_scope (scopes_of s.codec artifact s.rows))

abbrev pub is_open : Text → Text → AttemptRow → Bool
is_open artifact wire row =
    same_text row.artifact_digest artifact
    && same_text row.request_json wire
    && (elim row.receipt_json [ none ↦ true | some _ ↦ false ])

abbrev pub fails_at : Text → Text → Option JournalEvent → Bool
fails_at artifact request_digest (some (manual_validation a d response_failed _ _)) =
    same_text a artifact && same_text d request_digest
fails_at artifact request_digest _ = false

abbrev pub is_control : ℕ → Bool
is_control c = ltb c 32 || (leb 127 c && leb c 159)

abbrev pub is_recovery : Text → Text → RecoveryRow → Bool
is_recovery artifact request_digest row =
    same_text row.artifact_digest artifact && same_text row.request_digest request_digest

unfoldable pub add_attempt : AttemptRow → JournalStore → JournalStore
add_attempt row s = record s {
  reviews = record s.reviews { attempts = s.reviews.attempts ++ row ∷ [] };
}

without : Text → List AttemptRow → List AttemptRow
without artifact [] = []
without artifact (row ∷ rows) =
    let rest = without artifact rows in
    if same_text row.artifact_digest artifact then rest else row ∷ rest

-- the archived attempt in place of the open one
unfoldable pub archive : RecoveryRow → JournalStore → JournalStore
unfolding without
archive row s = record s {
  reviews = record s.reviews {
    recoveries = s.reviews.recoveries ++ row ∷ [];
    attempts = without row.artifact_digest s.reviews.attempts;
  };
}

set_receipt : Text → Text → Text → List AttemptRow → List AttemptRow
set_receipt artifact wire receipt [] = []
set_receipt artifact wire receipt (row ∷ rows) =
    let rest = set_receipt artifact wire receipt rows in
    if is_open artifact wire row
    then record row { receipt_json = some receipt } ∷ rest
    else row ∷ rest

unfoldable pub add_receipt : Text → Text → Text → JournalStore → JournalStore
unfolding set_receipt
add_receipt artifact wire receipt s = record s {
  reviews = record s.reviews { attempts = set_receipt artifact wire receipt s.reviews.attempts };
}

-- the answer of a call whose transaction was committed
abbrev pub answered :
    {A : Type 0}
    → A
    → JournalStore × Result JournalStoreError (Unit {0})
    → JournalStore × Result JournalStoreError A
answered a (t, ok _) = (t, ok a)
answered a (t, err e) = (t, err e)

module _ (hasher : Hasher) where
  unfoldable pub record_manual_validation_failure :
      JournalStore → Text → Text → ℕ → JournalStore × Result JournalStoreError (Unit {0})
  unfolding record_transition
  record_manual_validation_failure s artifact wire elapsed_ms =
      if ltb u64_max elapsed_ms || not (any (is_open artifact wire) s.reviews.attempts)
      then (s, err invalid_deployment)
      else if any (λ row. fails_at artifact (hasher.digest wire) (s.codec.from_json row.event_json))
          s.rows
      then (s, ok tt)
      else record_transition s artifact (hasher.digest wire) response_failed none (some elapsed_ms)
          (λ t. t)

  -- `none_or(now <= expiry)`
  abbrev pub is_unexpired : ℕ → Option ℕ → Bool
  is_unexpired now none = true
  is_unexpired now (some expiry) = leb now expiry

  -- by the fields of the attempt's request
  unfoldable pub recover_read :
      JournalStore
      → Text
      → Text
      → ℕ
      → ℕ
      → Text
      → ℕ
      → AttemptRow
      → Option RequestFields
      → JournalStore × Result JournalStoreError Bool
  unfolding record_transition archive
  recover_read s artifact expected uid gid reason now row none = (s, err encoding)
  recover_read s artifact expected uid gid reason now row (some fields) =
      if not (same_text (hasher.digest row.request_json) expected)
        || is_unexpired now fields.expires_at
      then (s, ok false)
      else if any (is_recovery artifact expected) s.reviews.recoveries
      then (s, err sqlite)
      else answered true (
          record_transition s artifact expected recovery_authorized (some now) none (
            archive (record {
              artifact_digest = artifact;
              request_digest = expected;
              request_json = row.request_json;
              receipt_json = row.receipt_json;
              operator_uid = uid;
              operator_gid = gid;
              reason = reason;
              recovered_at = now;
            })))

  unfoldable pub recover_found :
      JournalStore
      → Text
      → Text
      → ℕ
      → ℕ
      → Text
      → ℕ
      → Option AttemptRow
      → JournalStore × Result JournalStoreError Bool
  unfolding recover_read
  recover_found s artifact expected uid gid reason now none = (s, ok false)
  recover_found s artifact expected uid gid reason now (some row) =
      recover_read s artifact expected uid gid reason now row (hasher.read_request row.request_json)

  unfoldable pub recover_manual_validation :
      JournalStore → Text → Text → ℕ → ℕ → Text → ℕ → JournalStore × Result JournalStoreError Bool
  unfolding recover_found utf8
  recover_manual_validation s artifact expected uid gid reason now =
      if is_blank reason
        || ltb 512 (length (utf8 reason))
        || any is_control reason
        || ltb i64_max now
      then (s, err invalid_deployment)
      else recover_found s artifact expected uid gid reason now
          (attempt_of artifact s.reviews.attempts)

  -- the conditional insertion of an attempt
  unfoldable pub reserve_read :
      JournalStore
      → Text
      → Text
      → Option RequestFields
      → JournalStore × Result JournalStoreError Bool
  unfolding record_transition add_attempt
  reserve_read s artifact request_json none = (s, err encoding)
  reserve_read s artifact request_json (some fields) =
      if any (is_recovery artifact (hasher.digest request_json)) s.reviews.recoveries
        || any (λ row. same_text row.artifact_digest artifact) s.reviews.attempts
      then (s, ok false)
      else answered true (
          record_transition s artifact (hasher.digest request_json) reserved fields.issued_at none (
            add_attempt (record {
              artifact_digest = artifact;
              request_json = request_json;
              receipt_json = none;
            })))

  unfoldable pub reserve_manual_validation :
      JournalStore → Text → Text → JournalStore × Result JournalStoreError Bool
  unfolding reserve_read utf8
  reserve_manual_validation s artifact request_json =
      if ltb (16 * 1024) (length (utf8 request_json))
      then (s, err invalid_deployment)
      else reserve_read s artifact request_json (hasher.read_request request_json)

  abbrev pub exceeds_u64 : Option ℕ → Bool
  exceeds_u64 none = false
  exceeds_u64 (some n) = ltb u64_max n

  -- a receipt is its artifact, its completion time and its JSON
  unfoldable pub complete_manual_validation :
      JournalStore
      → Text
      → ℕ
      → Text
      → Text
      → Option ℕ
      → JournalStore × Result JournalStoreError (Unit {0})
  unfolding record_transition add_receipt
  complete_manual_validation s artifact completed_at receipt request_json elapsed_ms =
      if exceeds_u64 elapsed_ms || not (any (is_open artifact request_json) s.reviews.attempts)
      then (s, err invalid_deployment)
      else record_transition s artifact (hasher.digest request_json) receipt_received
          (some completed_at) elapsed_ms (add_receipt artifact request_json receipt)
