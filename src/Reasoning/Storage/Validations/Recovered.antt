-- ===== src/Reasoning/Storage/Validations/Recovered.antt =====
-- src/reasoning/storage/manual_validation.rs: about requests whose attempt was recovered.
use ai_sre.Prelude.{
  ℕ, ◌≡◌, ◌≢◌, refl, sym, ap, ◌∙◌, subst, inl, inr, Bool, true, not, ◌&&◌, ◌||◌, Option, none, some,
  List, [], ◌∷◌, ◌++◌, Result, ok, err, any, length, ltb, ◌==◌, arith, Bool-cases, Text, same_text,
  same_text_refl, is_blank, utf8,
}
use ai_sre.Gitops.Receipt.{ReceiptWire}
use ai_sre.Reasoning.Journal.{
  JournalEvent, JournalContext, ManualValidationStage, manual_validation, recovery_authorized,
}
use ai_sre.Reasoning.Storage.{JournalStore, JournalStoreError, append_events, add_rows, i64_max}
use ai_sre.Reasoning.Storage.Appends.{committed, rolled_back, append_events_cases}
use ai_sre.Reasoning.Storage.Appends
use ai_sre.Reasoning.Storage.Deployments.{Codec, record_deployment, add_deployment}
use ai_sre.Reasoning.Storage.Deployments.Cases.{
  unchanged, inserted, undone, unreported, record_deployment_cases,
}
use ai_sre.Reasoning.Storage.Durable.{Call, run}
use ai_sre.Reasoning.Storage.Kept.{run_keeps}
use ai_sre.Reasoning.Storage.Tables.{RecoveryRow, AttemptRow, Reviews}
use ai_sre.Reasoning.Storage.Validations.{
  Hasher, RequestFields, append_transition, record_transition, scopes_of, single_scope, archive,
  answered, is_recovery, is_unexpired, is_control, attempt_of, recover_read, recover_found,
  reserve_read, recover_manual_validation, reserve_manual_validation,
}

abbrev pub IsRecovered : Text → Text → Reviews → Type 0
IsRecovered artifact request_digest r =
    any (is_recovery artifact request_digest) r.recoveries ≡ true

deployment-recoveries :
    (codec : Codec) (s : JournalStore) (wire : ReceiptWire) (now : ℕ)
    → (record_deployment codec s wire now).0.reviews.recoveries ≡ s.reviews.recoveries
deployment-recoveries codec s wire now = elim (record_deployment_cases codec s wire now) [
  | unchanged eq ↦ ap (λ (t : JournalStore). t.reviews.recoveries) eq
  | inserted accepted reason later _ fit free eq _ ↦
      ap (λ (t : JournalStore). t.reviews.recoveries) eq ∙ unfold add_deployment add_rows in refl
  | unreported accepted reason later _ fit free eq _ ↦
      ap (λ (t : JournalStore). t.reviews.recoveries) eq ∙ unfold add_deployment add_rows in refl
  | undone later eq ↦ ap (λ (t : JournalStore). t.reviews.recoveries) eq
]

run-IsRecovered :
    (s : JournalStore) (cs : List Call) (artifact request_digest : Text)
    → IsRecovered artifact request_digest s.reviews
    → IsRecovered artifact request_digest (run s cs).reviews
run-IsRecovered s cs artifact request_digest h =
    let p = is_recovery artifact request_digest in
    run_keeps (IsRecovered artifact request_digest)
      (λ codec u wire now k. ap (any p) (deployment-recoveries codec u wire now) ∙ k)
      (λ change review u k. review.recoveries_grow p u k) s cs h

module _ (hasher : Hasher) (t : JournalStore) (artifact request_json : Text) where
  reserve_read-refused :
      (o : Option RequestFields)
      → IsRecovered artifact (hasher.digest request_json) t.reviews
      → ((reserve_read hasher t artifact request_json o).0 ≡ t)
        × ((reserve_read hasher t artifact request_json o).1 ≢ ok true)
  unfolding reserve_read
  reserve_read-refused none h = (refl, λ k. cc)
  reserve_read-refused (some fields) h = rw (h, reserve_read) (refl, λ k. cc)

  reserve-refused :
      IsRecovered artifact (hasher.digest request_json) t.reviews
      → ((reserve_manual_validation hasher t artifact request_json).0 ≡ t)
        × ((reserve_manual_validation hasher t artifact request_json).1 ≢ ok true)
  unfolding reserve_manual_validation
  reserve-refused h = elim (Bool-cases (ltb 16384 (length (utf8 request_json)))) [
    | inl e ↦ rw (e, reserve_manual_validation) (refl, λ k. cc)
    | inr e ↦
        rw (e, reserve_manual_validation)
          (reserve_read-refused (hasher.read_request request_json) h)
  ]

-- the row that is added last is found
any-last :
    (p : RecoveryRow → Bool) (rows : List RecoveryRow) (row : RecoveryRow)
    → p row ≡ true
    → any p (rows ++ row ∷ []) ≡ true
any-last p [] row h = ground arith
any-last p (q ∷ rows) row h = ground (arith, any-last p rows row h)

both : {a b : Bool} → a ≡ true → b ≡ true → (a && b) ≡ true
both h k = ground (arith, h, k)

module _ (s : JournalStore) (row : RecoveryRow) where
  abbrev Archives : JournalStore × Result JournalStoreError (Unit {0}) → Type 0
  Archives p = p.1 ≡ ok tt → IsRecovered row.artifact_digest row.request_digest p.0.reviews

  append-Archives :
      (event : JournalEvent) (scope : Option JournalContext)
      → Archives (append_events s (event ∷ []) scope (archive row))
  append-Archives event scope h = elim (append_events_cases s (event ∷ []) scope (archive row)) [
    | committed later fit free eq _ ↦
        subst (λ (t : JournalStore). IsRecovered row.artifact_digest row.request_digest t.reviews)
          (sym eq)
          (unfold archive add_rows in
            any-last (is_recovery row.artifact_digest row.request_digest) s.reviews.recoveries row
              (both (same_text_refl row.artifact_digest) (same_text_refl row.request_digest)))
    | rolled_back later eq e ↦ absurd (cc (h, e))
    | Appends.unreported later fit free eq e ↦ absurd (cc (h, e))
  ]

  transition-Archives :
      (event : JournalEvent) (r : Result JournalStoreError (Option JournalContext))
      → Archives (append_transition s event (archive row) r)
  unfolding append_transition
  transition-Archives event (ok scope) h = append-Archives event scope h
  transition-Archives event (err e) h = absurd (cc h)

  record-Archives :
      (artifact request_digest : Text) (stage : ManualValidationStage) (at elapsed : Option ℕ)
      → Archives (record_transition s artifact request_digest stage at elapsed (archive row))
  unfolding record_transition
  record-Archives artifact request_digest stage at elapsed =
      elim (Bool-cases
        (ltb i64_max (length s.journal) || not (length s.rows == length s.journal))) [
          | inl e ↦ rw (e, record_transition) (λ k. absurd (cc k))
          | inr e ↦
              rw (e, record_transition)
                (transition-Archives (manual_validation artifact request_digest stage at elapsed)
                  (single_scope (scopes_of s.codec artifact s.rows)))
        ]

  answered-Archives :
      (p : JournalStore × Result JournalStoreError (Unit {0}))
      → Archives p
      → (answered true p).1 ≡ ok true
      → IsRecovered row.artifact_digest row.request_digest (answered true p).0.reviews
  answered-Archives (t, ok _) h k = h refl
  answered-Archives (t, err e) h k = absurd (cc k)

module _ (hasher : Hasher) (s : JournalStore) (artifact expected : Text) (uid gid : ℕ)
    (reason : Text) (now : ℕ) where
  recover_read-recovers :
      (row : AttemptRow) (o : Option RequestFields)
      → (recover_read hasher s artifact expected uid gid reason now row o).1 ≡ ok true
      → IsRecovered artifact expected
          (recover_read hasher s artifact expected uid gid reason now row o).0.reviews
  unfolding recover_read
  recover_read-recovers row none = λ h. absurd (cc h)
  recover_read-recovers row (some fields) =
      let archived : RecoveryRow = record {
        artifact_digest = artifact;
        request_digest = expected;
        request_json = row.request_json;
        receipt_json = row.receipt_json;
        operator_uid = uid;
        operator_gid = gid;
        reason = reason;
        recovered_at = now;
      } in
      elim (Bool-cases (
        not (same_text (hasher.digest row.request_json) expected)
        || is_unexpired hasher now fields.expires_at)) [
          | inl e ↦ rw (e, recover_read) (λ k. absurd (cc k))
          | inr e ↦ elim (Bool-cases (any (is_recovery artifact expected) s.reviews.recoveries)) [
            | inl f ↦ rw (e, f, recover_read) (λ k. absurd (cc k))
            | inr f ↦
                rw (e, f, recover_read)
                  (answered-Archives s archived _ (
                    record-Archives s archived artifact expected recovery_authorized (some now)
                      none))
          ]
        ]

  recover_found-recovers :
      (o : Option AttemptRow)
      → (recover_found hasher s artifact expected uid gid reason now o).1 ≡ ok true
      → IsRecovered artifact expected
          (recover_found hasher s artifact expected uid gid reason now o).0.reviews
  unfolding recover_found
  recover_found-recovers none h = absurd (cc h)
  recover_found-recovers (some row) h =
      recover_read-recovers row (hasher.read_request row.request_json) h

  recover-recovers :
      (recover_manual_validation hasher s artifact expected uid gid reason now).1 ≡ ok true
      → IsRecovered artifact expected
          (recover_manual_validation hasher s artifact expected uid gid reason now).0.reviews
  unfolding recover_manual_validation
  recover-recovers =
      elim (Bool-cases (
        is_blank reason
        || ltb 512 (length (utf8 reason))
        || any is_control reason
        || ltb i64_max now)) [
          | inl e ↦ rw (e, recover_manual_validation) (λ k. absurd (cc k))
          | inr e ↦
              rw (e, recover_manual_validation)
                (recover_found-recovers (attempt_of artifact s.reviews.attempts))
        ]

-- Once an attempt was recovered, its request is never reserved again for the artifact: whatever is
-- called in between and whichever transactions fail, a reservation of a request with the archived
-- digest is answered with false or an error and changes nothing.
pub recovered_not_reserved :
    (hasher : Hasher) (s : JournalStore) (artifact request_json : Text) (uid gid : ℕ)
    (reason : Text) (now : ℕ) (cs : List Call)
    → let expected = hasher.digest request_json in
      (recover_manual_validation hasher s artifact expected uid gid reason now).1 ≡ ok true
      → let t =
          run (recover_manual_validation hasher s artifact expected uid gid reason now).0 cs in
        ((reserve_manual_validation hasher t artifact request_json).0 ≡ t)
        × ((reserve_manual_validation hasher t artifact request_json).1 ≢ ok true)
recovered_not_reserved hasher s artifact request_json uid gid reason now cs h =
    let expected = hasher.digest request_json in
    let u = (recover_manual_validation hasher s artifact expected uid gid reason now).0 in
    reserve-refused hasher (run u cs) artifact request_json (
      run-IsRecovered u cs artifact expected
        (recover-recovers hasher s artifact expected uid gid reason now h))
