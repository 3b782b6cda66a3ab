-- ===== src/Reasoning/Storage/Validations/Steps.antt =====
-- src/reasoning/storage/manual_validation.rs: about how the calls end.
use ai_sre.Prelude.{
  ℕ, ◌≡◌, refl, inl, inr, Bool, true, false, not, ◌||◌, Option, none, some, List, [], ◌∷◌, ◌++◌,
  Result, ok, err, any, ltb, if◌then◌else◌, arith, Bool-cases, Text, same_text,
}
use ai_sre.Reasoning.Budget.{u64_max}
use ai_sre.Reasoning.Journal.{
  JournalEvent, JournalContext, ManualValidationStage, manual_validation,
}
use ai_sre.Reasoning.Storage.{JournalStore, JournalStoreError, append_events}
use ai_sre.Reasoning.Storage.Tables.{RecoveryRow, AttemptRow}
use ai_sre.Reasoning.Storage.Validations.{
  Hasher, RequestFields, append_transition, record_transition, add_attempt, archive, add_receipt,
  answered, is_recovery, is_open, is_unexpired, attempt_of, recover_read, recover_found,
  reserve_read, record_manual_validation_failure, recover_manual_validation,
  reserve_manual_validation, complete_manual_validation,
}

pub data ValidationCall : Type 0 where
  fails : (artifact wire : Text) → (elapsed_ms : ℕ) → ValidationCall
  recovers :
      (artifact expected : Text) → (uid gid : ℕ) → (reason : Text) → (now : ℕ) → ValidationCall
  reserves : (artifact request_json : Text) → ValidationCall
  completes :
      (artifact : Text)
      → (completed_at : ℕ) → (receipt request_json : Text) → (elapsed_ms : Option ℕ)
      → ValidationCall

unfoldable pub validate : Hasher → JournalStore → ValidationCall → JournalStore
validate hasher s (fails artifact wire elapsed_ms) =
    (record_manual_validation_failure hasher s artifact wire elapsed_ms).0
validate hasher s (recovers artifact expected uid gid reason now) =
    (recover_manual_validation hasher s artifact expected uid gid reason now).0
validate hasher s (reserves artifact request_json) =
    (reserve_manual_validation hasher s artifact request_json).0
validate hasher s (completes artifact completed_at receipt request_json elapsed_ms) =
    (complete_manual_validation hasher s artifact completed_at receipt request_json elapsed_ms).0

-- The change leaves the journal and the deployments alone, and forgets no recovery.
pub record IsReview (change : JournalStore → JournalStore) : Type 0 where
  pub journal_kept : (u : JournalStore) → (change u).journal ≡ u.journal
  pub outcomes_kept : (u : JournalStore) → (change u).outcomes ≡ u.outcomes
  pub codec_kept : (u : JournalStore) → (change u).codec ≡ u.codec
  pub rows_kept : (u : JournalStore) → (change u).rows ≡ u.rows
  pub deployments_kept : (u : JournalStore) → (change u).reviews.deployments ≡ u.reviews.deployments
  pub recoveries_grow :
      (p : RecoveryRow → Bool) (u : JournalStore)
      → any p u.reviews.recoveries ≡ true
      → any p (change u).reviews.recoveries ≡ true

abbrev pub is_validation : JournalEvent → Bool
is_validation (manual_validation _ _ _ _ _) = true
is_validation _ = false

-- A call leaves the store as it was, or appends one fact with a change of the reviews.
pub data Transition (s t : JournalStore) : Type 0 where
  stays : t ≡ s → Transition s t
  moves :
      (event : JournalEvent) (scope : Option JournalContext) (change : JournalStore → JournalStore)
      → is_validation event ≡ true
      → IsReview change
      → t ≡ (append_events s (event ∷ []) scope change).0
      → Transition s t

module _ (s : JournalStore) where
  answered-Transition :
      {A : Type 0} (a : A) (p : JournalStore × Result JournalStoreError (Unit {0}))
      → Transition s p.0
      → Transition s (answered a p).0
  answered-Transition a (t, ok _) h = h
  answered-Transition a (t, err e) h = h

  if-Transition :
      {A : Type 0} (b : Bool) (p q : JournalStore × A)
      → Transition s p.0
      → Transition s q.0
      → Transition s (if b then p else q).0
  if-Transition true p q h k = h
  if-Transition false p q h k = k

  append_transition-Transition :
      (event : JournalEvent) (change : JournalStore → JournalStore)
      (r : Result JournalStoreError (Option JournalContext))
      → is_validation event ≡ true
      → IsReview change
      → Transition s (append_transition s event change r).0
  unfolding append_transition
  append_transition-Transition event change (ok scope) k h = moves event scope change k h refl
  append_transition-Transition event change (err e) k h = stays refl

  record_transition-Transition :
      (artifact request_digest : Text) (stage : ManualValidationStage) (at elapsed : Option ℕ)
      (change : JournalStore → JournalStore)
      → IsReview change
      → Transition s (record_transition s artifact request_digest stage at elapsed change).0
  unfolding record_transition
  record_transition-Transition artifact request_digest stage at elapsed change h =
      if-Transition _ _ _ (stays refl) (append_transition-Transition _ change _ refl h)

no_change-IsReview : IsReview (λ t. t)
no_change-IsReview = record {
  journal_kept = λ u. refl;
  outcomes_kept = λ u. refl;
  codec_kept = λ u. refl;
  rows_kept = λ u. refl;
  deployments_kept = λ u. refl;
  recoveries_grow = λ p u h. h;
}

attempt-IsReview : (row : AttemptRow) → IsReview (add_attempt row)
unfolding add_attempt
attempt-IsReview row = record {
  journal_kept = λ u. refl;
  outcomes_kept = λ u. refl;
  codec_kept = λ u. refl;
  rows_kept = λ u. refl;
  deployments_kept = λ u. refl;
  recoveries_grow = λ p u h. h;
}

receipt-IsReview : (artifact wire receipt : Text) → IsReview (add_receipt artifact wire receipt)
unfolding add_receipt
receipt-IsReview artifact wire receipt = record {
  journal_kept = λ u. refl;
  outcomes_kept = λ u. refl;
  codec_kept = λ u. refl;
  rows_kept = λ u. refl;
  deployments_kept = λ u. refl;
  recoveries_grow = λ p u h. h;
}

any-append :
    (p : RecoveryRow → Bool) (rows more : List RecoveryRow)
    → any p rows ≡ true
    → any p (rows ++ more) ≡ true
any-append p [] more h = cc
any-append p (row ∷ rows) more h = ground (arith, any-append p rows more)

archive-IsReview : (row : RecoveryRow) → IsReview (archive row)
unfolding archive
archive-IsReview row = record {
  journal_kept = λ u. refl;
  outcomes_kept = λ u. refl;
  codec_kept = λ u. refl;
  rows_kept = λ u. refl;
  deployments_kept = λ u. refl;
  recoveries_grow = λ p u h. any-append p u.reviews.recoveries (row ∷ []) h;
}

module _ (hasher : Hasher) (s : JournalStore) where
  fail-Transition :
      (artifact wire : Text) (elapsed_ms : ℕ)
      → Transition s (record_manual_validation_failure hasher s artifact wire elapsed_ms).0
  unfolding record_manual_validation_failure
  fail-Transition artifact wire elapsed_ms =
      elim (Bool-cases
        (ltb u64_max elapsed_ms || not (any (is_open artifact wire) s.reviews.attempts))) [
          | inl e ↦ rw (e, record_manual_validation_failure) (stays refl)
          | inr e ↦
              rw (e, record_manual_validation_failure)
                (if-Transition s _ _ _ (stays refl)
                  (record_transition-Transition s artifact _ _ _ _ (λ t. t) no_change-IsReview))
        ]

  recover_read-Transition :
      (artifact expected : Text) (uid gid : ℕ) (reason : Text) (now : ℕ) (row : AttemptRow)
      (o : Option RequestFields)
      → Transition s (recover_read hasher s artifact expected uid gid reason now row o).0
  unfolding recover_read
  recover_read-Transition artifact expected uid gid reason now row none = stays refl
  recover_read-Transition artifact expected uid gid reason now row (some fields) =
      elim (Bool-cases (
        not (same_text (hasher.digest row.request_json) expected)
        || is_unexpired hasher now fields.expires_at)) [
          | inl e ↦ rw (e, recover_read) (stays refl)
          | inr e ↦ elim (Bool-cases (any (is_recovery artifact expected) s.reviews.recoveries)) [
            | inl f ↦ rw (e, f, recover_read) (stays refl)
            | inr f ↦
                rw (e, f, recover_read)
                  (answered-Transition s true _ (
                    record_transition-Transition s artifact _ _ _ _ (archive _)
                      (archive-IsReview _)))
          ]
        ]

  recover_found-Transition :
      (artifact expected : Text) (uid gid : ℕ) (reason : Text) (now : ℕ) (o : Option AttemptRow)
      → Transition s (recover_found hasher s artifact expected uid gid reason now o).0
  unfolding recover_found
  recover_found-Transition artifact expected uid gid reason now none = stays refl
  recover_found-Transition artifact expected uid gid reason now (some row) =
      recover_read-Transition artifact expected uid gid reason now row
        (hasher.read_request row.request_json)

  reserve_read-Transition :
      (artifact request_json : Text) (o : Option RequestFields)
      → Transition s (reserve_read hasher s artifact request_json o).0
  unfolding reserve_read
  reserve_read-Transition artifact request_json none = stays refl
  reserve_read-Transition artifact request_json (some fields) =
      elim (Bool-cases (
        any (is_recovery artifact (hasher.digest request_json)) s.reviews.recoveries
        || any (λ row. same_text row.artifact_digest artifact) s.reviews.attempts)) [
          | inl e ↦ rw (e, reserve_read) (stays refl)
          | inr e ↦
              rw (e, reserve_read)
                (answered-Transition s true _ (
                  record_transition-Transition s artifact _ _ _ _ (add_attempt _)
                    (attempt-IsReview _)))
        ]

  pub validate-Transition : (c : ValidationCall) → Transition s (validate hasher s c)
  unfolding validate
  validate-Transition (fails artifact wire elapsed_ms) = fail-Transition artifact wire elapsed_ms
  validate-Transition (recovers artifact expected uid gid reason now) =
      unfold recover_manual_validation in
      if-Transition s _ _ _ (stays refl) (
        recover_found-Transition artifact expected uid gid reason now
          (attempt_of artifact s.reviews.attempts))
  validate-Transition (reserves artifact request_json) =
      unfold reserve_manual_validation in
      if-Transition s _ _ _ (stays refl)
        (reserve_read-Transition artifact request_json (hasher.read_request request_json))
  validate-Transition (completes artifact completed_at receipt request_json elapsed_ms) =
      unfold complete_manual_validation in
      if-Transition s _ _ _ (stays refl) (
        record_transition-Transition s artifact _ _ _ _ (add_receipt artifact request_json receipt)
          (receipt-IsReview artifact request_json receipt))
