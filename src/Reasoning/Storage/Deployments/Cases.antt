-- ===== src/Reasoning/Storage/Deployments/Cases.antt =====
-- src/reasoning/storage/gitops.rs: about how `record_deployment` ends.
use ai_sre.Prelude.{
  ℕ, ◌≡◌, subst, sym, refl, inl, inr, ◌⊎◌, if◌then◌else◌, Bool, true, false, not, ◌||◌, Option,
  none, some, List, [], ◌∷◌, ◌++◌, Result, ok, err, length, ltb, ◌==◌, Bool-cases, same_text,
}
use ai_sre.Gitops.Receipt.{ReceiptWire, validate_shape}
use ai_sre.Reasoning.Journal.{JournalEvent, DeploymentQualificationReason, deployment_qualification}
use ai_sre.Reasoning.Storage.{
  JournalStore, JournalStoreError, CommitEnd, add_rows, append_events, entries_from, is_taken,
  i64_max, sequences_fit,
}
use ai_sre.Reasoning.Storage.Appends.{AppendCase, committed, rolled_back, append_events_cases}
use ai_sre.Reasoning.Storage.Appends
use ai_sre.Reasoning.Storage.Deployments.{
  Codec, wire_digest, is_ok, is_eligible, append_counted, row_of, add_deployment, insert_deployment,
  replied, is_recorded, last_fact, contradict, record_behind, record_deployment,
}
use ai_sre.Reasoning.Storage.Tables.{DeploymentRow}

module _ (codec : Codec) (s : JournalStore) (wire : ReceiptWire) (now : ℕ) where
  abbrev pub fact_event : Bool → DeploymentQualificationReason → JournalEvent
  fact_event accepted reason =
      deployment_qualification wire.deployment_id (wire_digest codec wire) accepted (some reason)
        now

  -- no row yet, or an eligible one of another receipt
  abbrev pub Opens : Bool → Option DeploymentRow → Type 0
  Opens accepted none = accepted ≡ is_eligible wire now
  Opens accepted (some row) =
      (accepted ≡ false)
      × (row.eligible ≡ true)
      × (same_text row.receipt_digest (wire_digest codec wire) ≡ false)

  -- the database with the fact and the rows of the receipt
  abbrev pub recorded_store : Bool → DeploymentQualificationReason → JournalStore
  recorded_store accepted reason =
      add_deployment codec wire accepted (add_rows none (fact_event accepted reason ∷ []) s)

  -- How a call ends: with the store as it was, with the fact and the rows of the receipt, with those
  -- of the database alone, or with a transaction that is rolled back.
  pub data RecordCase (t : JournalStore) (r : Result JournalStoreError Bool) : Type 0 where
    unchanged : t ≡ s → RecordCase t r
    inserted :
        (accepted : Bool) (reason : DeploymentQualificationReason) (later : List CommitEnd)
        → Opens accepted (row_of wire.deployment_id s.reviews.deployments)
        → sequences_fit (length s.journal) (fact_event accepted reason ∷ []) ≡ true
        → is_taken s.rows (length s.journal) (fact_event accepted reason ∷ []) ≡ false
        → t ≡ record (recorded_store accepted reason) {
          journal =
              (recorded_store accepted reason).journal
              ++ entries_from (length s.journal) none (fact_event accepted reason ∷ []);
          outcomes = later;
        }
        → r ≡ ok accepted
        → RecordCase t r
    unreported :
        (accepted : Bool) (reason : DeploymentQualificationReason) (later : List CommitEnd)
        → Opens accepted (row_of wire.deployment_id s.reviews.deployments)
        → sequences_fit (length s.journal) (fact_event accepted reason ∷ []) ≡ true
        → is_taken s.rows (length s.journal) (fact_event accepted reason ∷ []) ≡ false
        → t ≡ record (recorded_store accepted reason) { outcomes = later }
        → ((e : JournalStoreError) × (r ≡ err e))
        → RecordCase t r
    undone : (later : List CommitEnd) → t ≡ record s { outcomes = later } → RecordCase t r

  replied_cases :
      (accepted : Bool) (reason : DeploymentQualificationReason)
      (p : JournalStore × Result JournalStoreError (Unit {0}))
      → Opens accepted (row_of wire.deployment_id s.reviews.deployments)
      → AppendCase s
          (fact_event accepted reason ∷ [])
          none
          (add_deployment codec wire accepted)
          p.0
          p.1
      → RecordCase (replied accepted p).0 (replied accepted p).1
  replied_cases accepted reason (t, ok _) o (committed later fit free eq _) =
      inserted accepted reason later o fit free eq refl
  replied_cases accepted reason (t, ok _) o (rolled_back later eq e) = absurd (cc e)
  replied_cases accepted reason (t, ok _) o (Appends.unreported later fit free eq e) = absurd (cc e)
  replied_cases accepted reason (t, err e) o (committed later fit free eq f) = absurd (cc f)
  replied_cases accepted reason (t, err e) o (rolled_back later eq _) = undone later eq
  replied_cases accepted reason (t, err e) o (Appends.unreported later fit free eq _) =
      unreported accepted reason later o fit free eq (e, refl)

  insert_cases :
      (accepted : Bool) (reason : DeploymentQualificationReason)
      → Opens accepted (row_of wire.deployment_id s.reviews.deployments)
      → RecordCase
          (insert_deployment codec s wire now accepted reason).0
          (insert_deployment codec s wire now accepted reason).1
  unfolding insert_deployment
  insert_cases accepted reason o =
      elim (Bool-cases
        (ltb i64_max (length s.journal) || not (length s.rows == length s.journal))) [
          | inl e ↦ rw (e, append_counted) (unchanged refl)
          | inr e ↦
              rw (e, append_counted)
                (replied_cases accepted reason _ o (
                  append_events_cases s (fact_event accepted reason ∷ []) none
                    (add_deployment codec wire accepted)))
        ]

  contradict_cases :
      (row : DeploymentRow)
      → row_of wire.deployment_id s.reviews.deployments ≡ some row
      → row.eligible ≡ true
      → RecordCase (contradict codec s wire now row).0 (contradict codec s wire now row).1
  unfolding contradict
  contradict_cases row found e =
      elim (Bool-cases (is_recorded row.receipt_digest (last_fact wire.deployment_id s.journal))) [
        | inr f ↦ rw (f, contradict) (unchanged refl)
        | inl f ↦ elim (Bool-cases (same_text row.receipt_digest (wire_digest codec wire))) [
          | inl g ↦ rw (f, g, contradict) (unchanged refl)
          | inr g ↦
              rw (f, g, contradict)
                (insert_cases false _ (subst (Opens false) (sym found) (refl, e, g)))
        ]
      ]

  record_behind_cases :
      (o : Option DeploymentRow)
      → row_of wire.deployment_id s.reviews.deployments ≡ o
      → RecordCase (record_behind codec s wire now o).0 (record_behind codec s wire now o).1
  unfolding record_behind
  record_behind_cases none found =
      insert_cases (is_eligible wire now) _ (subst (Opens (is_eligible wire now)) (sym found) refl)
  record_behind_cases (some row) found = elim (Bool-cases row.eligible) [
    | inl e ↦ rw (e, record_behind) (contradict_cases row found e)
    | inr e ↦ rw (e, record_behind) (unchanged refl)
  ]

  pub record_deployment_cases :
      RecordCase (record_deployment codec s wire now).0 (record_deployment codec s wire now).1
  unfolding record_deployment
  record_deployment_cases = elim (Bool-cases (is_ok (validate_shape wire))) [
    | inl e ↦
        rw (e, record_deployment)
          (record_behind_cases (row_of wire.deployment_id s.reviews.deployments) refl)
    | inr e ↦ rw (e, record_deployment) (unchanged refl)
  ]

-- A call leaves the store as it was, or is an append of a fact with the rows of the receipt.
abbrev pub Counts : Codec → JournalStore → ReceiptWire → ℕ → JournalStore → Type 0
Counts codec s wire now t =
    (t ≡ s)
    ⊎ ((accepted : Bool) × (reason : DeploymentQualificationReason) × (t
          ≡ (append_events s (fact_event codec s wire now accepted reason ∷ []) none
              (add_deployment codec wire accepted)).0))

module _ (codec : Codec) (s : JournalStore) (wire : ReceiptWire) (now : ℕ) where
  if-Counts :
      {A : Type 0} (b : Bool) (p q : JournalStore × A)
      → Counts codec s wire now p.0
      → Counts codec s wire now q.0
      → Counts codec s wire now (if b then p else q).0
  if-Counts true p q h k = h
  if-Counts false p q h k = k

  replied-Counts :
      (a : Bool) (p : JournalStore × Result JournalStoreError (Unit {0}))
      → Counts codec s wire now p.0
      → Counts codec s wire now (replied a p).0
  replied-Counts a (t, ok _) h = h
  replied-Counts a (t, err e) h = h

  insert-Counts :
      (accepted : Bool) (reason : DeploymentQualificationReason)
      → Counts codec s wire now (insert_deployment codec s wire now accepted reason).0
  unfolding insert_deployment append_counted
  insert-Counts accepted reason =
      replied-Counts accepted _ (if-Counts _ _ _ (inl refl) (inr (accepted, reason, refl)))

  contradict-Counts :
      (row : DeploymentRow) → Counts codec s wire now (contradict codec s wire now row).0
  unfolding contradict
  contradict-Counts row =
      elim (Bool-cases (is_recorded row.receipt_digest (last_fact wire.deployment_id s.journal))) [
        | inr f ↦ rw (f, contradict) (inl refl)
        | inl f ↦ elim (Bool-cases (same_text row.receipt_digest (wire_digest codec wire))) [
          | inl g ↦ rw (f, g, contradict) (inl refl)
          | inr g ↦ rw (f, g, contradict) (insert-Counts false _)
        ]
      ]

  behind-Counts :
      (o : Option DeploymentRow) → Counts codec s wire now (record_behind codec s wire now o).0
  unfolding record_behind
  behind-Counts none = insert-Counts (is_eligible wire now) _
  behind-Counts (some row) = elim (Bool-cases row.eligible) [
    | inl e ↦ rw (e, record_behind) (contradict-Counts row)
    | inr e ↦ rw (e, record_behind) (inl refl)
  ]

  pub record_deployment-Counts : Counts codec s wire now (record_deployment codec s wire now).0
  unfolding record_deployment
  record_deployment-Counts = elim (Bool-cases (is_ok (validate_shape wire))) [
    | inl e ↦
        rw (e, record_deployment) (behind-Counts (row_of wire.deployment_id s.reviews.deployments))
    | inr e ↦ rw (e, record_deployment) (inl refl)
  ]
