-- ===== src/Reasoning/Storage/Durable.antt =====
-- src/reasoning/storage.rs: about the journal in memory and in the database.
use ai_sre.Prelude.{
  ℕ, ◌≡◌, refl, sym, ap, ◌∙◌, Bool, true, false, Option, none, some, List, [], ◌∷◌, ◌++◌, ok, inl,
  inr, leb, Bool-cases, arith, subst, All, Text, same_text_refl,
}
use ai_sre.Prelude.Map
use ai_sre.Reasoning.Storage.Committed.{
  Exact, IsDurable, same-IsDurable, outcomes-Exact, append_events-Goes,
}
use ai_sre.Reasoning.Storage.Untouched.{
  no_change-KeepsJournal, message-KeepsJournal, report-KeepsJournal, review-KeepsJournal,
  marker-KeepsJournal, deployment-KeepsJournal,
}
use ai_sre.Reasoning.Journal.{
  JournalEvent, JournalContext, JournalEntry, DeploymentQualificationReason,
  deployment_qualification,
}
use ai_sre.Gitops.Receipt.{ReceiptWire}
use ai_sre.Reasoning.Storage.Deployments.{Codec, record_deployment, add_deployment}
use ai_sre.Reasoning.Storage.Deployments.Cases.{fact_event, record_deployment-Counts}
use ai_sre.Reasoning.Storage.Appends.{
  committed, rolled_back, unreported, append_events_cases, IsCertain,
}
use ai_sre.Reasoning.Storage.Rows.{Reads, Numbered, replay-Numbered}
use ai_sre.Reasoning.Storage.Validations.{Hasher}
use ai_sre.Reasoning.Storage.Validations.Steps.{
  ValidationCall, validate, validate-Transition, stays, moves, is_validation,
}
use ai_sre.Reasoning.Storage.{
  JournalStore, EventCodec, CommitEnd, commits, rolls_back, ambiguous, i64_max, OutboxMessage,
  StoredReport, add_rows, add_message, add_report, append_scoped, append_with_outbox_scoped,
  append_with_outbox_and_report, append_checkpoint_scoped, mark_outbox_delivered, transact, reopen,
  marker_key, add_marker, checkpoint,
}

-- one call of the store's owner
pub data Call : Type 0 where
  appends : JournalEvent → Option JournalContext → Call
  with_outbox : List JournalEvent → Option OutboxMessage → Option JournalContext → Call
  with_report : List JournalEvent → Option OutboxMessage → StoredReport → Call
  checkpoints : Text → List JournalEvent → Option JournalContext → Call
  delivers : Text → ℕ → Call
  deploys : Codec → ReceiptWire → ℕ → Call
  validates : Hasher → ValidationCall → Call

unfoldable pub step : JournalStore → Call → JournalStore
step s (appends e c) = (append_scoped s e c).0
step s (with_outbox es m c) = (append_with_outbox_scoped s es m c).0
step s (with_report es m r) = (append_with_outbox_and_report s es m r).0
step s (checkpoints k es c) = (append_checkpoint_scoped s k es c).0
step s (delivers d t) = (mark_outbox_delivered s d t).0
step s (deploys codec wire now) = (record_deployment codec s wire now).0
step s (validates hasher c) = validate hasher s c

-- The events that the call may append are read back from their JSON.
abbrev pub ReadsCall : EventCodec → Call → Type 0
ReadsCall codec (appends e _) = Reads codec e
ReadsCall codec (with_outbox es _ _) = All (Reads codec) es
ReadsCall codec (with_report es _ _) = All (Reads codec) es
ReadsCall codec (checkpoints _ es _) = All (Reads codec) es
ReadsCall codec (delivers _ _) = Unit
ReadsCall codec (deploys _ _ _) =
    (id digest : Text) (accepted : Bool) (reason : Option DeploymentQualificationReason) (at : ℕ)
    → Reads codec (deployment_qualification id digest accepted reason at)
ReadsCall codec (validates _ _) = (e : JournalEvent) → is_validation e ≡ true → Reads codec e

delivered_outcomes-IsCertain :
    (s : JournalStore) (d : Text) (at_ms : ℕ) (o : List CommitEnd)
    → s.outcomes ≡ o
    → leb at_ms i64_max ≡ true
    → All IsCertain o
    → All IsCertain (mark_outbox_delivered s d at_ms).0.outcomes
unfolding mark_outbox_delivered
delivered_outcomes-IsCertain s d at_ms [] e k h = ground (arith, e, k)
delivered_outcomes-IsCertain s d at_ms (commits ∷ later) e k h = ground (arith, e, k, h.1)
delivered_outcomes-IsCertain s d at_ms (rolls_back ∷ later) e k h = ground (arith, e, k, h.1)
delivered_outcomes-IsCertain s d at_ms (ambiguous ∷ later) e k h = absurd h.0

mark_outbox_delivered-IsCertain :
    (s : JournalStore) (d : Text) (at_ms : ℕ)
    → All IsCertain s.outcomes
    → All IsCertain (mark_outbox_delivered s d at_ms).0.outcomes
unfolding mark_outbox_delivered
mark_outbox_delivered-IsCertain s d at_ms h = elim (Bool-cases (leb at_ms i64_max)) [
  | inl e ↦ delivered_outcomes-IsCertain s d at_ms s.outcomes refl e h
  | inr e ↦ rw (e, mark_outbox_delivered) h
]

mark_outbox_delivered-kept :
    (s : JournalStore) (d : Text) (at_ms : ℕ)
    → let t = (mark_outbox_delivered s d at_ms).0 in
      (t.journal ≡ s.journal) × (t.rows ≡ s.rows) × (t.codec ≡ s.codec)
unfolding mark_outbox_delivered transact
mark_outbox_delivered-kept s d at_ms = ground arith

delivered-Goes :
    (certain : Bool) (s : JournalStore) (d : Text) (at_ms : ℕ)
    → IsDurable certain s
    → IsDurable certain (mark_outbox_delivered s d at_ms).0
      × ((mark_outbox_delivered s d at_ms).0.codec ≡ s.codec)
delivered-Goes certain s d at_ms h =
    let (j, r, c) = mark_outbox_delivered-kept s d at_ms in
    (
      same-IsDurable certain s _ j r c h.more h.replayed (
          outcomes-Exact certain h.more s.outcomes _ h.exact
            (mark_outbox_delivered-IsCertain s d at_ms)),
      c,
    )

checkpoint-Goes :
    (certain : Bool) (s : JournalStore) (k : Text) (es : List JournalEvent)
    (c : Option JournalContext) (found : Option Text)
    → All (Reads s.codec) es
    → IsDurable certain s
    → IsDurable certain (checkpoint s k es c found).0
      × ((checkpoint s k es c found).0.codec ≡ s.codec)
unfolding checkpoint
checkpoint-Goes certain s k es c (some _) reads h = (h, refl)
checkpoint-Goes certain s k es c none reads h =
    append_events-Goes s es c (add_marker k) (marker-KeepsJournal k) certain reads h

step-Goes :
    (certain : Bool) (s : JournalStore) (c : Call)
    → ReadsCall s.codec c
    → IsDurable certain s
    → IsDurable certain (step s c) × ((step s c).codec ≡ s.codec)
unfolding step
step-Goes certain s (appends e c) reads h =
    unfold append_scoped in
    append_events-Goes s (e ∷ []) c (λ t. t) no_change-KeepsJournal certain (reads, tt) h
step-Goes certain s (with_outbox es m c) reads h =
    unfold append_with_outbox_scoped in
    append_events-Goes s es c (add_message m) (message-KeepsJournal m) certain reads h
step-Goes certain s (with_report es m r) reads h =
    unfold append_with_outbox_and_report in
    append_events-Goes s es none (add_report m r) (report-KeepsJournal m r) certain reads h
step-Goes certain s (checkpoints k es c) reads h =
    unfold append_checkpoint_scoped in
    checkpoint-Goes certain s k es c (Map.get s.markers (marker_key k)) reads h
step-Goes certain s (validates hasher c) reads h = elim (validate-Transition hasher s c) [
  | stays eq ↦ rw eq (h, refl)
  | moves event scope change is review eq ↦ rw eq (
      append_events-Goes s (event ∷ []) scope change (review-KeepsJournal change review) certain
        (reads event is, tt) h)
]
step-Goes certain s (deploys codec wire now) reads h =
    elim (record_deployment-Counts codec s wire now) [
      | inl eq ↦ rw eq (h, refl)
      | inr (accepted, reason, eq) ↦ rw eq (
          append_events-Goes s (fact_event codec s wire now accepted reason ∷ []) none
            (add_deployment codec wire accepted) (deployment-KeepsJournal codec wire accepted)
            certain (reads _ _ _ _ _, tt) h)
    ]
step-Goes certain s (delivers d t) reads h = delivered-Goes certain s d t h

unfoldable pub run : JournalStore → List Call → JournalStore
run s [] = s
run s (c ∷ cs) = run (step s c) cs

-- a restart reads back the journal in memory and what memory lacks, numbered from zero
pub record IsReopened (certain : Bool) (s : JournalStore) : Type 0 where
  pub lacking : List JournalEntry
  pub numbered : Numbered 0 (s.journal ++ lacking)
  pub reopened : reopen s ≡ ok (record s { journal = s.journal ++ lacking })
  pub nothing : Exact certain lacking s.outcomes

durable-IsReopened :
    (certain : Bool) (s : JournalStore) → IsDurable certain s → IsReopened certain s
unfolding reopen
durable-IsReopened certain s h = record {
  lacking = h.more;
  numbered = (replay-Numbered s.codec 0 s.rows (s.journal ++ h.more) h.replayed).0;
  reopened = rw (h.replayed, reopen) refl;
  nothing = h.exact;
}

-- Whatever is called on a store whose rows read back as the journal in memory, with the ends of the
-- transactions taken as they come, and with an encoding that reads back the events of these calls: a
-- restart succeeds, and reads the journal in memory and behind it what memory lacks, numbered from
-- zero without a gap. Where no transaction reports an error for changes that are kept, memory lacks
-- nothing, so the reopened store is the same store.
pub run-reopen :
    (certain : Bool) (s : JournalStore) (cs : List Call)
    → All (ReadsCall s.codec) cs
    → IsDurable certain s
    → IsReopened certain (run s cs)
unfolding run
run-reopen certain s [] reads h = durable-IsReopened certain s h
run-reopen certain s (c ∷ cs) reads h =
    let (durable, same) = step-Goes certain s c reads.0 h in
    run-reopen certain (step s c) cs (subst (λ codec. All (ReadsCall codec) cs) (sym same) reads.1)
      durable

marker_of_new :
    (s : JournalStore) (k : Text) (es : List JournalEvent) (c : Option JournalContext)
    → (checkpoint s k es c none).1 ≡ ok true
    → Map.get (checkpoint s k es c none).0.markers (marker_key k) ≡ some k
unfolding checkpoint
marker_of_new s k es c h = elim (append_events_cases s es c (add_marker k)) [
  | committed later fit free eq _ ↦
      ap (λ (t : JournalStore). Map.get t.markers (marker_key k)) eq
      ∙ unfold add_marker add_rows in simp (Map.get-insert, same_text_refl)
  | rolled_back later eq failed ↦ absurd (ground arith)
  | unreported later fit free eq failed ↦ absurd (ground arith)
]

found_again :
    (s : JournalStore) (k : Text) (es es' : List JournalEvent) (c c' : Option JournalContext)
    (found : Option Text)
    → (checkpoint s k es c found).1 ≡ ok true
    → let t = (checkpoint s k es c found).0 in
      checkpoint t k es' c' (Map.get t.markers (marker_key k)) ≡ (t, ok false)
found_again s k es es' c c' (some v) h = absurd (unfold checkpoint in cc)
found_again s k es es' c c' none h = rw (marker_of_new s k es c h) (unfold checkpoint in refl)

-- A checkpoint that was appended is not appended again: the second call finds its marker, reports
-- that it is not new, and changes nothing.
pub checkpoint_once :
    (s : JournalStore) (k : Text) (es es' : List JournalEvent) (c c' : Option JournalContext)
    → (append_checkpoint_scoped s k es c).1 ≡ ok true
    → let t = (append_checkpoint_scoped s k es c).0 in
      append_checkpoint_scoped t k es' c' ≡ (t, ok false)
checkpoint_once s k es es' c c' h =
    unfold append_checkpoint_scoped in
    found_again s k es es' c c' (Map.get s.markers (marker_key k)) h
