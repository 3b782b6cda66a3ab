-- ===== src/Reasoning/Storage/Kept.antt =====
-- src/reasoning/storage.rs: about what every call keeps of the tables of deployments and validations.
use ai_sre.Prelude.{ℕ, ◌≡◌, sym, subst, Option, none, some, List, [], ◌∷◌, Text, arith}
use ai_sre.Prelude.Map
use ai_sre.Gitops.Receipt.{ReceiptWire}
use ai_sre.Reasoning.Journal.{JournalEvent, JournalContext}
use ai_sre.Reasoning.Storage.{
  JournalStore, OutboxMessage, StoredReport, append_events, append_scoped,
  append_with_outbox_scoped, append_with_outbox_and_report, append_checkpoint_scoped, checkpoint,
  marker_key, add_marker, add_message, add_report, add_rows, mark_outbox_delivered,
}
use ai_sre.Reasoning.Storage.Appends.{committed, rolled_back, unreported, append_events_cases}
use ai_sre.Reasoning.Storage.Deployments.{Codec, record_deployment}
use ai_sre.Reasoning.Storage.Durable.{
  Call, appends, with_outbox, with_report, checkpoints, delivers, deploys, validates, step, run,
}
use ai_sre.Reasoning.Storage.Tables.{Reviews}
use ai_sre.Reasoning.Storage.Validations.Steps.{IsReview, stays, moves, validate-Transition}

module _ (P : Reviews → Type 0) where
  abbrev Keeps : (JournalStore → JournalStore) → Type 0
  Keeps change = (u : JournalStore) → P u.reviews → P (change u).reviews

  added-Keeps :
      (context : Option JournalContext) (events : List JournalEvent)
      → Keeps (add_rows context events)
  unfolding add_rows
  added-Keeps context events u h = h

  append-Keeps :
      (events : List JournalEvent) (context : Option JournalContext)
      (change : JournalStore → JournalStore)
      → Keeps change
      → Keeps (λ s. (append_events s events context change).0)
  append-Keeps events context change keeps s h =
      elim (append_events_cases s events context change) [
        | committed later fit free eq _ ↦
            subst (λ (t : JournalStore). P t.reviews) (sym eq)
              (keeps (add_rows context events s) (added-Keeps context events s h))
        | unreported later fit free eq _ ↦
            subst (λ (t : JournalStore). P t.reviews) (sym eq)
              (keeps (add_rows context events s) (added-Keeps context events s h))
        | rolled_back later eq _ ↦ subst (λ (t : JournalStore). P t.reviews) (sym eq) h
      ]

  message-Keeps : (m : Option OutboxMessage) → Keeps (add_message m)
  unfolding add_message
  message-Keeps none u h = h
  message-Keeps (some m) u h = h

  report-Keeps : (m : Option OutboxMessage) (r : StoredReport) → Keeps (add_report m r)
  unfolding add_report
  report-Keeps none r u h = h
  report-Keeps (some m) r u h = h

  marker-Keeps : (k : Text) → Keeps (add_marker k)
  unfolding add_marker
  marker-Keeps k u h = h

  checkpoint-Keeps :
      (s : JournalStore) (k : Text) (es : List JournalEvent) (c : Option JournalContext)
      (found : Option Text)
      → P s.reviews
      → P (checkpoint s k es c found).0.reviews
  unfolding checkpoint
  checkpoint-Keeps s k es c (some _) h = h
  checkpoint-Keeps s k es c none h = append-Keeps es c (add_marker k) (marker-Keeps k) s h

  deliver-reviews :
      (s : JournalStore) (d : Text) (t : ℕ) → (mark_outbox_delivered s d t).0.reviews ≡ s.reviews
  unfolding mark_outbox_delivered
  deliver-reviews s d t = ground arith

  module _
      (deployed : (codec : Codec) (s : JournalStore) (wire : ReceiptWire) (now : ℕ)
        → P s.reviews
        → P (record_deployment codec s wire now).0.reviews)
      (reviewed : (change : JournalStore → JournalStore) → IsReview change → Keeps change) where
    step_keeps : (s : JournalStore) (c : Call) → P s.reviews → P (step s c).reviews
    unfolding step
    step_keeps s (appends e c) h =
        unfold append_scoped in append-Keeps (e ∷ []) c (λ u. u) (λ u k. k) s h
    step_keeps s (with_outbox es m c) h =
        unfold append_with_outbox_scoped in append-Keeps es c (add_message m) (message-Keeps m) s h
    step_keeps s (with_report es m r) h =
        unfold append_with_outbox_and_report in
        append-Keeps es none (add_report m r) (report-Keeps m r) s h
    step_keeps s (checkpoints k es c) h =
        unfold append_checkpoint_scoped in
        checkpoint-Keeps s k es c (Map.get s.markers (marker_key k)) h
    step_keeps s (delivers d t) h = subst P (sym (deliver-reviews s d t)) h
    step_keeps s (deploys codec wire now) h = deployed codec s wire now h
    step_keeps s (validates hasher c) h = elim (validate-Transition hasher s c) [
      | stays eq ↦ subst (λ (t : JournalStore). P t.reviews) (sym eq) h
      | moves event scope change fact review eq ↦
          subst (λ (t : JournalStore). P t.reviews) (sym eq)
            (append-Keeps (event ∷ []) scope change (reviewed change review) s h)
    ]

    -- what every call keeps holds after any sequence of calls
    pub run_keeps : (s : JournalStore) (cs : List Call) → P s.reviews → P (run s cs).reviews
    unfolding run
    run_keeps s [] h = h
    run_keeps s (c ∷ cs) h = run_keeps (step s c) cs (step_keeps s c h)
