-- ===== src/Reasoning/Storage/Untouched.antt =====
-- src/reasoning/storage.rs: about the changes of a transaction that leave the journal alone.
use ai_sre.Prelude.{◌≡◌, refl, Bool, Option, none, some, Text}
use ai_sre.Gitops.Receipt.{ReceiptWire}
use ai_sre.Reasoning.Storage.Deployments.{Codec, add_deployment}
use ai_sre.Reasoning.Storage.Validations.Steps.{IsReview}
use ai_sre.Reasoning.Storage.{
  JournalStore, OutboxMessage, StoredReport, add_message, add_report, add_marker,
}

-- the change leaves the journal, its encoding and the coming ends alone
pub record KeepsJournal (change : JournalStore → JournalStore) : Type 0 where
  pub journal_kept : (u : JournalStore) → (change u).journal ≡ u.journal
  pub rows_kept : (u : JournalStore) → (change u).rows ≡ u.rows
  pub codec_kept : (u : JournalStore) → (change u).codec ≡ u.codec
  pub outcomes_kept : (u : JournalStore) → (change u).outcomes ≡ u.outcomes

pub no_change-KeepsJournal : KeepsJournal (λ u. u)
no_change-KeepsJournal = record {
  journal_kept = λ u. refl;
  rows_kept = λ u. refl;
  codec_kept = λ u. refl;
  outcomes_kept = λ u. refl;
}

pub message-KeepsJournal : (m : Option OutboxMessage) → KeepsJournal (add_message m)
unfolding add_message
message-KeepsJournal none = no_change-KeepsJournal
message-KeepsJournal (some m) = record {
  journal_kept = λ u. refl;
  rows_kept = λ u. refl;
  codec_kept = λ u. refl;
  outcomes_kept = λ u. refl;
}

pub report-KeepsJournal :
    (m : Option OutboxMessage) (r : StoredReport) → KeepsJournal (add_report m r)
unfolding add_report
report-KeepsJournal m r =
    let k = message-KeepsJournal m in
    record {
      journal_kept = k.journal_kept;
      rows_kept = k.rows_kept;
      codec_kept = k.codec_kept;
      outcomes_kept = k.outcomes_kept;
    }

pub review-KeepsJournal :
    (change : JournalStore → JournalStore) → IsReview change → KeepsJournal change
review-KeepsJournal change review = record {
  journal_kept = review.journal_kept;
  rows_kept = review.rows_kept;
  codec_kept = review.codec_kept;
  outcomes_kept = review.outcomes_kept;
}

pub marker-KeepsJournal : (k : Text) → KeepsJournal (add_marker k)
unfolding add_marker
marker-KeepsJournal k = record {
  journal_kept = λ u. refl;
  rows_kept = λ u. refl;
  codec_kept = λ u. refl;
  outcomes_kept = λ u. refl;
}

pub deployment-KeepsJournal :
    (codec : Codec) (wire : ReceiptWire) (accepted : Bool)
    → KeepsJournal (add_deployment codec wire accepted)
unfolding add_deployment
deployment-KeepsJournal codec wire accepted = record {
  journal_kept = λ u. refl;
  rows_kept = λ u. refl;
  codec_kept = λ u. refl;
  outcomes_kept = λ u. refl;
}
