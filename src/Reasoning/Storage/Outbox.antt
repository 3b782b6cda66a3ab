-- ===== src/Reasoning/Storage/Outbox.antt =====
-- src/reasoning/storage.rs: about the notification outbox.
use ai_sre.Prelude.{
  ℕ, ◌≡◌, ◌≢◌, true, false, List, [], ◌∷◌, ok, Text, same_text, arith, inl, inr, Bool-cases, ap,
  ◌∙◌,
}
use ai_sre.Reasoning.Storage.{JournalStore, OutboxRow, deliver, transact, mark_outbox_delivered}

-- the rows after a first delivery hold no row that a second one could take
deliver_twice :
    (id : Text) (t t' : ℕ) (rows : List OutboxRow)
    → (deliver id t rows).1 ≡ true
    → (deliver id t' (deliver id t rows).0).1 ≡ false
unfolding deliver
deliver_twice id t t' [] h = absurd (cc)
deliver_twice id t t' (row ∷ rows) h = elim (Bool-cases (same_text row.message.delivery_id id)) [
  | inr other ↦ ground (arith, deliver_twice id t t' rows)
  | inl same ↦ ground arith
]

delivered_rows :
    (s : JournalStore) (id : Text) (t : ℕ)
    → (mark_outbox_delivered s id t).1 ≡ ok true
    → ((mark_outbox_delivered s id t).0.outbox ≡ (deliver id t s.outbox).0)
      × ((deliver id t s.outbox).1 ≡ true)
unfolding mark_outbox_delivered transact
delivered_rows s id t h = ground arith

-- A notification that was marked as delivered is not marked again, whenever that is tried.
pub mark_outbox_delivered_once :
    (s : JournalStore) (id : Text) (t later : ℕ)
    → (mark_outbox_delivered s id t).1 ≡ ok true
    → (mark_outbox_delivered (mark_outbox_delivered s id t).0 id later).1 ≢ ok true
mark_outbox_delivered_once s id t later h again =
    let (rows, marked) = delivered_rows s id t h in
    let (_, marked_again) = delivered_rows (mark_outbox_delivered s id t).0 id later again in
    let free : (deliver id later (mark_outbox_delivered s id t).0.outbox).1 ≡ false =
      ap (λ r. (deliver id later r).1) rows ∙ deliver_twice id t later s.outbox marked in
    cc
