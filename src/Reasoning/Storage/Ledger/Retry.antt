-- ===== src/Reasoning/Storage/Ledger/Retry.antt =====
-- src/reasoning/storage.rs: a reservation or a reconciliation that is called again.
use ai_sre.Prelude.{
  ℕ, ◌≡◌, refl, sym, ap, ◌∙◌, subst, Option, none, some, List, [], ◌∷◌, ◌++◌, Result, ok, err, Text,
  same_text_refl, arith,
}
use ai_sre.Prelude.Map
use ai_sre.Prelude.Map.{Map, get-insert}
use ai_sre.Reasoning.Storage.{CommitEnd, commits, rolls_back, ambiguous, JournalStoreError}
use ai_sre.Reasoning.Storage.Ledger.{
  ReservationRow, CostTables, charge_ledger, charge_scopes, settle, finish, clamp_i64,
  reserved_tables, reserve_cost,
}

charge_scopes-reservations :
    (id : Text) (amount : ℕ) (scopes : List (Text × ℕ)) (t t' : CostTables)
    → charge_scopes id amount scopes t ≡ ok t'
    → t'.reservations ≡ t.reservations
unfolding charge_scopes
charge_scopes-reservations id amount [] t t' e =
    let same : t ≡ t' = cc in ap (λ u. u.reservations) (sym same)
charge_scopes-reservations id amount ((scope, ceiling) ∷ rest) t t' e =
    charge_scopes-reservations id amount rest
      (record t {
        ledgers = charge_ledger t.ledgers scope ceiling amount;
        scopes = t.scopes ++ (id, scope) ∷ [];
      })
      t' (ground arith)

-- the row of a reservation is there behind it
abbrev HasRow : CostTables → Text → Type 0
HasRow t id = (row : ReservationRow) × (Map.get t.reservations id ≡ some row)

reserved_tables-HasRow :
    (s : CostTables) (id : Text) (amount : ℕ) (scopes : List (Text × ℕ)) (created : ℕ)
    (t : CostTables)
    → reserved_tables s id amount scopes created ≡ ok t
    → HasRow t id
unfolding reserved_tables
reserved_tables-HasRow s id amount scopes created t e =
    let row : ReservationRow = record {
      amount_micro_usd = amount;
      actual_micro_usd = none;
      created_at_ms = clamp_i64 created;
    } in
    let inserted : CostTables = record s { reservations = Map.insert s.reservations id row } in
    let kept = charge_scopes-reservations id amount scopes inserted t (ground arith) in
    let found : Map.get (Map.insert s.reservations id row) id ≡ some row =
      get-insert s.reservations id row id ∙ rw (same_text_refl id) refl in
    (row, ap (λ r. Map.get r id) kept ∙ found)

finish-HasRow :
    {A : Type 0} (s t : CostTables) (a : A) (id : Text) (o : List CommitEnd)
    → HasRow t id
    → (finish s t a o).1 ≡ ok a
    → HasRow (finish s t a o).0 id
unfolding finish
finish-HasRow s t a id [] h e = h
finish-HasRow s t a id (commits ∷ later) h e = h
finish-HasRow s t a id (rolls_back ∷ later) h e = absurd (cc)
finish-HasRow s t a id (ambiguous ∷ later) h e = absurd (cc)

settle-HasRow :
    {A : Type 0} (s : CostTables) (r : Result JournalStoreError CostTables) (a : A) (id : Text)
    → ((t : CostTables) → r ≡ ok t → HasRow t id)
    → (settle s r a).1 ≡ ok a
    → HasRow (settle s r a).0 id
unfolding settle
settle-HasRow s (err x) a id h e = absurd (cc)
settle-HasRow s (ok t) a id h e = finish-HasRow s t a id s.outcomes (h t refl) e

reserved-HasRow :
    (s : CostTables) (id : Text) (amount : ℕ) (scopes : List (Text × ℕ)) (created : ℕ)
    (found : Option ReservationRow)
    → Map.get s.reservations id ≡ found
    → (reserve_cost s id amount scopes created).1 ≡ ok tt
    → HasRow (reserve_cost s id amount scopes created).0 id
unfolding reserve_cost
reserved-HasRow s id amount scopes created (some row) h e = rw (h, reserve_cost) (row, h)
reserved-HasRow s id amount scopes created none h e =
    let settled : reserve_cost s id amount scopes created
        ≡ settle s (reserved_tables s id amount scopes created) tt =
      rw (h, reserve_cost) refl in
    subst (λ o. HasRow o.0 id) (sym settled)
      (settle-HasRow s (reserved_tables s id amount scopes created) tt id
        (λ t done. reserved_tables-HasRow s id amount scopes created t done)
        (ap (λ o. o.1) (sym settled) ∙ e))

present :
    (t : CostTables) (id : Text) (amount : ℕ) (scopes : List (Text × ℕ)) (created : ℕ)
    (row : ReservationRow)
    → Map.get t.reservations id ≡ some row
    → reserve_cost t id amount scopes created ≡ (t, ok tt)
unfolding reserve_cost
present t id amount scopes created row h = rw (h, reserve_cost) refl

-- A reservation that succeeded is not charged again under the same identity, whatever the amount
-- and the scopes of the second call.
pub reserve_cost_once :
    (s : CostTables) (id : Text) (amount again : ℕ) (scopes others : List (Text × ℕ))
    (created later : ℕ)
    → (reserve_cost s id amount scopes created).1 ≡ ok tt
    → let t = (reserve_cost s id amount scopes created).0 in
      reserve_cost t id again others later ≡ (t, ok tt)
reserve_cost_once s id amount again scopes others created later e =
    let (row, found) =
      reserved-HasRow s id amount scopes created (Map.get s.reservations id) refl e in
    present (reserve_cost s id amount scopes created).0 id again others later row found
