-- ===== src/Reasoning/Storage/Ledger.antt =====
-- src/reasoning/storage.rs: durable cost reservations over the scopes of a request. The state is
-- the three tables of the budget. A sum of SQLite that leaves the range of an i64 is a REAL, which
-- stays one and from which no i64 is read.
pub mod Sums
pub mod Reservation
pub mod Balance
pub mod Retry
pub mod Ceilings
mod Examples
use ai_sre.Prelude.{
  ℕ, ◌+◌, ◌-◌, ◌≤◌, Bool, true, false, not, ◌&&◌, ◌||◌, Option, none, some, List, [], ◌∷◌, ◌++◌,
  Result, ok, err, any, leb, ltb, if◌then◌else◌, Text, same_text,
}
use ai_sre.Prelude.Int.{ℤ, pos, negsuc, ◌+ℤ◌, ◌-ℤ◌, ltb_ℤ}
use ai_sre.Prelude.Map
use ai_sre.Prelude.Map.{Map}
use ai_sre.Reasoning.Storage.{
  JournalStoreError, CommitEnd, commits, rolls_back, ambiguous, sqlite, budget_exhausted,
  reservation_not_found, i64_max,
}

-- rows of `budget_ledgers` and of `budget_reservations`, by their primary keys; where `is_real`, a
-- sum has left the integers and the database holds a REAL near `reserved_micro_usd`; that SQLite makes
-- an INTEGER again of a REAL that comes back is left out
pub record LedgerRow : Type 0 where
  pub ceiling_micro_usd : ℕ
  pub reserved_micro_usd : ℤ
  pub is_real : Bool

pub record ReservationRow : Type 0 where
  pub amount_micro_usd : ℕ
  pub actual_micro_usd : Option ℕ
  pub created_at_ms : ℕ

-- `scopes` are the rows of `budget_reservation_scopes`; `outcomes` says how SQLite ends the coming
-- transactions, as in the journal
pub record CostTables : Type 0 where
  pub ledgers : Map LedgerRow
  pub reservations : Map ReservationRow
  pub scopes : List (Text × Text)
  pub outcomes : List CommitEnd

-- `reserved.unwrap_or_default()`
unfoldable pub reserved_of : Map LedgerRow → Text → ℤ
reserved_of ledgers scope = elim (Map.get ledgers scope) [
  | some row ↦ row.reserved_micro_usd
  | none ↦ pos 0
]

-- the column holds a REAL
unfoldable pub holds_real : Map LedgerRow → Text → Bool
holds_real ledgers scope = elim (Map.get ledgers scope) [ some row ↦ row.is_real | none ↦ false ]

-- SQLite's sum of integers leaves the integers
abbrev leaves_i64 : ℤ → Bool
leaves_i64 sum = ltb_ℤ (pos i64_max) sum || ltb_ℤ sum (negsuc i64_max)

-- `saturating_add` on an `i64`
abbrev saturating_add_i64 : ℤ → ℕ → ℤ
saturating_add_i64 a n =
    let sum = a +ℤ pos n in if ltb_ℤ (pos i64_max) sum then pos i64_max else sum

-- the ceilings of all scopes, in turn
check_scopes : Map LedgerRow → ℕ → List (Text × ℕ) → Result JournalStoreError (Unit {0})
unfolding reserved_of holds_real
check_scopes ledgers amount [] = ok tt
check_scopes ledgers amount ((scope, ceiling) ∷ rest) =
    let others = check_scopes ledgers amount rest in
    if ltb i64_max ceiling || holds_real ledgers scope
    then err sqlite
    else if ltb_ℤ (pos ceiling) (saturating_add_i64 (reserved_of ledgers scope) amount)
    then err budget_exhausted
    else others

-- `INSERT … ON CONFLICT(scope) DO UPDATE SET reserved = reserved + excluded.reserved`
pub charge_ledger : Map LedgerRow → Text → ℕ → ℕ → Map LedgerRow
charge_ledger ledgers scope ceiling amount = elim (Map.get ledgers scope) [
  | some row ↦
      let sum = row.reserved_micro_usd +ℤ pos amount in
      Map.insert ledgers scope
        (record row { reserved_micro_usd = sum; is_real = row.is_real || leaves_i64 sum })
  | none ↦
      Map.insert ledgers scope
        (record { ceiling_micro_usd = ceiling; reserved_micro_usd = pos amount; is_real = false })
]

has_scope : List (Text × Text) → Text → Text → Bool
has_scope rows id scope = any (λ row. same_text row.0 id && same_text row.1 scope) rows

-- the ledger and the scope row of each scope; a scope that is named twice breaks the primary key
charge_scopes : Text → ℕ → List (Text × ℕ) → CostTables → Result JournalStoreError CostTables
unfolding charge_ledger has_scope
charge_scopes id amount [] t = ok t
charge_scopes id amount ((scope, ceiling) ∷ rest) t =
    let charged = record t {
      ledgers = charge_ledger t.ledgers scope ceiling amount;
      scopes = t.scopes ++ (id, scope) ∷ [];
    } in
    let others = charge_scopes id amount rest charged in
    if ltb i64_max ceiling || has_scope t.scopes id scope then err sqlite else others

-- the end of a transaction that went through, by the coming outcomes
finish {ℓ} :
    {A : Type ℓ}
    → CostTables
    → CostTables
    → A
    → List CommitEnd
    → CostTables × Result JournalStoreError A
finish s t a [] = (t, ok a)
finish s t a (commits ∷ later) = (record t { outcomes = later }, ok a)
finish s t a (rolls_back ∷ later) = (record s { outcomes = later }, err sqlite)
finish s t a (ambiguous ∷ later) = (record t { outcomes = later }, err sqlite)

-- an error rolls back
pub settle {ℓ} :
    {A : Type ℓ}
    → CostTables
    → Result JournalStoreError CostTables
    → A
    → CostTables × Result JournalStoreError A
unfolding finish
settle s (err e) a = (s, err e)
settle s (ok t) a = finish s t a s.outcomes

-- `i64::try_from(created_at_ms).unwrap_or(i64::MAX)`
abbrev clamp_i64 : ℕ → ℕ
clamp_i64 n = if ltb i64_max n then i64_max else n

reserved_tables : CostTables → Text → ℕ → List (Text × ℕ) → ℕ → Result JournalStoreError CostTables
unfolding check_scopes charge_scopes
reserved_tables s id amount scopes created =
    if ltb i64_max amount then err sqlite else elim (check_scopes s.ledgers amount scopes) [
      | err e ↦ err e
      | ok _ ↦ charge_scopes id amount scopes (record s {
        reservations = Map.insert s.reservations id (record {
          amount_micro_usd = amount;
          actual_micro_usd = none;
          created_at_ms = clamp_i64 created;
        });
      })
    ]

unfoldable pub reserve_cost :
    CostTables → Text → ℕ → List (Text × ℕ) → ℕ → CostTables × Result JournalStoreError (Unit {0})
unfolding reserved_tables settle
reserve_cost s id amount scopes created = elim (Map.get s.reservations id) [
  | some _ ↦ (s, ok tt)
  | none ↦ settle s (reserved_tables s id amount scopes created) tt
]

-- `UPDATE budget_ledgers SET reserved = reserved - ?2 + ?3 WHERE scope = ?1`
pub adjust_ledger : Map LedgerRow → Text → ℕ → ℕ → Map LedgerRow
adjust_ledger ledgers scope amount actual = elim (Map.get ledgers scope) [
  | some row ↦
      let rest = row.reserved_micro_usd -ℤ pos amount in
      Map.insert ledgers scope (record row {
        reserved_micro_usd = rest +ℤ pos actual;
        is_real = row.is_real || leaves_i64 rest || leaves_i64 (rest +ℤ pos actual);
      })
  | none ↦ ledgers
]

-- for each scope of the reservation
adjust_scopes : Text → ℕ → ℕ → List (Text × Text) → Map LedgerRow → Map LedgerRow
unfolding adjust_ledger
adjust_scopes id amount actual [] ledgers = ledgers
adjust_scopes id amount actual ((other, scope) ∷ rows) ledgers =
    adjust_scopes id amount actual rows
      (if same_text other id then adjust_ledger ledgers scope amount actual else ledgers)

reconciled_tables : CostTables → Text → ReservationRow → ℕ → Result JournalStoreError CostTables
unfolding adjust_scopes
reconciled_tables s id row actual =
    if ltb i64_max actual
    then err sqlite
    else ok (record s {
      ledgers = adjust_scopes id row.amount_micro_usd actual s.scopes s.ledgers;
      reservations = Map.insert s.reservations id (record row { actual_micro_usd = some actual });
    })

-- by the actual cost that is known already
reconcile_open :
    CostTables → Text → ReservationRow → ℕ → Option ℕ → CostTables × Result JournalStoreError Bool
unfolding reconciled_tables settle
reconcile_open s id row actual (some _) = (s, ok false)
reconcile_open s id row actual none = settle s (reconciled_tables s id row actual) true

reconcile_row :
    CostTables → Text → ℕ → Option ReservationRow → CostTables × Result JournalStoreError Bool
unfolding reconcile_open
reconcile_row s id actual none = (s, err reservation_not_found)
reconcile_row s id actual (some row) = reconcile_open s id row actual row.actual_micro_usd

-- the result says whether the reservation was reconciled now
unfoldable pub reconcile_cost :
    CostTables → Text → Option ℕ → CostTables × Result JournalStoreError Bool
unfolding reconcile_row
reconcile_cost s id none = (s, ok false)
reconcile_cost s id (some actual) = reconcile_row s id actual (Map.get s.reservations id)
