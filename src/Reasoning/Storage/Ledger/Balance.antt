-- ===== src/Reasoning/Storage/Ledger/Balance.antt =====
-- src/reasoning/storage.rs: about the balance of the tables and reconcile_cost.
use ai_sre.Prelude.{
  ℕ, All-map, ◌+◌, ◌≡◌, refl, ap, ◌∙◌, subst, true, false, Option, none, some, List, [], ◌∷◌, ok,
  if◌then◌else◌, Text, same_text, same_text_iff, same_text_refl, All, arith, inl, inr, Bool-cases,
}
use ai_sre.Prelude.Int.{pos}
use ai_sre.Prelude.Map
use ai_sre.Prelude.Map.{Map, get-insert}
use ai_sre.Reasoning.Incident.{is_some}
use ai_sre.Reasoning.Storage.Ledger.{
  LedgerRow, ReservationRow, CostTables, reserved_of, holds_real, reserve_cost, adjust_ledger,
  adjust_scopes, reconciled_tables, reconcile_row, reconcile_open, reconcile_cost,
}
use ai_sre.Reasoning.Storage.Ledger.Sums.{
  cost_of, cost, expected, IsBalanced, kept, adjust-Moves, replace_pos, adjust-known,
}
use ai_sre.Reasoning.Storage.Ledger.Reservation.{
  settle-IsBalanced, other_cost, own_cost, reserve-IsBalanced,
}

-- one ledger of a reconciliation
adjusted-reserved :
    (ledgers : Map LedgerRow) (scope x : Text) (amount actual rest : ℕ)
    → is_some (Map.get ledgers scope) ≡ true
    → reserved_of ledgers x ≡ pos ((if same_text scope x then amount else 0) + rest)
    → reserved_of (adjust_ledger ledgers scope amount actual) x
      ≡ pos (rest + (if same_text scope x then actual else 0))
adjusted-reserved ledgers scope x amount actual rest known h =
    adjust-Moves ledgers scope amount actual known x ∙ elim (Bool-cases (same_text scope x)) [
      | inl e ↦
          let same : scope ≡ x = (same_text_iff scope x).0 e in
          let before : reserved_of ledgers scope ≡ pos (amount + rest) =
            ap (reserved_of ledgers) same ∙ h ∙ rw e refl in
          rw (e, before) (replace_pos amount rest actual)
      | inr e ↦ rw e (h ∙ rw e (ap pos (omega arith)))
    ]

-- The loop of a reconciliation, at one scope: what is left of the old costs is replaced.
adjust-sums :
    (id : Text) (amount actual : ℕ) (c c' : Text → ℕ) (x : Text)
    → c id ≡ amount
    → c' id ≡ actual
    → ((j : Text) → same_text j id ≡ false → c j ≡ c' j)
    → (rows : List (Text × Text)) (ledgers : Map LedgerRow) (k : ℕ)
    → All (λ row. is_some (Map.get ledgers row.1) ≡ true) rows
    → reserved_of ledgers x ≡ pos (expected c rows x + k)
    → reserved_of (adjust_scopes id amount actual rows ledgers) x ≡ pos (expected c' rows x + k)
unfolding adjust_scopes adjust_ledger
adjust-sums id amount actual c c' x old new other [] ledgers k known h = h
adjust-sums id amount actual c c' x old new other ((j, scope) ∷ rows) ledgers k known h =
    let here = known.0 in
    elim (Bool-cases (same_text j id)) [
      | inl e ↦
          let same : j ≡ id = (same_text_iff j id).0 e in
          let g : ℕ = if same_text scope x then actual else 0 in
          let before : reserved_of ledgers x
              ≡ pos ((if same_text scope x then amount else 0) + (expected c rows x + k)) =
            h ∙ rw (same, old) (ap pos (omega arith)) in
          let after : reserved_of (adjust_ledger ledgers scope amount actual) x
              ≡ pos (expected c rows x + (k + g)) =
            adjusted-reserved ledgers scope x amount actual (expected c rows x + k) here before
            ∙ ap pos (omega arith) in
          rw e (
            adjust-sums id amount actual c c' x old new other rows
              (adjust_ledger ledgers scope amount actual) (k + g)
              (All-map _ _ rows (λ row p. adjust-known ledgers scope amount actual row.1 p) known.1)
              after
            ∙ rw (same, new) (ap pos (omega arith)))
      | inr e ↦
          let g : ℕ = if same_text scope x then c' j else 0 in
          let before : reserved_of ledgers x ≡ pos (expected c rows x + (k + g)) =
            h ∙ rw (other j e) (ap pos (omega arith)) in
          rw e (
            adjust-sums id amount actual c c' x old new other rows ledgers (k + g) known.1 before
            ∙ ap pos (omega arith))
    ]

adjust_scopes-known :
    (id : Text) (amount actual : ℕ) (rows : List (Text × Text)) (ledgers : Map LedgerRow) (j : Text)
    → is_some (Map.get ledgers j) ≡ true
    → is_some (Map.get (adjust_scopes id amount actual rows ledgers) j) ≡ true
unfolding adjust_scopes adjust_ledger
adjust_scopes-known id amount actual [] ledgers j h = h
adjust_scopes-known id amount actual ((i, scope) ∷ rows) ledgers j h =
    elim (Bool-cases (same_text i id)) [
      | inl e ↦ rw e (
          adjust_scopes-known id amount actual rows (adjust_ledger ledgers scope amount actual) j
            (adjust-known ledgers scope amount actual j h))
      | inr e ↦ rw e (adjust_scopes-known id amount actual rows ledgers j h)
    ]

same_text_sym : (s t : Text) → same_text s t ≡ false → same_text t s ≡ false
same_text_sym s t h = elim (Bool-cases (same_text t s)) [
  | inr e ↦ e
  | inl e ↦ absurd (ground (arith, (same_text_iff t s).0 e, same_text_refl s))
]

open_cost :
    (row : ReservationRow) → row.actual_micro_usd ≡ none → cost_of (some row) ≡ row.amount_micro_usd
open_cost row e = ground arith

reconciled-IsBalanced :
    (s t : CostTables) (id : Text) (row : ReservationRow) (actual : ℕ)
    → IsBalanced s
    → Map.get s.reservations id ≡ some row
    → row.actual_micro_usd ≡ none
    → reconciled_tables s id row actual ≡ ok t
    → IsBalanced t
unfolding reconciled_tables
reconciled-IsBalanced s t id row actual h found open_row e =
    let row' : ReservationRow = record row { actual_micro_usd = some actual } in
    let done : CostTables = record s {
      ledgers = adjust_scopes id row.amount_micro_usd actual s.scopes s.ledgers;
      reservations = Map.insert s.reservations id row';
    } in
    let same : done ≡ t = ground arith in
    subst IsBalanced same (record {
      sums = λ x.
          adjust-sums id row.amount_micro_usd actual (cost s.reservations)
            (cost (Map.insert s.reservations id row')) x (ap cost_of found ∙ open_cost row open_row)
            (own_cost s.reservations id row')
            (λ j d. other_cost s.reservations id j row' (same_text_sym j id d)) s.scopes s.ledgers 0
            (All-map _ _ s.scopes (λ r k. k.1) h.known) (h.sums x ∙ ap pos (omega arith))
          ∙ ap pos (omega arith);
      known =
          All-map _ _ s.scopes
            (λ r k. (
              kept s.reservations id r.0 row' k.0,
              adjust_scopes-known id row.amount_micro_usd actual s.scopes s.ledgers r.1 k.1,
            ))
            h.known;
    })

reconcile_open-IsBalanced :
    (s : CostTables) (id : Text) (row : ReservationRow) (actual : ℕ) (known : Option ℕ)
    → IsBalanced s
    → Map.get s.reservations id ≡ some row
    → row.actual_micro_usd ≡ known
    → IsBalanced (reconcile_open s id row actual known).0
unfolding reconcile_open
reconcile_open-IsBalanced s id row actual (some _) h e open_row = h
reconcile_open-IsBalanced s id row actual none h e open_row =
    settle-IsBalanced s (reconciled_tables s id row actual) true h
      (λ t done. reconciled-IsBalanced s t id row actual h e open_row done)

reconcile_row-IsBalanced :
    (s : CostTables) (id : Text) (actual : ℕ) (found : Option ReservationRow)
    → IsBalanced s
    → Map.get s.reservations id ≡ found
    → IsBalanced (reconcile_row s id actual found).0
unfolding reconcile_row
reconcile_row-IsBalanced s id actual none h e = h
reconcile_row-IsBalanced s id actual (some row) h e =
    reconcile_open-IsBalanced s id row actual row.actual_micro_usd h e refl

reconcile-IsBalanced :
    (s : CostTables) (id : Text) (actual : Option ℕ)
    → IsBalanced s
    → IsBalanced (reconcile_cost s id actual).0
unfolding reconcile_cost
reconcile-IsBalanced s id none h = h
reconcile-IsBalanced s id (some actual) h =
    reconcile_row-IsBalanced s id actual (Map.get s.reservations id) h refl

-- a call of the budget's owner
pub data CostCall : Type 0 where
  reserves : Text → ℕ → List (Text × ℕ) → ℕ → CostCall
  reconciles : Text → Option ℕ → CostCall

unfoldable pub cost_step : CostTables → CostCall → CostTables
cost_step s (reserves id amount scopes created) = (reserve_cost s id amount scopes created).0
cost_step s (reconciles id actual) = (reconcile_cost s id actual).0

unfoldable pub cost_run : CostTables → List CostCall → CostTables
cost_run s [] = s
cost_run s (c ∷ cs) = cost_run (cost_step s c) cs

step-IsBalanced : (s : CostTables) (c : CostCall) → IsBalanced s → IsBalanced (cost_step s c)
unfolding cost_step
step-IsBalanced s (reserves id amount scopes created) h =
    reserve-IsBalanced s id amount scopes created h
step-IsBalanced s (reconciles id actual) h = reconcile-IsBalanced s id actual h

run-IsBalanced : (s : CostTables) (cs : List CostCall) → IsBalanced s → IsBalanced (cost_run s cs)
unfolding cost_run
run-IsBalanced s [] h = h
run-IsBalanced s (c ∷ cs) h = run-IsBalanced (cost_step s c) cs (step-IsBalanced s c h)

-- From balanced tables, whatever is reserved and reconciled and however the transactions end: each ledger whose sums never left the range of an `i64` is exactly the sum over the
-- reservations of its scope, of the actual cost where it is known and else of the reserved amount.
pub run_balances :
    (s : CostTables) (cs : List CostCall) (scope : Text)
    → IsBalanced s
    → let t = cost_run s cs in
      holds_real t.ledgers scope ≡ false
      → reserved_of t.ledgers scope ≡ pos (expected (cost t.reservations) t.scopes scope)
run_balances s cs scope h integral = (run-IsBalanced s cs h).sums scope
