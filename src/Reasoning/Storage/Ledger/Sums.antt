-- ===== src/Reasoning/Storage/Ledger/Sums.antt =====
-- src/reasoning/storage.rs: the sums that the ledgers stand for, and how one ledger moves.
use ai_sre.Prelude.{
  ℕ, ◌+◌, ◌≡◌, refl, ◌∙◌, true, Option, none, some, List, [], ◌∷◌, ◌++◌, if◌then◌else◌, Text,
  same_text, same_text_refl, All, arith, inl, inr, Bool-cases, Option-cases,
}
use ai_sre.Prelude.Int.{ℤ, pos, ◌+ℤ◌, ◌-ℤ◌, +ℤ_parts, -ℤ_parts, eq_of_parts}
use ai_sre.Prelude.Map
use ai_sre.Prelude.Map.{Map, get-insert}
use ai_sre.Reasoning.Incident.{is_some}
use ai_sre.Reasoning.Storage.Ledger.{
  LedgerRow, ReservationRow, CostTables, reserved_of, charge_ledger, adjust_ledger,
}

-- what a reservation counts: its actual cost once that is known
abbrev pub cost_of : Option ReservationRow → ℕ
cost_of none = 0
cost_of (some row) = elim row.actual_micro_usd [
  | some actual ↦ actual
  | none ↦ row.amount_micro_usd
]

abbrev pub cost : Map ReservationRow → Text → ℕ
cost reservations id = cost_of (Map.get reservations id)

-- the sum over the reservations of a scope
abbrev pub expected : (Text → ℕ) → List (Text × Text) → Text → ℕ
expected c [] scope = 0
expected c ((id, other) ∷ rows) scope =
    (if same_text other scope then c id else 0) + expected c rows scope

abbrev pub IsKnown : Map ReservationRow → Map LedgerRow → Text × Text → Type 0
IsKnown reservations ledgers row =
    (is_some (Map.get reservations row.0) ≡ true) × (is_some (Map.get ledgers row.1) ≡ true)

-- each ledger is the sum over its reservations, and each row of a scope has both its ends
pub record IsBalanced (t : CostTables) : Type 0 where
  pub sums :
      (scope : Text)
      → reserved_of t.ledgers scope ≡ pos (expected (cost t.reservations) t.scopes scope)
  pub known : All (IsKnown t.reservations t.ledgers) t.scopes

pub expected-snoc :
    (c : Text → ℕ) (rows : List (Text × Text)) (id other scope : Text)
    → expected c (rows ++ (id, other) ∷ []) scope
      ≡ expected c rows scope + (if same_text other scope then c id else 0)
expected-snoc c [] id other scope = omega arith
expected-snoc c ((i, o) ∷ rows) id other scope = omega (arith, expected-snoc c rows id other scope)

pub kept :
    {V : Type 0} (m : Map V) (k j : Text) (v : V)
    → is_some (Map.get m j) ≡ true
    → is_some (Map.get (Map.insert m k v) j) ≡ true
kept m k j v h = elim (Bool-cases (same_text k j)) [
  | inl e ↦ rw (get-insert m k v j) (rw e refl)
  | inr e ↦ rw (get-insert m k v j) (rw e h)
]

pub added :
    {V : Type 0} (m : Map V) (k : Text) (v : V) → is_some (Map.get (Map.insert m k v) k) ≡ true
added m k v = rw (get-insert m k v k) (rw (same_text_refl k) refl)

inserted-reserved :
    (ledgers : Map LedgerRow) (scope x : Text) (row : LedgerRow)
    → reserved_of (Map.insert ledgers scope row) x
      ≡ (if same_text scope x then row.reserved_micro_usd else reserved_of ledgers x)
unfolding reserved_of
inserted-reserved ledgers scope x row = elim (Bool-cases (same_text scope x)) [
  | inl e ↦ rw (get-insert ledgers scope row x, reserved_of) (rw e refl)
  | inr e ↦ rw (get-insert ledgers scope row x, reserved_of) (rw e refl)
]

reserved_at :
    (ledgers : Map LedgerRow) (scope : Text) (row : LedgerRow)
    → Map.get ledgers scope ≡ some row
    → reserved_of ledgers scope ≡ row.reserved_micro_usd
unfolding reserved_of
reserved_at ledgers scope row h = rw (h, reserved_of) refl

reserved_absent :
    (ledgers : Map LedgerRow) (scope : Text)
    → Map.get ledgers scope ≡ none
    → reserved_of ledgers scope ≡ pos 0
unfolding reserved_of
reserved_absent ledgers scope h = rw (h, reserved_of) refl

-- a ledger whose sum moves from a to b, at every scope
abbrev pub Moves : Map LedgerRow → Map LedgerRow → Text → (ℤ → ℤ) → Type 0
Moves old new scope f =
    (x : Text)
    → reserved_of new x
      ≡ (if same_text scope x then f (reserved_of old scope) else reserved_of old x)

pub charge-Moves :
    (ledgers : Map LedgerRow) (scope : Text) (ceiling amount : ℕ) (state : Option LedgerRow)
    → Map.get ledgers scope ≡ state
    → Moves ledgers (charge_ledger ledgers scope ceiling amount) scope (λ a. a +ℤ pos amount)
unfolding charge_ledger
charge-Moves ledgers scope ceiling amount none h x =
    let zero_sum : pos 0 +ℤ pos amount ≡ pos amount = unfold ◌+ℤ◌ in ground arith in
    rw (h, charge_ledger)
      (inserted-reserved ledgers scope x _
        ∙ rw (reserved_absent ledgers scope h) (rw zero_sum refl))
charge-Moves ledgers scope ceiling amount (some row) h x =
    rw (h, charge_ledger)
      (inserted-reserved ledgers scope x _ ∙ rw (reserved_at ledgers scope row h) refl)

pub adjust-Moves :
    (ledgers : Map LedgerRow) (scope : Text) (amount actual : ℕ)
    → is_some (Map.get ledgers scope) ≡ true
    → Moves ledgers
        (adjust_ledger ledgers scope amount actual)
        scope
        (λ a. a -ℤ pos amount +ℤ pos actual)
unfolding adjust_ledger
adjust-Moves ledgers scope amount actual known x = elim (Option-cases (Map.get ledgers scope)) [
  | inl missing ↦ absurd (ground arith)
  | inr (row, h) ↦
      rw (h, adjust_ledger)
        (inserted-reserved ledgers scope x _ ∙ rw (reserved_at ledgers scope row h) refl)
]

pub add_pos : (a b : ℕ) → pos a +ℤ pos b ≡ pos (a + b)
add_pos a b = unfold ◌+ℤ◌ in ground arith

pub replace_pos :
    (amount rest actual : ℕ) → pos (amount + rest) -ℤ pos amount +ℤ pos actual ≡ pos (rest + actual)
replace_pos amount rest actual = eq_of_parts _ _ (
    omega (
      arith,
      +ℤ_parts (pos (amount + rest) -ℤ pos amount) (pos actual),
      -ℤ_parts (pos (amount + rest)) (pos amount),
    ))

pub charge-known :
    (ledgers : Map LedgerRow) (scope : Text) (ceiling amount : ℕ) (state : Option LedgerRow)
    → Map.get ledgers scope ≡ state
    → (is_some (Map.get (charge_ledger ledgers scope ceiling amount) scope) ≡ true)
      × ((j : Text)
          → is_some (Map.get ledgers j) ≡ true
          → is_some (Map.get (charge_ledger ledgers scope ceiling amount) j) ≡ true)
unfolding charge_ledger
charge-known ledgers scope ceiling amount none h =
    rw (h, charge_ledger) (added ledgers scope _, λ j k. kept ledgers scope j _ k)
charge-known ledgers scope ceiling amount (some row) h =
    rw (h, charge_ledger) (added ledgers scope _, λ j k. kept ledgers scope j _ k)

pub adjust-known :
    (ledgers : Map LedgerRow) (scope : Text) (amount actual : ℕ) (j : Text)
    → is_some (Map.get ledgers j) ≡ true
    → is_some (Map.get (adjust_ledger ledgers scope amount actual) j) ≡ true
unfolding adjust_ledger
adjust-known ledgers scope amount actual j k = elim (Option-cases (Map.get ledgers scope)) [
  | inl missing ↦ rw (missing, adjust_ledger) k
  | inr (row, h) ↦ rw (h, adjust_ledger) (kept ledgers scope j _ k)
]
