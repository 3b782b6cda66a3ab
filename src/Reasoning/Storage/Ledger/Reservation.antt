-- ===== src/Reasoning/Storage/Ledger/Reservation.antt =====
-- src/reasoning/storage.rs: about the balance of the tables and reserve_cost.
use ai_sre.Prelude.{
  ℕ, All-snoc, All-map, ◌≡◌, ◌≢◌, refl, sym, ap, ◌∙◌, subst, true, false, Option, none, some, List,
  [], ◌∷◌, ◌++◌, Result, ok, err, Text, same_text, same_text_iff, same_text_refl, All, arith, inl,
  inr, Bool-cases, Option-cases,
}
use ai_sre.Prelude.Int.{pos}
use ai_sre.Prelude.Map
use ai_sre.Prelude.Map.{Map, get-insert}
use ai_sre.Reasoning.Incident.{is_some}
use ai_sre.Reasoning.Storage.{CommitEnd, commits, rolls_back, ambiguous, JournalStoreError}
use ai_sre.Reasoning.Storage.Ledger.{
  ReservationRow, CostTables, charge_ledger, charge_scopes, settle, finish, clamp_i64,
  reserved_tables, reserve_cost,
}
use ai_sre.Reasoning.Storage.Ledger.Sums.{
  cost_of, cost, expected, IsKnown, IsBalanced, expected-snoc, kept, added, charge-Moves, add_pos,
  charge-known,
}

-- one turn of the loop of a reservation
abbrev charged : Text → ℕ → Text → ℕ → CostTables → CostTables
charged id amount scope ceiling t = record t {
  ledgers = charge_ledger t.ledgers scope ceiling amount;
  scopes = t.scopes ++ (id, scope) ∷ [];
}

charged-IsBalanced :
    (t : CostTables) (id scope : Text) (amount ceiling : ℕ)
    → IsBalanced t
    → is_some (Map.get t.reservations id) ≡ true
    → cost t.reservations id ≡ amount
    → IsBalanced (charged id amount scope ceiling t)
charged-IsBalanced t id scope amount ceiling h present costs =
    let (now, still) = charge-known t.ledgers scope ceiling amount _ refl in
    record {
      sums = λ x.
          charge-Moves t.ledgers scope ceiling amount _ refl x
          ∙ elim (Bool-cases (same_text scope x)) [
            | inl e ↦
                let same : scope ≡ x = (same_text_iff scope x).0 e in
                rw e (
                  rw (expected-snoc (cost t.reservations) t.scopes id scope x) (
                    rw (same, same_text_refl x, costs, h.sums x)
                      (add_pos (expected (cost t.reservations) t.scopes x) amount)))
            | inr e ↦ rw e (
                h.sums x
                ∙ ap pos (
                    sym (
                      expected-snoc (cost t.reservations) t.scopes id scope x
                      ∙ rw e (omega arith))))
          ];
      known =
          All-snoc (IsKnown t.reservations _) t.scopes (id, scope)
            (All-map _ _ t.scopes (λ row k. (k.0, still row.1 k.1)) h.known) (present, now);
    }

charge_scopes-IsBalanced :
    (id : Text) (amount : ℕ) (scopes : List (Text × ℕ)) (t t' : CostTables)
    → IsBalanced t
    → is_some (Map.get t.reservations id) ≡ true
    → cost t.reservations id ≡ amount
    → charge_scopes id amount scopes t ≡ ok t'
    → IsBalanced t'
unfolding charge_scopes
charge_scopes-IsBalanced id amount [] t t' h present costs e =
    let same : t ≡ t' = cc in subst IsBalanced same h
charge_scopes-IsBalanced id amount ((scope, ceiling) ∷ rest) t t' h present costs e =
    charge_scopes-IsBalanced id amount rest (charged id amount scope ceiling t) t'
      (charged-IsBalanced t id scope amount ceiling h present costs) present costs (ground arith)

-- a reservation row that no row of a scope names changes no sum
expected_same :
    (c c' : Text → ℕ) (rows : List (Text × Text)) (x : Text)
    → All (λ row. c row.0 ≡ c' row.0) rows
    → expected c rows x ≡ expected c' rows x
expected_same c c' [] x h = refl
expected_same c c' ((id, other) ∷ rows) x h = ground (arith, expected_same c c' rows x h.1, h.0)

pub other_cost :
    (reservations : Map ReservationRow) (id j : Text) (row : ReservationRow)
    → same_text id j ≡ false
    → cost reservations j ≡ cost (Map.insert reservations id row) j
other_cost reservations id j row e =
    let found : Map.get (Map.insert reservations id row) j ≡ Map.get reservations j =
      get-insert reservations id row j ∙ rw e refl in
    sym (ap cost_of found)

pub own_cost :
    (reservations : Map ReservationRow) (id : Text) (row : ReservationRow)
    → cost (Map.insert reservations id row) id ≡ cost_of (some row)
own_cost reservations id row =
    let found : Map.get (Map.insert reservations id row) id ≡ some row =
      get-insert reservations id row id ∙ rw (same_text_refl id) refl in
    ap cost_of found

unknown : {V : Type 0} (o : Option V) → o ≡ none → is_some o ≢ true
unknown none e k = cc
unknown (some v) e k = cc

new_row-IsBalanced :
    (t : CostTables) (id : Text) (row : ReservationRow)
    → IsBalanced t
    → Map.get t.reservations id ≡ none
    → IsBalanced (record t { reservations = Map.insert t.reservations id row })
new_row-IsBalanced t id row h fresh = record {
  sums = λ x.
      h.sums x
      ∙ ap pos (
          expected_same _ _ t.scopes x (
            All-map (IsKnown t.reservations t.ledgers) _ t.scopes
              (λ r k. elim (Bool-cases (same_text id r.0)) [
                | inl e ↦
                    let same : id ≡ r.0 = (same_text_iff id r.0).0 e in
                    absurd (
                      unknown (Map.get t.reservations r.0)
                        (ap (Map.get t.reservations) (sym same) ∙ fresh) k.0)
                | inr e ↦ other_cost t.reservations id r.0 row e
              ])
              h.known));
  known = All-map _ _ t.scopes (λ r k. (kept t.reservations id r.0 row k.0, k.1)) h.known;
}

finish-IsBalanced :
    {A : Type 0} (s t : CostTables) (a : A) (o : List CommitEnd)
    → IsBalanced s
    → IsBalanced t
    → IsBalanced (finish s t a o).0
unfolding finish
finish-IsBalanced s t a [] h k = k
finish-IsBalanced s t a (commits ∷ later) h k = record { sums = k.sums; known = k.known }
finish-IsBalanced s t a (rolls_back ∷ later) h k = record { sums = h.sums; known = h.known }
finish-IsBalanced s t a (ambiguous ∷ later) h k = record { sums = k.sums; known = k.known }

pub settle-IsBalanced :
    {A : Type 0} (s : CostTables) (r : Result JournalStoreError CostTables) (a : A)
    → IsBalanced s
    → ((t : CostTables) → r ≡ ok t → IsBalanced t)
    → IsBalanced (settle s r a).0
unfolding settle
settle-IsBalanced s (err e) a h change = h
settle-IsBalanced s (ok t) a h change = finish-IsBalanced s t a s.outcomes h (change t refl)

-- what a reservation adds, if every check passes
reserved_tables-IsBalanced :
    (s : CostTables) (id : Text) (amount : ℕ) (scopes : List (Text × ℕ)) (created : ℕ)
    (t : CostTables)
    → IsBalanced s
    → Map.get s.reservations id ≡ none
    → reserved_tables s id amount scopes created ≡ ok t
    → IsBalanced t
unfolding reserved_tables
reserved_tables-IsBalanced s id amount scopes created t h fresh e =
    let row : ReservationRow = record {
      amount_micro_usd = amount;
      actual_micro_usd = none;
      created_at_ms = clamp_i64 created;
    } in
    charge_scopes-IsBalanced id amount scopes
      (record s { reservations = Map.insert s.reservations id row }) t
      (new_row-IsBalanced s id row h fresh) (added s.reservations id row)
      (own_cost s.reservations id row) (ground arith)

pub reserve-IsBalanced :
    (s : CostTables) (id : Text) (amount : ℕ) (scopes : List (Text × ℕ)) (created : ℕ)
    → IsBalanced s
    → IsBalanced (reserve_cost s id amount scopes created).0
unfolding reserve_cost
reserve-IsBalanced s id amount scopes created h = elim (Option-cases (Map.get s.reservations id)) [
  | inr (row, e) ↦ rw (e, reserve_cost) h
  | inl e ↦
      rw (e, reserve_cost)
        (settle-IsBalanced s (reserved_tables s id amount scopes created) tt h
          (λ t done. reserved_tables-IsBalanced s id amount scopes created t h e done))
]
