-- ===== src/Reasoning/Storage/Ledger/Ceilings.antt =====
-- src/reasoning/storage.rs: about reserve_cost and the ceilings of its scopes.
use ai_sre.Prelude.{
  ℕ, ◌<◌, ◌≡◌, ◌≢◌, refl, sym, ap, ◌∙◌, subst, true, false, none, List, [], ◌∷◌, ◌++◌, Result, ok,
  err, Text, same_text, same_text_iff, same_text_refl, All, arith, inl, inr, Bool-cases,
  Result-cases,
}
use ai_sre.Prelude.Int.{ℤ, pos, ◌+ℤ◌, ◌≤ℤ◌, ltb_ℤ}
use ai_sre.Prelude.Map
use ai_sre.Prelude.Map.{Map}
use ai_sre.Reasoning.Storage.{CommitEnd, commits, rolls_back, ambiguous, JournalStoreError, i64_max}
use ai_sre.Reasoning.Storage.Ledger.{
  LedgerRow, CostTables, reserved_of, saturating_add_i64, check_scopes, charge_ledger, has_scope,
  charge_scopes, settle, finish, clamp_i64, reserved_tables, reserve_cost,
}
use ai_sre.Reasoning.Storage.Ledger.Sums.{charge-Moves}

abbrev Scopes : Type 0
Scopes = List (Text × ℕ)

-- the ceilings are below the largest `i64`, at which the addition saturates
abbrev pub AreFinite : Scopes → Type 0
AreFinite scopes = All (λ s. s.1 < i64_max) scopes

abbrev pub AreWithin : Map LedgerRow → Scopes → Type 0
AreWithin ledgers scopes = All (λ s. reserved_of ledgers s.0 ≤ℤ pos s.1) scopes

abbrev Fit : Map LedgerRow → ℕ → Scopes → Type 0
Fit ledgers amount scopes = All (λ s. reserved_of ledgers s.0 +ℤ pos amount ≤ℤ pos s.1) scopes

-- the test of one scope, without the saturation
not_exceeded :
    (a : ℤ) (amount ceiling : ℕ)
    → ceiling < i64_max
    → ltb_ℤ (pos ceiling) (saturating_add_i64 a amount) ≡ false
    → a +ℤ pos amount ≤ℤ pos ceiling
not_exceeded a amount ceiling finite h = ground arith

checked-Fit :
    (ledgers : Map LedgerRow) (amount : ℕ) (scopes : Scopes)
    → AreFinite scopes
    → check_scopes ledgers amount scopes ≡ ok tt
    → Fit ledgers amount scopes
unfolding check_scopes
checked-Fit ledgers amount [] finite h = tt
checked-Fit ledgers amount ((scope, ceiling) ∷ rest) finite h = (
  not_exceeded (reserved_of ledgers scope) amount ceiling finite.0 (ground arith),
  checked-Fit ledgers amount rest finite.1 (ground arith),
)

has_scope_snoc :
    (rows : List (Text × Text)) (id x y : Text)
    → has_scope rows id x ≡ true
    → has_scope (rows ++ (id, y) ∷ []) id x ≡ true
unfolding has_scope
has_scope_snoc [] id x y h = ground arith
has_scope_snoc (r ∷ rows) id x y h = ground (arith, has_scope_snoc rows id x y)

has_scope_new :
    (rows : List (Text × Text)) (id x : Text) → has_scope (rows ++ (id, x) ∷ []) id x ≡ true
unfolding has_scope
has_scope_new [] id x = ground (arith, same_text_refl id, same_text_refl x)
has_scope_new (r ∷ rows) id x = ground (arith, has_scope_new rows id x)

abbrev charged_once : Text → ℕ → Text → ℕ → CostTables → CostTables
charged_once id amount scope ceiling t = record t {
  ledgers = charge_ledger t.ledgers scope ceiling amount;
  scopes = t.scopes ++ (id, scope) ∷ [];
}

differ : (x y : Text) → x ≢ y → same_text x y ≡ false
differ x y apart = elim (Bool-cases (same_text x y)) [
  | inl e ↦ absurd (apart ((same_text_iff x y).0 e))
  | inr e ↦ e
]

-- two scopes, of which the first is recorded and the second is not
distinct_scopes :
    (rows : List (Text × Text)) (id x y : Text)
    → has_scope rows id x ≡ true
    → has_scope rows id y ≡ false
    → (same_text y x ≡ false) × (same_text x y ≡ false)
distinct_scopes rows id x y h k =
    let apart : x ≢ y = λ e. ground (arith, ap (has_scope rows id) e) in
    (differ y x (λ e. apart (sym e)), differ x y apart)

module _ (id : Text) (amount : ℕ) where
  charge_turn :
      (y : Text) (ceiling : ℕ) (rest : Scopes) (t t' : CostTables)
      → charge_scopes id amount ((y, ceiling) ∷ rest) t ≡ ok t'
      → (has_scope t.scopes id y ≡ false)
        × (charge_scopes id amount rest (charged_once id amount y ceiling t) ≡ ok t')
  unfolding charge_scopes has_scope
  charge_turn y ceiling rest t t' e = ground arith

  -- a scope that is recorded already is not charged by the rest of the loop
  charged_no_more :
      (x : Text) (scopes : Scopes) (t t' : CostTables)
      → has_scope t.scopes id x ≡ true
      → charge_scopes id amount scopes t ≡ ok t'
      → (reserved_of t'.ledgers x ≡ reserved_of t.ledgers x)
        × All (λ s. same_text x s.0 ≡ false) scopes
  unfolding charge_scopes
  charged_no_more x [] t t' h e =
      let same : t ≡ t' = cc in (ap (λ u. reserved_of u.ledgers x) (sym same), tt)
  charged_no_more x ((y, ceiling) ∷ rest) t t' h e =
      let (new, later) = charge_turn y ceiling rest t t' e in
      let (differs, differs') = distinct_scopes t.scopes id x y h new in
      let (same, others) =
        charged_no_more x rest (charged_once id amount y ceiling t) t'
          (has_scope_snoc t.scopes id x y h) later in
      (
        same ∙ charge-Moves t.ledgers y ceiling amount _ refl x ∙ rw differs refl,
        (differs', others),
      )

  -- another scope's test is that of before
  keep :
      (y : Text) (ceiling : ℕ) (ledgers : Map LedgerRow) (scopes : Scopes)
      → All (λ s. same_text y s.0 ≡ false) scopes
      → Fit ledgers amount scopes
      → Fit (charge_ledger ledgers y ceiling amount) amount scopes
  keep y ceiling ledgers [] others fit = tt
  keep y ceiling ledgers ((z, c) ∷ scopes) others fit =
      let same : reserved_of (charge_ledger ledgers y ceiling amount) z ≡ reserved_of ledgers z =
        charge-Moves ledgers y ceiling amount _ refl z ∙ rw others.0 refl in
      (
        subst (λ a. a +ℤ pos amount ≤ℤ pos c) (sym same) fit.0,
        keep y ceiling ledgers scopes others.1 fit.1,
      )

  charged-AreWithin :
      (scopes : Scopes) (t t' : CostTables)
      → Fit t.ledgers amount scopes
      → charge_scopes id amount scopes t ≡ ok t'
      → AreWithin t'.ledgers scopes
  charged-AreWithin [] t t' fit e = tt
  charged-AreWithin ((y, ceiling) ∷ rest) t t' fit e =
      let (new, later) = charge_turn y ceiling rest t t' e in
      let next = charged_once id amount y ceiling t in
      let (same, others) = charged_no_more y rest next t' (has_scope_new t.scopes id y) later in
      let moves = charge-Moves t.ledgers y ceiling amount _ refl in
      let sum : reserved_of t'.ledgers y ≡ reserved_of t.ledgers y +ℤ pos amount =
        same ∙ moves y ∙ rw (same_text_refl y) refl in
      (
        subst (λ a. a ≤ℤ pos ceiling) (sym sum) fit.0,
        charged-AreWithin rest next t' (keep y ceiling t.ledgers rest others fit.1) later,
      )

reserved_tables-AreWithin :
    (s : CostTables) (id : Text) (amount : ℕ) (scopes : Scopes) (created : ℕ) (t : CostTables)
    → AreFinite scopes
    → reserved_tables s id amount scopes created ≡ ok t
    → AreWithin t.ledgers scopes
unfolding reserved_tables
reserved_tables-AreWithin s id amount scopes created t finite e =
    elim (Result-cases (check_scopes s.ledgers amount scopes)) [
      | inr (x, failed) ↦ absurd (ground arith)
      | inl (u, passed) ↦
          charged-AreWithin id amount scopes
            (record s {
              reservations = Map.insert s.reservations id (record {
                amount_micro_usd = amount;
                actual_micro_usd = none;
                created_at_ms = clamp_i64 created;
              });
            })
            t (checked-Fit s.ledgers amount scopes finite passed) (ground arith)
    ]

finish-AreWithin :
    {A : Type 0} (s t : CostTables) (a : A) (scopes : Scopes) (o : List CommitEnd)
    → AreWithin t.ledgers scopes
    → (finish s t a o).1 ≡ ok a
    → AreWithin (finish s t a o).0.ledgers scopes
unfolding finish
finish-AreWithin s t a scopes [] h e = h
finish-AreWithin s t a scopes (commits ∷ later) h e = h
finish-AreWithin s t a scopes (rolls_back ∷ later) h e = absurd (cc)
finish-AreWithin s t a scopes (ambiguous ∷ later) h e = absurd (cc)

settle-AreWithin :
    {A : Type 0} (s : CostTables) (r : Result JournalStoreError CostTables) (a : A)
    (scopes : Scopes)
    → ((t : CostTables) → r ≡ ok t → AreWithin t.ledgers scopes)
    → (settle s r a).1 ≡ ok a
    → AreWithin (settle s r a).0.ledgers scopes
unfolding settle
settle-AreWithin s (err x) a scopes h e = absurd (cc)
settle-AreWithin s (ok t) a scopes h e = finish-AreWithin s t a scopes s.outcomes (h t refl) e

-- A reservation under a new identity that succeeds leaves the ledger of each of its scopes within
-- the ceiling that was asked for, where the ceilings are below the largest `i64`.
pub reserve_cost-AreWithin :
    (s : CostTables) (id : Text) (amount : ℕ) (scopes : List (Text × ℕ)) (created : ℕ)
    → Map.get s.reservations id ≡ none
    → AreFinite scopes
    → (reserve_cost s id amount scopes created).1 ≡ ok tt
    → AreWithin (reserve_cost s id amount scopes created).0.ledgers scopes
unfolding reserve_cost
reserve_cost-AreWithin s id amount scopes created new finite e =
    let settled : reserve_cost s id amount scopes created
        ≡ settle s (reserved_tables s id amount scopes created) tt =
      rw (new, reserve_cost) refl in
    subst (λ o. AreWithin o.0.ledgers scopes) (sym settled)
      (settle-AreWithin s (reserved_tables s id amount scopes created) tt scopes
        (λ t done. reserved_tables-AreWithin s id amount scopes created t finite done)
        (ap (λ o. o.1) (sym settled) ∙ e))
