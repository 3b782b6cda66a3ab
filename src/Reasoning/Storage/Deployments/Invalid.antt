-- ===== src/Reasoning/Storage/Deployments/Invalid.antt =====
-- src/reasoning/storage/gitops.rs: about deployments that are no longer eligible.
use ai_sre.Prelude.{
  ℕ, ◌≡◌, ◌≢◌, refl, sym, subst, inl, inr, true, false, Option, none, some, List, [], ◌∷◌, ok,
  arith, Bool-cases, Text, same_text,
}
use ai_sre.Gitops.Receipt.{ReceiptWire, validate_shape}
use ai_sre.Reasoning.Storage.{JournalStore, add_rows}
use ai_sre.Reasoning.Storage.Deployments.{
  Codec, is_ok, row_of, upsert_deployment, add_deployment, record_behind, record_deployment,
  qualified_deployment,
}
use ai_sre.Reasoning.Storage.Deployments.Cases.{
  unchanged, inserted, undone, unreported, record_deployment_cases,
}
use ai_sre.Reasoning.Storage.Durable.{Call, run}
use ai_sre.Reasoning.Storage.Kept.{run_keeps}
use ai_sre.Reasoning.Storage.Tables.{DeploymentRow}

-- the deployment has a row, which is not eligible
abbrev pub IsInvalidIn : Text → List DeploymentRow → Type 0
IsInvalidIn id rows = (row : DeploymentRow) × (row_of id rows ≡ some row) × (row.eligible ≡ false)

abbrev pub IsInvalid : Text → JournalStore → Type 0
IsInvalid id s = IsInvalidIn id s.reviews.deployments

upsert-IsInvalidIn :
    (id : Text) (new : DeploymentRow) (rows : List DeploymentRow)
    → IsInvalidIn id rows
    → IsInvalidIn id (upsert_deployment new rows)
unfolding upsert_deployment
upsert-IsInvalidIn id new [] (row, found, e) = cc
upsert-IsInvalidIn id new (q ∷ rows) (row, found, e) =
    elim (Bool-cases (same_text q.deployment_id id)) [
      | inl f ↦ elim (Bool-cases (same_text q.deployment_id new.deployment_id)) [
        | inl g ↦ (record q { eligible = false }, ground (arith, f, g), refl)
        | inr g ↦ (row, ground (arith, f, g, found), e)
      ]
      | inr f ↦
          let (later, found', e') =
            upsert-IsInvalidIn id new rows (row, ground (arith, f, found), e) in
          elim (Bool-cases (same_text q.deployment_id new.deployment_id)) [
            | inl g ↦ (row, ground (arith, f, g, found), e)
            | inr g ↦ (later, ground (arith, f, g, found'), e')
          ]
    ]

deployment-IsInvalid :
    (codec : Codec) (s : JournalStore) (wire : ReceiptWire) (now : ℕ) (id : Text)
    → IsInvalid id s
    → IsInvalid id (record_deployment codec s wire now).0
deployment-IsInvalid codec s wire now id h = elim (record_deployment_cases codec s wire now) [
  | unchanged eq ↦ rw eq h
  | inserted accepted reason later _ fit free eq _ ↦
      rw eq (unfold add_deployment add_rows in upsert-IsInvalidIn id _ s.reviews.deployments h)
  | unreported accepted reason later _ fit free eq _ ↦
      rw eq (unfold add_deployment add_rows in upsert-IsInvalidIn id _ s.reviews.deployments h)
  | undone later eq ↦ rw eq h
]

run-IsInvalid :
    (s : JournalStore) (cs : List Call) (id : Text) → IsInvalid id s → IsInvalid id (run s cs)
run-IsInvalid s cs id h =
    run_keeps (λ r. IsInvalidIn id r.deployments)
      (λ codec s wire now k. deployment-IsInvalid codec s wire now id k)
      (λ change review u k. subst (IsInvalidIn id) (sym (review.deployments_kept u)) k) s cs h

module _ (codec : Codec) (t : JournalStore) (id : Text) (now : ℕ) where
  not-qualified : IsInvalid id t → qualified_deployment codec t id now ≡ ok none
  unfolding qualified_deployment
  not-qualified (row, found, e) = ground (arith, found, e)

  record_behind-invalid :
      (wire : ReceiptWire) (o : Option DeploymentRow) (row : DeploymentRow)
      → o ≡ some row
      → row.eligible ≡ false
      → record_behind codec t wire now o ≡ (t, ok false)
  unfolding record_behind
  record_behind-invalid wire none row f e = cc
  record_behind-invalid wire (some r) row f e = ground (arith, f, e)

  record-invalid :
      (wire : ReceiptWire)
      → IsInvalid wire.deployment_id t
      → ((record_deployment codec t wire now).0 ≡ t)
        × ((record_deployment codec t wire now).1 ≢ ok true)
  unfolding record_deployment
  record-invalid wire (row, found, e) = elim (Bool-cases (is_ok (validate_shape wire))) [
    | inr f ↦ rw (f, record_deployment) (refl, λ k. cc)
    | inl f ↦
        rw
          (
            f,
            record_behind-invalid wire (row_of wire.deployment_id t.reviews.deployments) row found
                e,
            record_deployment,
          )
          (refl, λ k. cc)
  ]

-- A deployment whose row is not eligible stays so, whatever is called and whichever transactions
-- fail: it never qualifies, and any receipt for it, were it eligible by itself, is answered with
-- false or an error and changes nothing.
pub invalid_stays :
    (codec : Codec) (s : JournalStore) (cs : List Call) (wire : ReceiptWire) (now : ℕ)
    → IsInvalid wire.deployment_id s
    → let t = run s cs in
      (qualified_deployment codec t wire.deployment_id now ≡ ok none)
      × ((record_deployment codec t wire now).0 ≡ t)
      × ((record_deployment codec t wire now).1 ≢ ok true)
invalid_stays codec s cs wire now h =
    let invalid = run-IsInvalid s cs wire.deployment_id h in
    let (same, refused) = record-invalid codec (run s cs) wire.deployment_id now wire invalid in
    (not-qualified codec (run s cs) wire.deployment_id now invalid, same, refused)
