-- ===== src/Reasoning/Contracts/Citations.antt =====
-- src/reasoning/contracts.rs: about the citations of an accepted artifact.
use ai_sre.Prelude.{
  ◌≤◌, ◌≡◌, ◌≢◌, ◌↔◌, refl, inl, inr, true, false, some, List, [], ◌∷◌, Result, ok, err, any, find,
  length, is_empty, ltb, arith, if◌then◌else◌, Bool-cases, All, All-map, Text, same_text, is_blank,
  utf8,
}
use ai_sre.Reasoning.Contracts.{
  EvidenceRef, DiagnosticReport, AdvisoryRecommendation, ContractError, missing_evidence, citations,
  holds, validate_against, validate_recommendation, validate_report, max_role_prompt_bytes,
}
use ai_sre.Reasoning.Evidence.{EvidenceBoard, EvidenceRecord}

citations_iff :
    (ids : List Text) (refs : List EvidenceRef)
    → (citations ids refs ≡ ok tt) ↔ All (λ r. holds ids r.evidence_id ≡ true) refs
citations_iff ids [] = (λ e. tt, λ h. refl)
citations_iff ids (r ∷ refs) = (
  λ e. ground (arith, (citations_iff ids refs).0),
  λ h. ground (arith, h.0, (citations_iff ids refs).1 h.1),
)

-- the identifiers of a board
abbrev pub ids_of : EvidenceBoard → List Text
ids_of [] = []
ids_of (r ∷ records) = r.evidence_id ∷ ids_of records

-- a record of the board has this identifier
abbrev pub IsFound : EvidenceBoard → EvidenceRef → Type 0
IsFound records r =
    (e : EvidenceRecord) × (find (λ q. same_text q.evidence_id r.evidence_id) records ≡ some e)

holds-IsFound :
    (records : EvidenceBoard) (r : EvidenceRef)
    → holds (ids_of records) r.evidence_id ≡ true
    → IsFound records r
holds-IsFound [] r h = cc
holds-IsFound (q ∷ records) r h = elim (Bool-cases (same_text q.evidence_id r.evidence_id)) [
  | inl e ↦ (q, rw e refl)
  | inr e ↦ let (x, found) = holds-IsFound records r (ground arith) in (x, rw e found)
]

IsFound-holds :
    (records : EvidenceBoard) (r : EvidenceRef)
    → IsFound records r
    → holds (ids_of records) r.evidence_id ≡ true
IsFound-holds [] r (x, h) = cc
IsFound-holds (q ∷ records) r (x, h) = elim (Bool-cases (same_text q.evidence_id r.evidence_id)) [
  | inl e ↦ rw e refl
  | inr e ↦ rw e (IsFound-holds records r (x, ground arith))
]

cited-IsFound :
    (records : EvidenceBoard) (refs : List EvidenceRef)
    → (citations (ids_of records) refs ≡ ok tt) ↔ All (IsFound records) refs
cited-IsFound records refs =
    let (to, from) = citations_iff (ids_of records) refs in
    (
      λ e. All-map _ (IsFound records) refs (holds-IsFound records) (to e),
      λ h. from (All-map (IsFound records) _ refs (IsFound-holds records) h),
    )

abbrev cited : EvidenceBoard → List EvidenceRef → Result ContractError (Unit {0})
cited records refs = if is_empty refs then err missing_evidence else citations (ids_of records) refs

cited_iff :
    (records : EvidenceBoard) (refs : List EvidenceRef)
    → (cited records refs ≡ ok tt) ↔ ((refs ≢ []) × All (IsFound records) refs)
cited_iff records [] = (λ e. cc, λ h. absurd (h.0 refl))
cited_iff records (r ∷ refs) =
    let (to, from) = cited-IsFound records (r ∷ refs) in (λ e. ((λ n. cc), to e), λ h. from h.1)

-- A report is accepted exactly when the prompt that produced it is within its bound, its summary
-- is not blank, and it cites at least one record, all of them records of the run's evidence board.
pub validate_report_iff :
    (report : DiagnosticReport) (records : EvidenceBoard) (prompt : Text)
    → (validate_report report (ids_of records) prompt ≡ ok tt) ↔ (
        (length (utf8 prompt) ≤ max_role_prompt_bytes)
        × (is_blank report.summary ≡ false)
        × (report.evidence ≢ [])
        × All (IsFound records) report.evidence)
unfolding validate_report validate_against
validate_report_iff report records prompt =
    let (to, from) = cited_iff records report.evidence in
    elim (Bool-cases (ltb max_role_prompt_bytes (length (utf8 prompt)))) [
      | inl e ↦ rw e (λ k. cc, λ h. absurd (ground (arith, h.0)))
      | inr e ↦ elim (Bool-cases (is_blank report.summary)) [
        | inl f ↦ rw (e, f) (λ k. cc, λ h. cc)
        | inr f ↦
            rw (e, f) (λ k. let (c, d) = to k in (ground arith, refl, c, d), λ h. from (h.2, h.3))
      ]
    ]

-- A recommendation is accepted exactly when none of its five safety texts is blank and it cites at
-- least one record, all of them records of the run's evidence board.
pub validate_recommendation_iff :
    (r : AdvisoryRecommendation) (records : EvidenceBoard)
    → (validate_recommendation r (ids_of records) ≡ ok tt) ↔ (
        All
          (λ t. is_blank t ≡ false)
          (r.summary ∷ r.expected_effect ∷ r.verification ∷ r.stop_strategy ∷ r.rollback ∷ [])
        × (r.evidence ≢ [])
        × All (IsFound records) r.evidence)
unfolding validate_recommendation
validate_recommendation_iff r records =
    let (to, from) = cited_iff records r.evidence in
    let texts =
      r.summary ∷ r.expected_effect ∷ r.verification ∷ r.stop_strategy ∷ r.rollback ∷ [] in
    elim (Bool-cases (any is_blank texts)) [
      | inl e ↦ rw e (λ k. cc, λ h. absurd (ground (arith, h.0)))
      | inr e ↦ rw e (λ k. let (c, d) = to k in (ground arith, c, d), λ h. from (h.1, h.2))
    ]
