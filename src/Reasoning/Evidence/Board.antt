-- ===== src/Reasoning/Evidence/Board.antt =====
-- src/reasoning/evidence.rs: about the boards that a run reaches.
use ai_sre.Prelude.{
  ℕ, suc, zero, ◌+◌, ◌≤◌, ◌<◌, ◌≡◌, ◌≢◌, refl, sym, ap, ◌∙◌, inl, inr, false, some, List, [], ◌∷◌,
  ◌++◌, Result, ok, err, length, length-append, subst, get_elem?, get_elem?-snoc, get_elem?-append,
  find, arith, leb, ltb, is_empty, All, All-snoc, Bool-cases, Text, text, utf8, same_text,
  same_text_iff, strip_prefix, strip_prefix-append,
}
use ai_sre.Prelude.Decimal.{
  show, parse, parse-show, parse-leading_zero, show-AllDigits, show-ne-nil, AllDigits,
}
use ai_sre.Reasoning.Budget.{u32_max}
use ai_sre.Reasoning.Journal.{EvidenceSource}
use ai_sre.Reasoning.Evidence.{
  EvidenceBoard, EvidenceRecord, EvidenceMetadata, EvidenceError, empty_payload, query_too_large,
  payload_too_large, record_limit_exceeded, evidence_id, four_digits, commit_redacted,
  commit_with_metadata, max_evidence_records, max_evidence_payload_bytes, max_evidence_query_bytes,
}
use ai_sre.Reasoning.Evidence.Payload.{JsonText, redact_payload}
use ai_sre.Reasoning.Evidence.Redaction.{redact_text}

-- the numeral with zeros in front
digits-zero : (t : Text) → AllDigits t → t ≢ [] → AllDigits (48 ∷ t) × (b'0' ∷ t ≢ [])
digits-zero t d ne = ((refl, d), λ e. cc)

parse-four_digits : (n : ℕ) → n ≤ u32_max → parse u32_max (four_digits n) ≡ some n
parse-four_digits n h =
    let shown = parse-show u32_max n h in
    let d = show-AllDigits n in
    let ne = show-ne-nil n in
    let one = parse-leading_zero u32_max (show n) d ne ∙ shown in
    let (d1, ne1) = digits-zero (show n) d ne in
    let two = parse-leading_zero u32_max (48 ∷ show n) d1 ne1 ∙ one in
    let (d2, ne2) = digits-zero (48 ∷ show n) d1 ne1 in
    let three = parse-leading_zero u32_max (48 ∷ 48 ∷ show n) d2 ne2 ∙ two in
    elim (Bool-cases (ltb n 10)) [
      | inl e ↦ rw e three
      | inr e ↦ elim (Bool-cases (ltb n 100)) [
        | inl f ↦ rw (e, f) two
        | inr f ↦ elim (Bool-cases (ltb n 1000)) [
          | inl g ↦ rw (e, f, g) one
          | inr g ↦ rw (e, f, g) shown
        ]
      ]
    ]

same-evidence_id : (n m : ℕ) → n ≤ u32_max → m ≤ u32_max → evidence_id n ≡ evidence_id m → n ≡ m
unfolding evidence_id
same-evidence_id n m h k e =
    let a =
      sym (strip_prefix-append (text "evidence-") (four_digits n))
      ∙ ap (strip_prefix (text "evidence-")) e
      ∙ strip_prefix-append (text "evidence-") (four_digits m) in
    let b : four_digits n ≡ four_digits m = cc a in
    cc (sym (parse-four_digits n h) ∙ ap (parse u32_max) b ∙ parse-four_digits m k)

-- the records are numbered from `n` on, one by one
abbrev pub Numbered : ℕ → EvidenceBoard → Type 0
Numbered n [] = Unit
Numbered n (r ∷ records) = (r.evidence_id ≡ evidence_id n) × Numbered (n + 1) records

abbrev pub FitsRecord : EvidenceRecord → Type 0
FitsRecord r =
    (r.payload ≢ [])
    × (length r.payload ≤ max_evidence_payload_bytes)
    × (length (utf8 r.query) ≤ max_evidence_query_bytes)

pub record IsBoard (records : EvidenceBoard) : Type 0 where
  pub bounded : length records ≤ max_evidence_records
  pub numbered : Numbered 1 records
  pub fits : All FitsRecord records

Numbered-snoc :
    (n : ℕ) (records : EvidenceBoard) (r : EvidenceRecord)
    → r.evidence_id ≡ evidence_id (n + length records)
    → Numbered n records
    → Numbered n (records ++ r ∷ [])
Numbered-snoc n [] r e h = let same : n + 0 ≡ n = omega arith in (e ∙ ap evidence_id same, tt)
Numbered-snoc n (q ∷ records) r e h =
    let same : n + suc (length records) ≡ n + 1 + length records = omega arith in
    (h.0, Numbered-snoc (n + 1) records r (e ∙ ap evidence_id same) h.1)

not-same :
    (n m : ℕ)
    → n ≤ u32_max
    → m ≤ u32_max
    → n < m
    → same_text (evidence_id n) (evidence_id m) ≡ false
not-same n m h k l = elim (Bool-cases (same_text (evidence_id n) (evidence_id m))) [
  | inl e ↦
      let same = same-evidence_id n m h k ((same_text_iff (evidence_id n) (evidence_id m)).0 e) in
      absurd (omega arith)
  | inr e ↦ e
]

find-Numbered :
    (n i : ℕ) (records : EvidenceBoard)
    → n + i ≤ u32_max
    → n + length records ≤ u32_max
    → Numbered n records
    → find (λ r. same_text r.evidence_id (evidence_id (n + i))) records ≡ get_elem? records i
find-Numbered n i [] h k d = refl
find-Numbered n zero (r ∷ records) h k d =
    let e : n + 0 ≡ n = omega arith in
    let t = (same_text_iff r.evidence_id (evidence_id (n + 0))).1 (d.0 ∙ ap evidence_id (sym e)) in
    ground (arith, t)
find-Numbered n (suc i) (r ∷ records) h k d =
    let e : n + suc i ≡ n + 1 + i = omega arith in
    let other =
      ap (λ (u : Text). same_text u (evidence_id (n + suc i))) d.0
      ∙ not-same n (n + suc i) (omega arith) h (omega arith) in
    rw other (
      ap (λ (m : ℕ). find (λ (q : EvidenceRecord). same_text q.evidence_id (evidence_id m)) records)
        e
      ∙ find-Numbered (n + 1) i records (omega arith) (omega arith) d.1)

swap : (i : ℕ) → i + 1 ≡ 1 + i
swap i = omega arith

not_empty : (payload : List ℕ) → is_empty payload ≡ false → payload ≢ []
not_empty [] h e = cc
not_empty (b ∷ payload) h e = cc

module _ (json : JsonText) (records : EvidenceBoard) (source : EvidenceSource) (query : Text)
    (payload : List ℕ) (metadata : EvidenceMetadata) where
  abbrev new_record : EvidenceRecord
  new_record = record {
    evidence_id = evidence_id (length records + 1);
    source = source;
    query = redact_text query;
    payload = redact_payload json payload;
    metadata = metadata;
  }

  -- How a commit ends: refused with the board as it was, or with one new record at its end.
  data CommitCase (p : EvidenceBoard × Result EvidenceError Text) : Type 0 where
    refused : (e : EvidenceError) → p ≡ (records, err e) → CommitCase p
    added :
        length records < max_evidence_records
        → FitsRecord new_record
        → p ≡ (records ++ new_record ∷ [], ok new_record.evidence_id)
        → CommitCase p

  commit_redacted_cases :
      length records < max_evidence_records
      → CommitCase (
          commit_redacted json records source
            (redact_text query)
            (redact_payload json payload)
            metadata)
  unfolding commit_redacted
  commit_redacted_cases l =
      elim (Bool-cases (ltb max_evidence_query_bytes (length (utf8 (redact_text query))))) [
        | inl e ↦ refused query_too_large (rw e refl)
        | inr e ↦ elim (Bool-cases (is_empty (redact_payload json payload))) [
          | inl f ↦ refused empty_payload (rw (e, f) refl)
          | inr f ↦
              elim (Bool-cases
                (ltb max_evidence_payload_bytes (length (redact_payload json payload)))) [
                  | inl g ↦ refused payload_too_large (rw (e, f, g) refl)
                  | inr g ↦ added l (not_empty _ f, ground arith, ground arith) (rw (e, f, g) refl)
                ]
        ]
      ]

  commit_cases : CommitCase (commit_with_metadata json records source query payload metadata)
  commit_cases = elim (Bool-cases (is_empty payload)) [
    | inl e ↦ refused empty_payload (unfold commit_with_metadata in rw e refl)
    | inr e ↦ elim (Bool-cases (leb max_evidence_records (length records))) [
      | inl f ↦ refused record_limit_exceeded (unfold commit_with_metadata in rw (e, f) refl)
      | inr f ↦ elim (Bool-cases (ltb max_evidence_payload_bytes (length payload))) [
        | inl g ↦ refused payload_too_large (unfold commit_with_metadata in rw (e, f, g) refl)
        | inr g ↦ unfold commit_with_metadata in rw (e, f, g) (commit_redacted_cases (ground arith))
      ]
    ]
  ]

  added-IsBoard :
      IsBoard records
      → length records < max_evidence_records
      → FitsRecord new_record
      → IsBoard (records ++ new_record ∷ [])
  added-IsBoard h l fit =
      let same : length records + 1 ≡ 1 + length records = omega arith in
      record {
        bounded = omega (arith, length-append records (new_record ∷ []));
        numbered = Numbered-snoc 1 records new_record (ap evidence_id same) h.numbered;
        fits = All-snoc FitsRecord records new_record h.fits fit;
      }

  commit-IsBoard :
      IsBoard records → IsBoard (commit_with_metadata json records source query payload metadata).0
  commit-IsBoard h = elim commit_cases [
    | refused e eq ↦ rw eq h
    | added l fit eq ↦ rw eq (added-IsBoard h l fit)
  ]

  -- What a commit has done, by its result.
  abbrev pub Commits : EvidenceBoard × Result EvidenceError Text → Type 0
  Commits (t, err e) = t ≡ records
  Commits (t, ok id) =
      (find (λ r. same_text r.evidence_id id) t ≡ some new_record)
      × ((i : ℕ)
          → i < length records
          → find (λ r. same_text r.evidence_id (evidence_id (i + 1))) t ≡ get_elem? records i)

  added-Commits :
      IsBoard records
      → length records < max_evidence_records
      → FitsRecord new_record
      → Commits (records ++ new_record ∷ [], ok new_record.evidence_id)
  added-Commits h l fit =
      let t = records ++ new_record ∷ [] in
      let longer = length-append records (new_record ∷ []) in
      let numbered = (added-IsBoard h l fit).numbered in
      let found = λ (i : ℕ) (small : i ≤ length records).
        find-Numbered 1 i t (omega arith) (omega arith) numbered in
      let flip = λ (i : ℕ).
        ap (λ (m : ℕ). find (λ (r : EvidenceRecord). same_text r.evidence_id (evidence_id m)) t)
          (swap i) in
      (
        flip (length records)
            ∙ found (length records) (omega arith)
            ∙ get_elem?-snoc records new_record,
        λ i small.
            flip i ∙ found i (omega arith) ∙ get_elem?-append records (new_record ∷ []) i small,
      )

  -- On a board of a run, a commit that is refused changes nothing. One that succeeds gives an
  -- identifier under which exactly the new record is found, with its query and its payload
  -- redacted, and every earlier record is still the one that is found under its own identifier.
  pub commit-Commits :
      IsBoard records → Commits (commit_with_metadata json records source query payload metadata)
  commit-Commits h = elim commit_cases [
    | refused e eq ↦ subst Commits (sym eq) refl
    | added l fit eq ↦ subst Commits (sym eq) (added-Commits h l fit)
  ]

-- the arguments of a commit
pub record Request : Type 0 where
  pub source : EvidenceSource
  pub query : Text
  pub payload : List ℕ
  pub metadata : EvidenceMetadata

module _ (json : JsonText) where
  unfoldable pub run : EvidenceBoard → List Request → EvidenceBoard
  run records [] = records
  run records (r ∷ requests) =
      run (commit_with_metadata json records r.source r.query r.payload r.metadata).0 requests

  -- Whatever is committed from an empty board on: there are at most 64 records, the n-th has the
  -- identifier "evidence-" and n in four digits, and every record fits its bounds after redaction:
  -- its payload is not empty and has at most 64 KiB, its query at most 4 KiB.
  pub run-IsBoard :
      (records : EvidenceBoard) (requests : List Request)
      → IsBoard records
      → IsBoard (run records requests)
  unfolding run
  run-IsBoard records [] h = h
  run-IsBoard records (r ∷ requests) h =
      run-IsBoard (commit_with_metadata json records r.source r.query r.payload r.metadata).0
        requests (commit-IsBoard json records r.source r.query r.payload r.metadata h)

pub no_records-IsBoard : IsBoard []
no_records-IsBoard = record { bounded = omega arith; numbered = tt; fits = tt }
