-- ===== src/Gitops/Candidate/Bound.antt =====
-- src/gitops/artifact.rs: about what a candidate is bound to.
use ai_sre.Prelude.{
  ◌≡◌, refl, subst, inl, inr, true, not, ◌||◌, Option, none, some, List, [], ◌∷◌, Result, ok, err,
  Text, text, same_text_refl, strip_prefix, trim, Bool-cases,
}
use ai_sre.Gitops.Image.{Yaml, RenderError, pilot_path, render, validate_change, split_inclusive}
use ai_sre.Gitops.Receipt.{ReceiptWire}
use ai_sre.Gitops.Candidate.{
  ManualRepairRequest, EvidenceCitation, Change, CandidateWire, CandidateCodec, safe_id,
  valid_evidence_digest, old_image, build_line, build_change, is_valid_change, single_change,
  changes, build_rendered, build, binds_handoff, binds_snapshot, candidate_of,
}

module _ (codec : CandidateCodec) (yaml : Yaml) (request : ManualRepairRequest)
    (qualified : ReceiptWire) (citations : List EvidenceCitation) where
  -- a candidate for the request's incident, run, base and source, with the qualified image
  pub record IsBound (wire : CandidateWire) : Type 0 where
    handoff :
        binds_handoff codec wire
          (record { incident_id = request.incident_id; run_id = request.run_id })
          request.expected_base
        ≡ true
    image_qualified : wire.image ≡ qualified.image
    after : Text
    rendered : render yaml request.source qualified.image ≡ ok after
    snapshot : binds_snapshot codec yaml wire request.expected_base request.source after ≡ true

  abbrev AreBound : Option CandidateWire → Type 0
  AreBound none = Unit
  AreBound (some wire) = IsBound wire

  candidate-IsBound :
      (change : Change) (after : Text)
      → render yaml request.source qualified.image ≡ ok after
      → IsBound (candidate_of codec request qualified citations change)
  unfolding candidate_of binds_handoff binds_snapshot
  candidate-IsBound change after e = record {
    handoff =
        rw
          (
            same_text_refl request.expected_base,
            same_text_refl (codec.digest request.incident_id),
            same_text_refl (codec.digest request.run_id),
          )
          refl;
    image_qualified = refl;
    after = after;
    rendered = e;
    snapshot =
        rw
          (
            same_text_refl request.expected_base,
            same_text_refl (codec.digest request.source),
            e,
            same_text_refl after,
          )
          refl;
  }

  build_line-AreBound :
      (change : Change) (old : Option Text) (after : Text)
      → render yaml request.source qualified.image ≡ ok after
      → AreBound (build_line codec request qualified citations change old)
  unfolding build_line
  build_line-AreBound change none after e = tt
  build_line-AreBound change (some old) after e = candidate-IsBound change after e

  build_change-AreBound :
      (change : Option Change) (after : Text)
      → render yaml request.source qualified.image ≡ ok after
      → AreBound (build_change codec request qualified citations change)
  unfolding build_change
  build_change-AreBound none after e = tt
  build_change-AreBound (some change) after e =
      build_line-AreBound change
        (old_image codec.read_scalar (strip_prefix (text "image:") (trim change.before_line))) after
        e

  build_rendered-AreBound :
      (r : Result RenderError Text)
      → render yaml request.source qualified.image ≡ r
      → AreBound (build_rendered codec yaml request qualified citations r)
  unfolding build_rendered
  build_rendered-AreBound (err _) e = tt
  build_rendered-AreBound (ok after) e =
      elim (Bool-cases (
        is_valid_change codec (
          validate_change yaml request.expected_base request.current_base request.source after
            qualified.image (pilot_path ∷ [])))) [
              | inl k ↦
                  rw (k, build_rendered)
                    (build_change-AreBound
                      (single_change
                        (changes 0 (split_inclusive request.source) (split_inclusive after)))
                      after e)
              | inr k ↦ rw (k, build_rendered) tt
            ]

  build-AreBound : AreBound (build codec yaml request qualified citations)
  unfolding build
  build-AreBound =
      elim (Bool-cases (
        not (safe_id request.incident_id)
        || not (safe_id request.run_id)
        || not (valid_evidence_digest request.evidence_digest))) [
          | inl k ↦ rw (k, build) tt
          | inr k ↦
              rw (k, build)
                (build_rendered-AreBound (render yaml request.source qualified.image) refl)
        ]

  IsBound-of :
      (o : Option CandidateWire) (wire : CandidateWire) → o ≡ some wire → AreBound o → IsBound wire
  IsBound-of none wire e h = absurd (cc e)
  IsBound-of (some w) wire e h = subst IsBound (cc e) h

-- A candidate that is built is bound to the request: to its incident, its run and its base, to the
-- qualified image, and to the snapshot of its base whose original source is the request's and whose
-- changed source is the rendering of it with that image.
pub build-IsBound :
    (codec : CandidateCodec) (yaml : Yaml) (request : ManualRepairRequest) (qualified : ReceiptWire)
    (citations : List EvidenceCitation) (wire : CandidateWire)
    → build codec yaml request qualified citations ≡ some wire
    → IsBound codec yaml request qualified citations wire
build-IsBound codec yaml request qualified citations wire e =
    IsBound-of codec yaml request qualified citations (build codec yaml request qualified citations)
      wire e (build-AreBound codec yaml request qualified citations)
