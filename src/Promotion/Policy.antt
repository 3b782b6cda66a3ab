-- ===== src/Promotion/Policy.antt =====
-- src/policy/promotion.rs: the admission of a verified manifest.
pub mod Admissible
pub mod Shadow
mod Examples
use ai_sre.Prelude.{
  ℕ, Bool, true, false, not, ◌&&◌, ◌||◌, Option, none, some, List, [], ◌∷◌, Result, ok, err, any,
  ◌==◌, if◌then◌else◌, Text, same_text,
}
use ai_sre.Prelude.Int.{ℤ, ltb_ℤ, leb_ℤ}
use ai_sre.Promotion.{
  Gate, a, b, c, Payload, PromotionManifest, PromotionError, not_current, untrusted_signature,
  binding_mismatch, invalid_predecessor, validate_shape,
}

pub record RuntimeBinding : Type 0 where
  pub binary_digest : Text
  pub policy_version : Text
  pub config_version : Text
  pub corpus_digest : Text
  pub generation : ℕ
  pub revoked_key_ids : List Text

pub record AdmittedGate : Type 0 where
  pub gate : Gate
  pub digest : Text

abbrev is_revoked : PromotionManifest → RuntimeBinding → Bool
is_revoked m bind =
    m.payload.revoked || any (λ key. same_text key m.payload.key_id) bind.revoked_key_ids

abbrev is_outside : PromotionManifest → ℤ → Bool
is_outside m now = ltb_ℤ now m.payload.issued_at || leb_ℤ m.payload.expires_at now

abbrev is_unbound : PromotionManifest → RuntimeBinding → Bool
is_unbound m bind =
    not (same_text m.payload.binary_digest bind.binary_digest)
    || not (same_text m.payload.policy_version bind.policy_version)
    || not (same_text m.payload.config_version bind.config_version)
    || not (same_text m.payload.corpus_digest bind.corpus_digest)
    || not (m.payload.generation == bind.generation)

abbrev is_gate_a : Gate → Bool
is_gate_a a = true
is_gate_a _ = false

-- `manifest.predecessor_digest.as_deref() == Some(previous.digest.as_str())`
abbrev names : Option Text → Text → Bool
names none digest = false
names (some value) digest = same_text value digest

-- the `match` on the gate and its predecessor
follows : Gate → Option Text → Option AdmittedGate → Bool
follows a named none = true
follows a named (some _) = false
follows _ named (some previous) = is_gate_a previous.gate && names named previous.digest
follows _ named none = false

module _ (sha256 : List ℕ → List ℕ) (to_vec : Payload → List ℕ) where
  unfoldable pub admit :
      PromotionManifest
      → RuntimeBinding
      → ℤ
      → Option AdmittedGate
      → Result PromotionError AdmittedGate
  unfolding follows
  admit m bind now predecessor = elim (validate_shape sha256 to_vec m) [
    | err e ↦ err e
    | ok _ ↦
        if is_revoked m bind
        then err untrusted_signature
        else if is_outside m now
        then err not_current
        else if is_unbound m bind
        then err binding_mismatch
        else if follows m.payload.gate m.payload.predecessor_digest predecessor
        then ok (record { gate = m.payload.gate; digest = m.manifest_digest })
        else err invalid_predecessor
  ]

unfoldable pub shadow_only : Result PromotionError AdmittedGate → Bool
shadow_only (ok _) = false
shadow_only (err _) = true
