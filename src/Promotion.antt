-- ===== src/Promotion.antt =====
-- src/domain/promotion.rs: promotion manifests and their shape. The hash and the JSON encoding of a
-- payload are parameters.
pub mod Policy
use ai_sre.Prelude.{
  ℕ, Bool, true, false, not, ◌&&◌, ◌||◌, Option, none, some, List, [], ◌∷◌, ◌++◌, Result, ok, err,
  any, all, length, ◌==◌, if◌then◌else◌, Text, text, same_text, strip_prefix, is_blank, utf8,
  is_ascii_hexdigit, hex,
}
use ai_sre.Prelude.Int.{ℤ, ltb_ℤ}

pub data Gate : Type 0 where
  a b c : Gate

-- what the digest is computed from
pub record Payload : Type 0 where
  pub schema : Text
  pub gate : Gate
  pub predecessor_digest : Option Text
  pub corpus_digest : Text
  pub results_digest : Text
  pub policy_version : Text
  pub config_version : Text
  pub binary_digest : Text
  pub issued_at : ℤ
  pub expires_at : ℤ
  pub key_id : Text
  pub generation : ℕ
  pub revoked : Bool

-- a manifest is its payload and the digest that is written beside it
pub record PromotionManifest : Type 0 where
  pub payload : Payload
  pub manifest_digest : Text

pub data PromotionError : Type 0 where
  invalid_fields not_current untrusted_signature binding_mismatch invalid_predecessor :
      PromotionError

abbrev pub digest_mark : Text
digest_mark = text "sha256:"

unfoldable pub valid_digest : Text → Bool
valid_digest value = elim (strip_prefix digest_mark value) [
  | none ↦ false
  | some h ↦ length (utf8 h) == 64 && all is_ascii_hexdigit (utf8 h)
]

-- the predecessor that a gate must name
valid_predecessor : Gate → Option Text → Bool
unfolding valid_digest
valid_predecessor a none = true
valid_predecessor a (some _) = false
valid_predecessor _ (some value) = valid_digest value
valid_predecessor _ none = false

-- `fields`
abbrev fields : PromotionManifest → List Text
fields m =
    m.payload.schema ∷ m.manifest_digest ∷ m.payload.corpus_digest ∷ m.payload.results_digest
    ∷ m.payload.policy_version ∷ m.payload.config_version ∷ m.payload.binary_digest
    ∷ m.payload.key_id ∷ []

module _ (sha256 : List ℕ → List ℕ) (to_vec : Payload → List ℕ) where
  unfoldable pub derived_digest : PromotionManifest → Text
  derived_digest m = digest_mark ++ hex (sha256 (to_vec m.payload))

  unfoldable pub validate_shape : PromotionManifest → Result PromotionError (Unit {0})
  unfolding derived_digest valid_predecessor
  validate_shape m =
      if not (same_text m.payload.schema (text "KTD21/v1"))
        || any is_blank (fields m)
        || not (ltb_ℤ m.payload.issued_at m.payload.expires_at)
        || m.payload.generation == 0
        || not (same_text m.manifest_digest (derived_digest m))
        || not (valid_digest m.payload.corpus_digest)
        || not (valid_digest m.payload.results_digest)
        || not (valid_digest m.payload.binary_digest)
      then err invalid_fields
      else if valid_predecessor m.payload.gate m.payload.predecessor_digest
      then ok tt
      else err invalid_predecessor
