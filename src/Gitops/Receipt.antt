-- ===== src/Gitops/Receipt.antt =====
-- src/gitops/receipt.rs: the receipt of a deployment and the checks of its fields, with those of
-- src/gitops/validate.rs and src/gitops/it_tools_image.rs. Every field text is a list of bytes.
use ai_sre.Prelude.{
  ℕ, ◌-◌, ◌^◌, Bool, false, not, ◌&&◌, ◌||◌, Option, none, some, List, Result, ok, err, all, length,
  is_empty, leb, ltb, ◌==◌, if◌then◌else◌, Text, text, same_text, strip_prefix, utf8,
  is_ascii_digit,
}
use ai_sre.Gitops.Health.{ObservationPolicy, HealthSample}

pub record ReceiptWire : Type 0 where
  pub schema : Text
  pub repository : Text
  pub service : Text
  pub deployment_id : Text
  pub commit : Text
  pub image : Text
  pub observed_commit : Text
  pub observed_image : Text
  pub completed_at : ℕ
  pub policy_declared_at : ℕ
  pub policy : ObservationPolicy
  pub samples : List HealthSample
  pub deployment_succeeded : Bool
  pub revoked : Bool

pub data ReceiptError : Type 0 where
  unprotected invalid_fields : ReceiptError

abbrev is_lower_hex : ℕ → Bool
is_lower_hex b = is_ascii_digit b || (leb 97 b && leb b 102)

unfoldable pub valid_sha : Text → Bool
unfolding utf8
valid_sha value =
    let bytes = utf8 value in (length bytes == 40 || length bytes == 64) && all is_lower_hex bytes

-- the digest behind the fixed repository
unfoldable pub image_digest : Option Text → Bool
unfolding utf8
image_digest none = false
image_digest (some hex) = length (utf8 hex) == 64 && all is_lower_hex (utf8 hex)

unfoldable pub valid_image : Text → Bool
unfolding image_digest
valid_image image = image_digest (strip_prefix (text "ghcr.io/corentinth/it-tools@sha256:") image)

abbrev pub is_id_byte : ℕ → Bool
is_id_byte b =
    is_ascii_digit b || (leb 65 b && leb b 90) || (leb 97 b && leb b 122) || b == b'-' || b == b'_'

abbrev pub bad_id : Text → Bool
bad_id id = is_empty id || ltb 128 (length (utf8 id)) || not (all is_id_byte (utf8 id))

unfoldable pub validate_shape : ReceiptWire → Result ReceiptError (Unit {0})
unfolding valid_sha valid_image utf8
validate_shape w =
    if not (same_text w.schema (text "ai-sre/deployment-receipt/v1"))
      || not (same_text w.repository (text "bodhispace-xyz/bodhispace-homelab"))
      || not (same_text w.service (text "utility/it-tools"))
      || bad_id w.deployment_id
      || not (valid_sha w.commit)
      || not (valid_sha w.observed_commit)
      || not (valid_image w.image)
      || not (valid_image w.observed_image)
      || ltb (2 ^ 63 - 1) w.completed_at
      || ltb 10000 (length w.samples)
    then err invalid_fields
    else ok tt
