-- ===== src/Reasoning/Evidence/Alike.antt =====
-- src/reasoning/evidence.rs: about JSON payloads that differ below sensitive keys.
use ai_sre.Prelude.{
  ℕ, ◌≡◌, ◌≢◌, refl, sym, ap, ◌∙◌, inl, inr, true, none, some, List, arith, Text, Option-cases,
}
use ai_sre.Reasoning.Evidence.Payload.{
  Json, array, object, Items, no_items, item, Fields, no_fields, field, is_sensitive_key,
  redact_json, redact_items, redact_fields, from_utf8, JsonText, redact_parsed, redact_payload,
}

-- The same value but for what stands at sensitive keys, at any depth.
mutual
  pub data Alike : Json → Json → Type 0 where
    same : (v : Json) → Alike v v
    arrays : {xs ys : Items} → AlikeItems xs ys → Alike (array xs) (array ys)
    objects : {xs ys : Fields} → AlikeFields xs ys → Alike (object xs) (object ys)

  pub data AlikeItems : Items → Items → Type 0 where
    no_more : AlikeItems no_items no_items
    more :
        {v w : Json} {xs ys : Items}
        → Alike v w
        → AlikeItems xs ys
        → AlikeItems (item v xs) (item w ys)

  pub data AlikeFields : Fields → Fields → Type 0 where
    last : AlikeFields no_fields no_fields
    hidden :
        (key : Text) (v w : Json) {xs ys : Fields}
        → is_sensitive_key key ≡ true
        → AlikeFields xs ys
        → AlikeFields (field key v xs) (field key w ys)
    shown :
        (key : Text) {v w : Json} {xs ys : Fields}
        → Alike v w
        → AlikeFields xs ys
        → AlikeFields (field key v xs) (field key w ys)

mutual
  unfolding redact_json redact_items redact_fields

  json-Alike : {v w : Json} → Alike v w → redact_json v ≡ redact_json w
  json-Alike (same v) = refl
  json-Alike (arrays h) = ap array (items-Alike h)
  json-Alike (objects h) = ap object (fields-Alike h)

  items-Alike : {xs ys : Items} → AlikeItems xs ys → redact_items xs ≡ redact_items ys
  items-Alike no_more = refl
  items-Alike (more h k) = cc (json-Alike h, items-Alike k)

  fields-Alike : {xs ys : Fields} → AlikeFields xs ys → redact_fields xs ≡ redact_fields ys
  fields-Alike last = refl
  fields-Alike (hidden key v w s h) = ground (arith, fields-Alike h)
  fields-Alike (shown key h k) = cc (json-Alike h, fields-Alike k)

redact_payload-json :
    (json : JsonText) (p : List ℕ) (s : Text) (v : Json) (bytes : List ℕ)
    → from_utf8 p ≡ some s
    → json.from_str s ≡ some v
    → json.to_vec (redact_json v) ≡ some bytes
    → redact_payload json p ≡ bytes
unfolding redact_payload redact_parsed
redact_payload-json json p s v bytes p_text s_json printed = ground (arith, p_text, s_json, printed)

-- Two payloads are redacted to the same bytes if they hold JSON values that differ only in what
-- stands at sensitive keys, at any depth: nothing of a value at such a key shows. The JSON printer
-- is one that prints every value.
pub redact_payload-Alike :
    (json : JsonText) (p q : List ℕ) (s t : Text) (v w : Json)
    → ((x : Json) → json.to_vec x ≢ none)
    → from_utf8 p ≡ some s
    → from_utf8 q ≡ some t
    → json.from_str s ≡ some v
    → json.from_str t ≡ some w
    → Alike v w
    → redact_payload json p ≡ redact_payload json q
redact_payload-Alike json p q s t v w total p_text q_text s_json t_json alike =
    elim (Option-cases (json.to_vec (redact_json w))) [
      | inl e ↦ absurd (total (redact_json w) e)
      | inr (bytes, e) ↦
          redact_payload-json json p s v bytes p_text s_json (ap json.to_vec (json-Alike alike) ∙ e)
          ∙ sym (redact_payload-json json q t w bytes q_text t_json e)
    ]
