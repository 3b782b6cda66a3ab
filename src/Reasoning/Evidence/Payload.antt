-- ===== src/Reasoning/Evidence/Payload.antt =====
-- src/reasoning/evidence.rs: the redaction of a payload. A JSON value is serde_json's, and its
-- reader and its printer are parameters.
use ai_sre.Prelude.{
  ℕ, ◌+◌, ◌-◌, ◌*◌, Bool, ◌&&◌, ◌||◌, Option, none, some, List, [], ◌∷◌, map, leb, ltb, ◌==◌,
  if◌then◌else◌, Text, text, utf8,
}
use ai_sre.Reasoning.Evidence.Redaction.{lower, starts_with, mark, redact_text}

mutual
  pub data Json : Type 0 where
    null : Json
    bool : Bool → Json
    number string : Text → Json
    array : Items → Json
    object : Fields → Json

  pub data Items : Type 0 where
    no_items : Items
    item : Json → Items → Items

  pub data Fields : Type 0 where
    no_fields : Fields
    field : Text → Json → Fields → Fields

-- `haystack.contains(needle)`, the needle in lower case and the case of the haystack aside
unfoldable pub contains : Text → Text → Bool
unfolding starts_with
contains needle [] = starts_with needle []
contains needle (c ∷ t) = starts_with needle (c ∷ t) || contains needle t

-- `replace(['-', '.'], "_")`
abbrev underscored : ℕ → ℕ
underscored c = if c == b'-' || c == b'.' then b'_' else c

unfoldable pub is_sensitive_key : Text → Bool
unfolding contains
is_sensitive_key key =
    let normalized = map underscored (map lower key) in
    contains (text "token") normalized
    || contains (text "secret") normalized
    || contains (text "password") normalized
    || contains (text "apikey") normalized
    || contains (text "api_key") normalized
    || contains (text "authorization") normalized
    || contains (text "credential") normalized
    || contains (text "private_key") normalized

unfoldable mutual
  unfolding is_sensitive_key redact_text

  pub redact_json : Json → Json
  redact_json null = null
  redact_json (bool b) = bool b
  redact_json (number n) = number n
  redact_json (string s) = string (redact_text s)
  redact_json (array items) = array (redact_items items)
  redact_json (object fields) = object (redact_fields fields)

  pub redact_items : Items → Items
  redact_items no_items = no_items
  redact_items (item v items) = item (redact_json v) (redact_items items)

  pub redact_fields : Fields → Fields
  redact_fields no_fields = no_fields
  redact_fields (field key v fields) =
      let child = redact_json v in
      field key (if is_sensitive_key key then string mark else child) (redact_fields fields)

-- how many bytes follow, the value so far, and the bounds of the next byte
pub record Pending : Type 0 where
  pub more : ℕ
  pub value : ℕ
  pub low : ℕ
  pub high : ℕ

pending : ℕ → ℕ → ℕ → ℕ → Pending
pending more value low high = record { more = more; value = value; low = low; high = high }

-- the bytes that may begin a character of several bytes
lead : ℕ → Option Pending
unfolding pending
lead b =
    if leb 0xc2 b && leb b 0xdf
    then some (pending 1 (b - 0xc0) 0x80 0xbf)
    else if b == 0xe0
    then some (pending 2 0 0xa0 0xbf)
    else if b == 0xed
    then some (pending 2 13 0x80 0x9f)
    else if leb 0xe1 b && leb b 0xef
    then some (pending 2 (b - 0xe0) 0x80 0xbf)
    else if b == 0xf0
    then some (pending 3 0 0x90 0xbf)
    else if leb 0xf1 b && leb b 0xf3
    then some (pending 3 (b - 0xf0) 0x80 0xbf)
    else if b == 0xf4
    then some (pending 3 4 0x80 0x8f)
    else none

abbrev cons_some : ℕ → Option Text → Option Text
cons_some c none = none
cons_some c (some t) = some (c ∷ t)

-- `String::from_utf8`: none waits for the first byte of a character
unfoldable pub decode_from : Option Pending → List ℕ → Option Text
unfolding lead pending
decode_from none [] = some []
decode_from (some p) [] = none
decode_from none (b ∷ bytes) =
    if ltb b 0x80
    then cons_some b (decode_from none bytes)
    else elim (lead b) [ none ↦ none | some p ↦ decode_from (some p) bytes ]
decode_from (some p) (b ∷ bytes) =
    let value = p.value * 64 + (b - 0x80) in
    if leb p.low b && leb b p.high
    then (if p.more == 1
        then cons_some value (decode_from none bytes)
        else decode_from (some (pending (p.more - 1) value 0x80 0xbf)) bytes)
    else none

unfoldable pub from_utf8 : List ℕ → Option Text
unfolding decode_from
from_utf8 bytes = decode_from none bytes

-- serde_json
pub record JsonText : Type 0 where
  pub from_str : Text → Option Json
  pub to_vec : Json → Option (List ℕ)

-- by the JSON value that the text holds
unfoldable pub redact_parsed : JsonText → Text → Option Json → List ℕ
unfolding redact_text redact_json utf8
redact_parsed json t none = utf8 (redact_text t)
redact_parsed json t (some value) = elim (json.to_vec (redact_json value)) [
  | some bytes ↦ bytes
  | none ↦ utf8 (redact_text t)
]

unfoldable pub redact_payload : JsonText → List ℕ → List ℕ
unfolding from_utf8 redact_parsed
redact_payload json payload = elim (from_utf8 payload) [
  | none ↦ text "[REDACTED_BINARY_PAYLOAD]"
  | some t ↦ redact_parsed json t (json.from_str t)
]
