-- ===== src/Reasoning/Incident.antt =====
-- src/reasoning/incident.rs: alerts, their validation and their normalization.
pub mod Time
pub mod Identity
mod Examples
use Prim.Native.Nat.{bit_xor}
use ai_sre.Prelude.{
  ℕ, zero, suc, ◌+◌, ◌*◌, ◌/◌, ◌%◌, ◌^◌, Bool, true, false, not, ◌&&◌, ◌||◌, Option, none, some,
  List, [], ◌∷◌, ◌++◌, map, all, is_empty, ◌==◌, if◌then◌else◌, Text, text, is_blank, utf8,
  hex_digit,
}
use ai_sre.Prelude.Int.{ℤ}
use ai_sre.Prelude.Map
use ai_sre.Prelude.Map.{Map}
use Time.{parse_rfc3339_millis}

pub data AlertStatus : Type 0 where
  firing resolved : AlertStatus

pub record AlertSignal : Type 0 where
  pub status : AlertStatus
  pub fingerprint : Text
  pub labels : Map Text
  pub annotations : Map Text
  pub starts_at : Text
  pub ends_at : Text
  pub generator_url : Text

pub record AlertmanagerWebhook : Type 0 where
  pub version : Text
  pub group_key : Text
  pub truncated_alerts : ℕ
  pub status : Text
  pub receiver : Text
  pub group_labels : Map Text
  pub common_labels : Map Text
  pub common_annotations : Map Text
  pub external_url : Text
  pub alerts : List AlertSignal

pub record IncidentSignal : Type 0 where
  pub correlation_id : Text
  pub incident_id : Text
  pub episode : ℕ
  pub alert_name : Text
  pub status : AlertStatus
  pub labels : Map Text
  pub annotations : Map Text
  pub event_time : Text
  pub source_event_id : Text
  pub event_time_ms : Option ℤ

abbrev pub is_some {ℓ} : {A : Type ℓ} → Option A → Bool
is_some none = false
is_some (some _) = true

-- the timestamp that a status selects
abbrev pub event_time : AlertStatus → AlertSignal → Text
event_time firing a = a.starts_at
event_time resolved a = a.ends_at

unfoldable pub is_valid_alert : AlertSignal → Bool
is_valid_alert a =
    let timestamp = event_time a.status a in
    (not (is_blank a.fingerprint) || not (is_empty a.labels))
    && not (is_blank timestamp)
    && is_some (parse_rfc3339_millis timestamp)

unfoldable pub validate_webhook : AlertmanagerWebhook → Bool
unfolding is_valid_alert
validate_webhook w =
    w.truncated_alerts == 0 && not (is_empty w.alerts) && all is_valid_alert w.alerts

-- FNV-1a over the bytes of `key=value\n`, for each label in the order of the keys
abbrev pub fnv_byte : ℕ → ℕ → ℕ
fnv_byte hash byte = bit_xor hash byte * 0x100000001b3 % 2 ^ 64

fnv_bytes : ℕ → List ℕ → ℕ
fnv_bytes hash [] = hash
fnv_bytes hash (b ∷ bs) = fnv_bytes (fnv_byte hash b) bs

hash_labels : ℕ → Map Text → ℕ
unfolding fnv_bytes utf8
hash_labels hash [] = hash
hash_labels hash ((key, value) ∷ labels) =
    hash_labels (fnv_byte (fnv_bytes hash (utf8 key ++ 61 ∷ utf8 value)) 10) labels

-- the lowest digits of `{:x}`
hex_digits : ℕ → ℕ → Text
hex_digits zero h = []
hex_digits (suc n) h = hex_digits n (h / 16) ++ hex_digit (h % 16) ∷ []

unfoldable pub stable_label_hash : Map Text → Text
unfolding hash_labels hex_digits
stable_label_hash labels = hex_digits 16 (hash_labels 0xcbf29ce484222325 labels)

abbrev pub status_word : AlertStatus → Text
status_word firing = text "firing"
status_word resolved = text "resolved"

abbrev unwrap_or {ℓ} : {A : Type ℓ} → Option A → A → A
unwrap_or none d = d
unwrap_or (some a) d = a

unfoldable pub normalize : AlertSignal → IncidentSignal
normalize a =
    let identity = if is_blank a.fingerprint then stable_label_hash a.labels else a.fingerprint in
    let time = event_time a.status a in
    record {
      correlation_id = identity;
      incident_id = text "incident-" ++ identity;
      episode = 1;
      alert_name = unwrap_or (Map.get a.labels (text "alertname")) (text "unnamed-alert");
      status = a.status;
      labels = a.labels;
      annotations = a.annotations;
      event_time = time;
      source_event_id = identity ++ (text ":" ++ (status_word a.status ++ (text ":" ++ time)));
      event_time_ms = parse_rfc3339_millis time;
    }

unfoldable pub normalize_webhook : AlertmanagerWebhook → List IncidentSignal
normalize_webhook w = map normalize w.alerts
