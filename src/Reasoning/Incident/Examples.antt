-- ===== src/Reasoning/Incident/Examples.antt =====
-- src/reasoning/incident.rs: runs at concrete alerts and timestamps.
use ai_sre.Prelude.{◌≡◌, refl, true, none, some, [], ◌∷◌, All, arith, text, utf8}
use ai_sre.Prelude.Int.{pos, negsuc, ◌+ℤ◌, ◌-ℤ◌, ◌*ℤ◌, div_euclid}
use ai_sre.Reasoning.Incident.{
  AlertSignal, AlertmanagerWebhook, firing, validate_webhook, normalize, normalize_webhook,
  stable_label_hash,
}
use ai_sre.Reasoning.Incident.Identity.{IsReady, normalize_webhook-IsReady}
use ai_sre.Reasoning.Incident.Time.{parse_rfc3339_millis, digits}
use ai_sre.Reasoning.Incident.Time.Calendar.{days_from_civil, days_of_shifted, day_limit}
use ai_sre.Reasoning.Incident.Time.Succession.{Date, day_number, next_date, day_number-next_date}
use ai_sre.Prelude.Decimal.{parse}

epoch_text : parse_rfc3339_millis (text "1970-01-01T00:00:00Z") ≡ some (pos 0)
unfolding parse_rfc3339_millis digits days_from_civil parse ◌+ℤ◌ ◌-ℤ◌ ◌*ℤ◌ div_euclid
    days_of_shifted utf8
epoch_text = refl

-- an offset and a fraction
offset_text : parse_rfc3339_millis (text "2026-08-10T12:00:00.25+02:00") ≡ some (pos 1786356000250)
unfolding parse_rfc3339_millis digits days_from_civil parse ◌+ℤ◌ ◌-ℤ◌ ◌*ℤ◌ div_euclid
    days_of_shifted utf8
offset_text = refl

before_epoch : parse_rfc3339_millis (text "1969-12-31T23:59:59Z") ≡ some (negsuc 999)
unfolding parse_rfc3339_millis digits days_from_civil parse ◌+ℤ◌ ◌-ℤ◌ ◌*ℤ◌ div_euclid
    days_of_shifted utf8
before_epoch = refl

no_such_day : parse_rfc3339_millis (text "2025-02-29T00:00:00Z") ≡ none
unfolding parse_rfc3339_millis digits days_from_civil parse ◌+ℤ◌ ◌-ℤ◌ ◌*ℤ◌ div_euclid
    days_of_shifted utf8
no_such_day = refl

abbrev leap_day : Date
leap_day = record { year = 2024; month = 2; day = 29 }

leap_day_number : day_number leap_day ≡ some (pos 19782)
unfolding days_from_civil ◌+ℤ◌ ◌-ℤ◌ ◌*ℤ◌ div_euclid days_of_shifted
leap_day_number = refl

day_number-next_date_example : day_number (next_date 29 leap_day) ≡ some (pos 19782 +ℤ pos 1)
unfolding day_limit
day_number-next_date_example =
    day_number-next_date leap_day 29 (pos 19782) (omega arith) (omega arith) refl leap_day_number

abbrev alert : AlertSignal
alert = record {
  status = firing;
  fingerprint = text "abc123";
  labels = (text "alertname", text "PodDown") ∷ [];
  annotations = [];
  starts_at = text "2026-08-10T12:00:00Z";
  ends_at = [];
  generator_url = [];
}

abbrev webhook : AlertmanagerWebhook
webhook = record {
  version = text "4";
  group_key = [];
  truncated_alerts = 0;
  status = text "firing";
  receiver = [];
  group_labels = [];
  common_labels = [];
  common_annotations = [];
  external_url = [];
  alerts = alert ∷ [];
}

webhook_valid : validate_webhook webhook ≡ true
unfolding validate_webhook parse_rfc3339_millis digits days_from_civil parse ◌+ℤ◌ ◌-ℤ◌ ◌*ℤ◌
    div_euclid days_of_shifted utf8
webhook_valid = refl

normalize_webhook-IsReady_example : All IsReady (normalize_webhook webhook)
normalize_webhook-IsReady_example = normalize_webhook-IsReady webhook webhook_valid

source_event : (normalize alert).source_event_id ≡ text "abc123:firing:2026-08-10T12:00:00Z"
unfolding normalize
source_event = refl

-- FNV-1a of `a=b`, with its newline
label_hash : stable_label_hash ((text "a", text "b") ∷ []) ≡ text "ec8b8c82c37596fb"
unfolding stable_label_hash
label_hash = refl
