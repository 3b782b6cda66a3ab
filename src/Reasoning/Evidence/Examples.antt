-- ===== src/Reasoning/Evidence/Examples.antt =====
-- src/reasoning/evidence.rs: about concrete texts, payloads and boards.
use ai_sre.Prelude.{
  ℕ, ◌≡◌, ◌<◌, refl, arith, true, false, Option, none, some, List, [], ◌∷◌, ◌++◌, length,
  is_ascii_digit, all, if◌then◌else◌, Text, text,
}
use ai_sre.Reasoning.Journal.{grafana_logs}
use ai_sre.Reasoning.Evidence.{EvidenceMetadata, complete, commit_with_metadata}
use ai_sre.Reasoning.Evidence.Alike.{objects, hidden, last, redact_payload-Alike}
use ai_sre.Reasoning.Evidence.Board.{
  IsBoard, Request, run, run-IsBoard, no_records-IsBoard, Commits, commit-Commits,
}
use ai_sre.Reasoning.Evidence.Payload.{
  Json, null, bool, number, string, array, object, Items, no_items, item, Fields, no_fields, field,
  JsonText, from_utf8, redact_payload, is_sensitive_key,
}
use ai_sre.Reasoning.Evidence.Redaction.{round, redact_text, redact_from}
use ai_sre.Reasoning.Evidence.Redaction.Ends.{redact_at, redact_from-Ends}
use ai_sre.Reasoning.Evidence.Redaction.Hides.{IsAssignment, redact_at-hides_value}

redact_assignment :
    redact_text (text "GET /x?token=abc&y Authorization: Basic x y")
    ≡ text "GET /x?token=[REDACTED] Authorization: [REDACTED]"
unfolding redact_text
redact_assignment = refl

redact_quotes :
    redact_text (text "PassWord = \"a b\", bearer  qq z")
    ≡ text "PassWord = \"[REDACTED]\", bearer  [REDACTED] z"
unfolding redact_text
redact_quotes = refl

-- A quoted key is no assignment, since a quote stands before the colon.
redact_quoted_key : redact_text (text "{\"token\":\"abc\"}") ≡ text "{\"token\":\"abc\"}"
unfolding redact_text
redact_quoted_key = refl

redact_from-Ends_example :
    let r = round none b'a' (text " secret=x") in
    (redact_from 20 none (text "a secret=x") ≡ r.written ++ redact_at r.before r.rest)
    × (length r.rest < length (text "a secret=x"))
redact_from-Ends_example = redact_from-Ends 20 none b'a' (text " secret=x") (omega arith)

token-IsAssignment : IsAssignment 8 false (text "Token") (text " ") b'=' []
token-IsAssignment = record { listed = refl; spaced = (refl, tt); separated = refl; spaced' = tt }

redact_at-hides_value_example :
    redact_at none (text "Token =abc&d rest")
    ≡ text "Token =" ++ text "[REDACTED]" ++ redact_at none (text " rest")
redact_at-hides_value_example =
    redact_at-hides_value 8 false (text "Token") (text " ") b'=' [] token-IsAssignment none b'a'
      (text "bc&d") (text " rest") refl refl refl (ground arith) refl

-- A reader of digits, as the token of an object, and a printer without escapes.
read_token : Text → Option Json
read_token t =
    if all is_ascii_digit t
    then some (object (field (text "api-token") (number t) no_fields))
    else none

mutual
  printed : Json → List ℕ
  printed null = text "null"
  printed (bool true) = text "true"
  printed (bool false) = text "false"
  printed (number n) = n
  printed (string s) = b'"' ∷ s ++ text "\""
  printed (array items) = b'[' ∷ printed_items items ++ text "]"
  printed (object fields) = b'{' ∷ printed_fields fields ++ text "}"

  printed_items : Items → List ℕ
  printed_items no_items = []
  printed_items (item v items) = printed v ++ b',' ∷ printed_items items

  printed_fields : Fields → List ℕ
  printed_fields no_fields = []
  printed_fields (field key v fields) = key ++ b':' ∷ printed v ++ b',' ∷ printed_fields fields

abbrev plain_json : JsonText
plain_json = record { from_str = read_token; to_vec = λ v. some (printed v) }

redact_payload-Alike_example :
    redact_payload plain_json (text "123") ≡ redact_payload plain_json (text "45")
unfolding read_token from_utf8 is_sensitive_key
redact_payload-Alike_example =
    redact_payload-Alike plain_json (text "123") (text "45") (text "123") (text "45")
      (object (field (text "api-token") (number (text "123")) no_fields))
      (object (field (text "api-token") (number (text "45")) no_fields)) (λ x e. cc) refl refl refl
      refl
      (objects (hidden (text "api-token") (number (text "123")) (number (text "45")) refl last))

abbrev whole : EvidenceMetadata
whole = record { status = complete; freshness_ms = none; truncated = false; error = none }

abbrev request : Request
request = record {
  source = grafana_logs;
  query = text "{app=\"api\"}";
  payload = text "password: x";
  metadata = whole;
}

run-IsBoard_example : IsBoard (run plain_json [] (request ∷ request ∷ []))
run-IsBoard_example = run-IsBoard plain_json [] (request ∷ request ∷ []) no_records-IsBoard

commit-Commits_example :
    let before = run plain_json [] (request ∷ []) in
    Commits plain_json before grafana_logs
      (text "up")
      (text "123")
      whole
      (commit_with_metadata plain_json before grafana_logs (text "up") (text "123") whole)
commit-Commits_example =
    commit-Commits plain_json (run plain_json [] (request ∷ [])) grafana_logs (text "up")
      (text "123") whole (run-IsBoard plain_json [] (request ∷ []) no_records-IsBoard)
