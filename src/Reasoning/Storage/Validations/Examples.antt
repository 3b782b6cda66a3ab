-- ===== src/Reasoning/Storage/Validations/Examples.antt =====
-- src/reasoning/storage/manual_validation.rs: about concrete attempts.
use ai_sre.Prelude.{◌≡◌, ◌≢◌, refl, true, false, none, some, [], ◌∷◌, ok, text}
use ai_sre.Reasoning.Storage.{JournalStore, append_events}
use ai_sre.Reasoning.Storage.Durable.{validates, run}
use ai_sre.Reasoning.Storage.Tables.{no_reviews}
use ai_sre.Reasoning.Storage.Validations.{
  Hasher, reserve_manual_validation, recover_manual_validation, complete_manual_validation,
  manual_validation_attempt, validated,
}
use ai_sre.Reasoning.Storage.Validations.Recovered.{recovered_not_reserved}
use ai_sre.Reasoning.Storage.Validations.Steps.{reserves}

-- a hash that is the text itself, and requests that expire at the 100th second
abbrev hasher : Hasher
hasher = record {
  digest = λ t. t;
  read_request = λ t. some (record { issued_at = some 40; expires_at = some 100 });
}

abbrev store : JournalStore
store = record {
  codec = record { to_json = λ e. []; from_json = λ t. none };
  journal = [];
  rows = [];
  outbox = [];
  reports = [];
  markers = [];
  reviews = no_reviews;
  outcomes = [];
}

abbrev reserved_store : JournalStore
reserved_store = (reserve_manual_validation hasher store (text "a") (text "r")).0

-- too early, and then behind the expiry
recovered_late :
    ((recover_manual_validation hasher reserved_store (text "a") (text "r") 0 0 (text "lost") 100).1
      ≡ ok false)
    × ((recover_manual_validation hasher reserved_store
          (text "a")
          (text "r")
          0
          0
          (text "lost")
          101).1
        ≡ ok true)
unfolding reserve_manual_validation recover_manual_validation append_events
recovered_late = (refl, refl)

completed_attempt :
    let t =
      (complete_manual_validation hasher reserved_store
        (text "a")
        60
        (text "receipt")
        (text "r")
        none).0 in
    manual_validation_attempt t (text "a")
    ≡ some (record {
      state = validated;
      request_json = text "r";
      receipt_json = some (text "receipt");
    })
unfolding reserve_manual_validation complete_manual_validation append_events
    manual_validation_attempt
completed_attempt = refl

recovered_not_reserved_example :
    let t =
      run
        (recover_manual_validation hasher reserved_store
          (text "a")
          (text "r")
          0
          0
          (text "lost")
          101).0
        (validates hasher (reserves (text "a") (text "q")) ∷ []) in
    ((reserve_manual_validation hasher t (text "a") (text "r")).0 ≡ t)
    × ((reserve_manual_validation hasher t (text "a") (text "r")).1 ≢ ok true)
recovered_not_reserved_example =
    recovered_not_reserved hasher reserved_store (text "a") (text "r") 0 0 (text "lost") 101
      (validates hasher (reserves (text "a") (text "q")) ∷ []) recovered_late.1
