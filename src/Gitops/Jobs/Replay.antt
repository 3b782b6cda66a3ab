-- ===== src/Gitops/Jobs/Replay.antt =====
-- src/gitops/sandbox/jobs.rs: about the requests that a store has claimed.
use ai_sre.Prelude.{◌≡◌, ◌≢◌, Bool, true, List, ok, arith, Text, same_text_refl}
use ai_sre.Gitops.Jobs.{JobStore, claim_request, is_claimed}
use ai_sre.Gitops.Jobs.Steps.{Call, run, run-Keeps}

claimed_by :
    (s : JobStore) (nonce : Text) (done : Bool)
    → (claim_request s nonce done).1 ≡ ok tt
    → is_claimed nonce (claim_request s nonce done).0.requests ≡ true
unfolding claim_request
claimed_by s nonce done e = ground (arith, same_text_refl nonce)

claimed-refused :
    (t : JobStore) (nonce : Text) (done : Bool)
    → is_claimed nonce t.requests ≡ true
    → ((claim_request t nonce done).0 ≡ t) × ((claim_request t nonce done).1 ≢ ok tt)
unfolding claim_request
claimed-refused t nonce done h = ground arith

-- A request that was claimed is never claimed again: whatever is called in between and however it
-- ends, a second claim of the same nonce is refused and changes nothing.
pub claim_request_once :
    (s : JobStore) (nonce : Text) (done done' : Bool) (cs : List Call)
    → (claim_request s nonce done).1 ≡ ok tt
    → let t = run (claim_request s nonce done).0 cs in
      ((claim_request t nonce done').0 ≡ t) × ((claim_request t nonce done').1 ≢ ok tt)
claim_request_once s nonce done done' cs e =
    let claimed = (claim_request s nonce done).0 in
    claimed-refused (run claimed cs) nonce done'
      ((run-Keeps claimed cs).claims_kept nonce (claimed_by s nonce done e))
