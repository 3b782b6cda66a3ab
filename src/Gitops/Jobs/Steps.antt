-- ===== src/Gitops/Jobs/Steps.antt =====
-- src/gitops/sandbox/jobs.rs: about any sequence of calls on a job store.
use ai_sre.Prelude.{
  ◌≤◌, ◌≡◌, refl, ap, ◌∙◌, inl, inr, Bool, true, false, Option, none, some, List, [], ◌∷◌, Result,
  ok, err, length, leb, arith, if◌then◌else◌, Bool-cases, Text,
}
use ai_sre.Gitops.Jobs.Snapshot.{SandboxError, SnapshotLease}
use ai_sre.Gitops.Jobs.{
  JobStore, PendingJob, ActiveRow, claim_request, is_claimed, bind_runtime, bind_by, bind_new,
  begin, begin_with, begun, clear, clear_row, remember_container, remember_row,
}

pub data Call : Type 0 where
  claims : (nonce : Text) → (done : Bool) → Call
  binds : (identity : Text) → (done : Bool) → Call
  begins :
      (artifact snapshot image : Text)
      → (token : Option Text) → (lease : Result SandboxError SnapshotLease) → (done : Bool) → Call
  clears : (job : PendingJob) → (done : Bool) → Call
  remembers : (job : PendingJob) → (id : Text) → (done : Bool) → Call

unfoldable pub step : JobStore → Call → JobStore
step s (claims nonce done) = (claim_request s nonce done).0
step s (binds identity done) = (bind_runtime s identity done).0
step s (begins artifact snapshot image token lease done) =
    (begin s artifact snapshot image token lease done).0
step s (clears job done) = (clear s job done).0
step s (remembers job id done) = (remember_container s job id done).0

unfoldable pub run : JobStore → List Call → JobStore
unfolding step
run s [] = s
run s (c ∷ cs) = run (step s c) cs

-- What a store has once recorded stays, and the sequence never falls.
pub record Keeps (s t : JobStore) : Type 0 where
  pub claims_kept :
      (nonce : Text) → is_claimed nonce s.requests ≡ true → is_claimed nonce t.requests ≡ true
  pub runtime_kept : (identity : Text) → s.runtime ≡ some identity → t.runtime ≡ some identity
  pub same_namespace : t.namespace ≡ s.namespace
  pub sequence_le : s.sequence ≤ t.sequence

Keeps-same :
    (s t : JobStore)
    → t.requests ≡ s.requests
    → t.runtime ≡ s.runtime
    → t.namespace ≡ s.namespace
    → s.sequence ≤ t.sequence
    → Keeps s t
Keeps-same s t r u n l = record {
  claims_kept = λ nonce h. ap (is_claimed nonce) r ∙ h;
  runtime_kept = λ identity h. u ∙ h;
  same_namespace = n;
  sequence_le = l;
}

pub Keeps-refl : (s : JobStore) → Keeps s s
Keeps-refl s = Keeps-same s s refl refl refl (omega arith)

pub Keeps-trans : (s t u : JobStore) → Keeps s t → Keeps t u → Keeps s u
Keeps-trans s t u h k = record {
  claims_kept = λ nonce e. k.claims_kept nonce (h.claims_kept nonce e);
  runtime_kept = λ identity e. k.runtime_kept identity (h.runtime_kept identity e);
  same_namespace = k.same_namespace ∙ h.same_namespace;
  sequence_le = omega (arith, h.sequence_le, k.sequence_le);
}

-- either branch of a test
Keeps-if :
    {A : Type 0} (s : JobStore) (b : Bool) (p q : JobStore × A)
    → Keeps s p.0
    → Keeps s q.0
    → Keeps s (if b then p else q).0
Keeps-if s true p q h k = h
Keeps-if s false p q h k = k

claimed-Keeps : (s : JobStore) (nonce : Text) → Keeps s (record s { requests = nonce ∷ s.requests })
claimed-Keeps s nonce = record {
  claims_kept = λ m h. ground (arith, h);
  runtime_kept = λ identity h. h;
  same_namespace = refl;
  sequence_le = omega arith;
}

claim-Keeps : (s : JobStore) (nonce : Text) (done : Bool) → Keeps s (claim_request s nonce done).0
unfolding claim_request
claim-Keeps s nonce done = elim (Bool-cases (leb 4096 (length s.requests))) [
  | inl full ↦ rw (full, claim_request) (Keeps-refl s)
  | inr room ↦ rw (room, claim_request) (Keeps-if s _ _ _ (Keeps-refl s) (claimed-Keeps s nonce))
]

bound-Keeps :
    (s : JobStore) (identity : Text)
    → s.runtime ≡ none
    → Keeps s (record s { runtime = some identity })
bound-Keeps s identity e = record {
  claims_kept = λ m h. h;
  runtime_kept = λ i h. cc;
  same_namespace = refl;
  sequence_le = omega arith;
}

bind_new-Keeps :
    (s : JobStore) (identity : Text) (done : Bool) (row : Option ActiveRow)
    → s.runtime ≡ none
    → Keeps s (bind_new s identity done row).0
unfolding bind_new
bind_new-Keeps s identity done (some row) e = Keeps-refl s
bind_new-Keeps s identity done none e = Keeps-if s _ _ _ (bound-Keeps s identity e) (Keeps-refl s)

bind_by-Keeps :
    (s : JobStore) (identity : Text) (done : Bool) (o : Option Text)
    → s.runtime ≡ o
    → Keeps s (bind_by s identity done o).0
unfolding bind_by
bind_by-Keeps s identity done (some stored) e = Keeps-if s _ _ _ (Keeps-refl s) (Keeps-refl s)
bind_by-Keeps s identity done none e = bind_new-Keeps s identity done s.active e

module _ (s : JobStore) (artifact snapshot image : Text) where
  begun-Keeps :
      (job : PendingJob) (done : Bool) (row : Option ActiveRow)
      → Keeps s (begun s artifact snapshot image job done row).0
  unfolding begun
  begun-Keeps job done (some row) = Keeps-refl s
  begun-Keeps job done none =
      Keeps-if s _ _ _ (Keeps-same s _ refl refl refl (omega arith)) (Keeps-refl s)

  begin_with-Keeps :
      (token : Option Text) (lease : Result SandboxError SnapshotLease) (done : Bool)
      → Keeps s (begin_with s artifact snapshot image token lease done).0
  unfolding begin_with
  begin_with-Keeps none lease done = Keeps-refl s
  begin_with-Keeps (some token) (err e) done = Keeps-refl s
  begin_with-Keeps (some token) (ok lease) done = begun-Keeps _ done s.active

  begin-Keeps :
      (token : Option Text) (lease : Result SandboxError SnapshotLease) (done : Bool)
      → Keeps s (begin s artifact snapshot image token lease done).0
  unfolding begin
  begin-Keeps token lease done = Keeps-if s _ _ _ (Keeps-refl s) (begin_with-Keeps token lease done)

clear-Keeps :
    (s : JobStore) (job : PendingJob) (done : Bool) (row : Option ActiveRow)
    → Keeps s (clear_row s job done row).0
unfolding clear_row
clear-Keeps s job done none = Keeps-refl s
clear-Keeps s job done (some row) =
    Keeps-if s _ _ _ (Keeps-same s _ refl refl refl (omega arith)) (Keeps-refl s)

remember-Keeps :
    (s : JobStore) (job : PendingJob) (id : Text) (done : Bool) (row : Option ActiveRow)
    → Keeps s (remember_row s job id done row).0
unfolding remember_row
remember-Keeps s job id done none = Keeps-refl s
remember-Keeps s job id done (some row) =
    Keeps-if s _ _ _ (Keeps-same s _ refl refl refl (omega arith)) (Keeps-refl s)

pub step-Keeps : (s : JobStore) (c : Call) → Keeps s (step s c)
unfolding step
step-Keeps s (claims nonce done) = claim-Keeps s nonce done
step-Keeps s (binds identity done) =
    unfold bind_runtime in bind_by-Keeps s identity done s.runtime refl
step-Keeps s (begins artifact snapshot image token lease done) =
    begin-Keeps s artifact snapshot image token lease done
step-Keeps s (clears job done) = unfold clear in clear-Keeps s job done s.active
step-Keeps s (remembers job id done) =
    unfold remember_container in remember-Keeps s job id done s.active

pub run-Keeps : (s : JobStore) (cs : List Call) → Keeps s (run s cs)
unfolding run
run-Keeps s [] = Keeps-refl s
run-Keeps s (c ∷ cs) = Keeps-trans s (step s c) _ (step-Keeps s c) (run-Keeps (step s c) cs)
