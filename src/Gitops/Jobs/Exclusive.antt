-- ===== src/Gitops/Jobs/Exclusive.antt =====
-- src/gitops/sandbox/jobs.rs: about the one job that a store holds.
use ai_sre.Prelude.{
  ◌≡◌, ◌≢◌, refl, sym, ap, ◌∙◌, inl, inr, Bool, true, false, ◌&&◌, Option, none, some, List, [],
  ◌∷◌, Result, ok, err, leb, arith, Bool-cases, All, subst, Text, same_text, same_text_refl,
  same_text_iff,
}
use ai_sre.Gitops.Jobs.Snapshot.{SandboxError, SnapshotLease, unavailable}
use ai_sre.Gitops.Jobs.{
  JobStore, PendingJob, ActiveRow, claim_request, bind_runtime, bind_by, bind_new, begin,
  begin_with, begun, clear, clear_row, remember_container, remember_row, is_of, i64_max, may_be,
}
use ai_sre.Gitops.Jobs.Steps.{Call, claims, binds, begins, clears, remembers, step, run}

-- the store's job has the name and the token of this one
pub record IsHeld (job : PendingJob) (s : JobStore) : Type 0 where
  pub row : ActiveRow
  pub is_active : s.active ≡ some row
  pub same_job : is_of job row ≡ true

-- the call does not clear the job
abbrev pub Spares : PendingJob → Call → Type 0
Spares job (clears other done) =
    (same_text other.name job.name && same_text other.token job.token) ≡ false
Spares job (claims _ _) = Unit
Spares job (binds _ _) = Unit
Spares job (begins _ _ _ _ _ _) = Unit
Spares job (remembers _ _ _) = Unit

IsHeld-same :
    (job : PendingJob) (s t : JobStore) → t.active ≡ s.active → IsHeld job s → IsHeld job t
IsHeld-same job s t e h = record { row = h.row; is_active = e ∙ h.is_active; same_job = h.same_job }

active-claim :
    (s : JobStore) (nonce : Text) (done : Bool) → (claim_request s nonce done).0.active ≡ s.active
unfolding claim_request
active-claim s nonce done = ground arith

active-bind :
    (s : JobStore) (identity : Text) (done : Bool) (o : Option Text) (row : Option ActiveRow)
    → s.active ≡ row
    → (bind_by s identity done o).0.active ≡ s.active
unfolding bind_by bind_new
active-bind s identity done o row e = ground arith

-- A begun job is refused while another is active.
begun-Excludes :
    (s : JobStore) (artifact snapshot image : Text) (job : PendingJob) (done : Bool)
    (o : Option ActiveRow) (row : ActiveRow)
    → o ≡ some row
    → begun s artifact snapshot image job done o ≡ (s, err unavailable)
unfolding begun
begun-Excludes s artifact snapshot image job done none row e = cc
begun-Excludes s artifact snapshot image job done (some _) row e = refl

-- The beginning is refused, and changes nothing.
abbrev pub Refuses : JobStore → JobStore × Result SandboxError PendingJob → Type 0
Refuses s p = (p.0 ≡ s) × ((job : PendingJob) → p.1 ≢ ok job)

begin_with-Refuses :
    (s : JobStore) (artifact snapshot image : Text) (token : Option Text)
    (lease : Result SandboxError SnapshotLease) (done : Bool) (row : ActiveRow)
    → s.active ≡ some row
    → Refuses s (begin_with s artifact snapshot image token lease done)
unfolding begin_with
begin_with-Refuses s artifact snapshot image none lease done row e = (refl, λ j k. cc)
begin_with-Refuses s artifact snapshot image (some token) (err why) done row e = (refl, λ j k. cc)
begin_with-Refuses s artifact snapshot image (some token) (ok lease) done row e =
    rw (begun-Excludes s artifact snapshot image _ done s.active row e) (refl, λ j k. cc)

begin-Refuses :
    (s : JobStore) (artifact snapshot image : Text) (token : Option Text)
    (lease : Result SandboxError SnapshotLease) (done : Bool) (row : ActiveRow)
    → s.active ≡ some row
    → Refuses s (begin s artifact snapshot image token lease done)
unfolding begin
begin-Refuses s artifact snapshot image token lease done row e =
    elim (Bool-cases (leb i64_max s.sequence)) [
      | inl f ↦ rw (f, begin) (refl, λ j k. cc)
      | inr f ↦ rw (f, begin) (begin_with-Refuses s artifact snapshot image token lease done row e)
    ]

-- two texts that are both a third one
agree : (a b c : Text) → same_text a b ≡ true → same_text a c ≡ true → same_text b c ≡ true
agree a b c h k = (same_text_iff b c).1 (sym ((same_text_iff a b).0 h) ∙ (same_text_iff a c).0 k)

-- a job that is not spared is not the one that is held
not_held :
    (job other : PendingJob) (row : ActiveRow) (done : Bool)
    → is_of job row ≡ true
    → Spares job (clears other done)
    → (done && is_of other row) ≡ false
not_held job other row done h k = elim (Bool-cases (done && is_of other row)) [
  | inl e ↦
      let name = agree row.job.name other.name job.name (ground arith) (ground arith) in
      let token = agree row.job.token other.token job.token (ground arith) (ground arith) in
      absurd (ground (arith, k, name, token))
  | inr e ↦ e
]

module _ (job : PendingJob) (s : JobStore) where
  clear-IsHeld :
      (other : PendingJob) (done : Bool) (o : Option ActiveRow)
      → s.active ≡ o
      → Spares job (clears other done)
      → IsHeld job s
      → IsHeld job (clear_row s other done o).0
  unfolding clear_row
  clear-IsHeld other done none e h k = k
  clear-IsHeld other done (some row) e h k =
      let same : row ≡ k.row = cc (e, k.is_active) in
      let mine = subst (λ (r : ActiveRow). is_of job r ≡ true) (sym same) k.same_job in
      let no = not_held job other row done mine h in rw no k

  remembered-IsHeld :
      (id : Text) (row : ActiveRow)
      → is_of job row ≡ true
      → IsHeld job (record s {
        active = some (record row { job = record row.job { container_id = some id } });
      })
  remembered-IsHeld id row h = record {
    row = record row { job = record row.job { container_id = some id } };
    is_active = refl;
    same_job = h;
  }

  remember-IsHeld :
      (other : PendingJob) (id : Text) (done : Bool) (o : Option ActiveRow)
      → s.active ≡ o
      → IsHeld job s
      → IsHeld job (remember_row s other id done o).0
  unfolding remember_row
  remember-IsHeld other id done none e k = k
  remember-IsHeld other id done (some row) e k =
      let same : row ≡ k.row = cc (e, k.is_active) in
      let mine = subst (λ (r : ActiveRow). is_of job r ≡ true) (sym same) k.same_job in
      elim (Bool-cases (done && is_of other row && may_be id row.job.container_id)) [
        | inl f ↦ rw f (remembered-IsHeld id row mine)
        | inr f ↦ rw f k
      ]

step-IsHeld :
    (job : PendingJob) (s : JobStore) (c : Call)
    → Spares job c
    → IsHeld job s
    → IsHeld job (step s c)
unfolding step
step-IsHeld job s (claims nonce done) h k = IsHeld-same job s _ (active-claim s nonce done) k
step-IsHeld job s (binds identity done) h k =
    IsHeld-same job s _ (unfold bind_runtime in active-bind s identity done s.runtime s.active refl)
      k
step-IsHeld job s (begins artifact snapshot image token lease done) h k =
    IsHeld-same job s _
      (ap (λ (t : JobStore). t.active)
        (begin-Refuses s artifact snapshot image token lease done k.row k.is_active).0)
      k
step-IsHeld job s (clears other done) h k =
    unfold clear in clear-IsHeld job s other done s.active refl h k
step-IsHeld job s (remembers other id done) h k =
    unfold remember_container in remember-IsHeld job s other id done s.active refl k

run-IsHeld :
    (job : PendingJob) (s : JobStore) (cs : List Call)
    → All (Spares job) cs
    → IsHeld job s
    → IsHeld job (run s cs)
unfolding run
run-IsHeld job s [] h k = k
run-IsHeld job s (c ∷ cs) h k = run-IsHeld job (step s c) cs h.1 (step-IsHeld job s c h.0 k)

-- what a beginning leaves
BegunHeld : JobStore × Result SandboxError PendingJob → Type 0
BegunHeld (t, err e) = Unit
BegunHeld (t, ok job) = IsHeld job t

same_self :
    (job : PendingJob) → (same_text job.name job.name && same_text job.token job.token) ≡ true
same_self job = rw (same_text_refl job.name) (same_text_refl job.token)

module _ (s : JobStore) (artifact snapshot image : Text) where
  begun-Held :
      (job : PendingJob) (done : Bool) (o : Option ActiveRow)
      → BegunHeld (begun s artifact snapshot image job done o)
  unfolding begun BegunHeld
  begun-Held job done (some row) = tt
  begun-Held job false none = tt
  begun-Held job true none = record {
    row = record { job = job; artifact = artifact; snapshot = snapshot; image = image };
    is_active = refl;
    same_job = same_self job;
  }

  begin_with-Held :
      (token : Option Text) (lease : Result SandboxError SnapshotLease) (done : Bool)
      → BegunHeld (begin_with s artifact snapshot image token lease done)
  unfolding begin_with
  begin_with-Held none lease done = unfold BegunHeld in tt
  begin_with-Held (some token) (err e) done = unfold BegunHeld in tt
  begin_with-Held (some token) (ok lease) done = begun-Held _ done s.active

  begin-Held :
      (token : Option Text) (lease : Result SandboxError SnapshotLease) (done : Bool)
      → BegunHeld (begin s artifact snapshot image token lease done)
  unfolding begin
  begin-Held token lease done = elim (Bool-cases (leb i64_max s.sequence)) [
    | inl e ↦ rw (e, begin) (unfold BegunHeld in tt)
    | inr e ↦ rw (e, begin) (begin_with-Held token lease done)
  ]

IsHeld-by :
    (p : JobStore × Result SandboxError PendingJob) (job : PendingJob)
    → p.1 ≡ ok job
    → BegunHeld p
    → IsHeld job p.0
unfolding BegunHeld
IsHeld-by (t, err e) job h k = cc
IsHeld-by (t, ok j) job h k =
    let same : j ≡ job = cc h in subst (λ (x : PendingJob). IsHeld x t) same k

-- Once a job is begun, it stays the job of the store, whatever else is called, until a call clears
-- it by its name and its token: up to then no other job begins, and an attempt changes nothing.
pub begin_excludes :
    (s : JobStore) (artifact snapshot image : Text) (token : Option Text)
    (lease : Result SandboxError SnapshotLease) (done : Bool) (job : PendingJob) (cs : List Call)
    (artifact' snapshot' image' : Text) (token' : Option Text)
    (lease' : Result SandboxError SnapshotLease) (done' : Bool)
    → (begin s artifact snapshot image token lease done).1 ≡ ok job
    → All (Spares job) cs
    → let t = run (begin s artifact snapshot image token lease done).0 cs in
      IsHeld job t × Refuses t (begin t artifact' snapshot' image' token' lease' done')
begin_excludes s a b c k l d job cs a' b' c' k' l' d' e h =
    let begun_store = (begin s a b c k l d).0 in
    let held =
      run-IsHeld job begun_store cs h
        (IsHeld-by (begin s a b c k l d) job e (begin-Held s a b c k l d)) in
    (held, begin-Refuses (run begun_store cs) a' b' c' k' l' d' held.row held.is_active)
