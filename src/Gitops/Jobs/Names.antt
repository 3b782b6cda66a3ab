-- ===== src/Gitops/Jobs/Names.antt =====
-- src/gitops/sandbox/jobs.rs: about the names of the jobs that a store begins.
use ai_sre.Prelude.{
  ℕ, ◌+◌, ◌<◌, ◌≡◌, ◌≢◌, refl, sym, ap, ◌∙◌, inl, inr, Bool, true, false, Option, none, some, List,
  [], ◌∷◌, ◌++◌, Result, ok, err, leb, arith, Bool-cases, All, All-map, Text, text, strip_prefix,
  strip_prefix-append,
}
use ai_sre.Prelude.Decimal.{show, parse, parse-show}
use ai_sre.Gitops.Jobs.Snapshot.{SandboxError, SnapshotLease}
use ai_sre.Gitops.Jobs.{
  JobStore, PendingJob, ActiveRow, begin, begin_with, begun, job_name, i64_max,
}
use ai_sre.Gitops.Jobs.Steps.{
  Call, claims, binds, begins, clears, remembers, step, Keeps, step-Keeps,
}

same-job_name : (namespace : Text) (n m : ℕ) → job_name namespace n ≡ job_name namespace m → n ≡ m
unfolding job_name
same-job_name namespace n m e =
    let prefix = text "u9-" ++ namespace ++ text "-" in
    let shown =
      sym (strip_prefix-append prefix (show n))
      ∙ ap (strip_prefix prefix) e
      ∙ strip_prefix-append prefix (show m) in
    let same : show n ≡ show m = cc shown in
    cc (
      sym (parse-show (n + m) n (omega arith))
      ∙ ap (parse (n + m)) same
      ∙ parse-show (n + m) m (omega arith))

-- a job that is begun has the next name, and moves the sequence
BeginsNext : JobStore → JobStore × Result SandboxError PendingJob → Type 0
BeginsNext s (t, err e) = Unit
BeginsNext s (t, ok job) =
    (job.name ≡ job_name s.namespace (s.sequence + 1)) × (t.sequence ≡ s.sequence + 1)

module _ (s : JobStore) (artifact snapshot image : Text) where
  begun-Next :
      (job : PendingJob) (done : Bool) (row : Option ActiveRow)
      → job.name ≡ job_name s.namespace (s.sequence + 1)
      → BeginsNext s (begun s artifact snapshot image job done row)
  unfolding begun BeginsNext
  begun-Next job done (some row) e = tt
  begun-Next job false none e = tt
  begun-Next job true none e = (e, refl)

  begin_with-Next :
      (token : Option Text) (lease : Result SandboxError SnapshotLease) (done : Bool)
      → BeginsNext s (begin_with s artifact snapshot image token lease done)
  unfolding begin_with
  begin_with-Next none lease done = unfold BeginsNext in tt
  begin_with-Next (some token) (err e) done = unfold BeginsNext in tt
  begin_with-Next (some token) (ok lease) done = begun-Next _ done s.active refl

  begin-Next :
      (token : Option Text) (lease : Result SandboxError SnapshotLease) (done : Bool)
      → BeginsNext s (begin s artifact snapshot image token lease done)
  unfolding begin
  begin-Next token lease done = elim (Bool-cases (leb i64_max s.sequence)) [
    | inl e ↦ rw (e, begin) (unfold BeginsNext in tt)
    | inr e ↦ rw (e, begin) (begin_with-Next token lease done)
  ]

abbrev named : Result SandboxError PendingJob → List Text → List Text
named (ok job) rest = job.name ∷ rest
named (err _) rest = rest

-- the names of the jobs that the calls begin, in their order
unfoldable pub names : JobStore → List Call → List Text
unfolding step
names s [] = []
names s (claims nonce done ∷ cs) = names (step s (claims nonce done)) cs
names s (binds identity done ∷ cs) = names (step s (binds identity done)) cs
names s (clears job done ∷ cs) = names (step s (clears job done)) cs
names s (remembers job id done ∷ cs) = names (step s (remembers job id done)) cs
names s (begins artifact snapshot image token lease done ∷ cs) =
    let rest = names (step s (begins artifact snapshot image token lease done)) cs in
    named (begin s artifact snapshot image token lease done).1 rest

abbrev pub AreDistinct : List Text → Type 0
AreDistinct [] = Unit
AreDistinct (t ∷ ts) = All (λ u. t ≢ u) ts × AreDistinct ts

-- the name of a job that is begun from `s` on
abbrev IsLater : JobStore → Text → Type 0
IsLater s name = (k : ℕ) × (s.sequence < k) × (name ≡ job_name s.namespace k)

AreLater : JobStore → List Text → Type 0
AreLater s names = All (IsLater s) names × AreDistinct names

IsLater-Keeps : (s t : JobStore) → Keeps s t → (name : Text) → IsLater t name → IsLater s name
IsLater-Keeps s t h name (k, l, e) =
    (k, omega (arith, h.sequence_le), e ∙ ap (λ (n : Text). job_name n k) h.same_namespace)

AreLater-Keeps : (s t : JobStore) (ts : List Text) → Keeps s t → AreLater t ts → AreLater s ts
unfolding AreLater
AreLater-Keeps s t ts h l = (All-map (IsLater t) (IsLater s) ts (IsLater-Keeps s t h) l.0, l.1)

other_name :
    (s t : JobStore) (job : PendingJob)
    → Keeps s t
    → BeginsNext s (t, ok job)
    → (name : Text) → IsLater t name
    → job.name ≢ name
unfolding BeginsNext
other_name s t job h (named_so, next) name (k, l, e) same =
    let here = same ∙ e ∙ ap (λ (n : Text). job_name n k) h.same_namespace in
    let equal = same-job_name s.namespace (s.sequence + 1) k (sym named_so ∙ here) in
    absurd (omega arith)

named-AreLater :
    (s t : JobStore) (r : Result SandboxError PendingJob) (ts : List Text)
    → Keeps s t
    → BeginsNext s (t, r)
    → AreLater t ts
    → AreLater s (named r ts)
unfolding AreLater
named-AreLater s t (err e) ts h n l = AreLater-Keeps s t ts h l
named-AreLater s t (ok job) ts h n l = (
  (
    (s.sequence + 1, omega arith, unfold BeginsNext in n.0),
    All-map (IsLater t) (IsLater s) ts (IsLater-Keeps s t h) l.0,
  ),
  (All-map (IsLater t) (λ u. job.name ≢ u) ts (other_name s t job h n) l.0, l.1),
)

names-AreLater : (s : JobStore) (cs : List Call) → AreLater s (names s cs)
unfolding names
names-AreLater s [] = unfold AreLater in (tt, tt)
names-AreLater s (claims nonce done ∷ cs) =
    AreLater-Keeps s _ _ (step-Keeps s (claims nonce done))
      (names-AreLater (step s (claims nonce done)) cs)
names-AreLater s (binds identity done ∷ cs) =
    AreLater-Keeps s _ _ (step-Keeps s (binds identity done))
      (names-AreLater (step s (binds identity done)) cs)
names-AreLater s (clears job done ∷ cs) =
    AreLater-Keeps s _ _ (step-Keeps s (clears job done))
      (names-AreLater (step s (clears job done)) cs)
names-AreLater s (remembers job id done ∷ cs) =
    AreLater-Keeps s _ _ (step-Keeps s (remembers job id done))
      (names-AreLater (step s (remembers job id done)) cs)
names-AreLater s (begins artifact snapshot image token lease done ∷ cs) =
    let h = step-Keeps s (begins artifact snapshot image token lease done) in
    named-AreLater s (step s (begins artifact snapshot image token lease done)) _ _ h
      (begin-Next s artifact snapshot image token lease done)
      (names-AreLater (step s (begins artifact snapshot image token lease done)) cs)

-- Whatever is called and however it ends, no two jobs that a store begins have the same name: a
-- name is not used again after its job was cleared.
pub names_distinct : (s : JobStore) (cs : List Call) → AreDistinct (names s cs)
names_distinct s cs = unfold AreLater in (names-AreLater s cs).1
