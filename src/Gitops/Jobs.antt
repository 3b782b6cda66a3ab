-- ===== src/Gitops/Jobs.antt =====
-- src/gitops/sandbox/jobs.rs: the job store of the validator's worker. The database is its tables;
-- `sequence`, an `i64` that only this code writes, is not negative. Each call takes how SQLite ends
-- its last statement (true if it is done), and `begin` the random token and the snapshot's lease:
-- what the system gives for them. The file system's answers are those of a `FileSystem`. A file
-- name is a text, and a path its components.
pub mod Snapshot
pub mod Steps
pub mod Replay
pub mod Names
pub mod Exclusive
mod Examples
use ai_sre.Prelude.{
  ℕ, ◌+◌, ◌-◌, ◌^◌, Bool, true, false, not, ◌&&◌, ◌||◌, Option, none, some, List, [], ◌∷◌, ◌++◌,
  Result, ok, err, ok_or, guard, ◌>>=◌, ◌>>◌, any, length, leb, ltb, ◌==◌, if◌then◌else◌, Text,
  text, same_text,
}
use ai_sre.Prelude.Decimal.{show}
use ai_sre.Gitops.Jobs.Snapshot.{SandboxError, unavailable, failed, SnapshotLease}

pub record PendingJob : Type 0 where
  pub name : Text
  pub token : Text
  pub snapshot : SnapshotLease
  pub container_id : Option Text

-- the row of `active`
pub record ActiveRow : Type 0 where
  pub job : PendingJob
  pub artifact : Text
  pub snapshot : Text
  pub image : Text

pub record JobStore : Type 0 where
  pub namespace : Text
  pub sequence : ℕ
  pub active : Option ActiveRow
  pub requests : List Text
  pub runtime : Option Text

abbrev pub i64_max : ℕ
i64_max = 2 ^ 63 - 1

abbrev pub is_claimed : Text → List Text → Bool
is_claimed nonce requests = any (λ request. same_text request nonce) requests

-- `nonce` is the primary key of `requests`
unfoldable pub claim_request : JobStore → Text → Bool → JobStore × Result SandboxError (Unit {0})
claim_request s nonce done =
    if leb 4096 (length s.requests)
    then (s, err unavailable)
    else if is_claimed nonce s.requests || not done
    then (s, err failed)
    else (record s { requests = nonce ∷ s.requests }, ok tt)

unfoldable pub pending : JobStore → Option PendingJob
pending s = elim s.active [ none ↦ none | some row ↦ some row.job ]

-- the insertion into `runtime`, if no job is pending
bind_new : JobStore → Text → Bool → Option ActiveRow → JobStore × Result SandboxError (Unit {0})
bind_new s identity done (some row) = (s, err unavailable)
bind_new s identity done none =
    if done then (record s { runtime = some identity }, ok tt) else (s, err unavailable)

-- by the identity that is stored
bind_by : JobStore → Text → Bool → Option Text → JobStore × Result SandboxError (Unit {0})
unfolding bind_new
bind_by s identity done (some stored) =
    if same_text stored identity then (s, ok tt) else (s, err unavailable)
bind_by s identity done none = bind_new s identity done s.active

unfoldable pub bind_runtime : JobStore → Text → Bool → JobStore × Result SandboxError (Unit {0})
unfolding bind_by
bind_runtime s identity done = bind_by s identity done s.runtime

pub job_name : Text → ℕ → Text
job_name namespace sequence = text "u9-" ++ namespace ++ text "-" ++ show sequence

-- the job with this name, token and lease
abbrev pub job_of : Text → Text → SnapshotLease → PendingJob
job_of name token lease = record {
  name = name;
  token = token;
  snapshot = lease;
  container_id = none;
}

-- the two statements of the transaction: `active` has one row at most
begun :
    JobStore
    → Text
    → Text
    → Text
    → PendingJob
    → Bool
    → Option ActiveRow
    → JobStore × Result SandboxError PendingJob
begun s artifact snapshot image job done (some row) = (s, err unavailable)
begun s artifact snapshot image job done none =
    if done
    then (
      record s {
        active =
            some (record { job = job; artifact = artifact; snapshot = snapshot; image = image });
        sequence = s.sequence + 1;
      },
      ok job,
    )
    else (s, err unavailable)

-- once there is a token, and then a lease
begin_with :
    JobStore
    → Text
    → Text
    → Text
    → Option Text
    → Result SandboxError SnapshotLease
    → Bool
    → JobStore × Result SandboxError PendingJob
unfolding begun job_name
begin_with s artifact snapshot image none lease done = (s, err unavailable)
begin_with s artifact snapshot image (some token) (err e) done = (s, err e)
begin_with s artifact snapshot image (some token) (ok lease) done =
    begun s artifact snapshot image (job_of (job_name s.namespace (s.sequence + 1)) token lease)
      done s.active

unfoldable pub begin :
    JobStore
    → Text
    → Text
    → Text
    → Option Text
    → Result SandboxError SnapshotLease
    → Bool
    → JobStore × Result SandboxError PendingJob
unfolding begin_with
begin s artifact snapshot image token lease done =
    if leb i64_max s.sequence
    then (s, err unavailable)
    else begin_with s artifact snapshot image token lease done

-- the row is that of this job
abbrev pub is_of : PendingJob → ActiveRow → Bool
is_of job row = same_text row.job.name job.name && same_text row.job.token job.token

clear_row :
    JobStore → PendingJob → Bool → Option ActiveRow → JobStore × Result SandboxError (Unit {0})
clear_row s job done none = (s, err unavailable)
clear_row s job done (some row) =
    if done && is_of job row then (record s { active = none }, ok tt) else (s, err unavailable)

unfoldable pub clear : JobStore → PendingJob → Bool → JobStore × Result SandboxError (Unit {0})
unfolding clear_row
clear s job done = clear_row s job done s.active

-- no container is remembered, or this one
abbrev pub may_be : Text → Option Text → Bool
may_be id none = true
may_be id (some known) = same_text known id

remember_row :
    JobStore
    → PendingJob
    → Text
    → Bool
    → Option ActiveRow
    → JobStore × Result SandboxError (Unit {0})
remember_row s job id done none = (s, err unavailable)
remember_row s job id done (some row) =
    if done && is_of job row && may_be id row.job.container_id
    then (
      record s { active = some (record row { job = record row.job { container_id = some id } }) },
      ok tt,
    )
    else (s, err unavailable)

unfoldable pub remember_container :
    JobStore → PendingJob → Text → Bool → JobStore × Result SandboxError (Unit {0})
unfolding remember_row
remember_container s job id done = remember_row s job id done s.active

-- the tables that `open` creates over an empty database, and that it leaves alone later
unfoldable pub open_tables : Option JobStore → Text → JobStore
open_tables (some s) namespace = s
open_tables none namespace = record {
  namespace = namespace;
  sequence = 0;
  active = none;
  requests = [];
  runtime = none;
}
