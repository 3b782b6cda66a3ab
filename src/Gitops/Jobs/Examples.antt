-- ===== src/Gitops/Jobs/Examples.antt =====
-- src/gitops/sandbox/jobs.rs: about a concrete store.
use ai_sre.Prelude.{◌≡◌, ◌≢◌, refl, true, false, none, some, List, [], ◌∷◌, ok, Text, text}
use ai_sre.Prelude.Decimal.{show}
use ai_sre.Gitops.Jobs.Snapshot.{
  SnapshotLease, Metadata, FileSystem, found, capture, remove_snapshot,
}
use ai_sre.Gitops.Jobs.{JobStore, PendingJob, claim_request, begin, clear, job_of}
use ai_sre.Gitops.Jobs.Exclusive.{IsHeld, Refuses, begin_excludes}
use ai_sre.Gitops.Jobs.Names.{names, AreDistinct, names_distinct}
use ai_sre.Gitops.Jobs.Replay.{claim_request_once}
use ai_sre.Gitops.Jobs.Steps.{Call, claims, begins, clears, remembers, run}

abbrev store : JobStore
store = record { namespace = text "ns"; sequence = 0; active = none; requests = []; runtime = none }

abbrev lease : SnapshotLease
lease = record {
  root = record { parent = text "tmp" ∷ []; file_name = text "ai-sre-u9-snapshot-1" };
  device = 1;
  inode = 2;
  uid = 1000;
}

abbrev private_directory : Metadata
private_directory = record {
  is_dir = true;
  open_to_others = false;
  device = 1;
  inode = 2;
  uid = 1000;
}

abbrev file_system : FileSystem
file_system = record {
  symlink_metadata = λ p. found private_directory;
  canonicalize = λ p. some p;
  temp_dir = some (text "tmp" ∷ []);
  remove_dir_all = λ p. true;
  sync_parent = λ p. true;
}

capture-lease : capture file_system lease.root ≡ ok lease
unfolding capture
capture-lease = refl

remove-lease : remove_snapshot file_system lease ≡ (true, ok tt)
unfolding remove_snapshot
remove-lease = refl

claim_request_once_example :
    let t = run (claim_request store (text "n") true).0 (claims (text "m") true ∷ []) in
    ((claim_request t (text "n") true).0 ≡ t) × ((claim_request t (text "n") true).1 ≢ ok tt)
unfolding claim_request
claim_request_once_example =
    claim_request_once store (text "n") true true (claims (text "m") true ∷ []) refl

abbrev starts : Text → Call
starts token = begins (text "a") (text "s") (text "i") (some token) (ok lease) true

abbrev first_job : PendingJob
first_job = job_of (text "u9-ns-1") (text "t") lease

abbrev two_jobs : List Call
two_jobs = starts (text "t") ∷ starts (text "t") ∷ clears first_job true ∷ starts (text "t") ∷ []

names_of_two : names store two_jobs ≡ text "u9-ns-1" ∷ text "u9-ns-2" ∷ []
unfolding names begin clear show
names_of_two = refl

names_distinct_example : AreDistinct (names store two_jobs)
names_distinct_example = names_distinct store two_jobs

abbrev sparing : List Call
sparing =
    clears (job_of (text "u9-ns-1") (text "u") lease) true
    ∷ remembers first_job (text "c") true
    ∷ []

begin_excludes_example :
    let t =
      run
        (begin store (text "a") (text "s") (text "i") (some (text "t")) (ok lease) true).0
        sparing in
    IsHeld first_job t
    × Refuses t (begin t (text "b") (text "s") (text "i") (some (text "v")) (ok lease) true)
unfolding begin show
begin_excludes_example =
    begin_excludes store (text "a") (text "s") (text "i") (some (text "t")) (ok lease) true
      first_job sparing (text "b") (text "s") (text "i") (some (text "v")) (ok lease) true refl
      (refl, (tt, tt))
