-- ===== src/Gitops/Jobs/Snapshot.antt =====
-- src/gitops/sandbox/jobs.rs: the lease of a snapshot's directory, over what the file system says.
use ai_sre.Prelude.{
  ℕ, ◌≡◌, refl, inl, inr, arith, Result-cases, Bool, true, false, not, ◌&&◌, ◌||◌, Option, none,
  some, List, [], ◌∷◌, Result, ok, err, ok_or, guard, ◌>>=◌, ◌>>◌, all, leb, ◌==◌, if◌then◌else◌,
  Text, text, same_text, strip_prefix, is_ascii_digit,
}

pub data SandboxError : Type 0 where
  attempt_exists invalid_configuration unavailable failed : SandboxError

-- `Metadata`; `open_to_others` is `mode() & 0o077 != 0`
pub record Metadata : Type 0 where
  pub is_dir : Bool
  pub open_to_others : Bool
  pub device : ℕ
  pub inode : ℕ
  pub uid : ℕ

-- a canonical path: the directories above it, the innermost first, and its last name
pub record PathBuf : Type 0 where
  pub parent : List Text
  pub file_name : Text

pub record SnapshotLease : Type 0 where
  pub root : PathBuf
  pub device : ℕ
  pub inode : ℕ
  pub uid : ℕ

-- how a call of `symlink_metadata` ends
pub data Lookup : Type 0 where
  found : Metadata → Lookup
  not_found lookup_failed : Lookup

-- what the system answers; none and false stand for a call that fails
pub record FileSystem : Type 0 where
  pub symlink_metadata : PathBuf → Lookup
  pub canonicalize : PathBuf → Option PathBuf
  pub temp_dir : Option (List Text)
  pub remove_dir_all : PathBuf → Bool
  pub sync_parent : PathBuf → Bool

abbrev pub same_path : List Text → List Text → Bool
same_path [] [] = true
same_path [] (_ ∷ _) = false
same_path (_ ∷ _) [] = false
same_path (a ∷ p) (b ∷ q) = same_text a b && same_path p q

abbrev is_letter : ℕ → Bool
is_letter c = (leb 65 c && leb c 90) || (leb 97 c && leb c 122)

abbrev pub is_snapshot_name : Text → Bool
is_snapshot_name name =
    (elim (strip_prefix (text "ai-sre-u9-snapshot-") name) [ none ↦ false | some _ ↦ true ])
    && all (λ b. is_ascii_digit b || is_letter b || b == b'-') name

unfoldable pub validate_path : FileSystem → SnapshotLease → Result SandboxError (Unit {0})
validate_path fs lease = do
  parent ← ok_or fs.temp_dir unavailable
  guard (same_path lease.root.parent parent && is_snapshot_name lease.root.file_name) unavailable

abbrev metadata_of : Lookup → Result SandboxError Metadata
metadata_of (found m) = ok m
metadata_of not_found = err unavailable
metadata_of lookup_failed = err unavailable

unfoldable pub capture : FileSystem → PathBuf → Result SandboxError SnapshotLease
unfolding validate_path
capture fs root = do
  metadata ← metadata_of (fs.symlink_metadata root)
  guard (metadata.is_dir && not metadata.open_to_others) unavailable
  canonical ← ok_or (fs.canonicalize root) unavailable
  let lease : SnapshotLease = record {
    root = canonical;
    device = metadata.device;
    inode = metadata.inode;
    uid = metadata.uid;
  }
  _ ← validate_path fs lease
  ok lease

-- the directory is still the one that was leased
abbrev pub is_leased : SnapshotLease → Metadata → Bool
is_leased lease m =
    m.is_dir
    && not m.open_to_others
    && m.device == lease.device
    && m.inode == lease.inode
    && m.uid == lease.uid

-- by what stands at the path; the result says whether `remove_dir_all` was called
remove_found : FileSystem → SnapshotLease → Lookup → Bool × Result SandboxError (Unit {0})
remove_found fs lease not_found = (false, guard (fs.sync_parent lease.root) unavailable)
remove_found fs lease lookup_failed = (false, err unavailable)
remove_found fs lease (found m) =
    if is_leased lease m
    then (true, guard (fs.remove_dir_all lease.root && fs.sync_parent lease.root) unavailable)
    else (false, err unavailable)

unfoldable pub remove_snapshot : FileSystem → SnapshotLease → Bool × Result SandboxError (Unit {0})
unfolding validate_path remove_found
remove_snapshot fs lease = elim (validate_path fs lease) [
  | err e ↦ (false, err e)
  | ok _ ↦ remove_found fs lease (fs.symlink_metadata lease.root)
]

module _ (fs : FileSystem) where
  removed_by :
      (lease : SnapshotLease) (l : Lookup)
      → (remove_found fs lease l).0 ≡ true
      → (m : Metadata) × (l ≡ found m) × (is_leased lease m ≡ true)
  unfolding remove_found
  removed_by lease not_found e = cc
  removed_by lease lookup_failed e = cc
  removed_by lease (found m) e = (m, refl, ground arith)

  -- A directory is removed only below the temporary directory under a name of the snapshots, and
  -- only if it is still the private directory that was leased.
  pub remove_snapshot_leased :
      (lease : SnapshotLease)
      → (remove_snapshot fs lease).0 ≡ true
      → (validate_path fs lease ≡ ok tt)
        × ((m : Metadata) × (fs.symlink_metadata lease.root ≡ found m) × (is_leased lease m ≡ true))
  unfolding remove_snapshot
  remove_snapshot_leased lease e = elim (Result-cases (validate_path fs lease)) [
    | inl (_, v) ↦ (v, removed_by lease (fs.symlink_metadata lease.root) (ground arith))
    | inr (_, v) ↦ absurd (ground arith)
  ]
