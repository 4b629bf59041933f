-- ===== src/FileOp/Host.antt =====
-- lib/fileop.mjs: what the file operations use of the machine, and their loops over its reads. The
-- file system, Node's paths, digests and codecs, and the vendored atomic write are parameters.

use gha_mcp_host.Prelude.{
  ℕ, suc, zero, ◌+◌, ◌-◌, Bool, List, [], ◌∷◌, ◌++◌, Option, none, some, ltb, length, if◌then◌else◌,
  text_eq,
}
use gha_mcp_host.Text.{Text, codes, trim}

-- The codes that ERRNO_MAP names, and any other, or no code at all.
pub data Errno : Type 0 where
  enoent enotdir eisdir eacces eperm ebusy enospc edquot efbig enametoolong eloop emfile : Errno
  other_code : Option Text → Errno

pub data ErrorCode : Type 0 where
  not_found parent_not_found target_is_directory permission_denied rename_locked : ErrorCode
  disk_full quota_exceeded file_too_large path_too_long broken_symlink io_error : ErrorCode
  binary_file not_utf8 sha_mismatch bad_input pattern_too_large : ErrorCode
  edit_no_occurrence_found edit_expected_occurrence_mismatch write_in_progress : ErrorCode

pub data Phase : Type 0 where
  resolve precheck transfer rename respond : Phase

pub data Retryable : Type 0 where
  fix_args no retry wait reread : Retryable

-- ERRNO_MAP, with what stands for a code that it lacks.
unfoldable pub errno_map : Errno → ErrorCode × Retryable
errno_map enoent = (not_found, fix_args)
errno_map enotdir = (parent_not_found, fix_args)
errno_map eisdir = (target_is_directory, fix_args)
errno_map eacces = (permission_denied, no)
errno_map eperm = (permission_denied, no)
errno_map ebusy = (rename_locked, retry)
errno_map enospc = (disk_full, no)
errno_map edquot = (quota_exceeded, no)
errno_map efbig = (file_too_large, no)
errno_map enametoolong = (path_too_long, fix_args)
errno_map eloop = (broken_symlink, fix_args)
errno_map emfile = (io_error, wait)
errno_map (other_code c) = (io_error, no)

-- A value, or the exception of a call.
pub data Try (A : Type 0) : Type 0 where
  value : A → Try A
  thrown : Errno → Try A

pub record Stat : Type 0 where
  pub is_directory : Bool
  pub size : ℕ
  pub mode : ℕ
  pub mtime_ms : ℕ

-- What writeAtomic says of a write that it has committed.
pub record Written : Type 0 where
  pub bytes_written : ℕ
  pub fsync_skipped : Option Errno
  pub rename_retried : ℕ
  pub rename_waited_ms : ℕ

pub record Host : Type 1 where
  -- the files of the machine
  pub State : Type 0
  pub stat : State → Text → Try Stat
  -- openSync for reading: the exception, if there is one
  pub open_read : State → Text → Option Errno
  -- readSync: at most so many bytes, at a position
  pub read_sync : State → Text → ℕ → ℕ → Try (List ℕ)
  -- writeAtomic: the bytes, the mode and the deadline
  pub write_atomic : State → Text → List ℕ → ℕ → ℕ → State × Try Written
  pub sweep_orphan_tmp : State → Text → State
  -- mkdirSync with its parents
  pub mkdirp : State → Text → State × Option Errno
  -- the sticky working directory, "" where it cannot be read
  pub sticky_cwd : State → Text
  pub work_dir : Text
  pub is_absolute : Text → Bool
  pub normalize : Text → Text
  pub path_resolve : Text → Text → Text
  pub dirname : Text → Text
  pub sha256 : List ℕ → Text
  -- the strict decoder, `none` where it throws
  pub utf8_decode : List ℕ → Option Text
  pub utf8_encode : Text → List ℕ
  pub base64_decode : Text → List ℕ

abbrev pub sha256_empty : Text
sha256_empty = codes "e3b0c44298fc1c149afbf4c8996fb92427ae41e4649b934ca495991b7852b855"

-- `none` where the exception says that there is no such file.
unfoldable pub or_missing : Errno → Try (Option Stat)
or_missing enoent = value none
or_missing enotdir = value none
or_missing e = thrown e

-- The digest reads 64 KiB at a time; `turns` bounds its reads.
module _ (H : Host) where
  unfoldable pub resolve_target : H.State → Text → Text
  resolve_target s given =
      let sticky = trim (H.sticky_cwd s) in
      let base : Text = elim sticky [ [] ↦ H.work_dir | c ∷ cs ↦ c ∷ cs ] in
      if H.is_absolute given then H.normalize given else H.path_resolve base given

  unfoldable pub stat_or_null : H.State → Text → Try (Option Stat)
  unfolding or_missing
  stat_or_null s abs = elim (H.stat s abs) [ value st ↦ value (some st) | thrown e ↦ or_missing e ]

  -- The loop of `readWindow`: each turn but the last gets at least a byte, so that `want` turns are
  -- enough.
  unfoldable pub read_loop : ℕ → H.State → Text → ℕ → ℕ → List ℕ → Try (List ℕ)
  read_loop zero s abs from want got = value got
  read_loop (suc fuel) s abs from want got =
      if ltb (length got) want
      then elim (H.read_sync s abs (want - length got) (from + length got)) [
        | thrown e ↦ thrown e
        | value [] ↦ value got
        | value (b ∷ bs) ↦ read_loop fuel s abs from want (got ++ b ∷ bs)
      ]
      else value got

  unfoldable pub read_window : H.State → Text → ℕ → ℕ → Try (List ℕ)
  unfolding read_loop
  read_window s abs from want = elim (H.open_read s abs) [
    | some e ↦ thrown e
    | none ↦ read_loop want s abs from want []
  ]

  -- The loop of `sha256File`; what it has hashed so far is the digest of those bytes.
  unfoldable pub sha256_loop : ℕ → H.State → Text → List ℕ → Try Text
  sha256_loop zero s abs done = value (H.sha256 done)
  sha256_loop (suc fuel) s abs done = elim (H.read_sync s abs 65_536 (length done)) [
    | thrown e ↦ thrown e
    | value [] ↦ value (H.sha256 done)
    | value (b ∷ bs) ↦ sha256_loop fuel s abs (done ++ b ∷ bs)
  ]

  unfoldable pub sha256_file : ℕ → H.State → Text → Try Text
  unfolding sha256_loop
  sha256_file turns s abs = elim (H.open_read s abs) [
    | some e ↦ thrown e
    | none ↦ sha256_loop turns s abs []
  ]

  -- Strict decoding, and back: a text that does not give the same bytes is refused.
  unfoldable pub decode_strict : List ℕ → Option Text
  decode_strict raw = elim (H.utf8_decode raw) [
    | none ↦ none
    | some text ↦ if text_eq (H.utf8_encode text) raw then some text else none
  ]
