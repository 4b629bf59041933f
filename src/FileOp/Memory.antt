-- ===== src/FileOp/Memory.antt =====
-- What the tests of the file operations share: a machine, and a job.

use gha_mcp_host.Prelude.{
  ℕ, refl, arith, min, false, List, [], ◌∷◌, ◌++◌, Option, none, some, length, take, drop,
}
use gha_mcp_host.Text.{Text, codes}
use gha_mcp_host.Job.{starts_with}
use gha_mcp_host.FileOp.Host.{Host, value, thrown, enoent}
use gha_mcp_host.FileOp.Replies.{Job}
use gha_mcp_host.FileOp.Write.Guarded.{IsFile, Commits}

-- A machine of one file that every path names. A read serves at most two bytes, and a digest is the
-- bytes themselves behind a mark.
abbrev pub memory : Host
memory = record {
  State = Option (List ℕ);
  stat = λ s p. elim s [
    | none ↦ thrown enoent
    | some c ↦ value (record { is_directory = false; size = length c; mode = 420; mtime_ms = 7 })
  ];
  open_read = λ s p. elim s [ none ↦ some enoent | some c ↦ none ];
  read_sync = λ s p want at. elim s [
    | none ↦ thrown enoent
    | some c ↦ value (take (min want 2) (drop at c))
  ];
  write_atomic = λ s p bytes mode deadline. (
    some bytes,
    value (record {
      bytes_written = length bytes;
      fsync_skipped = none;
      rename_retried = 0;
      rename_waited_ms = 0;
    }),
  );
  sweep_orphan_tmp = λ s p. s;
  mkdirp = λ s p. (s, none);
  sticky_cwd = λ s. [];
  work_dir = codes "/w";
  is_absolute = λ p. starts_with (codes "/") p;
  normalize = λ p. p;
  path_resolve = λ base p. base ++ (b'/' ∷ p);
  dirname = λ p. p;
  sha256 = λ bytes. b'x' ∷ bytes;
  utf8_decode = λ bytes. some bytes;
  utf8_encode = λ t. t;
  base64_decode = λ t. t;
}

pub has_file : (p : Text) (c : List ℕ) → IsFile memory (some c) p c
has_file p c = record {
  served = record {
    opens = refl;
    reads = λ want at. (min want 2, refl, omega arith, λ w lt. omega (arith, w));
  };
  st = record { is_directory = false; size = length c; mode = 420; mtime_ms = 7 };
  looks = refl;
  size = refl;
  plain = refl;
}

pub memory-Commits : Commits memory
memory-Commits = record { leaves = λ s abs bytes mode deadline w e. has_file abs bytes }

-- A job that names the file and asks for nothing else.
abbrev pub no_job : Job
no_job = record {
  command_id = codes "c";
  op = codes "write";
  path = some (codes "f");
  write_id = some (codes "w");
  from_byte = none;
  max_bytes = none;
  offset = none;
  limit = none;
  content_b64 = none;
  base_sha = none;
  create_parents = false;
  old_str = none;
  new_str = none;
  expected_replacements = none;
}
