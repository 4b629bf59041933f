-- ===== src/FileOp/Replies.antt =====
-- lib/fileop.mjs: a job and what it is answered with. The numbers of a job are whole, or missing.
use gha_mcp_host.Prelude.{
  ℕ, ℤ, pos, pos_part, min, max, Bool, false, not, [], ◌∷◌, Option, none, some, text_eq,
  get_or_else,
}
use gha_mcp_host.Text.{Text}
use gha_mcp_host.FileOp.{Eol}
use gha_mcp_host.FileOp.Host.{
  Errno, ErrorCode, target_is_directory, sha_mismatch, Phase, precheck, Retryable, fix_args, reread,
  errno_map,
}

-- A job as it is read. `none` is a field that is missing; a null is not modelled, which the source makes
-- the text null in old_str and new_str.
pub record Job : Type 0 where
  pub command_id : Text
  pub op : Text
  pub path : Option Text
  pub write_id : Option Text
  pub from_byte : Option ℤ
  pub max_bytes : Option ℤ
  pub offset : Option ℤ
  pub limit : Option ℤ
  pub content_b64 : Option Text
  pub base_sha : Option Text
  pub create_parents : Bool
  pub old_str : Option Text
  pub new_str : Option Text
  pub expected_replacements : Option ℤ

-- What a failure carries beside its verdict. The message, which repeats the path, the phase and the
-- numbers, is left out, and so are the constants of the binary scan and of the supported operations.
pub record Extra : Type 0 where
  pub path_as_given : Option Text
  pub path_resolved : Option Text
  pub errno : Option Errno
  pub total_bytes : Option ℕ
  pub bytes : Option ℕ
  pub limit_bytes : Option ℕ
  pub current_sha256 : Option Text
  pub occurrences : Option ℕ
  pub expected_replacements : Option ℕ
  pub is_binary : Bool
  pub window_hint : Bool

abbrev pub no_extra : Extra
no_extra = record {
  path_as_given = none;
  path_resolved = none;
  errno = none;
  total_bytes = none;
  bytes = none;
  limit_bytes = none;
  current_sha256 = none;
  occurrences = none;
  expected_replacements = none;
  is_binary = false;
  window_hint = false;
}

abbrev pub at_path : Text → Text → Extra
at_path given abs = record no_extra { path_as_given = some given; path_resolved = some abs }

pub record Failure : Type 0 where
  pub error : ErrorCode
  pub phase : Phase
  pub retryable : Retryable
  pub extra : Extra

pub data TruncatedBy : Type 0 where
  by_bytes by_limit : TruncatedBy

-- lines_returned is end_line - start_line, and base_sha_scope says whether base_sha is there.
pub record ReadReply : Type 0 where
  pub path_as_given : Text
  pub path_resolved : Text
  pub text : Text
  pub start_line : ℕ
  pub end_line : ℕ
  pub lines_in_window : ℕ
  pub byte_range : ℕ × ℕ
  pub bytes_returned : ℕ
  pub total_bytes : ℕ
  pub truncated : Bool
  pub truncated_by : Option TruncatedBy
  pub next_byte : Option ℕ
  pub base_sha : Option Text
  pub has_bom : Bool
  pub eol : Eol
  pub mtime_ms : ℕ
  pub mode : ℕ

pub record Committed : Type 0 where
  pub path_as_given : Text
  pub path_resolved : Text
  pub created : Bool
  pub bytes_written : ℕ
  pub size_verified : Option ℕ
  pub sha_verified : Text
  pub mode : ℕ
  pub fsync_skipped : Option Errno
  pub rename_retried : ℕ
  pub rename_waited_ms : ℕ

-- eol_restored and mixed_eol say what eol says.
pub record Edited : Type 0 where
  pub commit : Committed
  pub replacements : ℕ
  pub base_sha : Text
  pub eol : Eol
  pub has_bom : Bool

pub record Noop : Type 0 where
  pub path_as_given : Text
  pub path_resolved : Text
  pub sha_verified : Text
  pub size_verified : ℕ

pub data Reply : Type 0 where
  failed : Failure → Reply
  read : ReadReply → Reply
  committed : Committed → Reply
  edited : Edited → Reply
  noop : Noop → Reply

abbrev pub fail : ErrorCode → Phase → Retryable → Extra → Reply
fail error phase retryable facts =
    failed (record { error = error; phase = phase; retryable = retryable; extra = facts })

unfoldable pub errno_fail : Phase → Errno → Text → Text → Reply
unfolding errno_map
errno_fail phase e given abs =
    let (code, retryable) = errno_map e in
    fail code phase retryable (record (at_path given abs) { errno = some e })

unfoldable pub not_a_file : Text → Text → Reply
not_a_file given abs = fail target_is_directory precheck fix_args (at_path given abs)

unfoldable pub changed_since : Text → Text → Text → Reply
changed_since given abs sha =
    fail sha_mismatch precheck reread (record (at_path given abs) { current_sha256 = some sha })

-- `a.base_sha && String(a.base_sha) !== curSha`
unfoldable pub is_stale : Option Text → Text → Bool
is_stale none sha = false
is_stale (some []) sha = false
is_stale (some (c ∷ cs)) sha = not (text_eq (c ∷ cs) sha)

-- `clamp(num(v, d), lo, hi)` with `lo` not negative
unfoldable pub clamp_num : Option ℤ → ℕ → ℕ → ℕ → ℕ
clamp_num v d lo hi = max lo (min hi (pos_part (get_or_else v (pos d))))
