-- ===== src/FileOp/Write.antt =====
-- lib/fileop.mjs, commit and opWrite: a whole file, under the digest of what the writer has seen.
pub mod Guarded
use mathlib.Core.Option
use gha_mcp_host.Prelude.{
  ℕ, ◌+◌, ◌%◌, Bool, true, false, not, ◌&&◌, List, [], ◌∷◌, Option, none, some, ltb, length,
  if◌then◌else◌, get_or_else, is_some,
}
use gha_mcp_host.Text.{Text}
use gha_mcp_host.FileOp.{write_max_bytes, rename_budget_ms, new_file_mode}
use gha_mcp_host.FileOp.Host.{
  Host, Stat, Try, value, thrown, Written, file_too_large, Phase, precheck, rename, resolve, no,
  resolve_target, stat_or_null, sha256_file, sha256_empty,
}
use gha_mcp_host.FileOp.Replies.{
  Job, Reply, committed, no_extra, fail, errno_fail, not_a_file, changed_since, is_stale,
}

-- The mode of the file that is there, or that of a new one.
unfoldable pub mode_of : Option Stat → ℕ
mode_of none = new_file_mode
mode_of (some st) = st.mode % 512

unfoldable pub is_dir : Option Stat → Bool
is_dir none = false
is_dir (some st) = st.is_directory

module _ (H : Host) (turns : ℕ) where
  -- The answer to a write that is there: what a new look at the file shows.
  unfoldable pub commit_answer : H.State → Text → Text → Option Stat → ℕ → Written → Try Reply
  commit_answer s abs given cur mode w = elim (stat_or_null H s abs) [
    | thrown e ↦ thrown e
    | value after ↦ elim (sha256_file H turns s abs) [
      | thrown e ↦ thrown e
      | value sha ↦ value (
          committed (record {
            path_as_given = given;
            path_resolved = abs;
            created = not (is_some cur);
            bytes_written = w.bytes_written;
            size_verified = Option.map (λ (st : Stat). st.size) after;
            sha_verified = sha;
            mode = get_or_else (Option.map (λ (st : Stat). st.mode % 512) after) mode;
            fsync_skipped = w.fsync_skipped;
            rename_retried = w.rename_retried;
            rename_waited_ms = w.rename_waited_ms;
          }))
    ]
  ]

  -- The answer to a write that threw, or was done.
  unfoldable pub commit_reply :
      H.State → Text → Text → Option Stat → Phase → ℕ → Try Written → Try Reply
  unfolding commit_answer
  commit_reply s abs given cur phase mode (thrown e) = value (errno_fail phase e given abs)
  commit_reply s abs given cur phase mode (value done) = commit_answer s abs given cur mode done

  -- `now` is the clock of its deadline.
  unfoldable pub commit :
      H.State → Text → Text → List ℕ → Option Stat → Phase → ℕ → H.State × Try Reply
  unfolding commit_reply mode_of
  commit s abs given bytes cur phase now =
      let mode = mode_of cur in
      let swept = H.sweep_orphan_tmp s (H.dirname abs) in
      let (s', w) = H.write_atomic swept abs bytes mode (now + rename_budget_ms) in
      (s', commit_reply s' abs given cur phase mode w)

  -- The digest that a write is held against.
  unfoldable pub current_sha : H.State → Text → Option Stat → Try Text
  current_sha s abs none = value sha256_empty
  current_sha s abs (some st) = sha256_file H turns s abs

  -- The directories, where the file is new and they are asked for.
  unfoldable pub write_checked :
      H.State → Job → Text → Text → List ℕ → Option Stat → ℕ → H.State × Try Reply
  unfolding commit
  write_checked s a abs given bytes cur now =
      if not (is_some cur) && a.create_parents
      then (let (s', made) = H.mkdirp s (H.dirname abs) in
          elim made [
            | some e ↦ (s', value (errno_fail resolve e given abs))
            | none ↦ commit s' abs given bytes cur rename now
          ])
      else commit s abs given bytes cur rename now

  unfoldable pub op_write : H.State → Job → ℕ → H.State × Try Reply
  unfolding current_sha is_dir write_checked
  op_write s a now =
      let given = get_or_else a.path [] in
      let abs = resolve_target H s given in
      let bytes = H.base64_decode (get_or_else a.content_b64 []) in
      if ltb write_max_bytes (length bytes)
      then (
        s,
        value (
            fail file_too_large precheck no (record no_extra {
              path_as_given = some given;
              bytes = some (length bytes);
              limit_bytes = some write_max_bytes;
            })),
      )
      else elim (stat_or_null H s abs) [
        | thrown e ↦ (s, value (errno_fail precheck e given abs))
        | value cur ↦
            if is_dir cur then (s, value (not_a_file given abs)) else elim (current_sha s abs cur) [
              | thrown e ↦ (s, thrown e)
              | value sha ↦
                  if is_stale a.base_sha sha
                  then (s, value (changed_since given abs sha))
                  else write_checked s a abs given bytes cur now
            ]
      ]
