-- ===== src/FileOp/Read.antt =====
-- lib/fileop.mjs, opRead: a window of bytes, and of it a window of lines.
pub mod Shows
use mathlib.Core.Option
use gha_mcp_host.Prelude.{
  ℕ, ℤ, pos, negsuc, ◌+◌, ◌-◌, ◌%◌, min, max, Bool, true, false, not, ◌&&◌, ◌||◌, List, [], ◌∷◌,
  Option, none, some, ltb, leb, length, slice, if◌then◌else◌, get_or_else,
}
use gha_mcp_host.Text.{Text, join}
use gha_mcp_host.FileOp.{
  read_default_bytes, read_max_bytes, line_limit_default, has_nul_prefix, split_bom, detect_eol,
  to_lf, split, lf_text,
}
use gha_mcp_host.FileOp.Host.{
  Host, Stat, Try, value, thrown, binary_file, not_utf8, precheck, transfer, no, resolve_target,
  read_window, sha256_file, decode_strict,
}
use gha_mcp_host.FileOp.Replies.{
  Job, Reply, read, fail, errno_fail, not_a_file, at_path, by_bytes, by_limit, TruncatedBy,
  clamp_num,
}

-- The first line of the window: a negative offset counts from its end.
unfoldable pub start_line : Option ℤ → ℕ → ℕ
start_line none lines = 0
start_line (some (pos n)) lines = min n lines
start_line (some (negsuc n)) lines = lines - (n + 1)

unfoldable pub truncated_by_of : Bool → Bool → Option TruncatedBy
truncated_by_of true lines = some by_bytes
truncated_by_of false true = some by_limit
truncated_by_of false false = none

unfoldable pub read_lines : Job → Text → Text → Stat → ℕ → List ℕ → Text → Option Text → Reply
unfolding start_line truncated_by_of split split_bom detect_eol to_lf clamp_num
read_lines a given abs st from raw text base =
    let total = st.size in
    let (bom, body) = split_bom text in
    let lines = split lf_text (to_lf body) in
    let count = length lines in
    let start = start_line a.offset count in
    let end_line = min count (start + clamp_num a.limit line_limit_default 1 100_000) in
    let returned = from + length raw in
    read (record {
      path_as_given = given;
      path_resolved = abs;
      text = join lf_text (slice lines start end_line);
      start_line = start;
      end_line = end_line;
      lines_in_window = count;
      byte_range = (from, returned);
      bytes_returned = length raw;
      total_bytes = total;
      truncated = ltb returned total || ltb end_line count;
      truncated_by = truncated_by_of (ltb returned total) (ltb end_line count);
      next_byte = if ltb returned total then some returned else none;
      base_sha = base;
      has_bom = ltb 0 (length bom);
      eol = detect_eol body;
      mtime_ms = st.mtime_ms;
      mode = st.mode % 512;
    })

module _ (H : Host) (turns : ℕ) where
  -- The digest of the whole file, unless it is too large.
  unfoldable pub base_of : H.State → Text → ℕ → Try (Option Text)
  base_of s abs total =
      if leb total read_max_bytes
      then elim (sha256_file H turns s abs) [ thrown e ↦ thrown e | value h ↦ value (some h) ]
      else value none

  unfoldable pub read_text : H.State → Job → Text → Text → Stat → ℕ → List ℕ → Try Reply
  unfolding base_of read_lines
  read_text s a given abs st from raw =
      let facts = record (at_path given abs) { total_bytes = some st.size } in
      if has_nul_prefix raw
      then value (fail binary_file precheck no (record facts { is_binary = true }))
      else elim (decode_strict H raw) [
        | none ↦ value (fail not_utf8 precheck no (record facts { window_hint = ltb 0 from }))
        | some text ↦ elim (base_of s abs st.size) [
          | thrown e ↦ thrown e
          | value base ↦ value (read_lines a given abs st from raw text base)
        ]
      ]

  unfoldable pub op_read : H.State → Job → Try Reply
  unfolding errno_fail not_a_file clamp_num read_text
  op_read s a =
      let given = get_or_else a.path [] in
      let abs = resolve_target H s given in
      elim (H.stat s abs) [
        | thrown e ↦ value (errno_fail precheck e given abs)
        | value st ↦
            if st.is_directory
            then value (not_a_file given abs)
            else (let from = clamp_num a.from_byte 0 0 st.size in
                let want = clamp_num a.max_bytes read_default_bytes 1 read_max_bytes in
                elim (read_window H s abs from want) [
                  | thrown e ↦ value (errno_fail transfer e given abs)
                  | value raw ↦ read_text s a given abs st from raw
                ])
      ]
