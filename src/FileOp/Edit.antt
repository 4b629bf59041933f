-- ===== src/FileOp/Edit.antt =====
-- lib/fileop.mjs, opEdit: the occurrences of a text in a file, replaced by another one.
pub mod Rejoined
pub mod Exact
use mathlib.Core.Option
use gha_mcp_host.Prelude.{
  ℕ, ℤ, pos, pos_part, ◌+◌, max, Bool, true, false, not, List, [], ◌∷◌, ◌++◌, Option, none, some,
  ltb, ◌==◌, length, if◌then◌else◌, get_or_else, text_eq,
}
use gha_mcp_host.Text.{Text}
use gha_mcp_host.FileOp.{
  old_str_max_bytes, read_max_bytes, split_bom, detect_eol, to_lf, from_lf, count_occurrences,
  replace_all_literal,
}
use gha_mcp_host.FileOp.Host.{
  Host, Stat, Try, value, thrown, bad_input, pattern_too_large, file_too_large, not_utf8,
  edit_no_occurrence_found, edit_expected_occurrence_mismatch, precheck, transfer, rename, fix_args,
  no, reread, resolve_target, read_window, decode_strict,
}
use gha_mcp_host.FileOp.Replies.{
  Job, Reply, committed, edited, noop, no_extra, at_path, fail, errno_fail, not_a_file,
  changed_since, is_stale,
}
use gha_mcp_host.FileOp.Write.{commit}

-- The answer to an edit, from that of its commit.
unfoldable pub with_edit : ℕ → Text → Text → Try Reply → Try Reply
unfolding split_bom detect_eol
with_edit found sha text (value (committed c)) =
    let (bom, body) = split_bom text in
    value (
      edited (record {
        commit = c;
        replacements = found;
        base_sha = sha;
        eol = detect_eol body;
        has_bom = ltb 0 (length bom);
      }))
with_edit found sha text reply = reply

-- The whole text of the file after the edit.
unfoldable pub edited_text : Text → Text → Text → Text
unfolding split_bom detect_eol to_lf from_lf replace_all_literal
edited_text text old_str new_str =
    let (bom, body) = split_bom text in
    bom
    ++ from_lf (replace_all_literal (to_lf body) (to_lf old_str) (to_lf new_str)) (detect_eol body)

-- `Math.max(1, num(a.expected_replacements, 1))`
unfoldable pub expected_of : Option ℤ → ℕ
expected_of v = max 1 (pos_part (get_or_else v (pos 1)))

module _ (H : Host) (turns : ℕ) where
  -- The file's text is known, and so is its digest.
  unfoldable pub edit_text :
      H.State → Text → Text → Stat → Text → Text → Text → Text → ℕ → ℕ → H.State × Try Reply
  unfolding with_edit edited_text count_occurrences
  edit_text s abs given st sha text old_str new_str expected now =
      let facts = record (at_path given abs) { current_sha256 = some sha } in
      let hay = to_lf (split_bom text).1 in
      let found = count_occurrences hay (to_lf old_str) in
      if found == 0
      then (
        s,
        value
            (fail edit_no_occurrence_found precheck reread (record facts { occurrences = some 0 })),
      )
      else if not (found == expected)
      then (
        s,
        value (
            fail edit_expected_occurrence_mismatch precheck fix_args
              (record facts { occurrences = some found; expected_replacements = some expected })),
      )
      else if text_eq (to_lf old_str) (to_lf new_str)
      then (
        s,
        value (
            noop (record {
              path_as_given = given;
              path_resolved = abs;
              sha_verified = sha;
              size_verified = st.size;
            })),
      )
      else (let (s', reply) =
            commit H turns s abs given (H.utf8_encode (edited_text text old_str new_str)) (some st)
              rename now in
          (s', with_edit found sha text reply))

  unfoldable pub edit_bytes :
      H.State → Job → Text → Text → Stat → List ℕ → Text → Text → ℕ → H.State × Try Reply
  unfolding edit_text expected_of
  edit_bytes s a abs given st raw old_str new_str now =
      let sha = H.sha256 raw in
      if is_stale a.base_sha sha
      then (s, value (changed_since given abs sha))
      else elim (decode_strict H raw) [
        | none ↦ (
          s,
          value (
              fail not_utf8 precheck no (record (at_path given abs) { current_sha256 = some sha })),
        )
        | some text ↦
            edit_text s abs given st sha text old_str new_str (expected_of a.expected_replacements)
              now
      ]

  unfoldable pub op_edit : H.State → Job → ℕ → H.State × Try Reply
  unfolding edit_bytes
  op_edit s a now =
      let given = get_or_else a.path [] in
      let abs = resolve_target H s given in
      let old_str = get_or_else a.old_str [] in
      let new_str = get_or_else a.new_str [] in
      let only_path = record no_extra { path_as_given = some given } in
      if length old_str == 0
      then (s, value (fail bad_input precheck fix_args only_path))
      else if ltb old_str_max_bytes (length (H.utf8_encode old_str))
      then (s, value (fail pattern_too_large precheck fix_args only_path))
      else elim (H.stat s abs) [
        | thrown e ↦ (s, value (errno_fail precheck e given abs))
        | value st ↦
            if st.is_directory
            then (s, value (not_a_file given abs))
            else if ltb read_max_bytes st.size
            then (
              s,
              value (
                  fail file_too_large precheck no
                    (record (at_path given abs) { total_bytes = some st.size })),
            )
            else elim (read_window H s abs 0 st.size) [
              | thrown e ↦ (s, value (errno_fail transfer e given abs))
              | value raw ↦ edit_bytes s a abs given st raw old_str new_str now
            ]
      ]
