-- ===== src/FileOp/Tests.antt =====
-- Runs of the file operations on a machine of one file, and the theorems at such inputs.

use gha_mcp_host.Prelude.{
  ℕ, pos, negsuc, suc, ◌-◌, ◌≡◌, ◌≢◌, ◌↔◌, ◌⊎◌, refl, sym, ap, ◌∙◌, arith, true, false, List, [],
  ◌∷◌, Option, none, some, length,
}
use gha_mcp_host.Text.{Text, codes, trim, join, join_rest}
use gha_mcp_host.Job.{starts_with}
use gha_mcp_host.FileOp.{
  pieces, split, lf, crlf, mixed, crlf_text, detect_eol, to_lf, from_lf, split_bom, has_nul_prefix,
  find, index_of, count_from, count_occurrences, replace_from, replace_all_literal,
}
use gha_mcp_host.FileOp.Pieces.{replace-split}
use gha_mcp_host.FileOp.LineEnds.{from_lf-to_lf}
use gha_mcp_host.FileOp.Host.{
  rename, Try, value, resolve_target, stat_or_null, read_loop, read_window, sha256_loop,
  sha256_file, decode_strict,
}
use gha_mcp_host.FileOp.Memory.{memory, has_file, memory-Commits, no_job}
use gha_mcp_host.FileOp.Write.{
  commit, commit_reply, commit_answer, mode_of, current_sha, is_dir, write_checked, op_write,
}
use gha_mcp_host.FileOp.Edit.{with_edit, edited_text, expected_of, edit_text, edit_bytes, op_edit}
use gha_mcp_host.FileOp.Edit.Rejoined.{rejoined, Refuses, Replaces}
use gha_mcp_host.FileOp.Edit.Exact.{op_edit-IsExact, op_edit_applies}
use gha_mcp_host.FileOp.Read.{start_line, truncated_by_of, base_of, read_lines, read_text, op_read}
use gha_mcp_host.FileOp.Read.Shows.{Shown, op_read-Shown}
use gha_mcp_host.FileOp.Dispatch.{
  OpName, op_of, is_mutating, find_recorded, prune_replay_cache, run_op, handle_file_op,
}
use gha_mcp_host.FileOp.Dispatch.Replay.{idle, kept, handle_again}
use gha_mcp_host.FileOp.Replies.{
  Job, Reply, read, committed, Committed, changed_since, is_stale, clamp_num,
}
use gha_mcp_host.FileOp.Write.Guarded.{given_of, abs_of, no_lost_update}

count_runs : count_occurrences (codes "banana") (codes "ana") ≡ 1
unfolding count_occurrences count_from index_of find starts_with
count_runs = refl

replace_runs : replace_all_literal (codes "banana") (codes "an") (codes "$&") ≡ codes "b$&$&a"
unfolding replace_all_literal replace_from index_of find starts_with
replace_runs = refl

replace-split_example :
    (count_occurrences (codes "banana") (codes "an")
      ≡ length (split (codes "an") (codes "banana")) - 1)
    × (replace_all_literal (codes "banana") (codes "an") (codes "o")
        ≡ join (codes "o") (split (codes "an") (codes "banana")))
    × (join (codes "an") (split (codes "an") (codes "banana")) ≡ codes "banana")
replace-split_example = replace-split b'a' (codes "n") (codes "banana") (codes "o")

-- "a", CR, LF, "b", LF
abbrev two_ends : Text
two_ends = 97 ∷ 13 ∷ 10 ∷ 98 ∷ 10 ∷ []

eol_runs :
    (detect_eol two_ends ≡ mixed)
    × (detect_eol (97 ∷ crlf_text) ≡ crlf)
    × (detect_eol (codes "a") ≡ lf)
    × (to_lf two_ends ≡ 97 ∷ 10 ∷ 98 ∷ 10 ∷ [])
    × (from_lf (97 ∷ 10 ∷ []) crlf ≡ 97 ∷ crlf_text)
    × (split_bom (0xfeff ∷ 97 ∷ []) ≡ (0xfeff ∷ [], 97 ∷ []))
    × (has_nul_prefix (1 ∷ 0 ∷ []) ≡ true)
unfolding detect_eol to_lf from_lf split pieces join join_rest starts_with split_bom has_nul_prefix
eol_runs = (refl, refl, refl, refl, refl, refl, refl)

from_lf-to_lf_example :
    (from_lf (to_lf two_ends) (detect_eol two_ends) ≡ two_ends) ↔ (detect_eol two_ends ≢ mixed)
from_lf-to_lf_example = from_lf-to_lf two_ends

resolve_runs : resolve_target memory none (codes "f") ≡ codes "/w/f"
unfolding resolve_target starts_with trim
resolve_runs = refl

-- Two writers that have read "ab".
abbrev write_job : Text → Job
write_job text = record no_job { content_b64 = some text; base_sha = some (codes "xab") }

abbrev after_first : Option (List ℕ) × Try Reply
after_first = op_write memory 9 (some (codes "ab")) (write_job (codes "cde")) 5

abbrev first_commit : Committed
first_commit = record {
  path_as_given = codes "f";
  path_resolved = codes "/w/f";
  created = false;
  bytes_written = 3;
  size_verified = some 3;
  sha_verified = codes "xcde";
  mode = 420;
  fsync_skipped = none;
  rename_retried = 0;
  rename_waited_ms = 0;
}

write_runs : (after_first.0 ≡ some (codes "cde")) × (after_first.1 ≡ value (committed first_commit))
unfolding op_write write_checked commit commit_reply commit_answer current_sha is_dir mode_of
    stat_or_null sha256_file sha256_loop is_stale resolve_target starts_with trim
write_runs = (refl, refl)

same_path :
    abs_of memory after_first.0 (write_job (codes "fg"))
    ≡ abs_of memory (some (codes "ab")) (write_job (codes "cde"))
unfolding op_write stat_or_null sha256_file is_stale resolve_target
same_path = refl

no_lost_update_example :
    let s' = after_first.0 in
    let b = write_job (codes "fg") in
    op_write memory 9 s' b 6
    ≡ (s', value (changed_since (given_of b) (abs_of memory s' b) (memory.sha256 (codes "cde"))))
no_lost_update_example =
    no_lost_update memory 9 (some (codes "ab")) (write_job (codes "cde")) (write_job (codes "fg")) 5
      6 (codes "ab") first_commit memory-Commits (has_file _ (codes "ab")) (omega arith)
      (omega arith) (omega arith) (omega arith) (refl, omega arith) (refl, omega arith) (λ e. cc e)
      write_runs.1 same_path

-- Both of the occurrences of "a" in "a-a".
abbrev edit_job : Job
edit_job = record no_job {
  op = codes "edit";
  old_str = some (codes "a");
  new_str = some (codes "bc");
  expected_replacements = some (pos 2);
}

abbrev old_file : Option (List ℕ)
old_file = some (codes "a-a")

edit_runs : (op_edit memory 9 old_file edit_job 5).0 ≡ some (codes "bc-bc")
unfolding op_edit edit_bytes edit_text with_edit edited_text expected_of commit commit_reply
    commit_answer mode_of stat_or_null read_window read_loop decode_strict is_stale resolve_target
    starts_with trim split_bom detect_eol to_lf from_lf split pieces join join_rest
    count_occurrences count_from replace_all_literal replace_from index_of find
edit_runs = refl

op_edit-IsExact_example :
    Refuses memory old_file (op_edit memory 9 old_file edit_job 5)
    ⊎ Replaces memory 9 old_file edit_job 5 (codes "a-a") (op_edit memory 9 old_file edit_job 5)
op_edit-IsExact_example =
    op_edit-IsExact memory 9 old_file edit_job 5 (codes "a-a") (has_file _ (codes "a-a"))

edit_facts :
    (decode_strict memory (codes "a-a") ≡ some (codes "a-a"))
    × (is_stale edit_job.base_sha (memory.sha256 (codes "a-a")) ≡ false)
    × (length (split (to_lf (codes "a")) (to_lf (split_bom (codes "a-a")).1))
        ≡ suc (expected_of edit_job.expected_replacements))
    × (to_lf (codes "a") ≡ codes "a")
    × (to_lf (codes "bc") ≡ codes "bc")
unfolding decode_strict is_stale split to_lf split_bom expected_of pieces join join_rest starts_with
edit_facts = (refl, refl, refl, refl, refl)

abbrev shown_text : Try Reply → Option (Text × Option ℕ)
shown_text (value (read r)) = some (r.text, r.next_byte)
shown_text _ = none

-- The last two lines of a window of five bytes.
abbrev read_job : Job
read_job = record no_job { op = codes "read"; offset = some (negsuc 1); max_bytes = some (pos 5) }

read_runs :
    shown_text (op_read memory 9 (some (codes "a\nb\nc\nd")) read_job) ≡ some (codes "b\nc", some 5)
unfolding op_read read_text read_lines base_of start_line truncated_by_of clamp_num read_window
    read_loop decode_strict sha256_file sha256_loop resolve_target starts_with trim split_bom
    detect_eol to_lf split pieces join join_rest has_nul_prefix
read_runs = refl

op_read-Shown_example :
    Shown memory
      (codes "a\nb\nc\nd")
      0
      5
      (some (negsuc 1))
      2000
      (op_read memory 9 (some (codes "a\nb\nc\nd")) read_job)
op_read-Shown_example =
    op_read-Shown memory 9 (some (codes "a\nb\nc\nd")) read_job (codes "a\nb\nc\nd")
      (has_file _ (codes "a\nb\nc\nd")) (omega arith)

edit_differs : to_lf (codes "a") ≢ to_lf (codes "bc")
edit_differs e =
    let (_, _, _, a, b) = edit_facts in
    let same : 1 ≡ 2 = ap length (sym a ∙ e ∙ b) in absurd (omega (arith, same))

-- The answer around the commit of "bc-bc".
op_edit_applies_example : op_edit memory 9 old_file edit_job 5 ≡ (
    let (s', reply) =
      commit memory 9 old_file
        (abs_of memory old_file edit_job)
        (codes "f")
        (rejoined (codes "a-a") (codes "a") (codes "bc"))
        (some (has_file (abs_of memory old_file edit_job) (codes "a-a")).st)
        rename
        5 in
    (s', with_edit (expected_of (some (pos 2))) (codes "xa-a") (codes "a-a") reply))
op_edit_applies_example =
    op_edit_applies memory 9 old_file edit_job 5 (codes "a-a") (has_file _ (codes "a-a"))
      (codes "a-a") edit_facts.0 (omega arith) (omega arith) (omega arith) edit_facts.1 edit_facts.2
      edit_differs

-- A write job that is delivered again.
abbrev replay_job : Job
replay_job = record no_job { content_b64 = some (codes "cde") }

abbrev wrote : Reply
wrote = committed first_commit

replay_facts :
    (op_of replay_job.op ≡ some OpName.write)
    × (is_mutating OpName.write ≡ true)
    × (find_recorded (codes "w") (prune_replay_cache 5 []) ≡ none)
    × ((run_op memory 9 (some (codes "ab")) OpName.write replay_job 5).1 ≡ value wrote)
unfolding op_of is_mutating find_recorded prune_replay_cache run_op op_write write_checked commit
    commit_reply commit_answer current_sha is_dir mode_of stat_or_null sha256_file sha256_loop
    is_stale resolve_target starts_with trim
replay_facts = (refl, refl, refl, refl)

handle_again_example :
    let r =
      kept memory 9
        (some (codes "ab"))
        (prune_replay_cache 5 [])
        []
        OpName.write
        replay_job
        5
        5
        wrote in
    (handle_file_op memory 9 (idle memory 9 (some (codes "ab")) [] []) replay_job 5 5
      ≡ (r, record { json = wrote; replayed = false }))
    × (handle_file_op memory 9 r replay_job 100 101 ≡ (
      record r { cache = prune_replay_cache 100 r.cache },
      record { json = wrote; replayed = true },
    ))
handle_again_example =
    handle_again memory 9 (some (codes "ab")) [] [] OpName.write OpName.write replay_job replay_job
      5 5 100 101 wrote replay_facts.0 replay_facts.1 (omega arith) replay_facts.2 replay_facts.3
      replay_facts.0 refl (omega arith)

unknown_runs : op_of (codes "stat") ≡ none
unfolding op_of
unknown_runs = refl
