-- ===== src/FileOp/Dispatch.antt =====
-- lib/fileop.mjs, handleFileOp and runFileJob: the replay cache, the lock and the delivery.
pub mod Replay
pub mod Delivery
use mathlib.Core.Option
use gha_mcp_host.Prelude.{
  ℕ, ◌+◌, Bool, true, false, not, ◌&&◌, ◌||◌, List, [], ◌∷◌, Option, none, some, leb, ◌==◌, ◌-◌,
  length, if◌then◌else◌, get_or_else, text_eq, keep,
}
use gha_mcp_host.Text.{Text, codes}
use gha_mcp_host.FileOp.{result_ttl_ms}
use gha_mcp_host.FileOp.Host.{
  Host, Errno, Try, value, thrown, io_error, bad_input, write_in_progress, resolve, precheck,
  respond, fix_args, no, wait, resolve_target,
}
use gha_mcp_host.FileOp.Replies.{Job, Reply, failed, no_extra, fail}
use gha_mcp_host.FileOp.Read.{op_read}
use gha_mcp_host.FileOp.Write.{op_write}
use gha_mcp_host.FileOp.Edit.{op_edit}

pub data OpName : Type 0 where
  read write edit : OpName

-- `OPS[op]`
unfoldable pub op_of : Text → Option OpName
op_of op =
    if text_eq op (codes "read")
    then some read
    else if text_eq op (codes "write")
    then some write
    else if text_eq op (codes "edit")
    then some edit
    else none

unfoldable pub is_mutating : OpName → Bool
is_mutating read = false
is_mutating write = true
is_mutating edit = true

-- An entry of the replay cache.
pub record Recorded : Type 0 where
  pub write_id : Text
  pub at : ℕ
  pub json : Reply

pub record Answer : Type 0 where
  pub json : Reply
  pub replayed : Bool

-- The runner: its machine's files, the cache in the order of insertion, the paths being written, and
-- the commands that it has started.
pub record Runner (H : Host) : Type 0 where
  pub files : H.State
  pub cache : List Recorded
  pub mutating : List Text
  pub started : List Text

unfoldable pub prune_replay_cache : ℕ → List Recorded → List Recorded
prune_replay_cache now cache = keep (λ (r : Recorded). leb now (r.at + result_ttl_ms)) cache

unfoldable pub find_recorded : Text → List Recorded → Option Reply
find_recorded id [] = none
find_recorded id (r ∷ rs) = if text_eq r.write_id id then some r.json else find_recorded id rs

-- Map.set: an id that is there keeps its place.
unfoldable pub record_reply : Text → ℕ → Reply → List Recorded → List Recorded
record_reply id at json [] = record { write_id = id; at = at; json = json } ∷ []
record_reply id at json (r ∷ rs) =
    if text_eq r.write_id id
    then record r { at = at; json = json } ∷ rs
    else r ∷ record_reply id at json rs

unfoldable pub has_path : Text → List Text → Bool
has_path p [] = false
has_path p (q ∷ qs) = text_eq q p || has_path p qs

unfoldable pub without : Text → List Text → List Text
without p qs = keep (λ q. not (text_eq q p)) qs

-- What is sent for an exception.
unfoldable pub unhandled : Errno → Reply
unhandled e = fail io_error respond no (record no_extra { errno = some e })

-- `job.write_id ? String(job.write_id) : ""`
abbrev pub id_of : Job → Text
id_of a = get_or_else a.write_id []

module _ (H : Host) (turns : ℕ) where
  -- `fn(job)`; `at` is the clock of a commit.
  unfoldable pub run_op : H.State → OpName → Job → ℕ → H.State × Try Reply
  run_op s read a at = (s, op_read H turns s a)
  run_op s write a at = op_write H turns s a at
  run_op s edit a at = op_edit H turns s a at

  -- The call and what is kept of it: a reply, of any verdict, under the write id of a write or an edit.
  unfoldable pub call_op : Runner H → OpName → Job → ℕ → ℕ → Runner H × Answer
  unfolding run_op is_mutating record_reply unhandled
  call_op r op a now at =
      let (files, res) = run_op r.files op a at in
      elim res [
        | thrown e ↦ (record r { files = files }, record { json = unhandled e; replayed = false })
        | value json ↦ (
          record r {
            files = files;
            cache =
                if not (length (id_of a) == 0) && is_mutating op
                then record_reply (id_of a) now json r.cache
                else r.cache;
          },
          record { json = json; replayed = false },
        )
      ]

  -- `job.path ? resolveTarget(String(job.path)) : ""`
  unfoldable pub lock_path : H.State → Job → Text
  lock_path s a =
      let given = get_or_else a.path [] in
      if length given == 0 then [] else resolve_target H s given

  -- The guards of the lock, around the call.
  unfoldable pub locked_op : Runner H → OpName → Job → ℕ → ℕ → Runner H × Answer
  unfolding call_op lock_path has_path without
  locked_op r op a now at =
      let given = get_or_else a.path [] in
      let abs = lock_path r.files a in
      if is_mutating op && not (length abs == 0)
      then (if has_path abs r.mutating
          then (
            r,
            record {
              json =
                  fail write_in_progress precheck wait
                    (record no_extra { path_as_given = some given });
              replayed = false;
            },
          )
          else (let (r', answer) = call_op (record r { mutating = abs ∷ r.mutating }) op a now at in
              (record r' { mutating = without abs r'.mutating }, answer)))
      else call_op r op a now at

  unfoldable pub handle_file_op : Runner H → Job → ℕ → ℕ → Runner H × Answer
  unfolding op_of prune_replay_cache find_recorded locked_op
  handle_file_op r a now at = elim (op_of a.op) [
    | none ↦ (r, record { json = fail bad_input resolve fix_args no_extra; replayed = false })
    | some op ↦
        let pruned = record r { cache = prune_replay_cache now r.cache } in
        if length (id_of a) == 0
        then locked_op pruned op a now at
        else elim (find_recorded (id_of a) pruned.cache) [
          | some json ↦ (pruned, record { json = json; replayed = true })
          | none ↦ locked_op pruned op a now at
        ]
  ]

-- The one chunk that delivers a file job: its bytes are the answer as JSON. Its state is always exited,
-- with eof, and without a working directory.
pub record FileChunk : Type 0 where
  pub command_id : Text
  pub start_byte : ℕ
  pub bytes : List ℕ
  pub total_bytes : ℕ
  pub bytes_written : ℕ
  pub exit_code : ℕ
  pub runtime_ms : ℕ

unfoldable pub is_ok : Reply → Bool
is_ok (failed f) = false
is_ok _ = true

module _ (H : Host) (turns : ℕ) (to_json : Answer → Text) where
  -- The chunk that is pushed, `none` for a command that was started before. The clock is read when the
  -- job starts, in the call, for a commit, and when the chunk is made. The directory of the job is made
  -- and its mark is written without an exception.
  unfoldable pub run_file_job : Runner H → Job → ℕ → ℕ → ℕ → ℕ → Runner H × Option FileChunk
  unfolding handle_file_op is_ok has_path
  run_file_job r a started now at ended =
      if has_path a.command_id r.started
      then (r, none)
      else (let marked = record r { started = a.command_id ∷ r.started } in
          let (r', answer) = handle_file_op H turns marked a now at in
          let body = H.utf8_encode (to_json answer) in
          (
            r',
            some (record {
              command_id = a.command_id;
              start_byte = 0;
              bytes = body;
              total_bytes = length body;
              bytes_written = length body;
              exit_code = if is_ok answer.json then 0 else 1;
              runtime_ms = ended - started;
            }),
          ))
