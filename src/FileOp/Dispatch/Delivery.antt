-- ===== src/FileOp/Dispatch/Delivery.antt =====
-- lib/fileop.mjs, runFileJob: a job runs once, and its answer is delivered in one chunk.

use gha_mcp_host.Prelude.{
  ℕ, ◌≡◌, refl, ap, ◌∙◌, true, false, not, ◌&&◌, ◌||◌, ◌∷◌, none, some, ◌==◌, length, Bool-cases,
  Option-cases, inl, inr,
}
use gha_mcp_host.Text.{Text, text_eq_refl}
use gha_mcp_host.FileOp.Host.{Host, Try, value, thrown}
use gha_mcp_host.FileOp.Replies.{Job, Reply}
use gha_mcp_host.FileOp.Dispatch.{
  OpName, op_of, is_mutating, Answer, Runner, prune_replay_cache, find_recorded, has_path, run_op,
  call_op, lock_path, locked_op, handle_file_op, id_of, FileChunk, run_file_job,
}

module _ (H : Host) (turns : ℕ) where
  call_started :
      (r : Runner H) (op : OpName) (a : Job) (now at : ℕ)
      → (call_op H turns r op a now at).0.started ≡ r.started
  unfolding call_op
  call_started r op a now at = by_result (run_op H turns r.files op a at).1 refl
    where
      by_result :
          (t : Try Reply)
          → (run_op H turns r.files op a at).1 ≡ t
          → (call_op H turns r op a now at).0.started ≡ r.started
      by_result (value v) e = rw (e, call_op)
      by_result (thrown x) e = rw (e, call_op)

  locked_started :
      (r : Runner H) (op : OpName) (a : Job) (now at : ℕ)
      → (locked_op H turns r op a now at).0.started ≡ r.started
  unfolding locked_op
  locked_started r op a now at =
      let abs = lock_path H turns r.files a in
      elim (Bool-cases (is_mutating op && not (length abs == 0))) [
        | inr open_path ↦ rw open_path (call_started r op a now at)
        | inl needs ↦ elim (Bool-cases (has_path abs r.mutating)) [
          | inl busy ↦ rw (needs, busy)
          | inr free ↦
              rw (needs, free) (call_started (record r { mutating = abs ∷ r.mutating }) op a now at)
        ]
      ]

  handle_started :
      (r : Runner H) (a : Job) (now at : ℕ)
      → (handle_file_op H turns r a now at).0.started ≡ r.started
  unfolding handle_file_op
  handle_started r a now at = elim (Option-cases (op_of a.op)) [
    | inl unknown ↦ rw (unknown, handle_file_op)
    | inr (op, is) ↦
        let pruned : Runner H = record r { cache = prune_replay_cache now r.cache } in
        elim (Bool-cases (length (id_of a) == 0)) [
          | inl no_id ↦ rw (is, handle_file_op) (rw no_id (locked_started pruned op a now at))
          | inr an_id ↦
              elim (Option-cases (find_recorded (id_of a) (prune_replay_cache now r.cache))) [
                | inl new ↦
                    rw (is, handle_file_op)
                      (rw an_id (rw (new, handle_file_op) (locked_started pruned op a now at)))
                | inr (json, there) ↦
                    rw (is, handle_file_op) (rw an_id (rw (there, handle_file_op)))
              ]
        ]
  ]

  module _ (to_json : Answer → Text) where
    -- A job of a command that has not been started is answered in one chunk, of all the bytes that it
    -- counts, for that command. When the job is delivered again it does nothing and pushes nothing.
    pub run_file_job_once :
        (r : Runner H) (a : Job) (started now at ended started' now' at' ended' : ℕ)
        → has_path a.command_id r.started ≡ false
        → let (r', sent) = run_file_job H turns to_json r a started now at ended in
          ((chunk : FileChunk) × (sent ≡ some chunk)
            × (chunk.command_id ≡ a.command_id)
            × (chunk.start_byte ≡ 0)
            × (chunk.total_bytes ≡ length chunk.bytes))
          × (run_file_job H turns to_json r' a started' now' at' ended' ≡ (r', none))
    unfolding run_file_job has_path
    run_file_job_once r a started now at ended started' now' at' ended' new =
        let marked : Runner H = record r { started = a.command_id ∷ r.started } in
        let there : has_path a.command_id (a.command_id ∷ r.started) ≡ true =
          ap (λ b. b || has_path a.command_id r.started) (text_eq_refl a.command_id) in
        let seen = ap (has_path a.command_id) (handle_started marked a now at) ∙ there in
        rw new ((_, refl, refl, refl, refl), rw seen)
