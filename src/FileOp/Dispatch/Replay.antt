-- ===== src/FileOp/Dispatch/Replay.antt =====
-- lib/fileop.mjs, handleFileOp: a job that is delivered again, and the lock.

use gha_mcp_host.Prelude.{
  ℕ, ◌+◌, ◌<◌, ◌≤◌, ◌≡◌, refl, ap, ◌∙◌, arith, true, false, not, ◌&&◌, List, [], ◌∷◌, none, some,
  leb, le→leb, ◌==◌, length, text_eq, Bool-cases, inl, inr,
}
use gha_mcp_host.Text.{Text, text_eq_refl}
use gha_mcp_host.FileOp.{result_ttl_ms}
use gha_mcp_host.FileOp.Host.{Host, value}
use gha_mcp_host.FileOp.Replies.{Job, Reply}
use gha_mcp_host.FileOp.Dispatch.{
  OpName, op_of, is_mutating, Recorded, Answer, Runner, prune_replay_cache, find_recorded,
  record_reply, has_path, without, id_of, run_op, call_op, lock_path, locked_op, handle_file_op,
}

-- A fresh entry outlives the next pruning, and is the one that is found.
found_again :
    (id : Text) (now later : ℕ) (json : Reply) (cache : List Recorded)
    → later ≤ now + result_ttl_ms
    → find_recorded id (prune_replay_cache later (record_reply id now json cache)) ≡ some json
unfolding find_recorded record_reply prune_replay_cache
found_again id now later json [] h = rw (le→leb later (now + result_ttl_ms) h, text_eq_refl id)
found_again id now later json (r ∷ rs) h = elim (Bool-cases (text_eq r.write_id id)) [
  | inl e ↦ rw (e, record_reply) (rw (le→leb later (now + result_ttl_ms) h) (rw e))
  | inr e ↦
      rw (e, record_reply)
        (elim (Bool-cases (leb later (r.at + result_ttl_ms))) [
          | inl kept ↦ rw kept (rw e (found_again id now later json rs h))
          | inr old ↦ rw old (found_again id now later json rs h)
        ])
]

module _ (H : Host) (turns : ℕ) where
  -- Between two jobs no path is being written.
  abbrev pub idle : H.State → List Recorded → List Text → Runner H
  idle files cache started = record {
    files = files;
    cache = cache;
    mutating = [];
    started = started;
  }

  released : (abs : Text) → without abs (abs ∷ []) ≡ []
  unfolding without
  released abs = rw (text_eq_refl abs)

  module _ (files : H.State) (cache : List Recorded) (started : List Text) (op : OpName) (a : Job)
      (now at : ℕ) (json : Reply) where
    -- The runner after a write or an edit that returned.
    abbrev pub kept : Runner H
    kept = idle (run_op H turns files op a at).0 (record_reply (id_of a) now json cache) started

    abbrev pub first : Runner H × Answer
    first = (kept, record { json = json; replayed = false })

    called :
        (mutating : List Text)
        → is_mutating op ≡ true
        → (length (id_of a) == 0) ≡ false
        → (run_op H turns files op a at).1 ≡ value json
        → call_op H turns (record (idle files cache started) { mutating = mutating }) op a now at
          ≡ (record kept { mutating = mutating }, record { json = json; replayed = false })
    unfolding call_op
    called mutating m i res = rw (res, m, i, call_op)

    lock_and_call :
        is_mutating op ≡ true
        → (length (id_of a) == 0) ≡ false
        → (run_op H turns files op a at).1 ≡ value json
        → locked_op H turns (idle files cache started) op a now at ≡ first
    unfolding locked_op has_path
    lock_and_call m i res =
        let abs = lock_path H turns files a in
        elim (Bool-cases (is_mutating op && not (length abs == 0))) [
          | inr open_path ↦ rw open_path (called [] m i res)
          | inl needs ↦ rw needs (
              ap
                (λ (x : Runner H × Answer).
                  (record (x.0) { mutating = without abs x.0.mutating }, x.1))
                (called (abs ∷ []) m i res)
              ∙ ap (λ qs. (record kept { mutating = qs }, record { json = json; replayed = false }))
                  (released abs))
        ]

  -- A write or an edit under a write id that the cache does not have, on a runner that writes no path,
  -- and whose operation returns: its reply is the answer, whatever its verdict, and no path is being
  -- written afterwards. Within the time to live any job of that id gets the same reply again, marked as
  -- replayed, and no file is touched for it.
  pub handle_again :
      (files : H.State) (cache : List Recorded) (started : List Text) (op other : OpName)
      (a b : Job) (now at later at' : ℕ) (json : Reply)
      → op_of a.op ≡ some op
      → is_mutating op ≡ true
      → 0 < length (id_of a)
      → find_recorded (id_of a) (prune_replay_cache now cache) ≡ none
      → (run_op H turns files op a at).1 ≡ value json
      → op_of b.op ≡ some other
      → id_of b ≡ id_of a
      → later ≤ now + result_ttl_ms
      → let r = kept files (prune_replay_cache now cache) started op a now at json in
        (handle_file_op H turns (idle files cache started) a now at
          ≡ (r, record { json = json; replayed = false }))
        × (handle_file_op H turns r b later at' ≡ (
          record r { cache = prune_replay_cache later r.cache },
          record { json = json; replayed = true },
        ))
  unfolding handle_file_op
  handle_again files cache started op other a b now at later at' json is m long new res is_b same
        h =
      let id = id_of a in
      let filled = not_empty (length id) long in
      (
        rw (is, handle_file_op)
            (rw (filled) (
              rw (new, handle_file_op)
                (lock_and_call files (prune_replay_cache now cache) started op a now at json m
                  filled res))),
        rw (is_b, handle_file_op)
            (rw (ap (λ i. length i == 0) same ∙ filled) (
              rw
                (
                  ap
                        (λ i. find_recorded i (
                          prune_replay_cache later
                            (record_reply id now json (prune_replay_cache now cache))))
                        same
                      ∙ found_again id now later json (prune_replay_cache now cache) h,
                  handle_file_op,
                )
                refl)),
      )
    where
      not_empty : (n : ℕ) → 0 < n → (n == 0) ≡ false
      not_empty n h = ground arith
