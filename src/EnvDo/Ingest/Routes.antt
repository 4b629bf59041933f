-- ===== src/EnvDo/Ingest/Routes.antt =====
-- ingestChunk of broker/src/env-do.ts: which rows, queue entries and maps a chunk reaches.
use mathlib.Core.Option
use gha_mcp_host.Prelude.{
  ℕ, ◌≡◌, ◌≢◌, refl, sym, ap, subst, ◌∙◌, Bool, true, false, ◌&&◌, String, List, [], ◌∷◌, Option,
  some, arith, inl, inr, str_eq, eq_iff, is_some, get_or_else, Bool-cases, Option-cases,
}
use gha_mcp_host.Text.{Text}
use gha_mcp_host.Ring.{Ring}
use gha_mcp_host.EnvSchema.{is_terminal, truthy, Command, QueueRow}
use gha_mcp_host.EnvDo.{Env, find_command, lookup, in_queue}
use gha_mcp_host.EnvDo.Tables.{find_command-id, find_command-update_self, find_command-update_ne}
use gha_mcp_host.EnvDo.Ingest.{
  Chunk, ring_after, merge_row, dequeue, store_pull, ingest_known, ingest_output, ingest_chunk,
}
use gha_mcp_host.EnvDo.Ingest.Advance.{IsSettled, Advances, row-Advances}

-- Whether the chunk answers a pull.
abbrev pub answers_pull : Chunk → Bool
answers_pull body = body.is_pull && truthy body.req_id

module _ (unknown : String → Text) (e : Env) (body : Chunk) (now later : ℕ) where
  abbrev pub ring_now : Option Ring
  ring_now = ring_after (lookup body.command_id e.rings) body.start_byte body.bytes

  -- The answer to a pull touches no row, no queue entry, no ring and no meta value.
  pub ingest_chunk_pull :
      answers_pull body ≡ true
      → let e' = ingest_chunk unknown e body now later in
        (e'.commands ≡ e.commands)
        × (e'.queue ≡ e.queue)
        × (e'.rings ≡ e.rings)
        × (e'.meta ≡ e.meta)
        × (e'.actions ≡ e.actions)
  unfolding ingest_chunk store_pull
  ingest_chunk_pull h = rw h (refl, refl, refl, refl, refl)

  output_row :
      find_command body.command_id (ingest_output unknown e body now).commands
      ≡ Option.map
          (λ prev. merge_row unknown ring_now prev body now)
          (find_command body.command_id e.commands)
  unfolding ingest_output ingest_known
  output_row = elim (Option-cases (find_command body.command_id e.commands)) [
    | inl missing ↦ rw (missing, ingest_output) missing
    | inr (prev, found) ↦
        let row = merge_row unknown ring_now prev body now in
        let known = find_command-id body.command_id e.commands prev found in
        let id_kept = (row-Advances unknown ring_now prev body now).same_id in
        rw (found, ingest_output)
          (find_command-update_self body.command_id (λ _. row) e.commands
              (λ c h. ap (λ i. str_eq i body.command_id) id_kept ∙ known)
            ∙ ap (Option.map (λ _. row)) found)
  ]

  output_others :
      (j : String)
      → j ≢ body.command_id
      → find_command j (ingest_output unknown e body now).commands ≡ find_command j e.commands
  unfolding ingest_output ingest_known
  output_others j ne = elim (Option-cases (find_command body.command_id e.commands)) [
    | inl missing ↦ rw (missing, ingest_output)
    | inr (prev, found) ↦
        let row = merge_row unknown ring_now prev body now in
        let known = find_command-id body.command_id e.commands prev found in
        let id_kept = (row-Advances unknown ring_now prev body now).same_id in
        rw (found, ingest_output)
          (find_command-update_ne body.command_id j (λ _. row) e.commands
            (λ c h. ap (λ i. str_eq i body.command_id) id_kept ∙ known) ne)
  ]

  -- Any other chunk turns the row of its command into the merged one, if there is such a row, makes
  -- no row where there is none, and leaves the rows of all other commands.
  pub ingest_chunk_row :
      answers_pull body ≡ false
      → let e' = ingest_chunk unknown e body now later in
        (find_command body.command_id e'.commands
          ≡ Option.map
              (λ prev. merge_row unknown ring_now prev body now)
              (find_command body.command_id e.commands))
        × ((j : String)
            → j ≢ body.command_id
            → find_command j e'.commands ≡ find_command j e.commands)
  unfolding ingest_chunk
  ingest_chunk_row h = rw h (output_row, output_others)

dequeued : (id : String) (queue : List QueueRow) → in_queue id (dequeue id queue) ≡ false
unfolding in_queue dequeue
dequeued id [] = refl
dequeued id (q ∷ qs) = ground (arith, dequeued id qs)

queue_after :
    (unknown : String → Text) (e : Env) (body : Chunk) (now later : ℕ) (prev : Command)
    → answers_pull body ≡ false
    → find_command body.command_id e.commands ≡ some prev
    → is_terminal (merge_row unknown (ring_now unknown e body now later) prev body now).state ≡ true
    → (ingest_chunk unknown e body now later).queue ≡ dequeue body.command_id e.queue
unfolding ingest_chunk ingest_output ingest_known
queue_after unknown e body now later prev h found terminal =
    rw (h, found, ingest_output) (rw terminal)

-- Once a chunk makes a row terminal, or finds it so, its queue entry is gone.
pub ingest_chunk_dequeues :
    (unknown : String → Text) (e : Env) (body : Chunk) (now later : ℕ) (prev next : Command)
    → answers_pull body ≡ false
    → find_command body.command_id e.commands ≡ some prev
    → find_command body.command_id (ingest_chunk unknown e body now later).commands ≡ some next
    → is_terminal next.state ≡ true
    → in_queue body.command_id (ingest_chunk unknown e body now later).queue ≡ false
ingest_chunk_dequeues unknown e body now later prev next h found after terminal =
    let merged = merge_row unknown (ring_now unknown e body now later) prev body now in
    let stored : some merged ≡ some next =
      sym (
        ap (Option.map (λ p. merge_row unknown (ring_now unknown e body now later) p body now))
          found)
      ∙ sym (ingest_chunk_row unknown e body now later h).0
      ∙ after in
    let ended : is_terminal merged.state ≡ true = terminal_of stored terminal in
    ap (in_queue body.command_id) (queue_after unknown e body now later prev h found ended)
    ∙ dequeued body.command_id e.queue
  where
    terminal_of :
        {m n : Command} → some m ≡ some n → is_terminal n.state ≡ true → is_terminal m.state ≡ true
    terminal_of {m} p t = ap (λ o. is_terminal (get_or_else o m).state) p ∙ t

Advances-refl : (c : Command) → Advances c c
Advances-refl c = record {
  same_id = refl;
  state_kept = λ h. refl;
  total = omega arith;
  written = omega arith;
  discarded = omega arith;
  capped = λ h. h;
  exit_known = λ h. h;
  ended_kept = λ h. refl;
  reason_rank = omega arith;
  tail_known = λ h. h;
}

Advances-trans : {a b c : Command} → Advances a b → Advances b c → Advances a c
Advances-trans {a} {b} {c} p q = record {
  same_id = q.same_id ∙ p.same_id;
  state_kept = λ h. let kept = p.state_kept h in q.state_kept (subst IsSettled (sym kept) h) ∙ kept;
  total = omega (arith, p.total, q.total);
  written = omega (arith, p.written, q.written);
  discarded = omega (arith, p.discarded, q.discarded);
  capped = λ h. q.capped (p.capped h);
  exit_known = λ h. q.exit_known (p.exit_known h);
  ended_kept = λ h. let kept = p.ended_kept h in q.ended_kept (ap is_some kept ∙ h) ∙ kept;
  reason_rank = omega (arith, p.reason_rank, q.reason_rank);
  tail_known = λ h. q.tail_known (p.tail_known h);
}

-- A later table keeps the row of this id, advanced.
abbrev pub Kept : String → Command → List Command → Type 0
Kept id prev commands =
    (next : Command) × (find_command id commands ≡ some next) × Advances prev next

pub ingest_chunk-Kept :
    (unknown : String → Text) (e : Env) (body : Chunk) (now later : ℕ) (id : String)
    (prev : Command)
    → find_command id e.commands ≡ some prev
    → Kept id prev (ingest_chunk unknown e body now later).commands
ingest_chunk-Kept unknown e body now later id prev found = elim (Bool-cases (answers_pull body)) [
  | inl pull ↦ (
    prev,
    ap (find_command id) (ingest_chunk_pull unknown e body now later pull).0 ∙ found,
    Advances-refl prev,
  )
  | inr output ↦
      let (row, others) = ingest_chunk_row unknown e body now later output in
      elim (Bool-cases (str_eq id body.command_id)) [
        | inl same ↦
            let e1 : id ≡ body.command_id = (eq_iff id body.command_id).0 same in
            let ring = ring_now unknown e body now later in
            (
              merge_row unknown ring prev body now,
              ap (λ i. find_command i (ingest_chunk unknown e body now later).commands) e1
                  ∙ row
                  ∙ ap (Option.map (λ p. merge_row unknown ring p body now))
                      (ap (λ i. find_command i e.commands) (sym e1) ∙ found),
              row-Advances unknown ring prev body now,
            )
        | inr other ↦ (
          prev,
          others id (λ p. cc ((eq_iff id body.command_id).1 p, other)) ∙ found,
          Advances-refl prev,
        )
      ]
]

-- Chunks in the order of their arrival, each with its two clock readings.
unfoldable pub ingest_all : (String → Text) → Env → List (Chunk × ℕ × ℕ) → Env
ingest_all unknown e [] = e
ingest_all unknown e ((body, now, later) ∷ rest) =
    ingest_all unknown (ingest_chunk unknown e body now later) rest

-- Over any sequence of chunks, for any commands, new or redelivered, no row is lost and every row
-- only advances.
pub ingest_all-Kept :
    (unknown : String → Text) (e : Env) (chunks : List (Chunk × ℕ × ℕ)) (id : String)
    (prev : Command)
    → find_command id e.commands ≡ some prev
    → Kept id prev (ingest_all unknown e chunks).commands
unfolding ingest_all
ingest_all-Kept unknown e [] id prev found = (prev, found, Advances-refl prev)
ingest_all-Kept unknown e ((body, now, later) ∷ rest) id prev found =
    let (mid, there, step) = ingest_chunk-Kept unknown e body now later id prev found in
    let (last, stands, steps) =
      ingest_all-Kept unknown (ingest_chunk unknown e body now later) rest id mid there in
    (last, stands, Advances-trans step steps)
