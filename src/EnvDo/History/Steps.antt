-- ===== src/EnvDo/History/Steps.antt =====
-- broker/src/env-do.ts: every method keeps the tables tidy.
use mathlib.Core.Option
use gha_mcp_host.Prelude.{
  ℕ, suc, ◌≡◌, inl, inr, refl, sym, subst, ◌∙◌, Bool, true, false, String, [], ◌∷◌, ◌++◌, Option,
  none, some, arith, str_eq, eq_iff, Bool-cases, Option-cases, leb, if◌then◌else◌,
}
use gha_mcp_host.EnvSchema.{is_terminal, CmdState, queued, running, lost, exited, Command}
use gha_mcp_host.EnvDo.{Env, find_command, update_command, in_queue}
use gha_mcp_host.EnvDo.Lifecycle.{provision, set_dispatch, extend, mark_destroying, mark_failed}
use gha_mcp_host.EnvDo.Tables.{find_command-id, find_command-update_ne}
use gha_mcp_host.Ring.{Ring}
use gha_mcp_host.EnvDo.Queue.{
  queue_depth, Request, find_dupe, insert_both, enqueue, new_command, new_row, start, next_row,
  claim_next,
}
use gha_mcp_host.EnvDo.Ingest.{
  Chunk, store_pull, merge_row, ingest_known, ingest_output, ingest_chunk, dequeue,
}
use gha_mcp_host.EnvDo.Ingest.Advance.{row-Advances}
use gha_mcp_host.EnvDo.Ingest.Routes.{answers_pull, ring_now}
use gha_mcp_host.EnvDo.Control.{
  Poll, control_poll, take_pull, kill_command, set_overlay, push_action, request_pull,
}
use gha_mcp_host.EnvDo.History.{
  Step, provisioned, dispatched, enrolled, authorized, extended, destroyed, failed, enqueued,
  claimed, ingested, polled, pushed, pulled, taken, overlaid, evicted,
}
use gha_mcp_host.EnvDo.History.Rows.{
  IsUnsettled, IsLive, RowsOnce, EntriesOnce, InOrder, LiveEntries, KeepsId,
  update_command-RowsOnce, append-RowsOnce, find_command-append-IsLive, find_command-append_new,
  append-EntriesOnce, append-InOrder, LiveEntries-map, append-LiveEntries, dequeue-EntriesOnce,
  dequeue-InOrder, dequeue-LiveEntries,
}
use gha_mcp_host.EnvDo.History.Live.{
  LiveKept, update_command-LiveKept, start-IsLive, report_gaps-LiveKept, report_gaps-RowsOnce,
  mark_claimed-EntriesOnce, mark_claimed-InOrder, mark_claimed-LiveEntries,
}
use gha_mcp_host.Text.{Text}
use gha_mcp_host.EnvDo.History.Tidy.{
  IsTidy, SameTables, SameTables-IsTidy, enroll_same, auth_same, rows_changed,
}

-- The two INSERTs, of a row that is new.
inserted :
    (e : Env) (r : Request) (later : ℕ)
    → find_command r.command_id e.commands ≡ none
    → in_queue r.command_id e.queue ≡ false
    → IsTidy e
    → IsTidy (record e {
      commands = e.commands ++ new_command r later ∷ [];
      queue = e.queue ++ new_row r e.next_seq ∷ [];
      next_seq = suc e.next_seq;
    })
unfolding new_command new_row
inserted e r later fresh absent t =
    let row = new_command r later in
    let table = e.commands ++ row ∷ [] in
    record {
      rows_once = append-RowsOnce e.commands row fresh t.rows_once;
      entries_once = append-EntriesOnce e.queue (new_row r e.next_seq) absent t.entries_once;
      in_order = append-InOrder 0 e.next_seq e.queue (new_row r e.next_seq) refl t.in_order;
      live =
          append-LiveEntries table e.queue (new_row r e.next_seq)
            (subst IsLive (sym (find_command-append_new e.commands row fresh)) tt)
            (LiveEntries-map e.commands table e.queue
              (λ j. find_command-append-IsLive j e.commands row) t.live);
    }

insert_both-IsTidy :
    (e : Env) (r : Request) (later : ℕ) → IsTidy e → IsTidy (insert_both e r later).0
unfolding insert_both new_command
insert_both-IsTidy e r later t = elim (Option-cases (find_command r.command_id e.commands)) [
  | inr (c, found) ↦ rw found t
  | inl fresh ↦
      let row = new_command r later in
      elim (Bool-cases (in_queue r.command_id e.queue)) [
        | inl dup ↦
            rw (fresh, dup)
              (rows_changed e (record e { commands = e.commands ++ row ∷ [] }) (refl, refl)
                (append-RowsOnce e.commands row fresh t.rows_once)
                (λ j. find_command-append-IsLive j e.commands row) t)
        | inr free ↦ rw (fresh, free) (inserted e r later fresh free t)
      ]
]

enqueue-IsTidy :
    (e : Env) (r : Request) (now later : ℕ) → IsTidy e → IsTidy (enqueue e r now later).0
unfolding enqueue
enqueue-IsTidy e r now later t = elim (Option-cases (find_dupe r now e.commands)) [
  | inr (c, found) ↦ rw (found, enqueue) t
  | inl none_yet ↦
      rw (none_yet, enqueue)
        (elim (Bool-cases (leb r.max_queue (queue_depth e))) [
          | inl full ↦ rw full t
          | inr room ↦ rw room (insert_both-IsTidy e r later t)
        ])
]

claim_next-IsTidy :
    (e : Env) (worker : String) (now : ℕ) → IsTidy e → IsTidy (claim_next e worker now).0
unfolding claim_next start
claim_next-IsTidy e worker now t = elim (Option-cases (next_row e.queue now)) [
  | inl nothing ↦ rw (nothing, claim_next) t
  | inr (q, found) ↦
      let started = update_command q.command_id (start now) e.commands in
      let same_id : KeepsId q.command_id (start now) = λ c h. refl in
      rw (found, claim_next)
        (record {
          rows_once =
              update_command-RowsOnce q.command_id (start now) e.commands same_id t.rows_once;
          entries_once = mark_claimed-EntriesOnce q.seq worker now e.queue t.entries_once;
          in_order = mark_claimed-InOrder q.seq worker now 0 e.next_seq e.queue t.in_order;
          live = mark_claimed-LiveEntries started q.seq worker now e.queue (
              LiveEntries-map e.commands started e.queue
                (update_command-LiveKept q.command_id (start now) e.commands same_id
                  (start-IsLive now (find_command q.command_id e.commands)))
                t.live);
        })
]

control_poll-IsTidy :
    (e : Env) (p : Poll) (now gap_at later : ℕ)
    → IsTidy e
    → IsTidy (control_poll e p now gap_at later).0
unfolding control_poll
control_poll-IsTidy e p now gap_at later t =
    rows_changed e (control_poll e p now gap_at later).0 (refl, refl)
      (report_gaps-RowsOnce gap_at p.running e.commands t.rows_once)
      (report_gaps-LiveKept gap_at p.running e.commands) t

IsLive-row :
    (row : Command) (o : Option Command)
    → IsUnsettled row.state
    → IsLive o
    → IsLive (Option.map (λ _. row) o)
IsLive-row row none u l = l
IsLive-row row (some c) u l = u

-- The row of `id` is written anew, and its entry deleted where the row is terminal.
row_stored :
    (e e' : Env) (id : String) (row : Command) (terminal : Bool)
    → e'.commands ≡ update_command id (λ _. row) e.commands
    → e'.queue ≡ (if terminal then dequeue id e.queue else e.queue)
    → e'.next_seq ≡ e.next_seq
    → row.command_id ≡ id
    → (terminal ≡ false → IsUnsettled row.state)
    → IsTidy e
    → IsTidy e'
row_stored e e' id row terminal cs qs seq row_id going t =
    let same_id : KeepsId id (λ _. row) = λ c h. row_id ∙ sym ((eq_iff c.command_id id).0 h) in
    let keeps : (c : Command) → str_eq c.command_id id ≡ true → str_eq row.command_id id ≡ true =
      λ c h. (eq_iff row.command_id id).1 row_id in
    let rows = update_command id (λ _. row) e.commands in
    let once =
      subst RowsOnce (sym cs)
        (update_command-RowsOnce id (λ _. row) e.commands same_id t.rows_once) in
    by_state terminal once keeps same_id qs going
  where
    by_state :
        (b : Bool)
        → RowsOnce e'.commands
        → ((c : Command) → str_eq c.command_id id ≡ true → str_eq row.command_id id ≡ true)
        → KeepsId id (λ _. row)
        → e'.queue ≡ (if b then dequeue id e.queue else e.queue)
        → (b ≡ false → IsUnsettled row.state)
        → IsTidy e'
    by_state false once keeps same_id same u =
        rows_changed e e' (same, seq) once
          (subst (LiveKept e.commands) (sym cs) (
            update_command-LiveKept id (λ _. row) e.commands same_id
              (IsLive-row row (find_command id e.commands) (u refl))))
          t
    by_state true once keeps same_id gone u = record {
      rows_once = once;
      entries_once = subst EntriesOnce (sym gone) (dequeue-EntriesOnce id e.queue t.entries_once);
      in_order =
          subst (λ n. InOrder 0 n e'.queue) (sym seq)
            (subst (InOrder 0 e.next_seq) (sym gone)
              (dequeue-InOrder id 0 e.next_seq e.queue t.in_order));
      live =
          subst (λ ds. LiveEntries ds e'.queue) (sym cs)
            (subst (LiveEntries (update_command id (λ _. row) e.commands)) (sym gone) (
              dequeue-LiveEntries id e.commands (update_command id (λ _. row) e.commands) e.queue
                (λ j. find_command-update_ne id j (λ _. row) e.commands keeps) t.live));
    }

IsUnsettled-of : (s : CmdState) → is_terminal s ≡ false → IsUnsettled s
IsUnsettled-of queued h = tt
IsUnsettled-of running h = tt
IsUnsettled-of lost h = tt
IsUnsettled-of exited h = cc h
IsUnsettled-of CmdState.killed h = cc h

-- A chunk for a row that the table has.
ingest_known-IsTidy :
    (unknown : String → Text) (e : Env) (ring : Option Ring) (prev : Command) (body : Chunk)
    (now : ℕ)
    → find_command body.command_id e.commands ≡ some prev
    → IsTidy e
    → IsTidy (ingest_known unknown e ring prev body now)
unfolding ingest_known
ingest_known-IsTidy unknown e ring prev body now found t =
    let id = body.command_id in
    let row = merge_row unknown ring prev body now in
    let known = (eq_iff prev.command_id id).0 (find_command-id id e.commands prev found) in
    row_stored e (ingest_known unknown e ring prev body now) id row (is_terminal row.state) refl
      refl refl ((row-Advances unknown ring prev body now).same_id ∙ known)
      (IsUnsettled-of row.state) t

ingest_chunk-IsTidy :
    (unknown : String → Text) (e : Env) (body : Chunk) (now later : ℕ)
    → IsTidy e
    → IsTidy (ingest_chunk unknown e body now later)
unfolding ingest_chunk store_pull ingest_output
ingest_chunk-IsTidy unknown e body now later t = elim (Bool-cases (answers_pull body)) [
  | inl answer ↦ rw answer (SameTables-IsTidy e _ (refl, refl, refl) t)
  | inr output ↦
      let ring = ring_now unknown e body now later in
      elim (Option-cases (find_command body.command_id e.commands)) [
        | inl missing ↦
            rw (output, missing, ingest_output) (SameTables-IsTidy e _ (refl, refl, refl) t)
        | inr (prev, found) ↦
            rw (output, found, ingest_output)
              (ingest_known-IsTidy unknown e ring prev body now found t)
      ]
]

pub take_pull_same : (e : Env) (req_id : String) → SameTables e (take_pull e req_id).0
unfolding take_pull
take_pull_same e req_id = ground arith

-- Every method keeps the tables tidy.
pub Step-IsTidy : {e e' : Env} → Step e e' → IsTidy e → IsTidy e'
unfolding provision set_dispatch extend mark_destroying mark_failed push_action request_pull
    kill_command set_overlay
Step-IsTidy (provisioned e p now later) t = SameTables-IsTidy e _ (refl, refl, refl) t
Step-IsTidy (dispatched e a b c) t = SameTables-IsTidy e _ (refl, refl, refl) t
Step-IsTidy (enrolled e c token now later) t =
    SameTables-IsTidy e _ (enroll_same e c token now later) t
Step-IsTidy (authorized e token now) t = SameTables-IsTidy e _ (auth_same e token now) t
Step-IsTidy (extended e minutes max_minutes now) t = SameTables-IsTidy e _ (refl, refl, refl) t
Step-IsTidy (destroyed e) t = SameTables-IsTidy e _ (refl, refl, refl) t
Step-IsTidy (failed e reason) t = SameTables-IsTidy e _ (refl, refl, refl) t
Step-IsTidy (enqueued e r now later) t = enqueue-IsTidy e r now later t
Step-IsTidy (claimed e worker now) t = claim_next-IsTidy e worker now t
Step-IsTidy (ingested e unknown body now later) t = ingest_chunk-IsTidy unknown e body now later t
Step-IsTidy (polled e p now gap_at later) t = control_poll-IsTidy e p now gap_at later t
Step-IsTidy (pushed e a) t = SameTables-IsTidy e _ (refl, refl, refl) t
Step-IsTidy (pulled e req_id id from max) t = SameTables-IsTidy e _ (refl, refl, refl) t
Step-IsTidy (taken e req_id) t = SameTables-IsTidy e _ (take_pull_same e req_id) t
Step-IsTidy (Step.killed e id s) t = SameTables-IsTidy e _ (refl, refl, refl) t
Step-IsTidy (overlaid e content) t = SameTables-IsTidy e _ (refl, refl, refl) t
Step-IsTidy (evicted e) t = SameTables-IsTidy e _ (refl, refl, refl) t
