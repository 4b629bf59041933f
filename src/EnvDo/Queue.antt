-- ===== src/EnvDo/Queue.antt =====
-- broker/src/env-do.ts, the queue section: enqueue, queueDepth and claimNext.
-- The payload is the JSON text that `enqueue` stores and `claimNext` gives back.
pub mod Dedupe
pub mod Claiming
mod Tests
use gha_mcp_host.Prelude.{
  ℕ, ◌+◌, ◌<◌, suc, Bool, true, false, not, ◌&&◌, ◌||◌, String, List, [], ◌∷◌, ◌++◌, Option, none,
  some, ltb, leb, ◌==◌, if◌then◌else◌, str_eq, get_or_else, or_else, length, keep, is_some,
}
use gha_mcp_host.EnvSchema.{CmdState, queued, running, Command, QueueRow, Meta}
use gha_mcp_host.EnvDo.{Env, find_command, update_command, in_queue}

abbrev pub claim_redeliver_ms : ℕ
claim_redeliver_ms = 30_000

abbrev pub queue_depth : Env → ℕ
queue_depth e = length e.queue

pub record Request : Type 0 where
  pub command_id : String
  pub idem_hash : String
  pub payload : String
  pub label : Option String
  pub cwd : Option String
  pub shell : Option String
  pub max_queue : ℕ
  pub idem_window_ms : ℕ

pub record Enqueued : Type 0 where
  pub command_id : String
  pub deduped : Bool
  pub queue_position : ℕ
  pub queue_depth : ℕ
  pub overlay_version : ℕ

-- `conflict` is the exception of an INSERT whose command_id is taken.
pub data EnqueueResult : Type 0 where
  accepted : Enqueued → EnqueueResult
  queue_full : ℕ → ℕ → EnqueueResult
  conflict : EnqueueResult

-- The newest row, the first such in the table.
newest : Command → List Command → Command
newest c [] = c
newest c (d ∷ ds) = newest (if ltb c.created_at d.created_at then d else c) ds

unfoldable pub first_of_newest : List Command → Option Command
unfolding newest
first_of_newest [] = none
first_of_newest (c ∷ cs) = some (newest c cs)

-- The row of the same hash created inside the window that ends now.
pub is_dupe : Request → ℕ → Command → Bool
is_dupe r now c = str_eq c.idem_hash r.idem_hash && leb now (c.created_at + r.idem_window_ms)

unfoldable pub find_dupe : Request → ℕ → List Command → Option Command
unfolding first_of_newest
find_dupe r now commands = first_of_newest (keep (is_dupe r now) commands)

unfoldable pub new_command : Request → ℕ → Command
new_command r now = record {
  command_id = r.command_id;
  idem_hash = r.idem_hash;
  state = queued;
  exit_code = none;
  signal = none;
  created_at = now;
  started_at = none;
  ended_at = none;
  runtime_ms = none;
  total_bytes = 0;
  bytes_written = none;
  head_discarded_bytes = 0;
  output_capped = false;
  last_output_at = none;
  label = r.label;
  cwd = r.cwd;
  shell = r.shell;
  killed_reason = none;
  warnings = none;
  tail_b64 = none;
  tail_start = none;
}

unfoldable pub new_row : Request → ℕ → QueueRow
new_row r seq = record {
  seq = seq;
  command_id = r.command_id;
  payload = r.payload;
  claimed_by = none;
  claimed_at = none;
}

unfoldable pub version : Env → ℕ
version e = get_or_else e.meta.overlay_version 0

-- The two INSERTs; each fails on an id that its table has.
unfoldable pub insert_both : Env → Request → ℕ → Env × EnqueueResult
unfolding version
insert_both e r later =
    let e' : Env = record e { commands = e.commands ++ new_command r later ∷ [] } in
    if is_some (find_command r.command_id e.commands)
    then (e, conflict)
    else if in_queue r.command_id e.queue
    then (e', conflict)
    else (
      record e' { queue = e.queue ++ new_row r e.next_seq ∷ []; next_seq = suc e.next_seq },
      accepted (record {
        command_id = r.command_id;
        deduped = false;
        queue_position = queue_depth e;
        queue_depth = queue_depth e + 1;
        overlay_version = version e;
      }),
    )

-- `now` dates the window, `later` the new row.
unfoldable pub enqueue : Env → Request → ℕ → ℕ → Env × EnqueueResult
unfolding insert_both
enqueue e r now later = elim (find_dupe r now e.commands) [
  | some c ↦ (
    e,
    accepted (record {
      command_id = c.command_id;
      deduped = true;
      queue_position = 0;
      queue_depth = queue_depth e;
      overlay_version = version e;
    }),
  )
  | none ↦
      if leb r.max_queue (queue_depth e)
      then (e, queue_full (queue_depth e) r.max_queue)
      else insert_both e r later
]

-- Never claimed, or claimed longer ago than the redelivery time.
unfoldable pub lapsed : Option ℕ → ℕ → Bool
lapsed none now = false
lapsed (some at) now = ltb (at + claim_redeliver_ms) now

unfoldable pub claimable : QueueRow → ℕ → Bool
unfolding lapsed
claimable q now = not (is_some q.claimed_by) || lapsed q.claimed_at now

-- The row of the least seq.
unfoldable pub least_seq : QueueRow → List QueueRow → QueueRow
least_seq q [] = q
least_seq q (r ∷ rs) = least_seq (if ltb r.seq q.seq then r else q) rs

unfoldable pub first_by_seq : List QueueRow → Option QueueRow
unfolding least_seq
first_by_seq [] = none
first_by_seq (q ∷ qs) = some (least_seq q qs)

unfoldable pub next_row : List QueueRow → ℕ → Option QueueRow
unfolding first_by_seq
next_row queue now = first_by_seq (keep (λ q. claimable q now) queue)

-- `UPDATE queue SET claimed_by = ?, claimed_at = ? WHERE seq = ?`
unfoldable pub mark_claimed : ℕ → String → ℕ → List QueueRow → List QueueRow
mark_claimed seq worker now [] = []
mark_claimed seq worker now (q ∷ qs) =
    (if q.seq == seq then record q { claimed_by = some worker; claimed_at = some now } else q)
    ∷ mark_claimed seq worker now qs

unfoldable pub start : ℕ → Command → Command
start now c = record c { state = running; started_at = or_else c.started_at (some now) }

unfoldable pub claim_next : Env → String → ℕ → Env × Option String
claim_next e worker now = elim (next_row e.queue now) [
  | none ↦ (e, none)
  | some q ↦ (
    record e {
      queue = mark_claimed q.seq worker now e.queue;
      commands = update_command q.command_id (start now) e.commands;
    },
    some q.payload,
  )
]
