-- ===== src/EnvDo/Ingest.antt =====
-- broker/src/env-do.ts, the output section: ingestChunk and gcPulls.
-- The chunk's bytes are those that `bytes_b64` encodes, and its offsets are natural numbers.
pub mod Advance
pub mod Routes
pub mod Answers
pub mod Truth
mod Tests
use gha_mcp_host.Prelude.{
  ℕ, ℤ, pos_part, ◌+◌, max, Bool, true, false, not, ◌&&◌, ◌||◌, String, List, [], ◌∷◌, ◌++◌, Option,
  none, some, ltb, leb, if◌then◌else◌, str_eq, get_or_else, or_else, length, keep,
}
use mathlib.Core.Option
use gha_mcp_host.Text.{Text, codes, trim, has_ink}
use gha_mcp_host.Ring.{Ring, Tail, ring_max, tail_max, new_ring, append_chunk, tail_of}
use gha_mcp_host.KillReason.{KilledReason, name, Picked, pick_killed_reason}
use gha_mcp_host.EnvSchema.{
  CmdState, queued, running, exited, killed, is_terminal, Num, num_or, truthy, Meta, Command,
  QueueRow,
}
use gha_mcp_host.EnvDo.{Env, Pull, find_command, update_command, lookup, insert}
use gha_mcp_host.EnvDo.Warnings.{Incoming, merge_warnings}

abbrev pub pull_ttl_ms : ℕ
pull_ttl_ms = 90_000

pub record Chunk : Type 0 where
  pub command_id : String
  pub start_byte : ℕ
  pub bytes : List ℕ
  pub total_bytes : Num
  pub bytes_written : Option Num
  pub state : CmdState
  pub exit_code : Option Num
  pub runtime_ms : Option Num
  pub req_id : Option String
  pub is_pull : Bool
  pub cwd_after : Option String
  pub killed_reason : Option String
  pub signal : Option String
  pub output_capped : Bool
  pub disk_free_mb : Option Num
  pub warnings : Incoming
  pub agent_error : Option Text

-- `for (const [k, v] of this.pulls) if (v.at < cutoff) this.pulls.delete(k)`
pub gc_pulls : ℕ → List (String × Pull) → List (String × Pull)
gc_pulls now pulls = keep (λ (k, p). leb now (p.at + pull_ttl_ms)) pulls

-- `Math.max(0, numOr(v, 0))`.
abbrev pub count_of : Num → ℕ
count_of v = elim (num_or (some v) none) [ none ↦ 0 | some z ↦ pos_part z ]

-- The error text, trimmed, if anything is left of it.
agent_error_of : Option Text → Option Text
agent_error_of none = none
agent_error_of (some s) = if has_ink s then some (trim s) else none

agent_prefix : Text
agent_prefix = codes "the runner could not run this command: "

unfoldable pub settled : CmdState → Bool
settled exited = true
settled killed = true
settled _ = false

-- The ring after the chunk: made at the first bytes that arrive, absent before.
pub ring_after : Option Ring → ℕ → List ℕ → Option Ring
ring_after ring start_byte [] = ring
ring_after none start_byte bytes =
    some (append_chunk (new_ring start_byte) start_byte bytes ring_max).0
ring_after (some r) start_byte bytes = some (append_chunk r start_byte bytes ring_max).0

-- The pair of tail columns: rewritten at a terminal state from a ring that holds anything.
pub tail_after : Bool → Option Ring → Command → Option (List ℕ) × Option ℕ
tail_after true (some r) prev =
    if ltb 0 (length r.bytes)
    then (some (tail_of r tail_max).bytes, some (tail_of r tail_max).start)
    else (prev.tail_b64, prev.tail_start)
tail_after _ _ prev = (prev.tail_b64, prev.tail_start)

-- `reported === null ? prev : Math.max(prev ?? 0, reported)`
written_after : Option ℕ → Option ℤ → Option ℕ
written_after prev none = prev
written_after prev (some z) = some (max (get_or_else prev 0) (pos_part z))

unfoldable pub state_after : Command → Chunk → CmdState
unfolding settled
state_after prev body = if settled prev.state then prev.state else body.state

abbrev discarded_of : Option Ring → ℕ
discarded_of none = 0
discarded_of (some r) = r.discarded

-- The row that the UPDATE writes. `unknown` renders the warning about an unknown killed_reason, and
-- `ring` is the ring after the chunk.
unfoldable pub merge_row : (String → Text) → Option Ring → Command → Chunk → ℕ → Command
unfolding state_after tail_after written_after agent_error_of agent_prefix
merge_row unknown ring prev body now =
    let state = state_after prev body in
    let terminal = is_terminal state in
    let picked = pick_killed_reason (Option.map name prev.killed_reason) body.killed_reason in
    let (tail_b64, tail_start) = tail_after terminal ring prev in
    record prev {
      state = state;
      exit_code = num_or body.exit_code prev.exit_code;
      signal = or_else body.signal (if truthy prev.signal then prev.signal else none);
      total_bytes = max prev.total_bytes (count_of body.total_bytes);
      bytes_written = written_after prev.bytes_written (num_or body.bytes_written none);
      head_discarded_bytes = max prev.head_discarded_bytes (discarded_of ring);
      output_capped = prev.output_capped || body.output_capped;
      last_output_at = if ltb 0 (length body.bytes) then some now else prev.last_output_at;
      runtime_ms = num_or body.runtime_ms prev.runtime_ms;
      ended_at = or_else prev.ended_at (if terminal then some now else none);
      killed_reason = picked.reason;
      warnings =
          merge_warnings prev.warnings body.warnings (Option.map unknown picked.warning)
            (Option.map (λ e. agent_prefix ++ e) (agent_error_of body.agent_error));
      tail_b64 = tail_b64;
      tail_start = tail_start;
    }

-- `DELETE FROM queue WHERE command_id = ?`
unfoldable pub dequeue : String → List QueueRow → List QueueRow
dequeue id queue = keep (λ q. not (str_eq q.command_id id)) queue

-- `body.agent_error || null`
non_empty_text : Option Text → Option Text
non_empty_text none = none
non_empty_text (some []) = none
non_empty_text (some (c ∷ cs)) = some (c ∷ cs)

unfoldable pub store_pull : Env → Chunk → String → ℕ → ℕ → Env
unfolding gc_pulls non_empty_text
store_pull e body req_id now later =
    let pull : Pull = record {
      at = now;
      start = body.start_byte;
      bytes = body.bytes;
      total = body.total_bytes;
      state = body.state;
      error = non_empty_text body.agent_error;
    } in
    record e { pulls = gc_pulls later (insert req_id pull e.pulls) }

-- The stored number after one is written: a number that is not finite reads back as none.
pub disk_after : Option ℤ → Option Num → Option ℤ
disk_after stored none = stored
disk_after stored (some v) = num_or (some v) none

meta_after : Meta → Chunk → ℕ → Meta
unfolding disk_after
meta_after m body now = record m {
  sticky_cwd = if truthy body.cwd_after then body.cwd_after else m.sticky_cwd;
  disk_free_mb = disk_after m.disk_free_mb body.disk_free_mb;
  last_seen_at = some now;
}

abbrev put_ring : String → Option Ring → List (String × Ring) → List (String × Ring)
put_ring id none rings = rings
put_ring id (some r) rings = insert id r rings

-- A chunk of output for a command that the object knows.
unfoldable pub ingest_known : (String → Text) → Env → Option Ring → Command → Chunk → ℕ → Env
unfolding merge_row dequeue meta_after
ingest_known unknown e ring prev body now =
    let row = merge_row unknown ring prev body now in
    record e {
      rings = put_ring body.command_id ring e.rings;
      commands = update_command body.command_id (λ _. row) e.commands;
      queue = if is_terminal row.state then dequeue body.command_id e.queue else e.queue;
      meta = meta_after e.meta body now;
    }

-- A chunk of output: it goes to the ring, and to the row if there is one.
unfoldable pub ingest_output : (String → Text) → Env → Chunk → ℕ → Env
unfolding ring_after ingest_known
ingest_output unknown e body now =
    let ring = ring_after (lookup body.command_id e.rings) body.start_byte body.bytes in
    elim (find_command body.command_id e.commands) [
      | none ↦ record e {
        rings = put_ring body.command_id ring e.rings;
        meta = record (e.meta) { last_seen_at = some now };
      }
      | some prev ↦ ingest_known unknown e ring prev body now
    ]

-- `now` is the method's first reading of the clock, `later` that of gcPulls.
unfoldable pub ingest_chunk : (String → Text) → Env → Chunk → ℕ → ℕ → Env
unfolding store_pull ingest_output
ingest_chunk unknown e body now later =
    if body.is_pull && truthy body.req_id
    then store_pull e body (get_or_else body.req_id "") now later
    else ingest_output unknown e body now
