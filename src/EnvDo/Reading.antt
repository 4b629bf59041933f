-- ===== src/EnvDo/Reading.antt =====
-- broker/src/env-do.ts, the methods that only read: window and liveness.
pub mod Faithful
mod Tests
use gha_mcp_host.Prelude.{
  ℕ, ◌+◌, ◌-◌, Bool, true, false, not, ◌&&◌, String, List, [], Option, none, some, ltb, leb,
  if◌then◌else◌, get_or_else, length,
}
use mathlib.Core.Option
use gha_mcp_host.Ring.{Ring, Tail}
use gha_mcp_host.EnvSchema.{EnvState, lost, Command}
use gha_mcp_host.EnvWindow.{WindowSources, WindowResult, empty_window, read_window}
use gha_mcp_host.EnvDo.{Env, find_command, lookup}

abbrev pub runner_gone_ms : ℕ
runner_gone_ms = 120_000

pub ring_can_serve : Option Ring → ℕ → Bool
ring_can_serve none from_byte = false
ring_can_serve (some r) from_byte =
    leb r.start from_byte && leb (from_byte - r.start) (length r.bytes)

pub stored_tail : Bool → Command → Option Tail
stored_tail true row = none
stored_tail false row =
    Option.map (λ s. record { start = s; bytes = get_or_else row.tail_b64 [] }) row.tail_start

runner_gone : Option ℕ → ℕ → Bool
runner_gone none now = true
runner_gone (some last_seen) now = ltb (last_seen + runner_gone_ms) now

pub sources : Env → Command → String → ℕ → ℕ → WindowSources
unfolding runner_gone
sources e row command_id from_byte now =
    let ring = lookup command_id e.rings in
    record {
      ring = ring;
      tail = stored_tail (ring_can_serve ring from_byte) row;
      runner_gone = runner_gone e.meta.last_seen_at now;
    }

pub window : Env → String → ℕ → ℕ → ℕ → WindowResult
window e command_id from_byte max_bytes now = elim (find_command command_id e.commands) [
  | none ↦ empty_window from_byte
  | some row ↦ read_window row (sources e row command_id from_byte now) from_byte max_bytes
]

pub record Liveness : Type 0 where
  pub state : EnvState
  pub last_seen_ms_ago : Option ℕ
  pub run_id : Option String

-- `now` is not before the stored time.
pub liveness : Env → ℕ → Liveness
liveness e now = record {
  state = get_or_else e.meta.state lost;
  last_seen_ms_ago = Option.map (λ t. now - t) e.meta.last_seen_at;
  run_id = e.meta.run_id;
}
