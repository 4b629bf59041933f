-- ===== src/EnvWindow.antt =====
-- broker/src/env-window.ts: one read of a command's raw output.
-- `bytes_b64` holds the bytes that it encodes. A row's numbers are read as they are stored.
pub mod Faithful
pub mod Eof
mod Tests
use gha_mcp_host.Prelude.{
  ℕ, ℤ, ◌+◌, ◌-◌, min, Bool, true, false, ◌&&◌, String, List, [], ◌∷◌, Option, none, some, ltb, leb,
  if◌then◌else◌, get_or_else, or_else, length, slice,
}
use mathlib.Core.Option
use gha_mcp_host.Text.{Text}
use gha_mcp_host.KillReason.{KilledReason}
use gha_mcp_host.Ring.{Ring, Tail, slice_ring}
use gha_mcp_host.EnvSchema.{CmdState, is_terminal, truthy, Command}

pub record WindowResult : Type 0 where
  pub found : Bool
  pub state : Option CmdState
  pub exit_code : Option ℤ
  pub runtime_ms : Option ℤ
  pub total_bytes : ℕ
  pub bytes_written : Option ℕ
  pub last_output_at : Option ℕ
  pub started_at : Option ℕ
  pub cwd : Option String
  pub shell : Option String
  pub killed_reason : Option KilledReason
  pub command_warnings : List Text
  pub bytes_b64 : List ℕ
  pub start_byte : ℕ
  pub eof : Bool
  pub truncated : Bool
  pub range_evicted : Bool
  pub available_from_byte : ℕ
  pub head_discarded_bytes : ℕ
  pub output_capped : Bool

pub empty_window : ℕ → WindowResult
empty_window from_byte = record {
  found = false;
  state = none;
  exit_code = none;
  runtime_ms = none;
  total_bytes = 0;
  bytes_written = none;
  last_output_at = none;
  started_at = none;
  cwd = none;
  shell = none;
  killed_reason = none;
  command_warnings = [];
  bytes_b64 = [];
  start_byte = from_byte;
  eof = false;
  truncated = false;
  range_evicted = false;
  available_from_byte = 0;
  head_discarded_bytes = 0;
  output_capped = false;
}

pub record WindowSources : Type 0 where
  pub ring : Option Ring
  pub tail : Option Tail
  pub runner_gone : Bool

-- What the sources answer: where the bytes start, the bytes, whether the range is evicted, and how
-- many bytes are skipped.
pub record Served : Type 0 where
  pub start : ℕ
  pub bytes : List ℕ
  pub evicted : Bool
  pub skipped : ℕ

evicted_at : ℕ → Served
evicted_at from_byte = record { start = from_byte; bytes = []; evicted = true; skipped = 0 }

from_tail : Bool → Tail → ℕ → ℕ → Served
unfolding evicted_at
from_tail may_skip t from_byte max_bytes =
    let offset = from_byte - t.start in
    if leb t.start from_byte
    then record {
      start = from_byte;
      bytes = slice t.bytes offset (min (length t.bytes) (offset + max_bytes));
      evicted = false;
      skipped = 0;
    }
    else if may_skip
    then record {
      start = t.start;
      bytes = slice t.bytes 0 (min (length t.bytes) max_bytes);
      evicted = false;
      skipped = t.start - from_byte;
    }
    else evicted_at from_byte

-- The branches below the ring: caught up, the tail, or nothing left that can serve the range.
past_ring : Option Tail → Bool → ℕ → ℕ → ℕ → Served
unfolding from_tail evicted_at
past_ring tail may_skip total from_byte max_bytes =
    if leb total from_byte
    then record { start = from_byte; bytes = []; evicted = false; skipped = 0 }
    else elim tail [
      | none ↦ evicted_at from_byte
      | some t ↦ from_tail may_skip t from_byte max_bytes
    ]

abbrev ring_slice : Option Ring → ℕ → ℕ → Option (List ℕ)
ring_slice none from_byte max_bytes = none
ring_slice (some r) from_byte max_bytes = slice_ring r from_byte max_bytes

pub serve : Command → WindowSources → ℕ → ℕ → Served
unfolding past_ring
serve row sources from_byte max_bytes = elim (ring_slice sources.ring from_byte max_bytes) [
  | some bytes ↦ record { start = from_byte; bytes = bytes; evicted = false; skipped = 0 }
  | none ↦
      past_ring sources.tail (is_terminal row.state && sources.runner_gone) row.total_bytes
        from_byte max_bytes
]

available_from : WindowSources → ℕ → ℕ
available_from sources total = elim sources.ring [
  | some r ↦ r.start
  | none ↦ elim sources.tail [ some t ↦ t.start | none ↦ total ]
]

abbrev non_empty : Option String → Option String
non_empty s = if truthy s then s else none

pub read_window : Command → WindowSources → ℕ → ℕ → WindowResult
unfolding available_from
read_window row sources from_byte max_bytes =
    let s = serve row sources from_byte max_bytes in
    let end = s.start + length s.bytes in
    record {
      found = true;
      state = some row.state;
      exit_code = row.exit_code;
      runtime_ms = row.runtime_ms;
      total_bytes = row.total_bytes;
      bytes_written = row.bytes_written;
      last_output_at = or_else row.last_output_at row.started_at;
      started_at = row.started_at;
      cwd = non_empty row.cwd;
      shell = non_empty row.shell;
      killed_reason = row.killed_reason;
      command_warnings = get_or_else row.warnings [];
      bytes_b64 = s.bytes;
      start_byte = s.start;
      eof = is_terminal row.state && leb row.total_bytes end;
      truncated = ltb end row.total_bytes;
      range_evicted = s.evicted;
      available_from_byte = available_from sources row.total_bytes;
      head_discarded_bytes = s.skipped;
      output_capped = row.output_capped;
    }
