-- ===== src/EnvDo/Reading/Faithful.antt =====
-- From ingestChunk to window, both of broker/src/env-do.ts.

use gha_mcp_host.Prelude.{
  ℕ, ◌+◌, ◌≤◌, ◌≡◌, refl, ap, subst, Bool, true, false, String, List, Option, none, some, inl, inr,
  take, drop, length, get_or_else, Option-cases,
}
use gha_mcp_host.Text.{Text}
use gha_mcp_host.Stream.{Agrees}
use gha_mcp_host.Ring.{Tail}
use gha_mcp_host.EnvSchema.{Command}
use gha_mcp_host.EnvWindow.{WindowResult}
use gha_mcp_host.EnvWindow.Faithful.{IsSound, read_window-Shows, empty_window_lem}
use gha_mcp_host.EnvWindow.Eof.{read_window-eof, empty_window-eof}
use gha_mcp_host.EnvDo.{Env, find_command, lookup}
use gha_mcp_host.EnvDo.Ingest.{Chunk}
use gha_mcp_host.EnvDo.Ingest.Routes.{ingest_all}
use gha_mcp_host.EnvDo.Ingest.Truth.{TailOk, Truthful, AllTrue, ingest_all-Truthful}
use gha_mcp_host.EnvDo.Reading.{stored_tail, ring_can_serve, sources, window}

-- The window's bytes are the output's at the offset that it names, at most `max_bytes`; that offset
-- is the one asked for, plus what is said to be skipped.
abbrev pub IsFaithful : List ℕ → ℕ → ℕ → WindowResult → Type 0
IsFaithful out_raw from max_bytes w =
    (w.bytes_b64 ≡ take (length w.bytes_b64) (drop w.start_byte out_raw))
    × (length w.bytes_b64 ≤ max_bytes)
    × (w.start_byte ≡ from + w.head_discarded_bytes)

sources-IsSound :
    (e : Env) (row : Command) (id : String) (from now : ℕ) (out_raw : String → List ℕ)
    → Truthful out_raw e
    → find_command id e.commands ≡ some row
    → IsSound (out_raw id) (sources e row id from now)
unfolding sources stored_tail
sources-IsSound e row id from now out_raw t found = record {
  ring_agrees = t.rings id;
  tail_agrees =
      stored (ring_can_serve (lookup id e.rings) from) row.tail_start (t.tails id row found);
}
  where
    stored :
        (serves : Bool) (s : Option ℕ)
        → TailOk (out_raw id) s row.tail_b64
        → (v : Tail) → stored_tail serves (record row { tail_start = s }) ≡ some v
        → Agrees (out_raw id) v.start v.bytes
    stored true s ok v h = cc h
    stored false none ok v h = cc h
    stored false (some s) ok v h =
        subst (λ (k : Tail). Agrees (out_raw id) k.start k.bytes) (ap (λ o. get_or_else o v) h)
          (ok s refl)

pub window-Faithful :
    (e : Env) (id : String) (from max_bytes now : ℕ) (out_raw : String → List ℕ)
    → Truthful out_raw e
    → IsFaithful (out_raw id) from max_bytes (window e id from max_bytes now)
unfolding window
window-Faithful e id from m now out_raw t = elim (Option-cases (find_command id e.commands)) [
  | inl missing ↦ rw (missing, window) (empty_window_lem (out_raw id) from m)
  | inr (row, found) ↦
      let (a, b, c, _, _, _) =
        read_window-Shows (out_raw id) row (sources e row id from now) from m
          (sources-IsSound e row id from now out_raw t found) in
      rw (found, window) (a, b, c)
]

pub window-eof :
    (e : Env) (id : String) (from max_bytes now : ℕ)
    → (window e id from max_bytes now).eof ≡ true
    → (window e id from max_bytes now).range_evicted ≡ false
unfolding window
window-eof e id from m now = elim (Option-cases (find_command id e.commands)) [
  | inl missing ↦ rw (missing, window) (λ h. cc (h, empty_window-eof from))
  | inr (row, found) ↦ rw (found, window) (read_window-eof row (sources e row id from now) from m)
]

-- From an object whose rings and tails are truthful, whatever chunks arrive, for any commands, in any
-- order and any number of times: if each chunk that is no answer to a pull says what its runner
-- wrote, then after them every window of every command shows the output of that command at the
-- offset that it names, at most `max_bytes` of it, and that offset is the one asked for plus what the
-- window says it skipped.
pub ingest_all-window :
    (unknown : String → Text) (e : Env) (chunks : List (Chunk × ℕ × ℕ)) (out_raw : String → List ℕ)
    (id : String) (from max_bytes now : ℕ)
    → Truthful out_raw e
    → AllTrue out_raw chunks
    → IsFaithful
        (out_raw id)
        from
        max_bytes
        (window (ingest_all unknown e chunks) id from max_bytes now)
ingest_all-window unknown e chunks out_raw id from m now t a =
    window-Faithful (ingest_all unknown e chunks) id from m now out_raw
      (ingest_all-Truthful unknown e chunks out_raw t a)
