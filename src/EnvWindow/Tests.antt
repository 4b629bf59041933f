-- ===== src/EnvWindow/Tests.antt =====
-- Reads of a concrete command, and the theorem at such an input.
use gha_mcp_host.Prelude.{
  ℕ, ◌≡◌, refl, ap, List, [], ◌∷◌, true, false, none, some, arith, length, take, drop, ◌≤◌, ◌+◌,
  ◌<◌, ◌↔◌, subst, get_or_else,
}
use gha_mcp_host.Ring.{Ring, Tail}
use gha_mcp_host.Ring.Laws.{Caches}
use gha_mcp_host.EnvSchema.{running, exited, is_terminal, Command}
use gha_mcp_host.EnvWindow.{WindowSources, from_tail, past_ring, serve, read_window, available_from}
use gha_mcp_host.EnvWindow.Faithful.{IsSound, read_window-Shows}
use gha_mcp_host.EnvDo.Samples.{row_in}

abbrev out_raw : List ℕ
out_raw = 10 ∷ 11 ∷ 12 ∷ 13 ∷ []

-- A running command of four bytes, of which the ring has the last two.
abbrev row : Command
row = record (row_in running) { total_bytes = 4 }

abbrev held : Ring
held = record { start = 2; bytes = 12 ∷ 13 ∷ []; discarded = 2 }

abbrev ring_only : WindowSources
ring_only = record { ring = some held; tail = none; runner_gone = false }

tail_runs :
    let t : Tail = record { start = 2; bytes = 12 ∷ 13 ∷ [] } in
    let w =
      read_window
        (record row { state = exited })
        (record { ring = none; tail = some t; runner_gone = true })
        0
        9 in
    (w.start_byte ≡ 2) × (w.head_discarded_bytes ≡ 2) × (w.eof ≡ true) × (w.available_from_byte ≡ 2)
unfolding read_window serve past_ring from_tail available_from
tail_runs = (refl, refl, refl, refl)

ring_only-IsSound : IsSound out_raw ring_only
ring_only-IsSound = record {
  ring_agrees = λ r h.
      subst (Caches out_raw) (ap (λ o. get_or_else o r) h)
        (record { within = omega arith; same = refl });
  tail_agrees = λ t h. cc h;
}

read_window-Shows_example :
    let w = read_window row ring_only 3 9 in
    (w.bytes_b64 ≡ take (length w.bytes_b64) (drop w.start_byte out_raw))
    × (length w.bytes_b64 ≤ 9)
    × (w.start_byte ≡ 3 + w.head_discarded_bytes)
    × (w.range_evicted ≡ true → w.bytes_b64 ≡ [])
    × ((w.eof ≡ true) ↔ ((is_terminal row.state ≡ true) × (4 ≤ w.start_byte + length w.bytes_b64)))
    × ((w.truncated ≡ true) ↔ (w.start_byte + length w.bytes_b64 < 4))
read_window-Shows_example = read_window-Shows out_raw row ring_only 3 9 ring_only-IsSound
