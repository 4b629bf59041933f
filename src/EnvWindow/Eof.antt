-- ===== src/EnvWindow/Eof.antt =====
-- broker/src/env-window.ts: the end of the output and evicted ranges.
use gha_mcp_host.Prelude.{
  ℕ, ◌+◌, ◌<◌, ◌≡◌, refl, Bool, true, false, ◌&&◌, arith, inl, inr, leb, length, Bool-cases,
  Option-cases,
}
use gha_mcp_host.Ring.{Tail}
use gha_mcp_host.EnvSchema.{is_terminal, Command}
use gha_mcp_host.EnvWindow.{
  WindowSources, Served, evicted_at, from_tail, past_ring, ring_slice, serve, read_window,
  empty_window,
}

-- What an evicted answer leaves out, for the total of its row.
abbrev StopsShort : ℕ → Served → Type 0
StopsShort total s = s.evicted ≡ true → s.start + length s.bytes < total

from_tail-StopsShort :
    (may_skip : Bool) (t : Tail) (total from max_bytes : ℕ)
    → from < total
    → StopsShort total (from_tail may_skip t from max_bytes)
unfolding from_tail evicted_at
from_tail-StopsShort may_skip t total from max_bytes lt = elim (Bool-cases (leb t.start from)) [
  | inl inside ↦ rw (inside) (λ h. cc h)
  | inr before ↦ elim (Bool-cases may_skip) [
    | inl skips ↦ rw (before, skips) (λ h. cc h)
    | inr stays ↦ rw (before, stays) (λ h. omega (arith, lt))
  ]
]

serve-StopsShort :
    (row : Command) (s : WindowSources) (from max_bytes : ℕ)
    → StopsShort row.total_bytes (serve row s from max_bytes)
unfolding serve past_ring evicted_at
serve-StopsShort row s from m = elim (Option-cases (ring_slice s.ring from m)) [
  | inr (xs, hit) ↦ rw (hit, serve) (λ h. cc h)
  | inl missing ↦ elim (Bool-cases (leb row.total_bytes from)) [
    | inl caught_up ↦ rw (missing, serve, caught_up) (λ h. cc h)
    | inr behind ↦
        let lt : from < row.total_bytes = ground arith in
        elim (Option-cases s.tail) [
          | inl no_tail ↦ rw (missing, serve, behind, no_tail) (λ h. omega (arith, lt))
          | inr (t, found) ↦
              rw (missing, serve, behind, found)
                (from_tail-StopsShort (is_terminal row.state && s.runner_gone) t row.total_bytes
                  from m lt)
        ]
  ]
]

-- A window that reaches the end of the output is of no evicted range.
pub read_window-eof :
    (row : Command) (s : WindowSources) (from max_bytes : ℕ)
    → (read_window row s from max_bytes).eof ≡ true
    → (read_window row s from max_bytes).range_evicted ≡ false
unfolding read_window
read_window-eof row s from m h =
    let served = serve row s from m in
    elim (Bool-cases served.evicted) [
      | inr kept ↦ kept
      | inl evicted ↦ absurd (
          past (is_terminal row.state) row.total_bytes (served.start + length served.bytes) h
            (serve-StopsShort row s from m evicted))
    ]
  where
    past : (b : Bool) (total end : ℕ) → (b && leb total end) ≡ true → end < total → ⊥
    past b total end h lt = ground arith

pub empty_window-eof : (from : ℕ) → (empty_window from).eof ≡ false
unfolding empty_window
empty_window-eof from = refl
