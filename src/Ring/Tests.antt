-- ===== src/Ring/Tests.antt =====
-- Runs of the ring on concrete chunks, and the theorems at such inputs.
use gha_mcp_host.Prelude.{ℕ, ◌≡◌, refl, List, [], ◌∷◌, true, false, some, arith}
use gha_mcp_host.Ring.{Ring, place, trim, append_chunk, slice_ring}
use gha_mcp_host.Ring.Laws.{Caches, append_chunk-append_chunk}

abbrev out_raw : List ℕ
out_raw = 10 ∷ 11 ∷ 12 ∷ 13 ∷ 14 ∷ 15 ∷ 16 ∷ []

-- Bytes 2, 3 and 4.
abbrev held : Ring
held = record { start = 2; bytes = 12 ∷ 13 ∷ 14 ∷ []; discarded = 2 }

-- A redelivered chunk that reaches one byte further, in a ring of three bytes.
overlap_runs : append_chunk held 3 (13 ∷ 14 ∷ 15 ∷ []) 3 ≡ (
  record { start = 3; bytes = 13 ∷ 14 ∷ 15 ∷ []; discarded = 3 },
  record { gap = false; duplicate = true },
)
unfolding append_chunk place trim
overlap_runs = refl

gap_runs : append_chunk held 6 (16 ∷ []) 3 ≡ (
  record { start = 6; bytes = 16 ∷ []; discarded = 3 },
  record { gap = true; duplicate = false },
)
unfolding append_chunk place trim
gap_runs = refl

slice_runs : slice_ring held 3 1 ≡ some (13 ∷ [])
unfolding slice_ring
slice_runs = refl

held-Caches : Caches out_raw held
held-Caches = record { within = omega arith; same = refl }

append_chunk-append_chunk_example :
    let r = (append_chunk held 3 (13 ∷ 14 ∷ 15 ∷ []) 3).0 in
    (append_chunk r 3 (13 ∷ 14 ∷ 15 ∷ []) 3).0 ≡ r
append_chunk-append_chunk_example = append_chunk-append_chunk held 3 (13 ∷ 14 ∷ 15 ∷ []) 3
