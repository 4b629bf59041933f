-- ===== src/Ring.antt =====
-- broker/src/ring.ts: the broker's in-memory view of one command's output.
-- Bytes are numbers, and byte offsets into the runner's out.raw are natural numbers.
pub mod Laws
pub mod Serve
mod Tests
use gha_mcp_host.Prelude.{
  ℕ, ◌+◌, ◌-◌, ◌*◌, min, List, [], ◌++◌, Bool, true, false, Option, none, some, length, drop, slice,
  ltb, ◌==◌, if◌then◌else◌,
}

pub record Ring : Type 0 where
  -- raw offset of the first byte held
  pub start : ℕ
  pub bytes : List ℕ
  pub discarded : ℕ

abbrev pub ring_max : ℕ
ring_max = 512 * 1024

abbrev pub tail_max : ℕ
tail_max = 32 * 1024

pub new_ring : ℕ → Ring
new_ring start_byte = record { start = start_byte; bytes = []; discarded = start_byte }

pub record AppendResult : Type 0 where
  pub gap : Bool
  pub duplicate : Bool

-- The offset just past the last byte held.
abbrev pub end_of : Ring → ℕ
end_of r = r.start + length r.bytes

-- The three ways in which a chunk meets the ring, before the ring is cut to size.
place : Ring → ℕ → List ℕ → Ring × AppendResult
place r start_byte incoming =
    if start_byte == end_of r
    then (record r { bytes = r.bytes ++ incoming }, record { gap = false; duplicate = false })
    else if ltb start_byte (end_of r)
    then (
      if ltb (end_of r - start_byte) (length incoming)
          then record r { bytes = r.bytes ++ drop (end_of r - start_byte) incoming }
          else r,
      record { gap = false; duplicate = true },
    )
    else (
      record r {
        start = start_byte;
        bytes = incoming;
        discarded = r.discarded + (start_byte - end_of r);
      },
      record { gap = true; duplicate = false },
    )

-- `if (ring.bytes.length > ringMax) { ... }`
trim : ℕ → Ring → Ring
trim max_bytes r =
    let cut = length r.bytes - max_bytes in
    if ltb max_bytes (length r.bytes)
    then record { start = r.start + cut; bytes = drop cut r.bytes; discarded = r.discarded + cut }
    else r

pub append_chunk : Ring → ℕ → List ℕ → ℕ → Ring × AppendResult
append_chunk r start_byte incoming max_bytes =
    let (r', result) = place r start_byte incoming in (trim max_bytes r', result)

pub slice_ring : Ring → ℕ → ℕ → Option (List ℕ)
slice_ring r from_byte max_bytes =
    let offset = from_byte - r.start in
    if ltb from_byte r.start
    then none
    else if ltb (length r.bytes) offset
    then none
    else some (slice r.bytes offset (min (length r.bytes) (offset + max_bytes)))

pub record Tail : Type 0 where
  pub start : ℕ
  pub bytes : List ℕ

unfoldable pub tail_of : Ring → ℕ → Tail
tail_of r n =
    let from = length r.bytes - min n (length r.bytes) in
    record { start = r.start + from; bytes = drop from r.bytes }
