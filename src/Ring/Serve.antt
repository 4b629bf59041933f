-- ===== src/Ring/Serve.antt =====
-- sliceRing and tailOf of broker/src/ring.ts, and the rings that sequences of chunks make.
use gha_mcp_host.Prelude.{
  ℕ, ◌+◌, ◌-◌, ◌≤◌, ◌<◌, ◌≡◌, refl, List, Option, none, some, ◌⊎◌, arith, length, take, drop, slice,
  min, length-drop, length-take, subst,
}
use gha_mcp_host.Stream.{Agrees, Agrees-drop, Agrees-take}
use gha_mcp_host.Ring.{Ring, new_ring, end_of, append_chunk, slice_ring, tail_of}
use gha_mcp_host.Ring.Laws.{
  Caches, append_chunk-Caches, append_chunk-end_of, append_chunk-discarded,
}

-- The answer to a read at `from`: bytes of the stream from there, as many as the ring has and the
-- reader wants, if the ring reaches to `from`; nothing if it does not.
abbrev pub Serves : List ℕ → Ring → ℕ → ℕ → Option (List ℕ) → Type 0
Serves out_raw r from max_bytes none = (from < r.start) ⊎ (end_of r < from)
Serves out_raw r from max_bytes (some xs) =
    (r.start ≤ from)
    × (from ≤ end_of r)
    × Agrees out_raw from xs
    × (length xs ≡ min max_bytes (end_of r - from))

slice-Agrees :
    {out_raw : List ℕ} (r : Ring) (from n : ℕ)
    → Caches out_raw r
    → r.start ≤ from
    → from ≤ end_of r
    → Agrees out_raw from (take n (drop (from - r.start) r.bytes))
slice-Agrees {out_raw} r from n c a b =
    let e : r.start + (from - r.start) ≡ from = omega arith in
    Agrees-take
      (subst (λ k. Agrees out_raw k (drop (from - r.start) r.bytes)) e
        (Agrees-drop c (from - r.start) (omega arith)))
      n

length-slice : (xs : List ℕ) (a b : ℕ) → length (slice xs a b) ≡ min (b - a) (length xs - a)
length-slice xs a b = omega (arith, length-take (b - a) (drop a xs), length-drop a xs)

-- `slice_ring` answers every offset by that rule.
pub slice_ring-Serves :
    {out_raw : List ℕ} (r : Ring) (from max_bytes : ℕ)
    → Caches out_raw r
    → Serves out_raw r from max_bytes (slice_ring r from max_bytes)
unfolding slice_ring
slice_ring-Serves {out_raw} r from m c =
    let a = from - r.start in
    let b = min (length r.bytes) (a + m) in
    ground (arith, slice-Agrees r from (b - a) c, length-slice r.bytes a b)

-- The tail is the last bytes of the ring, up to `n`, and lies in the stream where it says.
pub tail_of-Agrees :
    {out_raw : List ℕ} (r : Ring) (n : ℕ)
    → Caches out_raw r
    → let t = tail_of r n in
      Agrees out_raw t.start t.bytes
      × (t.start + length t.bytes ≡ end_of r)
      × (length t.bytes ≡ min n (length r.bytes))
unfolding tail_of
tail_of-Agrees r n c =
    let from = length r.bytes - min n (length r.bytes) in
    (
      Agrees-drop c from (omega arith),
      omega (arith, length-drop from r.bytes),
      omega (arith, length-drop from r.bytes),
    )

-- The rings that arise while chunks of one stream arrive, in any order and any number of times.
pub data Fed (out_raw : List ℕ) (n : ℕ) : Ring → Type 0 where
  fresh : (start_byte : ℕ) → start_byte ≤ length out_raw → Fed out_raw n (new_ring start_byte)
  chunk :
      {r : Ring} (sb : ℕ) (incoming : List ℕ)
      → Fed out_raw n r
      → Agrees out_raw sb incoming
      → Fed out_raw n (append_chunk r sb incoming n).0

pub record Sound (out_raw : List ℕ) (n : ℕ) (r : Ring) : Type 0 where
  pub caches : Caches out_raw r
  pub bounded : length r.bytes ≤ n
  pub counted : r.discarded ≤ r.start

new_ring-Sound : (out_raw : List ℕ) (n sb : ℕ) → sb ≤ length out_raw → Sound out_raw n (new_ring sb)
unfolding new_ring
new_ring-Sound out_raw n sb h = record {
  caches = record { within = omega arith; same = refl };
  bounded = omega arith;
  counted = omega arith;
}

pub new_ring-Caches :
    (out_raw : List ℕ) (sb : ℕ) → sb ≤ length out_raw → Caches out_raw (new_ring sb)
unfolding new_ring
new_ring-Caches out_raw sb h = record { within = omega arith; same = refl }

-- Every such ring caches the stream, stays within its size, and counts no more bytes as discarded
-- than lie before its start.
pub Fed-Sound : {out_raw : List ℕ} {n : ℕ} {r : Ring} → Fed out_raw n r → Sound out_raw n r
Fed-Sound {out_raw} {n} (fresh sb h) = new_ring-Sound out_raw n sb h
Fed-Sound {n = n} (chunk {r} sb incoming f k) =
    let s = Fed-Sound f in
    record {
      caches = append_chunk-Caches r sb incoming n s.caches k;
      bounded = (append_chunk-end_of r sb incoming n).1;
      counted = omega (arith, append_chunk-discarded r sb incoming n, s.counted);
    }
