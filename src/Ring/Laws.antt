-- ===== src/Ring/Laws.antt =====
-- appendChunk of broker/src/ring.ts against the stream that the ring caches.
use gha_mcp_host.Prelude.{
  ℕ, ◌+◌, ◌-◌, ◌≤◌, ◌<◌, ◌≡◌, ◌∙◌, List, [], ◌∷◌, ◌++◌, arith, length, drop, max, length-append,
  length-drop, append-nil, subst, if◌then◌else◌,
}
use gha_mcp_host.Stream.{Agrees, Agrees-append, Agrees-drop}
use gha_mcp_host.Ring.{Ring, end_of, place, trim, append_chunk}

-- The ring holds what the stream holds at its offsets.
abbrev pub Caches : List ℕ → Ring → Type 0
Caches out_raw r = Agrees out_raw r.start r.bytes

module _ {out_raw : List ℕ} (r : Ring) (c : Caches out_raw r) where
  place_overlap :
      (sb : ℕ) (incoming : List ℕ)
      → Agrees out_raw sb incoming
      → sb < end_of r
      → end_of r - sb < length incoming
      → Agrees out_raw r.start (r.bytes ++ drop (end_of r - sb) incoming)
  place_overlap sb incoming k lt inside =
      let e : sb + (end_of r - sb) ≡ end_of r = omega arith in
      Agrees-append c (
        subst (λ a. Agrees out_raw a (drop (end_of r - sb) incoming)) e
          (Agrees-drop k (end_of r - sb) (omega arith)))

  place_next :
      (sb : ℕ) (incoming : List ℕ)
      → Agrees out_raw sb incoming
      → sb ≡ end_of r
      → Agrees out_raw r.start (r.bytes ++ incoming)
  place_next sb incoming k e = Agrees-append c (subst (λ a. Agrees out_raw a incoming) e k)

  place-Caches :
      (sb : ℕ) (incoming : List ℕ)
      → Agrees out_raw sb incoming
      → Caches out_raw (place r sb incoming).0
  unfolding place
  place-Caches sb incoming k = ground (arith, place_overlap sb incoming k, place_next sb incoming k)

trim-Caches : {out_raw : List ℕ} (r : Ring) (n : ℕ) → Caches out_raw r → Caches out_raw (trim n r)
unfolding trim
trim-Caches r n c = ground (arith, Agrees-drop c (length r.bytes - n))

-- A chunk that agrees with the stream leaves a ring that agrees with it.
pub append_chunk-Caches :
    {out_raw : List ℕ} (r : Ring) (sb : ℕ) (incoming : List ℕ) (n : ℕ)
    → Caches out_raw r
    → Agrees out_raw sb incoming
    → Caches out_raw (append_chunk r sb incoming n).0
unfolding append_chunk
append_chunk-Caches r sb incoming n c k =
    trim-Caches (place r sb incoming).0 n (place-Caches r c sb incoming k)

place_end :
    (r : Ring) (sb : ℕ) (incoming : List ℕ)
    → end_of (place r sb incoming).0 ≡ max (end_of r) (sb + length incoming)
unfolding place
place_end r sb incoming = ground (
  arith,
  length-append r.bytes incoming,
  length-append r.bytes (drop (end_of r - sb) incoming),
  length-drop (end_of r - sb) incoming,
)

trim_end : (n : ℕ) (r : Ring) → end_of (trim n r) ≡ end_of r
unfolding trim
trim_end n r = ground (arith, length-drop (length r.bytes - n) r.bytes)

trim_bound : (n : ℕ) (r : Ring) → length (trim n r).bytes ≤ n
unfolding trim
trim_bound n r = ground (arith, length-drop (length r.bytes - n) r.bytes)

-- After an append the ring ends at the further one of its own end and the chunk's end, and it
-- holds at most `n` bytes, whatever the chunk.
pub append_chunk-end_of :
    (r : Ring) (sb : ℕ) (incoming : List ℕ) (n : ℕ)
    → (end_of (append_chunk r sb incoming n).0 ≡ max (end_of r) (sb + length incoming))
      × (length (append_chunk r sb incoming n).0.bytes ≤ n)
unfolding append_chunk
append_chunk-end_of r sb incoming n = (
  trim_end n (place r sb incoming).0 ∙ place_end r sb incoming,
  trim_bound n (place r sb incoming).0,
)

-- A chunk whose bytes the ring has all received changes nothing.
append_chunk_seen :
    (r : Ring) (sb : ℕ) (incoming : List ℕ) (n : ℕ)
    → sb + length incoming ≤ end_of r
    → length r.bytes ≤ n
    → (append_chunk r sb incoming n).0 ≡ r
unfolding append_chunk place trim
append_chunk_seen r sb [] n h b = ground (arith, append-nil r.bytes)
append_chunk_seen r sb (x ∷ xs) n h b = ground arith

-- Redelivery is harmless: a chunk that is appended again leaves the ring exactly as it is.
pub append_chunk-append_chunk :
    (r : Ring) (sb : ℕ) (incoming : List ℕ) (n : ℕ)
    → let r' = (append_chunk r sb incoming n).0 in (append_chunk r' sb incoming n).0 ≡ r'
append_chunk-append_chunk r sb incoming n =
    let (e, b) = append_chunk-end_of r sb incoming n in
    append_chunk_seen (append_chunk r sb incoming n).0 sb incoming n (omega arith) b

-- What `start` moves by and `discarded` does not: on a gap, the bytes that the ring held.
pub append_chunk-discarded :
    (r : Ring) (sb : ℕ) (incoming : List ℕ) (n : ℕ)
    → let (r', result) = append_chunk r sb incoming n in
      r'.start + r.discarded ≡ r'.discarded + r.start + (if result.gap then length r.bytes else 0)
unfolding append_chunk place trim
append_chunk-discarded r sb incoming n = ground arith
