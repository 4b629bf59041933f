-- ===== src/Run/Capture/Pieces.antt =====
-- runCapture of broker/src/tools-run.ts: the pieces that its reads put together.
use gha_mcp_host.Prelude.{
  arith, ℕ, ◌+◌, ◌≤◌, ◌<◌, ◌≡◌, inl, inr, refl, sym, ap, ◌∙◌, Bool, true, false, String, List, [],
  ◌∷◌, ◌++◌, Option, none, some, length, append_assoc, append-nil, subst, ◌⊎◌, if◌then◌else◌,
}
use gha_mcp_host.Text.{Text}
use gha_mcp_host.EnvWindow.{WindowResult}
use gha_mcp_host.EnvDo.{Pull}
use gha_mcp_host.EnvDo.Control.{take_pull}
use gha_mcp_host.EnvDo.Reading.{window}
use gha_mcp_host.EnvDo.Ingest.Truth.{Truthful}
use gha_mcp_host.Run.{World, IsTimely, is_expired}
use gha_mcp_host.Run.Foreground.{max_window_bytes}
use gha_mcp_host.Run.Pulling.{
  Pulling, got, timed_out, broke, pull_range, IsTaken, pull_range-IsTaken,
}
use gha_mcp_host.Run.Poll.{pull_fuel}
use gha_mcp_host.Run.Poll.Output.{IsInPlace}
use gha_mcp_host.Run.Capture.{
  Capture, not_admitted, not_accounted, unfinished, captured, unread, exception, too_large,
  not_served, Chunk, whole, late, cut_off, of_pull, chunk_of, Reads,
}

-- Every window is the job's output in place, and so is every answer to a pull, which starts where the
-- pull asked for.
pub record IsHonest (w : World) (c : Reads) (out_raw : String → List ℕ) : Type 0 where
  pub rings_and_tails : (now : ℕ) → Truthful out_raw (w.env now)
  pub pulls :
      (now from t : ℕ) (p : Pull)
      → (take_pull (w.env now) (c.req_id from t)).1 ≡ some p
      → (p.start ≡ from) × IsInPlace (out_raw c.job_id) p.start p.bytes
  -- the decoder makes a character at least of any bytes
  pub speaks : (bytes : List ℕ) → 0 < length bytes → 0 < length (c.decode bytes)

-- The object's window of the job from `from` on.
abbrev pub shown_at : World → Reads → ℕ → ℕ → WindowResult
shown_at w c from t = window (w.env t) c.job_id from max_window_bytes t

-- A piece that was read at `from` starts there, or as far behind as a window says that it skipped.
abbrev pub Follows : World → Reads → ℕ → ℕ → Type 0
Follows w c from start =
    (start ≡ from)
    ⊎ ((t : ℕ) × (start ≡ (shown_at w c from t).start_byte)
        × (start ≡ from + (shown_at w c from t).head_discarded_bytes))

-- Pieces of the output, each with its offset, that follow one another from `from` to `end`.
abbrev pub Chained : World → Reads → List ℕ → ℕ → List (ℕ × List ℕ) → ℕ → Type 0
Chained w c out_raw from [] end = end ≡ from
Chained w c out_raw from ((start, bytes) ∷ ps) end =
    Follows w c from start
    × IsInPlace out_raw start bytes
    × Chained w c out_raw (start + length bytes) ps end

-- The text of pieces.
abbrev pub texts : (List ℕ → Text) → List (ℕ × List ℕ) → Text
texts decode [] = []
texts decode ((start, bytes) ∷ ps) = decode bytes ++ texts decode ps

-- The last piece, read at `from`: it is that of a window that reaches the end of the output; or the
-- output is incomplete: the piece is empty, at the deadline, and the window does not reach the end.
abbrev pub IsLast : World → Reads → ℕ → ℕ → List ℕ → Bool → Type 0
IsLast w c from start bytes false =
    (t : ℕ) × ((shown_at w c from t).eof ≡ true)
    × (start ≡ (shown_at w c from t).start_byte)
    × (bytes ≡ (shown_at w c from t).bytes_b64)
IsLast w c from start bytes true =
    (length bytes ≡ 0)
    × ((t : ℕ) × (is_expired w c.at t ≡ true))
    × ((t : ℕ) × ((shown_at w c from t).eof ≡ false))

-- What reads from `from` that began with `text` end with.
abbrev pub HasRead : World → Reads → List ℕ → ℕ → Text → Option Capture → Type 0
HasRead w c out_raw from text none = ⊥
HasRead w c out_raw from text (some (captured whole_text exit_code is_incomplete)) =
    (ps : List (ℕ × List ℕ)) × (last start : ℕ) × (bytes : List ℕ) × Chained w c out_raw from ps
      last
    × Follows w c last start
    × IsInPlace out_raw start bytes
    × IsLast w c last start bytes is_incomplete
    × (whole_text ≡ (text ++ texts c.decode ps) ++ c.decode bytes)
    × (length whole_text ≤ c.max_chars)
    × (exit_code ≡ c.exit_code)
HasRead w c out_raw from text (some unread) = (t : ℕ) × (w.reachable t ≡ false)
HasRead w c out_raw from text (some exception) = (t : ℕ) × (w.reachable t ≡ false)
HasRead w c out_raw from text (some too_large) =
    (ps : List (ℕ × List ℕ)) × (end : ℕ) × Chained w c out_raw from ps end
    × (c.max_chars < length (text ++ texts c.decode ps))
HasRead w c out_raw from text (some (not_served missed)) =
    (ps : List (ℕ × List ℕ)) × Chained w c out_raw from ps missed
    × ((t : ℕ) × ((shown_at w c missed t).range_evicted ≡ true))
HasRead w c out_raw from text (some _) = ⊥

-- What a round reads at `from`, of the window `v`, no earlier than `start`.
abbrev pub IsChunk : World → Reads → List ℕ → ℕ → WindowResult → ℕ → Option Chunk → Type 0
IsChunk w c out_raw from v start none = ⊥
IsChunk w c out_raw from v start (some (whole v' t)) =
    Follows w c from v'.start_byte
    × IsInPlace out_raw v'.start_byte v'.bytes_b64
    × (v'.eof ≡ v.eof)
    × ((v.range_evicted ≡ true) ⊎ (v' ≡ v))
    × (start ≤ t)
IsChunk w c out_raw from v start (some late) = v.range_evicted ≡ true
IsChunk w c out_raw from v start (some cut_off) = (t : ℕ) × (w.reachable t ≡ false)

of_pull-IsChunk :
    (w : World) (c : Reads) (out_raw : String → List ℕ) (from t : ℕ) (v : WindowResult) (start : ℕ)
    (o : Option Pulling)
    → IsHonest w c out_raw
    → v.range_evicted ≡ true
    → IsTaken w (c.req_id from t) start o
    → IsChunk w c (out_raw c.job_id) from v start (of_pull v o)
unfolding of_pull
of_pull-IsChunk w c out_raw from t v start none honest evicted taken = taken
of_pull-IsChunk w c out_raw from t v start (some (got p t')) honest evicted ((now, here), le) =
    let (asked, in_place) = honest.pulls now from t p here in
    (inl asked, in_place, refl, inl evicted, le)
of_pull-IsChunk w c out_raw from t v start (some (timed_out t')) honest evicted taken = evicted
of_pull-IsChunk w c out_raw from t v start (some broke) honest evicted taken = taken

pub chunk_of-IsChunk :
    (w : World) (c : Reads) (out_raw : String → List ℕ) (from t start : ℕ) (v : WindowResult)
    → IsTimely w
    → IsHonest w c out_raw
    → Follows w c from v.start_byte
    → IsInPlace (out_raw c.job_id) v.start_byte v.bytes_b64
    → IsChunk w c (out_raw c.job_id) from v start (chunk_of w (c.req_id from t) c.at v start)
unfolding chunk_of
chunk_of-IsChunk w c out_raw from t start v timely honest follows there =
    by_eviction v.range_evicted refl
  where
    by_eviction :
        (b : Bool)
        → v.range_evicted ≡ b
        → IsChunk w c (out_raw c.job_id) from v start (
            if b
            then of_pull v (pull_range w (c.req_id from t) c.at pull_fuel start)
            else some (whole v start))
    by_eviction true evicted =
        of_pull-IsChunk w c out_raw from t v start
          (pull_range w (c.req_id from t) c.at pull_fuel start) honest evicted
          (pull_range-IsTaken w (c.req_id from t) c.at pull_fuel start timely (omega arith))
    by_eviction false kept = (follows, there, refl, inr refl, omega arith)

-- A piece goes before the others.
pub one_more :
    (w : World) (c : Reads) (out_raw : List ℕ) (from : ℕ) (text : Text) (start : ℕ) (bytes : List ℕ)
    (o : Option Capture)
    → Follows w c from start
    → IsInPlace out_raw start bytes
    → HasRead w c out_raw (start + length bytes) (text ++ c.decode bytes) o
    → HasRead w c out_raw from text o
one_more w c out_raw from text start bytes none follows there read = read
one_more w c out_raw from text start bytes (some (captured all x b)) follows there
      (ps, last, start', bytes', chained, rest, in_place, ends, same, small, code) =
    (
      (start, bytes) ∷ ps,
      last,
      start',
      bytes',
      (follows, there, chained),
      rest,
      in_place,
      ends,
      same
          ∙ ap (λ k. k ++ c.decode bytes') (append_assoc text (c.decode bytes) (texts c.decode ps)),
      small,
      code,
    )
one_more w c out_raw from text start bytes (some unread) follows there read = read
one_more w c out_raw from text start bytes (some exception) follows there read = read
one_more w c out_raw from text start bytes (some too_large) follows there (ps, end, chained, long) =
    (
      (start, bytes) ∷ ps,
      end,
      (follows, there, chained),
      subst (λ k. c.max_chars < length k) (append_assoc text (c.decode bytes) (texts c.decode ps))
          long,
    )
one_more w c out_raw from text start bytes (some (not_served missed)) follows there
      (ps, chained, evicted) =
    ((start, bytes) ∷ ps, (follows, there, chained), evicted)
one_more w c out_raw from text start bytes (some (not_admitted r)) follows there read = read
one_more w c out_raw from text start bytes (some not_accounted) follows there read = read
one_more w c out_raw from text start bytes (some (unfinished s)) follows there read = read

-- The end of a read that got all of the output, or could not go on.
pub finished :
    (w : World) (c : Reads) (out_raw : List ℕ) (from : ℕ) (text : Text) (start : ℕ) (bytes : List ℕ)
    (b : Bool)
    → Follows w c from start
    → IsInPlace out_raw start bytes
    → IsLast w c from start bytes b
    → length (text ++ c.decode bytes) ≤ c.max_chars
    → HasRead w c out_raw from text (some (captured (text ++ c.decode bytes) c.exit_code b))
finished w c out_raw from text start bytes b follows there ends small = (
  [],
  from,
  start,
  bytes,
  refl,
  follows,
  there,
  ends,
  ap (λ k. k ++ c.decode bytes) (sym (append-nil text)),
  small,
  refl,
)

-- A text that is too long, with the piece that made it so.
pub overflowed :
    (w : World) (c : Reads) (out_raw : List ℕ) (from : ℕ) (text : Text) (start : ℕ) (bytes : List ℕ)
    → Follows w c from start
    → IsInPlace out_raw start bytes
    → c.max_chars < length (text ++ c.decode bytes)
    → HasRead w c out_raw from text (some too_large)
overflowed w c out_raw from text start bytes follows there long = (
  (start, bytes) ∷ [],
  start + length bytes,
  (follows, there, refl),
  subst (λ k. c.max_chars < length (text ++ k)) (sym (append-nil (c.decode bytes))) long,
)
