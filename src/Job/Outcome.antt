-- ===== src/Job/Outcome.antt =====
-- jobResult of broker/src/tools-shared.ts: offsets, end of file, what to do next.
use gha_mcp_host.Prelude.{
  ℕ, ◌+◌, ◌≤◌, ◌<◌, ◌≡◌, ◌↔◌, ◌⊎◌, inl, inr, refl, Bool, true, false, ◌&&◌, List, [], none, some,
  arith, leb, leb→le, le→leb, length, take,
}
use gha_mcp_host.Text.{Text}
use gha_mcp_host.Bytes.{safe_cut}
use gha_mcp_host.Bytes.Progress.{safe_cut_progress}
use gha_mcp_host.Bytes.Render.{render_window, strip_ansi}
use gha_mcp_host.EnvSchema.{CmdState}
use gha_mcp_host.EnvWindow.{WindowResult}
use gha_mcp_host.Result.{ok, tail}
use gha_mcp_host.Job.{JobArgs, JobResult, render_text, state_of, advice, job_result, unaccounted}

-- What a caller learns from a result that was made of the window `w`: its output is what the bytes
-- up to `next_byte` render to.
pub record Covers (decode : List ℕ → Text) (w : WindowResult) (r : JobResult) : Type 0 where
  pub shown : r.output ≡ strip_ansi (decode (take r.bytes_returned w.bytes_b64))
  pub starts : r.start_byte ≡ w.start_byte
  pub advances : r.next_byte ≡ w.start_byte + r.bytes_returned
  pub within : r.bytes_returned ≤ length w.bytes_b64
  pub progress : (0 < r.bytes_returned) ⊎ (w.bytes_b64 ≡ [])
  pub ends : (r.eof ≡ true) ↔ ((w.eof ≡ true) × (r.next_byte ≡ w.start_byte + length w.bytes_b64))

-- The result of a job covers its window: the output is the rendering of the bytes from `start_byte` to
-- `next_byte`, which are at least one where the window has any, and eof is claimed exactly where the
-- window ends the output and all of it is covered.
pub job_result-Covers :
    (decode : List ℕ → Text) (a : JobArgs) (w : WindowResult) (now : ℕ)
    → a.w ≡ some w
    → Covers decode w (job_result decode a now)
unfolding job_result render_text render_window
job_result-Covers decode a w now e =
    let (progress, all) = safe_cut_progress w.bytes_b64 w.eof in
    let cut = (safe_cut w.bytes_b64 w.eof).end in
    rw e (record {
      shown = refl;
      starts = refl;
      advances = refl;
      within = omega (arith, all);
      progress = progress;
      ends = both w.eof w.start_byte cut (length w.bytes_b64) (omega (arith, all));
    })
  where
    both :
        (b : Bool) (start cut total : ℕ)
        → cut ≤ total
        → ((b && leb total cut) ≡ true) ↔ ((b ≡ true) × (start + cut ≡ start + total))
    both true start cut total h = (
      (λ k. (refl, omega (arith, leb→le total cut k))),
      (λ k. le→leb total cut (omega (arith, k.1))),
    )
    both false start cut total h = ((λ k. cc k), (λ k. cc (k.0)))

abbrev pub IsFinished : CmdState → Type 0
IsFinished s = (s ≡ CmdState.exited) ⊎ (s ≡ CmdState.killed)

advice_done :
    (s : CmdState) (p n : ℕ) (eof : Bool)
    → ((advice s p n eof).1 ≡ none) ↔ (IsFinished s × (eof ≡ true))
unfolding advice
advice_done CmdState.lost p n eof = ((λ h. cc h), (λ h. ground arith))
advice_done CmdState.queued p n eof = ((λ h. cc h), (λ h. ground arith))
advice_done CmdState.running p n eof = ((λ h. cc h), (λ h. ground arith))
advice_done CmdState.exited p n true = ((λ h. (inl refl, refl)), (λ h. refl))
advice_done CmdState.exited p n false = ((λ h. cc h), (λ h. cc (h.1)))
advice_done CmdState.killed p n true = ((λ h. (inr refl, refl)), (λ h. refl))
advice_done CmdState.killed p n false = ((λ h. cc h), (λ h. cc (h.1)))

-- A result names no next action exactly where the job has exited or was killed and its output has
-- been read to the end.
pub job_result_done :
    (decode : List ℕ → Text) (a : JobArgs) (now : ℕ)
    → let r = job_result decode a now in
      (r.next_action ≡ none) ↔ (IsFinished r.state × (r.eof ≡ true))
unfolding job_result
job_result_done decode a now =
    let r = job_result decode a now in advice_done r.state a.queue_position r.next_byte r.eof

-- A lost job comes with a hint that says so, but `on_error` is null and the result not marked as
-- unsafe to run again: the verdict of a result that is ok overrides the one that is passed in.
pub job_result_lost :
    (decode : List ℕ → Text) (a : JobArgs) (w : WindowResult) (now : ℕ)
    → a.w ≡ some w
    → w.state ≡ some CmdState.lost
    → let r = job_result decode a now in
      (r.hint ≡ some unaccounted) × (r.verdict.on_error ≡ none) × (r.verdict.is_ok ≡ true)
unfolding job_result advice state_of ok tail
job_result_lost decode a w now e s = rw e (rw s (refl, refl, refl))
