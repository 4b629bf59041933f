-- ===== src/Run/Poll/Shown.antt =====
-- poll_job of broker/src/tools-run.ts: what a round holds, pulled or not, and when it is the last.
use gha_mcp_host.Prelude.{
  arith, ℕ, ◌≤◌, ◌≡◌, ◌⊎◌, ◌≢◌, inl, inr, refl, sym, ap, ◌∙◌, Bool, true, false, not, String,
  Option, none, some, or_else, Bool-cases,
}
use gha_mcp_host.EnvSchema.{queued}
use gha_mcp_host.EnvWindow.{WindowResult}
use gha_mcp_host.EnvDo.{Pull}
use gha_mcp_host.EnvDo.Control.{take_pull}
use gha_mcp_host.EnvDo.Reading.{window}
use gha_mcp_host.Job.{ReturnedBecause, exit, idle, deadline, output_cap, still_queued, of}
use gha_mcp_host.Run.{World, IsTimely, probe, is_expired}
use gha_mcp_host.Run.Pulling.{
  Pulling, got, timed_out, broke, pull_range, IsTaken, pull_range-IsTaken,
}
use gha_mcp_host.Run.Foreground.{Seen, is_done, is_queued, at_deadline}
use gha_mcp_host.Run.Foreground.Ends.{held_state, queued_state, begun_state}
use gha_mcp_host.Run.Poll.{
  Round, Polled, no_job, exception, seen, is_missing, has_bytes, serve_again, after_pull, decide,
  Range, pull_phase, pull_fuel,
}

-- The object's window of some time, or that window with the bytes and the offset of an answer that
-- was taken under the request's id.
abbrev pub IsShown : World → Range → String → Option WindowResult → Type 0
IsShown w a req_id none = Unit {0}
IsShown w a req_id (some v) =
    (t : ℕ) × let v0 = window (w.env t) a.job_id a.from_byte a.max_bytes t in
      ((v ≡ v0)
        ⊎ ((p : Pull) × (t' : ℕ) × ((take_pull (w.env t') req_id).1 ≡ some p)
            × (v ≡ serve_again v0 p)))

-- What the reason says, for a loop with the deadline `at`: the command has ended and is waited for, or
-- there are bytes, or the output has ended; there are bytes, and any output is waited for, and the
-- window is cut or not; or none of these, and the deadline is over or the client has gone, with the
-- job queued or not.
abbrev pub EndsFor : World → Range → ℕ → Seen → ReturnedBecause → Type 0
EndsFor w a at s exit =
    (is_done s.held ≡ true)
    × ((a.until_exit ≡ true) ⊎ ((has_bytes s.held ≡ true) ⊎ (of s.held (λ v. v.eof) false ≡ true)))
EndsFor w a at s output_cap =
    (a.until_exit ≡ false) × (has_bytes s.held ≡ true) × (of s.held (λ v. v.truncated) false ≡ true)
EndsFor w a at s idle =
    (a.until_exit ≡ false)
    × (has_bytes s.held ≡ true)
    × (of s.held (λ v. v.truncated) false ≡ false)
EndsFor w a at s deadline =
    (decide a.until_exit s.held ≡ none)
    × (is_expired w at s.time ≡ true)
    × (held_state s ≢ some queued)
EndsFor w a at s still_queued =
    (decide a.until_exit s.held ≡ none)
    × (is_expired w at s.time ≡ true)
    × (held_state s ≡ some queued)

pub decided :
    (w : World) (a : Range) (at : ℕ) (s : Seen) (because : ReturnedBecause)
    → decide a.until_exit s.held ≡ some because
    → EndsFor w a at s because
unfolding decide
decided w a at s exit h = ground arith
decided w a at s output_cap h = ground arith
decided w a at s idle h = ground arith
decided w a at s deadline h = absurd (ground arith)
decided w a at s still_queued h = absurd (ground arith)

pub late :
    (w : World) (a : Range) (at : ℕ) (s : Seen)
    → decide a.until_exit s.held ≡ none
    → is_expired w at s.time ≡ true
    → EndsFor w a at s (at_deadline s.held)
late w a at s waits over = elim (Bool-cases (is_queued (held_state s))) [
  | inl idles ↦ rw (idles) (waits, over, queued_state (held_state s) idles)
  | inr begun ↦ rw (begun) (waits, over, begun_state (held_state s) begun)
]

abbrev pub IsGood : World → Range → String → ℕ → Option Polled → Type 0
IsGood w a req_id at none = ⊥
IsGood w a req_id at (some no_job) =
    (t : ℕ) × ((window (w.env t) a.job_id a.from_byte a.max_bytes t).found ≡ false)
IsGood w a req_id at (some exception) = (t : ℕ) × (w.reachable t ≡ false)
IsGood w a req_id at (some (seen s warnings)) =
    IsShown w a req_id s.held × EndsFor w a at s s.because

pub shown :
    (w : World) (a : Range) (req_id : String) (t : ℕ) (prev : Option WindowResult)
    → IsShown w a req_id prev
    → IsShown w a req_id (or_else (probe w a.job_id a.from_byte a.max_bytes t) prev)
unfolding probe
shown w a req_id t prev ok = elim (Bool-cases (w.reachable t)) [
  | inl reached ↦ rw (reached) (t, inl refl)
  | inr missed ↦ rw (missed) ok
]

negated : (b : Bool) → not b ≡ true → b ≡ false
negated true h = cc h
negated false h = refl

pub missing :
    (w : World) (a : Range) (req_id : String) (held : Option WindowResult)
    → IsShown w a req_id held
    → is_missing held ≡ true
    → (t : ℕ) × ((window (w.env t) a.job_id a.from_byte a.max_bytes t).found ≡ false)
missing w a req_id none ok h = cc h
missing w a req_id (some v) (t, inl same) h =
    (t, ap (λ v'. v'.found) (sym same) ∙ negated v.found h)
missing w a req_id (some v) (t, inr (p, t', taken, same)) h =
    (t, ap (λ v'. v'.found) (sym same) ∙ negated v.found h)

served :
    (w : World) (a : Range) (req_id : String) (held : Option WindowResult) (p : Pull)
    → IsShown w a req_id held
    → (t' : ℕ) × ((take_pull (w.env t') req_id).1 ≡ some p)
    → IsShown w a req_id (of held (λ v. some (serve_again v p)) none)
served w a req_id none p ok taken = tt
served w a req_id (some v) p (t, inl same) (t', taken) =
    (t, inr (p, t', taken, ap (λ v'. serve_again v' p) same))
served w a req_id (some v) p (t, inr (q, _, _, same)) (t', taken) =
    (t, inr (p, t', taken, ap (λ v'. serve_again v' p) same))

abbrev pub IsPulled : World → Range → String → ℕ → Option (Option Round) → Type 0
IsPulled w a req_id start none = ⊥
IsPulled w a req_id start (some none) = (t : ℕ) × (w.reachable t ≡ false)
IsPulled w a req_id start (some (some r)) = IsShown w a req_id r.held × start ≤ r.time

after_pull-IsPulled :
    (w : World) (a : Range) (req_id : String) (r : Round) (p : Pulling)
    → IsShown w a req_id r.held
    → IsTaken w req_id r.time (some p)
    → IsPulled w a req_id r.time (some (after_pull r p))
unfolding after_pull
after_pull-IsPulled w a req_id r (got p t) ok (taken, le) =
    (served w a req_id r.held p ok taken, le)
after_pull-IsPulled w a req_id r (timed_out t) ok le = (ok, le)
after_pull-IsPulled w a req_id r broke ok lost = lost

pub pull_phase-IsPulled :
    (w : World) (a : Range) (req_id : String) (at : ℕ) (r : Round) (pulls : Bool)
    → IsTimely w
    → IsShown w a req_id r.held
    → IsPulled w a req_id r.time (pull_phase w req_id at r pulls)
unfolding pull_phase
pull_phase-IsPulled w a req_id at r false timely ok = (ok, omega arith)
pull_phase-IsPulled w a req_id at r true timely ok =
    from_answer (pull_range w req_id at pull_fuel r.time)
      (pull_range-IsTaken w req_id at pull_fuel r.time timely (omega arith))
  where
    from_answer :
        (o : Option Pulling)
        → IsTaken w req_id r.time o
        → IsPulled w a req_id r.time (elim o [ none ↦ none | some p ↦ some (after_pull r p) ])
    from_answer none taken = absurd taken
    from_answer (some p) taken = after_pull-IsPulled w a req_id r p ok taken

pub phase_cases :
    (w : World) (a : Range) (req_id : String) (start : ℕ) (o : Option (Option Round))
    → IsPulled w a req_id start o
    → ((o ≡ some none) × ((t : ℕ) × (w.reachable t ≡ false)))
      ⊎ ((r : Round) × (o ≡ some (some r)) × IsShown w a req_id r.held × (start ≤ r.time))
phase_cases w a req_id start none ok = absurd ok
phase_cases w a req_id start (some none) ok = inl (refl, ok)
phase_cases w a req_id start (some (some r)) (ok, le) = inr (r, refl, ok, le)
