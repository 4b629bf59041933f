-- ===== src/Run.antt =====
-- broker/src/tools-run.ts: execute, start_command, poll_job, stop_job and runCapture, and the class
-- Deadline of broker/src/result.ts that their loops run on.
-- The world around a loop is a value: at each millisecond the state of the Durable Object, which
-- other callers and the runner change as they like, whether a call then succeeds and when its answer
-- arrives, when a sleep ends, and whether the client has gone.
pub mod Submit
pub mod Foreground
pub mod Pulling
pub mod Poll
pub mod Stop
pub mod Capture
pub mod Samples
mod Tests
use gha_mcp_host.Prelude.{
  arith, ℕ, ◌+◌, ◌-◌, ◌≤◌, ◌<◌, ◌≡◌, ◌⊎◌, min, max, Bool, true, false, not, ◌||◌, String, Option,
  none, some, leb, if◌then◌else◌,
}
use gha_mcp_host.EnvWindow.{WindowResult}
use gha_mcp_host.EnvDo.{Env}
use gha_mcp_host.EnvDo.Reading.{window}

pub record World : Type 0 where
  pub env : ℕ → Env
  pub reachable : ℕ → Bool
  -- when the answer to a call of this time is there
  pub answered : ℕ → ℕ
  -- when a sleep that begins at this time, of so many milliseconds, ends
  pub wake : ℕ → ℕ → ℕ
  pub aborted : ℕ → Bool

-- What the loops rely on: no answer comes before its call, time does not run back in a sleep, and a timer does not fire early, unless
-- the client's abort ends the sleep.
pub record IsTimely (w : World) : Type 0 where
  pub answers_later : (t : ℕ) → t ≤ w.answered t
  pub wakes_later : (t ms : ℕ) → t ≤ w.wake t ms
  pub sleeps : (t ms : ℕ) → (t + ms ≤ w.wake t ms) ⊎ (w.aborted (w.wake t ms) ≡ true)

-- No call takes longer than `delay`, and no sleep lasts longer than asked for by more than that.
pub record IsPrompt (delay : ℕ) (w : World) : Type 0 where
  pub answers_by : (t : ℕ) → w.answered t ≤ t + delay
  pub wakes_by : (t ms : ℕ) → w.wake t ms ≤ t + ms + delay

-- `tryCall(() => stub.window(...))`
pub probe : World → String → ℕ → ℕ → ℕ → Option WindowResult
probe w job_id from_byte max_bytes t =
    if w.reachable t then some (window (w.env t) job_id from_byte max_bytes t) else none

-- `Deadline.expired`, of a deadline at `at`.
pub is_expired : World → ℕ → ℕ → Bool
is_expired w at t = leb at t || w.aborted t

-- `Deadline.tick`: whether to go on, and when.
pub tick : World → ℕ → ℕ → ℕ → Bool × ℕ
unfolding is_expired
tick w at ms t =
    let t' = w.wake t (min ms (at - t)) in
    if is_expired w at t then (false, t) else (not (is_expired w at t'), t')

-- A tick that says go on has moved the clock, and not past the deadline.
pub tick_goes :
    (w : World) (at ms t : ℕ)
    → IsTimely w
    → 0 < ms
    → (tick w at ms t).0 ≡ true
    → (t < (tick w at ms t).1) × ((tick w at ms t).1 < at)
unfolding tick is_expired
tick_goes w at ms t timely pos goes = ground (arith, timely.sleeps t (min ms (at - t)))

-- A tick that ends the loop ends it by the deadline, but for the delay of one wake.
pub tick_ends :
    (w : World) (at ms t delay : ℕ) → IsPrompt delay w → (tick w at ms t).1 ≤ max t at + delay
unfolding tick is_expired
tick_ends w at ms t delay prompt = ground (arith, prompt.wakes_by t (min ms (at - t)))

-- A tick that ends the loop does so because the deadline is over or the client has gone.
pub tick_stops :
    (w : World) (at ms t : ℕ)
    → (tick w at ms t).0 ≡ false
    → is_expired w at (tick w at ms t).1 ≡ true
unfolding tick is_expired
tick_stops w at ms t stops = ground arith

pub tick_later : (w : World) (at ms t : ℕ) → IsTimely w → t ≤ (tick w at ms t).1
unfolding tick
tick_later w at ms t timely = ground (arith, timely.wakes_later t (min ms (at - t)))

pub over_at_once : (w : World) (at t : ℕ) → at ≤ t → is_expired w at t ≡ true
unfolding is_expired
over_at_once w at t h = ground arith
