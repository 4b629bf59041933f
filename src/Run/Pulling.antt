-- ===== src/Run/Pulling.antt =====
-- broker/src/tools-run.ts: the wait for a range that the runner re-serves, as poll_job and runCapture
-- make it. `req_id` is the random id of the request.
use gha_mcp_host.Prelude.{
  arith, ℕ, zero, suc, ◌+◌, ◌-◌, ◌<◌, ◌≤◌, ◌≡◌, inl, inr, min, max, Bool-cases, Option-cases, false,
  String, Option, none, some, if◌then◌else◌,
}
use gha_mcp_host.EnvDo.{Pull}
use gha_mcp_host.EnvDo.Control.{take_pull}
use gha_mcp_host.Result.{PollClock, make_poll_clock, next}
use gha_mcp_host.Result.Waits.{Runs, next-Runs, make_poll_clock-Runs}
use gha_mcp_host.Run.{World, IsTimely, tick, tick_goes, tick_later}

pub data Pulling : Type 0 where
  got : Pull → ℕ → Pulling
  timed_out : ℕ → Pulling
  broke : Pulling

-- A call that fails here is not caught.
pull_loop : World → String → ℕ → ℕ → PollClock → ℕ → Option Pulling
pull_loop w req_id at zero clock t = none
pull_loop w req_id at (suc n) clock t =
    let (clock', ms) = next clock in
    let (goes, t') = tick w at ms (w.answered t) in
    let rest = pull_loop w req_id at n clock' t' in
    if w.reachable t
    then elim (take_pull (w.env t) req_id).1 [
      | some p ↦ some (got p (w.answered t))
      | none ↦ if goes then rest else some (timed_out t')
    ]
    else some broke

-- requestPull at `t`, then the wait. `at` is the deadline of the whole call.
pub pull_range : World → String → ℕ → ℕ → ℕ → Option Pulling
unfolding pull_loop
pull_range w req_id at fuel t =
    let begun = w.answered t in
    let wait =
      pull_loop w req_id (begun + min 15_000 (max 2_000 (at - begun))) fuel
        (make_poll_clock 150 1_000) begun in
    if w.reachable t then wait else some broke

-- An answer was there to be taken under the request's id, or the object could not be reached; and
-- nothing ends before `start`.
abbrev pub IsTaken : World → String → ℕ → Option Pulling → Type 0
IsTaken w req_id start none = ⊥
IsTaken w req_id start (some (got p t)) =
    ((now : ℕ) × ((take_pull (w.env now) req_id).1 ≡ some p)) × (start ≤ t)
IsTaken w req_id start (some (timed_out t)) = start ≤ t
IsTaken w req_id start (some broke) = (t : ℕ) × (w.reachable t ≡ false)

pull_loop-IsTaken :
    (w : World) (req_id : String) (start at fuel : ℕ) (clock : PollClock) (t : ℕ)
    → IsTimely w
    → Runs clock
    → at - t < fuel
    → start ≤ t
    → IsTaken w req_id start (pull_loop w req_id at fuel clock t)
unfolding pull_loop
pull_loop-IsTaken w id start at zero clock t timely runs enough le = omega arith
pull_loop-IsTaken w id start at (suc n) clock t timely runs enough le =
    let ms = (next clock).1 in
    let t' = (tick w at ms (w.answered t)).1 in
    let after = timely.answers_later t in
    let later = tick_later w at ms (w.answered t) timely in
    elim (Bool-cases (w.reachable t)) [
      | inr missed ↦ rw (missed) (t, missed)
      | inl reached ↦ elim (Option-cases (take_pull (w.env t) id).1) [
        | inr (p, here) ↦ rw (reached, here) ((t, here), omega (arith, le, after))
        | inl nothing ↦ elim (Bool-cases (tick w at ms (w.answered t)).0) [
          | inr stops ↦ rw (reached, nothing, stops) (omega (arith, le, after, later))
          | inl goes ↦
              let on = tick_goes w at ms (w.answered t) timely (next-Runs clock runs).0 goes in
              rw (reached, nothing, goes)
                (pull_loop-IsTaken w id start at n (next clock).0 t' timely (next-Runs clock runs).1
                  (omega (arith, on, after, enough)) (omega (arith, le, after, later)))
        ]
      ]
    ]

-- The wait for a re-served range ends, however long the rest of the call may take: fifteen seconds of
-- rounds are enough.
pub pull_range-IsTaken :
    (w : World) (req_id : String) (at fuel t : ℕ)
    → IsTimely w
    → 15_000 < fuel
    → IsTaken w req_id t (pull_range w req_id at fuel t)
unfolding pull_range
pull_range-IsTaken w id at fuel t timely enough = elim (Bool-cases (w.reachable t)) [
  | inr missed ↦ rw (missed) (t, missed)
  | inl reached ↦ rw (reached) (
      pull_loop-IsTaken w id t _ fuel (make_poll_clock 150 1_000) (w.answered t) timely
        (make_poll_clock-Runs 150 1_000) (omega (arith, enough)) (timely.answers_later t))
]
