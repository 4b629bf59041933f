-- ===== src/Run/Capture/Wait.antt =====
-- runCapture of broker/src/tools-run.ts: that its wait for the command ends.
use gha_mcp_host.Prelude.{
  arith, ℕ, zero, suc, ◌-◌, ◌<◌, ◌≡◌, ◌⊎◌, inl, inr, refl, sym, true, String, Option, none, some,
  or_else, Bool-cases,
}
use gha_mcp_host.EnvWindow.{WindowResult}
use gha_mcp_host.Result.{PollClock, next}
use gha_mcp_host.Result.Waits.{Runs, next-Runs}
use gha_mcp_host.Run.{World, IsTimely, probe, is_expired, tick, tick_goes, tick_stops}
use gha_mcp_host.Run.Foreground.{is_done}
use gha_mcp_host.Run.Capture.{Waited, wait_for}

abbrev pub IsOver : World → ℕ → Option Waited → Type 0
IsOver w at none = ⊥
IsOver w at (some x) =
    (x.ended ≡ is_done x.held) × ((x.ended ≡ true) ⊎ (is_expired w at x.time ≡ true))

-- If no answer comes before its call, time does not run back in a sleep and no timer fires early, then
-- with more rounds than there are milliseconds to the deadline the wait ends: when the command has
-- ended, or when the deadline is over or the client has gone.
wait_for-IsOver :
    (w : World) (id : String) (at fuel : ℕ) (clock : PollClock) (t : ℕ) (prev : Option WindowResult)
    → IsTimely w
    → Runs clock
    → at - t < fuel
    → IsOver w at (wait_for w id at fuel clock t prev)
unfolding wait_for
wait_for-IsOver w id at zero clock t prev timely runs enough = omega arith
wait_for-IsOver w id at (suc n) clock t prev timely runs enough =
    let held = or_else (probe w id 0 1024 t) prev in
    let ms = (next clock).1 in
    elim (Bool-cases (is_done held)) [
      | inl done ↦ rw (done) (sym done, inl refl)
      | inr going ↦ elim (Bool-cases (tick w at ms (w.answered t)).0) [
        | inr stops ↦ rw (going, stops) (sym going, inr (tick_stops w at ms (w.answered t) stops))
        | inl goes ↦
            let further = tick_goes w at ms (w.answered t) timely (next-Runs clock runs).0 goes in
            rw (going, goes)
              (wait_for-IsOver w id at n (next clock).0 (tick w at ms (w.answered t)).1 held timely
                (next-Runs clock runs).1 (omega (arith, further, timely.answers_later t)))
      ]
    ]
