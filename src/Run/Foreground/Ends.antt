-- ===== src/Run/Foreground/Ends.antt =====
-- execute of broker/src/tools-run.ts: that its loop ends, when, and with what.
use gha_mcp_host.Prelude.{
  ℕ, zero, suc, ◌+◌, ◌-◌, ◌*◌, ◌≤◌, ◌<◌, ◌≡◌, ◌⊎◌, inl, inr, ◌≢◌, refl, subst, sym, ap, max, true,
  false, String, List, Option, none, some, arith, or_else, Bool-cases,
}
use gha_mcp_host.EnvSchema.{CmdState, queued}
use gha_mcp_host.EnvWindow.{WindowResult}
use gha_mcp_host.EnvDo.Reading.{window}
use gha_mcp_host.EnvDo.Ingest.Truth.{Truthful}
use gha_mcp_host.EnvDo.Reading.Faithful.{IsFaithful, window-Faithful}
use gha_mcp_host.Result.{PollClock, next}
use gha_mcp_host.Result.Waits.{Runs, next-Runs}
use gha_mcp_host.Job.{ReturnedBecause, exit, idle, deadline, output_cap, still_queued, of}
use gha_mcp_host.Run.{
  World, IsTimely, IsPrompt, probe, is_expired, tick, tick_goes, tick_stops, tick_ends,
}
use gha_mcp_host.Run.Foreground.{Seen, is_done, is_queued, error_of, at_deadline, exec_loop}

-- The window is one that the object gave at some time, or there is none.
abbrev pub IsObserved : World → String → ℕ → ℕ → Option WindowResult → Type 0
IsObserved w job_id from max_bytes none = Unit {0}
IsObserved w job_id from max_bytes (some v) =
    (t : ℕ) × (v ≡ window (w.env t) job_id from max_bytes t)

-- The state that the held window names, if there is one and it names one.
abbrev pub held_state : Seen → Option CmdState
held_state s = of s.held (λ v. v.state) none

-- What the reason says of the window and of the deadline.
abbrev pub Explains : World → ℕ → Seen → ReturnedBecause → Type 0
Explains w at s exit = is_done s.held ≡ true
Explains w at s output_cap = (is_done s.held ≡ false) × (of s.held (λ v. v.truncated) false ≡ true)
Explains w at s idle = ⊥
Explains w at s deadline =
    (is_done s.held ≡ false) × (is_expired w at s.time ≡ true) × (held_state s ≢ some queued)
Explains w at s still_queued =
    (is_done s.held ≡ false) × (is_expired w at s.time ≡ true) × (held_state s ≡ some queued)

-- When a loop that began at `start` ends: as the answer to a probe arrives, or as a tick after it ends.
abbrev EndsAfter : World → ℕ → ℕ → Seen → Type 0
EndsAfter w at start s =
    (t ms : ℕ) × (t ≤ max start at)
    × ((s.time ≡ w.answered t) ⊎ (s.time ≡ (tick w at ms (w.answered t)).1))

abbrev IsGood : World → String → ℕ → ℕ → ℕ → Option Seen → Type 0
IsGood w id max_bytes at start none = ⊥
IsGood w id max_bytes at start (some s) =
    IsObserved w id 0 max_bytes s.held × Explains w at s s.because × EndsAfter w at start s

observed :
    (w : World) (id : String) (from max_bytes t : ℕ) (prev : Option WindowResult)
    → IsObserved w id from max_bytes prev
    → IsObserved w id from max_bytes (or_else (probe w id from max_bytes t) prev)
unfolding probe
observed w id from m t prev ok = elim (Bool-cases (w.reachable t)) [
  | inl reached ↦ rw (reached) (t, refl)
  | inr missed ↦ rw (missed) ok
]

pub queued_state : (o : Option CmdState) → is_queued o ≡ true → o ≡ some queued
queued_state none h = cc h
queued_state (some queued) h = refl
queued_state (some CmdState.running) h = cc h
queued_state (some CmdState.exited) h = cc h
queued_state (some CmdState.killed) h = cc h
queued_state (some CmdState.lost) h = cc h

pub begun_state : (o : Option CmdState) → is_queued o ≡ false → o ≢ some queued
begun_state o h e = cc (ap is_queued e, h)

at_deadline-Explains :
    (w : World) (at : ℕ) (s : Seen)
    → is_done s.held ≡ false
    → is_expired w at s.time ≡ true
    → Explains w at s (at_deadline s.held)
at_deadline-Explains w at s going over = elim (Bool-cases (is_queued (held_state s))) [
  | inl waits ↦ rw (waits) (going, over, queued_state (held_state s) waits)
  | inr begun ↦ rw (begun) (going, over, begun_state (held_state s) begun)
]

exec_loop-IsGood :
    (w : World) (id : String) (max_bytes at fuel : ℕ) (clock : PollClock) (t start : ℕ)
    (prev : Option WindowResult)
    → IsTimely w
    → Runs clock
    → at - t < fuel
    → t ≤ max start at
    → IsObserved w id 0 max_bytes prev
    → IsGood w id max_bytes at start (exec_loop w id max_bytes at fuel clock t prev)
unfolding exec_loop
exec_loop-IsGood w id m at zero clock t start prev timely runs enough le ok = omega arith
exec_loop-IsGood w id m at (suc n) clock t start prev timely runs enough le ok =
    let held = or_else (probe w id 0 m t) prev in
    let ms = (next clock).1 in
    let seen = observed w id 0 m t prev ok in
    let t' = (tick w at ms (w.answered t)).1 in
    elim (Bool-cases (is_done held)) [
      | inl done ↦ rw (done) (seen, done, (t, ms, le, inl refl))
      | inr going ↦ elim (Bool-cases (of held (λ v. v.truncated) false)) [
        | inl full ↦ rw (going, full) (seen, (going, full), (t, ms, le, inl refl))
        | inr fits ↦ elim (Bool-cases (tick w at ms (w.answered t)).0) [
          | inl goes ↦
              let later = tick_goes w at ms (w.answered t) timely (next-Runs clock runs).0 goes in
              rw (going, fits, goes)
                (exec_loop-IsGood w id m at n (next clock).0 t' start held timely
                  (next-Runs clock runs).1 (omega (arith, later, timely.answers_later t))
                  (omega (arith, later)) seen)
          | inr stops ↦
              rw (going, fits, stops)
                (
                  seen,
                  at_deadline-Explains w at
                      (record {
                        held = held;
                        poll_error = error_of (probe w id 0 m t);
                        because = at_deadline held;
                        time = t';
                      })
                      going (tick_stops w at ms (w.answered t) stops),
                  (t, ms, le, inr refl),
                )
        ]
      ]
    ]

ended :
    (w : World) (id : String) (max_bytes at start : ℕ) (o : Option Seen)
    → IsGood w id max_bytes at start o
    → (s : Seen) × (o ≡ some s) × IsGood w id max_bytes at start (some s)
ended w id m at start none good = absurd good
ended w id m at start (some s) good = (s, refl, good)

-- If no answer comes before its call and no timer fires early, then with more rounds than there are
-- milliseconds to the deadline the loop of execute comes to an end. The window it holds is one that
-- the object gave for that job at some time (or there is none), and the reason is true: `exit` of a
-- job that has ended; `cap` of one that has not, whose window was cut; `queued` and `deadline` only
-- when the deadline is over or the client has gone, and the job has not ended, and then `queued`
-- exactly if the window says that the job is queued.
pub exec_loop_lem :
    (w : World) (id : String) (max_bytes at fuel t : ℕ) (clock : PollClock)
    → IsTimely w
    → Runs clock
    → at - t < fuel
    → (s : Seen) × (exec_loop w id max_bytes at fuel clock t none ≡ some s)
      × IsObserved w id 0 max_bytes s.held
      × Explains w at s s.because
exec_loop_lem w id m at fuel t clock timely runs enough =
    let (s, same, good) =
      ended w id m at t (exec_loop w id m at fuel clock t none)
        (exec_loop-IsGood w id m at fuel clock t t none timely runs enough (omega arith) tt) in
    (s, same, good.0, good.1)

-- If also no call takes longer than `delay` and no sleep lasts longer than asked for by more than
-- that, then a loop that began by its deadline has ended by the deadline and twice that delay.
pub exec_loop_ends :
    (w : World) (id : String) (max_bytes at fuel t delay : ℕ) (clock : PollClock)
    → IsTimely w
    → IsPrompt delay w
    → Runs clock
    → at - t < fuel
    → t ≤ at
    → (s : Seen) × (exec_loop w id max_bytes at fuel clock t none ≡ some s)
      × (s.time ≤ at + 2 * delay)
exec_loop_ends w id m at fuel t delay clock timely prompt runs enough le =
    let (s, same, good) =
      ended w id m at t (exec_loop w id m at fuel clock t none)
        (exec_loop-IsGood w id m at fuel clock t t none timely runs enough (omega arith) tt) in
    let (t', ms, before, when) = good.2 in
    (
      s,
      same,
      elim when [
        | inl answer ↦ omega (arith, answer, before, le, prompt.answers_by t')
        | inr woken ↦ omega (
          arith,
          woken,
          before,
          le,
          prompt.answers_by t',
          tick_ends w at ms (w.answered t') delay prompt,
        )
      ],
    )

abbrev pub IsFaithfulIfAny : List ℕ → ℕ → ℕ → Option WindowResult → Type 0
IsFaithfulIfAny out_raw from max_bytes none = Unit {0}
IsFaithfulIfAny out_raw from max_bytes (some v) = IsFaithful out_raw from max_bytes v

-- If at every time the object's rings and tails are truthful, the loop of execute ends, with no window
-- or with one that shows the job's own output at the offset that it names.
pub exec_loop-IsFaithful :
    (w : World) (id : String) (max_bytes at fuel t : ℕ) (clock : PollClock)
    (out_raw : String → List ℕ)
    → IsTimely w
    → Runs clock
    → at - t < fuel
    → ((now : ℕ) → Truthful out_raw (w.env now))
    → (s : Seen) × (exec_loop w id max_bytes at fuel clock t none ≡ some s)
      × IsFaithfulIfAny (out_raw id) 0 max_bytes s.held
exec_loop-IsFaithful w id m at fuel t clock out_raw timely runs enough truthful =
    let (s, same, held, _) = exec_loop_lem w id m at fuel t clock timely runs enough in
    (s, same, faithful s.held held)
  where
    faithful :
        (held : Option WindowResult)
        → IsObserved w id 0 m held
        → IsFaithfulIfAny (out_raw id) 0 m held
    faithful none ok = tt
    faithful (some v) (now, shown) =
        subst (IsFaithful (out_raw id) 0 m) (sym shown)
          (window-Faithful (w.env now) id 0 m now out_raw (truthful now))
