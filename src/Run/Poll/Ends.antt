-- ===== src/Run/Poll/Ends.antt =====
-- poll_job of broker/src/tools-run.ts: that its loop ends, and with what.
use gha_mcp_host.Prelude.{
  arith, ℕ, zero, suc, ◌-◌, ◌<◌, ◌≡◌, inl, inr, refl, Bool, false, not, ◌&&◌, ◌||◌, String, List,
  Option, none, some, or_else, Bool-cases, Option-cases,
}
use gha_mcp_host.EnvWindow.{WindowResult}
use gha_mcp_host.EnvDo.Snapshot.{Snapshot}
use gha_mcp_host.EnvDo.Reading.{window}
use gha_mcp_host.Text.{Text}
use gha_mcp_host.Result.{PollClock, next}
use gha_mcp_host.Result.Waits.{Runs, next-Runs}
use gha_mcp_host.Job.{JobWarning}
use gha_mcp_host.Run.{World, IsTimely, probe, tick, tick_goes, tick_stops}
use gha_mcp_host.Run.Foreground.{Seen, error_of, at_deadline}
use gha_mcp_host.Run.Poll.{
  Round, Polled, seen, is_missing, is_evicted, decide, Range, pull_phase, poll_loop, PollArgs,
  PollJob, env_not_found, bad_input, threw, polled, range_of, conclude,
}
use gha_mcp_host.Run.Poll.Shown.{
  IsShown, EndsFor, IsGood, shown, missing, pull_phase-IsPulled, phase_cases, decided, late,
}

pub poll_loop-IsGood :
    (w : World) (a : Range) (req_id : String) (at fuel : ℕ) (clock : PollClock) (t : ℕ)
    (prev : Option WindowResult) (pulled : Bool) (warnings : List JobWarning)
    → IsTimely w
    → Runs clock
    → at - t < fuel
    → IsShown w a req_id prev
    → IsGood w a req_id at (poll_loop w a req_id at fuel clock t prev pulled warnings)
unfolding poll_loop
poll_loop-IsGood w a req_id at zero clock t prev pulled warnings timely runs enough ok = omega arith
poll_loop-IsGood w a req_id at (suc n) clock t prev pulled warnings timely runs enough ok =
    let answer = probe w a.job_id a.from_byte a.max_bytes t in
    let held = or_else answer prev in
    let r : Round = record {
      held = held;
      poll_error = error_of answer;
      warnings = warnings;
      time = w.answered t;
    } in
    let pulls = is_evicted held && not pulled in
    let ok' = shown w a req_id t prev ok in
    let phase = pull_phase-IsPulled w a req_id at r pulls timely ok' in
    elim (Bool-cases (is_missing held)) [
      | inl gone ↦ rw (gone) (missing w a req_id held ok' gone)
      | inr there ↦
          elim (phase_cases w a req_id (w.answered t) (pull_phase w req_id at r pulls) phase) [
            | inl (off, lost) ↦ rw (there, off) lost
            | inr (r', on, ok'', le) ↦ elim (Option-cases (decide a.until_exit r'.held)) [
              | inr (because, ends) ↦
                  rw (there, on, ends)
                    (
                      ok'',
                      decided w a at
                          (record {
                            held = r'.held;
                            poll_error = r'.poll_error;
                            because = because;
                            time = r'.time;
                          })
                          because ends,
                    )
              | inl waits ↦ elim (Bool-cases (tick w at (next clock).1 r'.time).0) [
                | inr stops ↦
                    rw (there, on, waits, stops)
                      (
                        ok'',
                        late w a at
                            (record {
                              held = r'.held;
                              poll_error = r'.poll_error;
                              because = at_deadline r'.held;
                              time = (tick w at (next clock).1 r'.time).1;
                            })
                            waits (tick_stops w at (next clock).1 r'.time stops),
                      )
                | inl goes ↦
                    let further =
                      tick_goes w at (next clock).1 r'.time timely (next-Runs clock runs).0 goes in
                    rw (there, on, waits, goes)
                      (poll_loop-IsGood w a req_id at n (next clock).0
                        (tick w at (next clock).1 r'.time).1 r'.held (pulled || is_evicted held)
                        r'.warnings timely (next-Runs clock runs).1
                        (omega (arith, further, le, enough, timely.answers_later t)) ok'')
              ]
            ]
          ]
    ]

pub polled_cases :
    (w : World) (a : Range) (req_id : String) (at : ℕ) (o : Option Polled)
    → IsGood w a req_id at o
    → (p : Polled) × (o ≡ some p) × IsGood w a req_id at (some p)
polled_cases w a req_id at none ok = absurd ok
polled_cases w a req_id at (some p) ok = (p, refl, ok)

-- What each answer of poll_job means.
abbrev pub IsPollAnswer :
    World → (List ℕ → Text) → Snapshot → PollArgs → String → ℕ → PollJob → Type 0
IsPollAnswer w decode snap args req_id at env_not_found = snap.env_id ≡ none
IsPollAnswer w decode snap args req_id at bad_input =
    let a = range_of args in
    (t : ℕ) × ((window (w.env t) a.job_id a.from_byte a.max_bytes t).found ≡ false)
IsPollAnswer w decode snap args req_id at threw = (t : ℕ) × (w.reachable t ≡ false)
IsPollAnswer w decode snap args req_id at (polled r) =
    (s : Seen) × (warnings : List JobWarning) × (polled r
      ≡ conclude decode snap args.until_exit (seen s warnings))
    × IsShown w (range_of args) req_id s.held
    × EndsFor w (range_of args) at s s.because
