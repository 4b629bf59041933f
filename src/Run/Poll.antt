-- ===== src/Run/Poll.antt =====
-- broker/src/tools-run.ts: the handler of poll_job.
pub mod Shown
pub mod Ends
pub mod Output
use gha_mcp_host.Prelude.{
  ℕ, zero, suc, ◌+◌, min, Bool, true, false, not, ◌&&◌, ◌||◌, String, List, [], ◌∷◌, ◌++◌, map,
  Option, none, some, ltb, ◌==◌, length, if◌then◌else◌, get_or_else, or_else,
}
use gha_mcp_host.Text.{Text}
use gha_mcp_host.Result.{clamp, PollClock, make_poll_clock, next}
use gha_mcp_host.EnvSchema.{Num}
use gha_mcp_host.EnvWindow.{WindowResult}
use gha_mcp_host.EnvDo.{Pull}
use gha_mcp_host.EnvDo.Snapshot.{Snapshot}
use gha_mcp_host.Job.{
  PollError, pull_timed_out, ReturnedBecause, exit, idle, deadline, output_cap, JobWarning,
  low_disk, served_again, no_answer_to_pull, still_waiting, JobResult, of, job_result,
}
use gha_mcp_host.Run.{World, probe, tick}
use gha_mcp_host.Run.Pulling.{Pulling, got, timed_out, broke, pull_range}
use gha_mcp_host.Run.Submit.{num_arg}
use gha_mcp_host.Run.Foreground.{
  Seen, is_done, error_of, at_deadline, soft_cap_ms, max_window_bytes, window_poll_min_ms,
  window_poll_max_ms,
}

-- More rounds than the longest wait for a range has milliseconds.
abbrev pub pull_fuel : ℕ
pull_fuel = 15_001

-- What a round goes on with.
pub record Round : Type 0 where
  pub held : Option WindowResult
  pub poll_error : Option PollError
  pub warnings : List JobWarning
  pub time : ℕ

pub data Polled : Type 0 where
  no_job : Polled
  exception : Polled
  seen : Seen → List JobWarning → Polled

abbrev pub is_missing : Option WindowResult → Bool
is_missing w = of w (λ v. not v.found) false

abbrev pub is_evicted : Option WindowResult → Bool
is_evicted w = of w (λ v. v.range_evicted) false

abbrev pub has_bytes : Option WindowResult → Bool
has_bytes w = of w (λ v. ltb 0 (length v.bytes_b64)) false

-- `{ ...w, bytes_b64: got.bytes_b64, start_byte: got.start, range_evicted: false }`
abbrev pub serve_again : WindowResult → Pull → WindowResult
serve_again w p = record w { bytes_b64 = p.bytes; start_byte = p.start; range_evicted = false }

-- A round after its pull; none if the pull broke the call off.
pub after_pull : Round → Pulling → Option Round
after_pull r (got p t) = some (record r {
  held = of r.held (λ v. some (serve_again v p)) none;
  warnings = r.warnings ++ (served_again ∷ []);
  time = t;
})
after_pull r (timed_out t) = some (record r {
  poll_error = some pull_timed_out;
  warnings = r.warnings ++ (no_answer_to_pull ∷ []);
  time = t;
})
after_pull r broke = none

-- Why a round ends the loop before its deadline.
pub decide : Bool → Option WindowResult → Option ReturnedBecause
decide until_exit w =
    if is_done w && (until_exit || (has_bytes w || of w (λ v. v.eof) false))
    then some exit
    else if not until_exit && has_bytes w
    then some (if of w (λ v. v.truncated) false then output_cap else idle)
    else none

pub record Range : Type 0 where
  pub job_id : String
  pub from_byte : ℕ
  pub max_bytes : ℕ
  pub until_exit : Bool

-- A round whose window is evicted pulls, unless one did before; the rest is the loop.
pub pull_phase : World → String → ℕ → Round → Bool → Option (Option Round)
unfolding after_pull
pull_phase w req_id at r false = some (some r)
pull_phase w req_id at r true = elim (pull_range w req_id at pull_fuel r.time) [
  | none ↦ none
  | some p ↦ some (after_pull r p)
]

pub poll_loop :
    World
    → Range
    → String
    → ℕ
    → ℕ
    → PollClock
    → ℕ
    → Option WindowResult
    → Bool
    → List JobWarning
    → Option Polled
unfolding decide pull_phase
poll_loop w a req_id at zero clock t prev pulled warnings = none
poll_loop w a req_id at (suc n) clock t prev pulled warnings =
    let answer = probe w a.job_id a.from_byte a.max_bytes t in
    let held = or_else answer prev in
    let r : Round = record {
      held = held;
      poll_error = error_of answer;
      warnings = warnings;
      time = w.answered t;
    } in
    if is_missing held
    then some no_job
    else elim (pull_phase w req_id at r (is_evicted held && not pulled)) [
      | none ↦ none
      | some none ↦ some exception
      | some (some r') ↦
          let (clock', ms) = next clock in
          let (goes, t') = tick w at ms r'.time in
          let rest =
            poll_loop w a req_id at n clock' t' r'.held (pulled || is_evicted held) r'.warnings in
          elim (decide a.until_exit r'.held) [
            | some because ↦ some (
                seen
                  (record {
                    held = r'.held;
                    poll_error = r'.poll_error;
                    because = because;
                    time = r'.time;
                  })
                  r'.warnings)
            | none ↦
                if goes
                then rest
                else some (
                    seen
                      (record {
                        held = r'.held;
                        poll_error = r'.poll_error;
                        because = at_deadline r'.held;
                        time = t';
                      })
                      r'.warnings)
          ]
    ]

pub record PollArgs : Type 0 where
  pub job_id : String
  pub from_byte : Option Num
  pub max_bytes : Option Num
  pub wait_ms : Option Num
  pub until_exit : Bool

pub data PollJob : Type 0 where
  env_not_found bad_input threw : PollJob
  polled : JobResult → PollJob

pub range_of : PollArgs → Range
unfolding clamp num_arg
range_of args = record {
  job_id = args.job_id;
  from_byte = num_arg args.from_byte 0;
  max_bytes = clamp (num_arg args.max_bytes 65_536) 1024 max_window_bytes;
  until_exit = args.until_exit;
}

abbrev is_deadline : ReturnedBecause → Bool
is_deadline deadline = true
is_deadline _ = false

pub conclude : (List ℕ → Text) → Snapshot → Bool → Polled → PollJob
conclude decode snap until_exit no_job = bad_input
conclude decode snap until_exit exception = threw
conclude decode snap until_exit (seen s warnings) = polled (
    job_result decode
      (record {
        w = s.held;
        returned_because = s.because;
        poll_error = s.poll_error;
        given_warnings =
            if until_exit && is_deadline s.because
            then warnings ++ (still_waiting ∷ [])
            else warnings;
        deduped = false;
        queue_position = 0;
        queue_depth = snap.queue_depth;
        overlay_version = snap.overlay_version;
        runner_gone = ltb 120_000 (get_or_else snap.last_seen_ms_ago 0);
        sticky_cwd = snap.sticky_cwd;
      })
      s.time)

-- The snapshot is `snap`; the loop begins at `t`.
pub poll_job : World → (List ℕ → Text) → Snapshot → PollArgs → String → ℕ → ℕ → Option PollJob
unfolding poll_loop range_of conclude clamp num_arg
poll_job w decode snap args req_id t fuel = elim snap.env_id [
  | none ↦ some env_not_found
  | some id ↦
      elim (poll_loop w (range_of args) req_id
        (t + min (clamp (num_arg args.wait_ms 20_000) 0 45_000) soft_cap_ms) fuel
        (make_poll_clock window_poll_min_ms window_poll_max_ms) t none false
        (map low_disk snap.warnings)) [
          | none ↦ none
          | some p ↦ some (conclude decode snap args.until_exit p)
        ]
]
