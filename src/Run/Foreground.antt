-- ===== src/Run/Foreground.antt =====
-- broker/src/tools-run.ts: the handlers of execute (and of without_sandbox, its alias) and
-- start_command. The object answers the calls of snapshot and enqueue: where one of these fails, the
-- handler throws, which is not modelled. A probe may fail.
pub mod Ends
pub mod Answers
use gha_mcp_host.Prelude.{
  ℕ, zero, suc, ◌+◌, min, Bool, true, false, String, List, [], Option, none, some, ltb,
  if◌then◌else◌, get_or_else, or_else,
}
use mathlib.Core.Option
use gha_mcp_host.Text.{Text, codes}
use gha_mcp_host.Argv.{ArgvError, check_argv, render_argv}
use gha_mcp_host.Result.{clamp, PollClock, make_poll_clock, next}
use gha_mcp_host.EnvSchema.{CmdState, is_terminal, Num}
use gha_mcp_host.EnvWindow.{WindowResult}
use gha_mcp_host.EnvDo.{Env}
use gha_mcp_host.EnvDo.Snapshot.{Snapshot}
use gha_mcp_host.Job.{
  PollError, do_unavailable, ReturnedBecause, exit, deadline, output_cap, still_queued, JobResult,
  platform_of, of, state_of, job_result,
}
use gha_mcp_host.Run.{World, probe, tick}
use gha_mcp_host.Run.Submit.{
  Refusal, num_arg, Submission, Submitted, Submit, refused, submitted, threw, submit,
}

abbrev pub window_poll_min_ms : ℕ
window_poll_min_ms = 200

abbrev pub window_poll_max_ms : ℕ
window_poll_max_ms = 2_000

abbrev pub foreground_wait_ms : ℕ
foreground_wait_ms = 30_000

abbrev pub soft_cap_ms : ℕ
soft_cap_ms = 45_000

abbrev pub max_window_bytes : ℕ
max_window_bytes = 262_144

-- What a polling loop ends with, and when.
pub record Seen : Type 0 where
  pub held : Option WindowResult
  pub poll_error : Option PollError
  pub because : ReturnedBecause
  pub time : ℕ

abbrev pub is_done : Option WindowResult → Bool
is_done w = of w (λ v. elim v.state [ none ↦ false | some s ↦ is_terminal s ]) false

abbrev pub error_of : Option WindowResult → Option PollError
error_of none = some do_unavailable
error_of (some w) = none

abbrev pub is_queued : Option CmdState → Bool
is_queued (some CmdState.queued) = true
is_queued _ = false

-- Why a loop ends whose deadline is over.
abbrev pub at_deadline : Option WindowResult → ReturnedBecause
at_deadline w = if is_queued (of w (λ v. v.state) none) then still_queued else deadline

-- The loop of execute, with the rounds left, the clock, the time, and the window held so far.
pub exec_loop : World → String → ℕ → ℕ → ℕ → PollClock → ℕ → Option WindowResult → Option Seen
exec_loop w job_id max_bytes at zero clock t prev = none
exec_loop w job_id max_bytes at (suc n) clock t prev =
    let seen = probe w job_id 0 max_bytes t in
    let held = or_else seen prev in
    let (clock', ms) = next clock in
    let (goes, t') = tick w at ms (w.answered t) in
    let rest = exec_loop w job_id max_bytes at n clock' t' held in
    if is_done held
    then some
        (record { held = held; poll_error = error_of seen; because = exit; time = w.answered t })
    else if of held (λ v. v.truncated) false
    then some (record {
      held = held;
      poll_error = error_of seen;
      because = output_cap;
      time = w.answered t;
    })
    else if goes
    then rest
    else some
        (record { held = held; poll_error = error_of seen; because = at_deadline held; time = t' })

-- `label` is the text that is stored: cut to 64, and where none is given that of describeArgv.
pub record ExecuteArgs : Type 0 where
  pub command : List Text
  pub wait_ms : Option Num
  pub max_bytes : Option Num
  pub timeout_s : Option Num
  pub allow_duplicate : Bool
  pub label : Option String
  pub cwd : Option String

pub data Executed : Type 0 where
  bad_input : ArgvError → Executed
  not_admitted : Refusal → Executed
  exception : Executed
  result : JobResult → Executed

-- The outside of one call: the JSON text of the payload for a command line and a timeout, the seed's
-- hash, the random id, and the decoder.
pub record Outside : Type 0 where
  pub payload : Text → ℕ → String
  pub seed_hash : String
  pub job_id : String
  pub decode : List ℕ → Text

pub wait_of : ExecuteArgs → ℕ
unfolding clamp num_arg
wait_of args = clamp (num_arg args.wait_ms foreground_wait_ms) 1000 45000

abbrev pub submission : ExecuteArgs → Outside → ℕ → Submission
submission args o window_ms = record {
  timeout_s_raw = args.timeout_s;
  allow_duplicate = args.allow_duplicate;
  label = args.label;
  cwd = args.cwd;
  idem_window_ms = window_ms;
  seed_hash = o.seed_hash;
}

-- `jobResult` on what the loop saw.
abbrev pub report : Outside → Submitted → Seen → Executed
report o s seen = result (
    job_result o.decode
      (record {
        w = seen.held;
        returned_because = seen.because;
        poll_error = seen.poll_error;
        given_warnings = s.warnings;
        deduped = s.enq.deduped;
        queue_position = s.enq.queue_position;
        queue_depth = s.enq.queue_depth;
        overlay_version = s.enq.overlay_version;
        runner_gone = ltb 120_000 (get_or_else s.snap.last_seen_ms_ago 0);
        sticky_cwd = s.snap.sticky_cwd;
      })
      seen.time)

follow_up : World → ExecuteArgs → Outside → ℕ → ℕ → Submit → Option Executed
unfolding wait_of
follow_up w args o fuel t (refused r) = some (not_admitted r)
follow_up w args o fuel t threw = some exception
follow_up w args o fuel t (submitted s) = Option.map (report o s) (
    exec_loop w s.job_id (clamp (num_arg args.max_bytes 65536) 1024 max_window_bytes)
      (t + min (wait_of args) soft_cap_ms) fuel
      (make_poll_clock window_poll_min_ms window_poll_max_ms) t none)

-- The snapshot is `snap`, the queue's object `e`; the loop begins at `t`.
pub execute :
    World → String → Snapshot → Env → ExecuteArgs → Outside → ℕ → ℕ → ℕ → ℕ → Env × Option Executed
unfolding follow_up
execute w env_id snap e args o now later t fuel = elim (check_argv args.command) [
  | some bad ↦ (e, some (bad_input bad))
  | none ↦
      let line = render_argv (platform_of (codes env_id)) args.command in
      let (e', s) =
        submit (o.payload line) snap e (submission args o (wait_of args + 60_000)) o.job_id now
          later in
      (e', follow_up w args o fuel t s)
]

probe_once : World → Outside → ℕ → Submit → Executed
probe_once w o t (refused r) = not_admitted r
probe_once w o t threw = exception
probe_once w o t (submitted s) =
    let seen = probe w s.job_id 0 1024 t in
    report o s (record {
      held = seen;
      poll_error = error_of seen;
      because = if is_done seen then exit else still_queued;
      time = w.answered t;
    })

-- start_command: one probe and no wait.
pub start_command :
    World → String → Snapshot → Env → ExecuteArgs → Outside → ℕ → ℕ → ℕ → Env × Executed
unfolding probe_once
start_command w env_id snap e args o now later t = elim (check_argv args.command) [
  | some bad ↦ (e, bad_input bad)
  | none ↦
      let line = render_argv (platform_of (codes env_id)) args.command in
      let (e', s) = submit (o.payload line) snap e (submission args o 60_000) o.job_id now later in
      (e', probe_once w o t s)
]
