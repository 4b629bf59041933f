-- ===== src/Run/Stop.antt =====
-- broker/src/tools-run.ts: the handler of stop_job. The object answers the call of killCommand: where it
-- fails, the handler throws, which is not modelled. A probe may fail.
pub mod Ends
use gha_mcp_host.Prelude.{
  ℤ, ℕ, zero, suc, ◌+◌, Bool, true, false, not, ◌&&◌, String, List, [], ◌∷◌, Option, none, some,
  if◌then◌else◌, get_or_else, is_some, or_else, str_eq,
}
use mathlib.Core.Option
use gha_mcp_host.Result.{CommonTail, ok, PollClock, make_poll_clock, next}
use gha_mcp_host.EnvSchema.{CmdState, is_terminal}
use gha_mcp_host.EnvDo.{Env, Signal, term}
use gha_mcp_host.EnvDo.Control.{kill_command}
use gha_mcp_host.Job.{of}
use gha_mcp_host.Run.{World, probe, tick}
use gha_mcp_host.Run.Foreground.{window_poll_max_ms}

-- What the loop knows of the job, and when it ends.
pub record Told : Type 0 where
  pub state : Option CmdState
  pub exit_code : Option ℤ
  pub time : ℕ

abbrev pub is_over : Option CmdState → Bool
is_over none = false
is_over (some s) = is_terminal s

pub stop_loop : World → String → ℕ → ℕ → PollClock → ℕ → Option CmdState → Option ℤ → Option Told
stop_loop w job_id at zero clock t state exit_code = none
stop_loop w job_id at (suc n) clock t state exit_code =
    let r = probe w job_id 0 1024 t in
    let state' = or_else (of r (λ v. v.state) none) state in
    let exit_code' = or_else (of r (λ v. v.exit_code) none) exit_code in
    let (clock', ms) = next clock in
    let (goes, t') = tick w at ms (w.answered t) in
    let rest = stop_loop w job_id at n clock' t' state' exit_code' in
    if is_over state'
    then some (record { state = state'; exit_code = exit_code'; time = w.answered t })
    else if goes
    then rest
    else some (record { state = state'; exit_code = exit_code'; time = t' })

-- What `next_action` names: a job to read, or the environment.
pub data NextCall : Type 0 where
  read_job : String → NextCall
  read_env : NextCall

pub record StopJob : Type 0 where
  pub killed : List String
  pub state : CmdState
  pub exit_code : Option ℤ
  pub signal : Signal
  -- the warning that the job has not reported its end
  pub is_unconfirmed : Bool
  pub next_action : NextCall
  pub verdict : CommonTail

next_of : Option String → NextCall
next_of none = read_env
next_of (some id) = if str_eq id "" then read_env else read_job id

-- `readId`, and the call that it leads to.
next_call : String → List String → NextCall
unfolding next_of
next_call job_id killed =
    let first : Option String = elim killed [ [] ↦ none | id ∷ ids ↦ some id ] in
    next_of (if str_eq job_id "all" then first else some job_id)

pub conclude : String → List String → Signal → Told → StopJob
unfolding next_call
conclude job_id killed signal told = record {
  killed = killed;
  state = get_or_else told.state CmdState.killed;
  exit_code = told.exit_code;
  signal = signal;
  is_unconfirmed = is_some told.state && not (is_over told.state) && not (str_eq job_id "all");
  next_action = next_call job_id killed;
  verdict = ok none none;
}

pub stop_one : World → String → List String → Signal → ℕ → ℕ → Option StopJob
unfolding stop_loop conclude
stop_one w job_id killed signal t fuel =
    Option.map (conclude job_id killed signal)
      (stop_loop w job_id (t + 12_000) fuel (make_poll_clock 300 window_poll_max_ms) t none none)

-- killCommand finds the object `e`; the loop begins at `t`.
pub stop_job : World → Env → String → Option Signal → ℕ → ℕ → Env × Option StopJob
unfolding stop_one
stop_job w e job_id given t fuel =
    let signal = get_or_else given term in
    let (e', killed) = kill_command e job_id signal in
    let all = conclude job_id killed signal (record { state = none; exit_code = none; time = t }) in
    (e', if str_eq job_id "all" then some all else stop_one w job_id killed signal t fuel)
