-- ===== src/Run/Foreground/Answers.antt =====
-- execute and start_command of broker/src/tools-run.ts, from the arguments to the answer.
use gha_mcp_host.Prelude.{
  ℕ, ◌≡◌, ◌↔◌, if◌then◌else◌, false, inl, inr, refl, Bool, true, String, some, Option-cases,
  Bool-cases,
}
use mathlib.Core.Option
use gha_mcp_host.Text.{codes}
use gha_mcp_host.Argv.{check_argv, render_argv}
use gha_mcp_host.Result.{clamp}
use gha_mcp_host.EnvDo.{Env}
use gha_mcp_host.EnvDo.Snapshot.{Snapshot}
use gha_mcp_host.Job.{platform_of, exit, still_queued}
use gha_mcp_host.Run.{World, probe}
use gha_mcp_host.Run.Submit.{num_arg, Submitted, Submit, refused, submitted, threw, submit}
use gha_mcp_host.Run.Submit.Admits.{IsAdmitted, submit-IsAdmitted}
use gha_mcp_host.Run.Foreground.{
  Seen, is_done, error_of, ExecuteArgs, Executed, bad_input, not_admitted, exception, result,
  Outside, submission, report, probe_once, start_command, max_window_bytes,
}
use gha_mcp_host.Run.Foreground.Ends.{IsObserved, Explains}

-- One call: its arguments, the snapshot and the object that it finds, and the two times of the queue.
pub record Call : Type 0 where
  pub env_id : String
  pub snap : Snapshot
  pub env : Env
  pub args : ExecuteArgs
  pub outside : Outside
  pub now : ℕ
  pub later : ℕ

abbrev pub Admitted : Call → ℕ → Env × Submit → Type 0
Admitted c window_ms =
    IsAdmitted (c.outside.payload (render_argv (platform_of (codes c.env_id)) c.args.command))
      c.snap c.env (submission c.args c.outside window_ms) c.outside.job_id c.now c.later

-- What an answer means: `P` says what was seen of the job.
abbrev pub IsAnswer : Call → ℕ → (Submitted → Seen → Type 0) → Env → Executed → Type 0
IsAnswer c window_ms P e (bad_input bad) = (check_argv c.args.command ≡ some bad) × (e ≡ c.env)
IsAnswer c window_ms P e (not_admitted r) = Admitted c window_ms (e, refused r)
IsAnswer c window_ms P e exception = Admitted c window_ms (e, threw)
IsAnswer c window_ms P e (result r) =
    (s : Submitted) × (seen : Seen) × (result r ≡ report c.outside s seen)
    × Admitted c window_ms (e, submitted s)
    × P s seen

abbrev pub max_bytes_of : ExecuteArgs → ℕ
max_bytes_of args = clamp (num_arg args.max_bytes 65536) 1024 max_window_bytes

-- What execute saw of its job by the deadline `at`.
abbrev pub SawUntil : World → ExecuteArgs → ℕ → Submitted → Seen → Type 0
SawUntil w args at s seen =
    IsObserved w s.job_id 0 (max_bytes_of args) seen.held × Explains w at seen seen.because

-- What start_command saw of its job.
abbrev pub SawOnce : World → ℕ → Submitted → Seen → Type 0
SawOnce w t s seen =
    IsObserved w s.job_id 0 1024 seen.held
    × ((seen.because ≡ exit) ↔ (is_done seen.held ≡ true))
    × (seen.time ≡ w.answered t)

saw_once :
    (w : World) (s : Submitted) (t : ℕ)
    → let held = probe w s.job_id 0 1024 t in
      let seen : Seen = record {
        held = held;
        poll_error = error_of held;
        because = if is_done held then exit else still_queued;
        time = w.answered t;
      } in
      SawOnce w t s seen
unfolding probe
saw_once w s t = (
  elim (Bool-cases (w.reachable t)) [
    | inl reached ↦ rw (reached) (t, refl)
    | inr missed ↦ rw (missed) tt
  ],
  by_state (is_done (probe w s.job_id 0 1024 t)),
  refl,
)
  where
    by_state : (b : Bool) → ((if b then exit else still_queued) ≡ exit) ↔ (b ≡ true)
    by_state true = ((λ h. refl), (λ h. refl))
    by_state false = ((λ h. cc h), (λ h. cc h))

probed :
    (w : World) (c : Call) (t : ℕ) (e : Env) (s : Submit)
    → Admitted c 60_000 (e, s)
    → IsAnswer c 60_000 (SawOnce w t) e (probe_once w c.outside t s)
unfolding probe_once
probed w c t e (refused r) ok = ok
probed w c t e threw ok = ok
probed w c t e (submitted s) ok = (s, _, refl, ok, saw_once w s t)

-- start_command answers in the same way, with what one probe saw: it says `exit` exactly if the job
-- had ended then.
pub start_command_lem :
    (w : World) (c : Call) (t : ℕ)
    → let (e, x) = start_command w c.env_id c.snap c.env c.args c.outside c.now c.later t in
      IsAnswer c 60_000 (SawOnce w t) e x
unfolding start_command
start_command_lem w c t = elim (Option-cases (check_argv c.args.command)) [
  | inr (bad, found) ↦ rw (found, start_command) (found, refl)
  | inl fine ↦
      let line = render_argv (platform_of (codes c.env_id)) c.args.command in
      let a = submission c.args c.outside 60_000 in
      let done = submit (c.outside.payload line) c.snap c.env a c.outside.job_id c.now c.later in
      rw (fine, start_command)
        (probed w c t done.0 done.1 (
          submit-IsAdmitted (c.outside.payload line) c.snap c.env a c.outside.job_id c.now c.later))
]
