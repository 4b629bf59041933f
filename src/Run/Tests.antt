-- ===== src/Run/Tests.antt =====
-- Loops in concrete worlds, and the theorems at such inputs.
use gha_mcp_host.Prelude.{arith, ◌+◌, ◌*◌, ◌≡◌, ◌≤◌, sym, ap, ◌∙◌, true, false, [], ◌∷◌, none, some}
use gha_mcp_host.Text.{codes}
use gha_mcp_host.Result.{PollClock, make_poll_clock}
use gha_mcp_host.Result.Waits.{make_poll_clock-Runs}
use gha_mcp_host.EnvDo.{Pull}
use gha_mcp_host.EnvDo.Control.{take_pull}
use gha_mcp_host.EnvDo.Samples.{with_row, output, with_row-Truthful, with_row_pulls}
use gha_mcp_host.Run.Samples.{steady, steady-IsTimely, steady-IsPrompt, snap}
use gha_mcp_host.Run.Submit.{Submission, submit}
use gha_mcp_host.Run.Submit.Admits.{IsAdmitted, submit-IsAdmitted}
use gha_mcp_host.Run.Foreground.{Seen, exec_loop, ExecuteArgs, Outside}
use gha_mcp_host.Run.Foreground.Answers.{Call}
use gha_mcp_host.Run.Foreground.Ends.{exec_loop_ends}
use gha_mcp_host.EnvDo.Control.Pulls.{nothing_to_take}
use gha_mcp_host.Run.Poll.{Range, PollArgs, Polled, poll_loop}
use gha_mcp_host.Run.Poll.Output.{IsInPlace, ShowsOutput, poll_loop-ShowsOutput}

abbrev clock : PollClock
clock = make_poll_clock 200 2_000

abbrev no_command : ExecuteArgs
no_command = record {
  command = [];
  wait_ms = none;
  max_bytes = none;
  timeout_s = none;
  allow_duplicate = false;
  label = none;
  cwd = none;
}

abbrev outside : Outside
outside = record { payload = λ line t. "p"; seed_hash = "h"; job_id = "j"; decode = λ b. b }

abbrev call : Call
call = record {
  env_id = "linux-1";
  snap = snap;
  env = with_row;
  args = record no_command { command = codes "true" ∷ [] };
  outside = outside;
  now = 0;
  later = 0;
}

abbrev submission : Submission
submission = record {
  timeout_s_raw = none;
  allow_duplicate = false;
  label = none;
  cwd = none;
  idem_window_ms = 60_000;
  seed_hash = "g";
}

submit-IsAdmitted_example :
    IsAdmitted
      (λ t. "p")
      snap
      with_row
      submission
      "j"
      6
      7
      (submit (λ t. "p") snap with_row submission "j" 6 7)
submit-IsAdmitted_example = submit-IsAdmitted (λ t. "p") snap with_row submission "j" 6 7

exec_loop_ends_example :
    (s : Seen) × (exec_loop steady "c" 1024 1_000 2_000 clock 0 none ≡ some s)
    × (s.time ≤ 1_000 + 2 * 5)
exec_loop_ends_example =
    exec_loop_ends steady "c" 1024 1_000 2_000 0 5 clock steady-IsTimely steady-IsPrompt
      (make_poll_clock-Runs 200 2_000) (omega arith) (omega arith)

abbrev range : Range
range = record { job_id = "c"; from_byte = 0; max_bytes = 1024; until_exit = false }

nothing_taken :
    (p : Pull) → (take_pull with_row "r").1 ≡ some p → IsInPlace (output "c") p.start p.bytes
nothing_taken p h = cc (sym (ap (λ r. r.1) (nothing_to_take with_row "r" (with_row_pulls "r"))) ∙ h)

poll_loop-ShowsOutput_example :
    (p : Polled) × (poll_loop steady range "r" 1_000 2_000 clock 0 none false [] ≡ some p)
    × ShowsOutput (output "c") p
poll_loop-ShowsOutput_example =
    poll_loop-ShowsOutput steady range "r" 1_000 2_000 clock 0 output steady-IsTimely
      (make_poll_clock-Runs 200 2_000) (omega arith) (λ now. with_row-Truthful)
      (λ now p h. nothing_taken p h)

abbrev poll_args : PollArgs
poll_args = record {
  job_id = "c";
  from_byte = none;
  max_bytes = none;
  wait_ms = none;
  until_exit = true;
}
