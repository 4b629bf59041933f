-- ===== src/Job/Tests.antt =====
-- Results of concrete windows, and the theorems at such inputs.
use gha_mcp_host.Prelude.{ℕ, ◌≡◌, refl, true, false, List, [], ◌∷◌, none, some}
use gha_mcp_host.Text.{Text, codes}
use gha_mcp_host.Config.{linux, windows}
use gha_mcp_host.EnvSchema.{CmdState}
use gha_mcp_host.EnvWindow.{WindowResult}
use gha_mcp_host.Job.{
  id_prefix, new_env_id, starts_with, platform_of, deadline, exited, killed, lost, running,
  status_of, JobArgs, job_result, job_warnings, filled, state_of, idle_seconds_of, RenderedText,
  capped_output, skipped, given,
}
use gha_mcp_host.Job.Outcome.{Covers, job_result-Covers}

abbrev decode : List ℕ → Text
decode b = b

-- "a", a line end, "b", of a lost command.
abbrev lost_window : WindowResult
lost_window = record {
  found = true;
  state = some CmdState.lost;
  exit_code = none;
  runtime_ms = none;
  total_bytes = 5;
  bytes_written = none;
  last_output_at = some 7;
  started_at = none;
  cwd = none;
  shell = none;
  killed_reason = none;
  command_warnings = [] ∷ (120 ∷ []) ∷ [];
  bytes_b64 = 97 ∷ 10 ∷ 98 ∷ [];
  start_byte = 2;
  eof = true;
  truncated = false;
  range_evicted = false;
  available_from_byte = 0;
  head_discarded_bytes = 2;
  output_capped = true;
}

abbrev args : JobArgs
args = record {
  w = some lost_window;
  returned_because = deadline;
  poll_error = none;
  given_warnings = [];
  deduped = false;
  queue_position = 0;
  queue_depth = 0;
  overlay_version = 0;
  runner_gone = false;
  sticky_cwd = none;
}

abbrev whole : RenderedText
whole = record {
  text = 97 ∷ [];
  raw_bytes = 3;
  partial_line_dropped = false;
  forced_split = false;
  fully_consumed = true;
}

ids_run :
    (new_env_id windows (0 ∷ 33 ∷ []) ≡ codes "win-01")
    × (platform_of (codes "win-01") ≡ windows)
    × (platform_of (codes "x") ≡ linux)
unfolding new_env_id id_prefix platform_of starts_with
ids_run = (refl, refl, refl)

statuses :
    (status_of CmdState.queued ≡ running)
    × (status_of CmdState.exited ≡ exited)
    × (status_of CmdState.killed ≡ killed)
    × (status_of CmdState.lost ≡ lost)
unfolding status_of
statuses = (refl, refl, refl, refl)

warnings_run : job_warnings args whole 9 ≡ given (120 ∷ []) ∷ skipped 2 2 ∷ capped_output ∷ []
unfolding job_warnings filled state_of idle_seconds_of
warnings_run = refl

job_result-Covers_example : Covers decode lost_window (job_result decode args 9)
job_result-Covers_example = job_result-Covers decode args lost_window 9 refl
