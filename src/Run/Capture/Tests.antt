-- ===== src/Run/Capture/Tests.antt =====
-- Captures in concrete worlds, and the theorem at such an input.
use gha_mcp_host.Prelude.{◌≡◌, refl, true, false, none, some}
use gha_mcp_host.EnvDo.Samples.{with_row}
use gha_mcp_host.Run.Samples.{steady, snap}
use gha_mcp_host.Run.Capture.{
  Reads, CaptureArgs, run_capture, after_submit, after_wait, exception, unfinished,
}
use gha_mcp_host.Run.Submit.{Submission, threw, submit}

abbrev reads : Reads
reads = record {
  job_id = "c";
  exit_code = none;
  max_chars = 100;
  decode = λ b. b;
  req_id = λ f t. "r";
  at = 1_000;
}

abbrev args : CaptureArgs
args = record { timeout_s = none; deadline_ms = 9_000; max_chars = 100; label = none }

-- A submission that throws, and a wait that is over too early, read nothing.
after_runs :
    (after_submit steady args (λ b. b) (λ f t. "r") 9 0 threw ≡ some exception)
    × (after_wait steady args
          (λ b. b)
          (λ f t. "r")
          "c"
          9_000
          9
          (record { held = none; ended = false; time = 9_000 })
        ≡ some (unfinished none))
unfolding after_submit after_wait
after_runs = (refl, refl)

abbrev request : Submission
request = record {
  timeout_s_raw = none;
  allow_duplicate = true;
  label = none;
  cwd = none;
  idem_window_ms = 69_000;
  seed_hash = "h";
}

-- A capture leaves the queue as its submission does.
run_runs :
    (run_capture steady (λ t. "p") snap with_row args (λ b. b) (λ f t. "r") "j" "h" 5 6 7 9).0
    ≡ (submit (λ t. "p") snap with_row request "j" 5 6).0
unfolding run_capture
run_runs = refl
