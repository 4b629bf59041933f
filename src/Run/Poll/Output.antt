-- ===== src/Run/Poll/Output.antt =====
-- poll_job of broker/src/tools-run.ts: that it shows the output of its job.
use gha_mcp_host.Prelude.{
  ℕ, ◌-◌, ◌<◌, ◌≡◌, inl, inr, subst, take, drop, length, sym, false, String, List, [], Option, none,
  some,
}
use gha_mcp_host.EnvWindow.{WindowResult}
use gha_mcp_host.EnvDo.{Pull}
use gha_mcp_host.EnvDo.Ingest.Truth.{Truthful}
use gha_mcp_host.EnvDo.Reading.Faithful.{window-Faithful}
use gha_mcp_host.EnvDo.Control.{take_pull}
use gha_mcp_host.Result.{PollClock}
use gha_mcp_host.Result.Waits.{Runs}
use gha_mcp_host.Job.{of}
use gha_mcp_host.Run.{World, IsTimely}
use gha_mcp_host.Run.Poll.{Polled, no_job, exception, seen, Range, poll_loop}
use gha_mcp_host.Run.Poll.Shown.{IsShown, IsGood}
use gha_mcp_host.Run.Poll.Ends.{poll_loop-IsGood, polled_cases}

-- The bytes are the output's at the offset that the window names.
abbrev pub IsInPlace : List ℕ → ℕ → List ℕ → Type 0
IsInPlace out_raw start bytes = bytes ≡ take (length bytes) (drop start out_raw)

abbrev pub ShowsOutput : List ℕ → Polled → Type 0
ShowsOutput out_raw (seen s warnings) =
    of s.held (λ v. IsInPlace out_raw v.start_byte v.bytes_b64) (Unit {0})
ShowsOutput out_raw _ = Unit {0}

in_place :
    (w : World) (a : Range) (req_id : String) (out_raw : String → List ℕ)
    (held : Option WindowResult)
    → ((now : ℕ) → Truthful out_raw (w.env now))
    → ((now : ℕ) (p : Pull)
        → (take_pull (w.env now) req_id).1 ≡ some p
        → IsInPlace (out_raw a.job_id) p.start p.bytes)
    → IsShown w a req_id held
    → of held (λ v. IsInPlace (out_raw a.job_id) v.start_byte v.bytes_b64) (Unit {0})
in_place w a req_id out_raw none truthful answered ok = tt
in_place w a req_id out_raw (some v) truthful answered (now, inl same) =
    subst (λ (k : WindowResult). IsInPlace (out_raw a.job_id) k.start_byte k.bytes_b64) (sym same)
      (window-Faithful (w.env now) a.job_id a.from_byte a.max_bytes now out_raw (truthful now)).0
in_place w a req_id out_raw (some v) truthful answered (now, inr (p, t, taken, same)) =
    subst (λ (k : WindowResult). IsInPlace (out_raw a.job_id) k.start_byte k.bytes_b64) (sym same)
      (answered t p taken)

-- If the object's rings and tails are truthful at every time, and so is every answer that can be taken
-- under the request's id, then the loop of poll_job ends, and what it shows is the job's output at the
-- offset that it names, re-served or not.
pub poll_loop-ShowsOutput :
    (w : World) (a : Range) (req_id : String) (at fuel : ℕ) (clock : PollClock) (t : ℕ)
    (out_raw : String → List ℕ)
    → IsTimely w
    → Runs clock
    → at - t < fuel
    → ((now : ℕ) → Truthful out_raw (w.env now))
    → ((now : ℕ) (p : Pull)
        → (take_pull (w.env now) req_id).1 ≡ some p
        → IsInPlace (out_raw a.job_id) p.start p.bytes)
    → (p : Polled) × (poll_loop w a req_id at fuel clock t none false [] ≡ some p)
      × ShowsOutput (out_raw a.job_id) p
poll_loop-ShowsOutput w a req_id at fuel clock t out_raw timely runs enough truthful answered =
    let (p, same, ok) =
      polled_cases w a req_id at (poll_loop w a req_id at fuel clock t none false [])
        (poll_loop-IsGood w a req_id at fuel clock t none false [] timely runs enough tt) in
    (p, same, shows p ok)
  where
    shows : (p : Polled) → IsGood w a req_id at (some p) → ShowsOutput (out_raw a.job_id) p
    shows no_job ok = tt
    shows exception ok = tt
    shows (seen s warnings) (ok, _) = in_place w a req_id out_raw s.held truthful answered ok
