-- ===== src/Run/Capture.antt =====
-- broker/src/tools-run.ts: runCapture, which runs a helper command and returns its whole output. Each
-- pull has an id of its own, by the offset that it asks for and the time of its request.
pub mod Pieces
pub mod Ends
pub mod Wait
mod Tests
use gha_mcp_host.Prelude.{
  ℕ, ℤ, zero, suc, ◌+◌, ◌==◌, min, Bool, true, false, String, List, [], ◌∷◌, ◌++◌, Option, none,
  some, ltb, length, if◌then◌else◌, or_else,
}
use gha_mcp_host.Text.{Text}
use gha_mcp_host.Result.{PollClock, make_poll_clock, next}
use gha_mcp_host.EnvSchema.{CmdState, lost, Num}
use gha_mcp_host.EnvWindow.{WindowResult}
use gha_mcp_host.EnvDo.{Env}
use gha_mcp_host.EnvDo.Snapshot.{Snapshot}
use gha_mcp_host.Job.{of}
use gha_mcp_host.Run.{World, probe, tick}
use gha_mcp_host.Run.Submit.{
  Refusal, Submission, Submitted, Submit, refused, submitted, threw, submit,
}
use gha_mcp_host.Run.Foreground.{
  is_done, soft_cap_ms, max_window_bytes, window_poll_min_ms, window_poll_max_ms,
}
use gha_mcp_host.Run.Pulling.{Pulling, got, timed_out, broke, pull_range}
use gha_mcp_host.Run.Poll.{serve_again, pull_fuel}

pub data Capture : Type 0 where
  not_admitted : Refusal → Capture
  exception not_accounted unread too_large : Capture
  unfinished : Option CmdState → Capture
  not_served : ℕ → Capture
  -- the text, the exit code, and whether the output stopped arriving before its end
  captured : Text → Option ℤ → Bool → Capture

-- The last window of a wait, whether the command has ended, and when.
pub record Waited : Type 0 where
  pub held : Option WindowResult
  pub ended : Bool
  pub time : ℕ

pub wait_for : World → String → ℕ → ℕ → PollClock → ℕ → Option WindowResult → Option Waited
wait_for w job_id at zero clock t prev = none
wait_for w job_id at (suc n) clock t prev =
    let held = or_else (probe w job_id 0 1024 t) prev in
    let (clock', ms) = next clock in
    let (goes, t') = tick w at ms (w.answered t) in
    let rest = wait_for w job_id at n clock' t' held in
    if is_done held
    then some (record { held = held; ended = true; time = w.answered t })
    else if goes
    then rest
    else some (record { held = held; ended = false; time = t' })

-- A window, with its range pulled if it is evicted, and when it is there.
pub data Chunk : Type 0 where
  whole : WindowResult → ℕ → Chunk
  late cut_off : Chunk

pub of_pull : WindowResult → Option Pulling → Option Chunk
of_pull v none = none
of_pull v (some (got p t)) = some (whole (serve_again v p) t)
of_pull v (some (timed_out t)) = some late
of_pull v (some broke) = some cut_off

pub chunk_of : World → String → ℕ → WindowResult → ℕ → Option Chunk
unfolding of_pull
chunk_of w req_id at v t =
    let pulled = of_pull v (pull_range w req_id at pull_fuel t) in
    if v.range_evicted then pulled else some (whole v t)

-- What does not change over the reads of one capture.
pub record Reads : Type 0 where
  pub job_id : String
  pub exit_code : Option ℤ
  pub max_chars : ℕ
  pub decode : List ℕ → Text
  pub req_id : ℕ → ℕ → String
  pub at : ℕ

pub read_loop : World → Reads → ℕ → ℕ → Text → ℕ → Option Capture
read_loop w c zero from text t = none
read_loop w c (suc n) from text t = elim (probe w c.job_id from max_window_bytes t) [
  | none ↦ some unread
  | some v ↦ elim (chunk_of w (c.req_id from t) c.at v (w.answered t)) [
    | none ↦ none
    | some late ↦ some (not_served from)
    | some cut_off ↦ some exception
    | some (whole v' t') ↦
        let size = length v'.bytes_b64 in
        let text' = text ++ c.decode v'.bytes_b64 in
        let (goes, t'') = tick w c.at 250 t' in
        let rest = read_loop w c n (v'.start_byte + size) text' (if size == 0 then t'' else t') in
        if ltb c.max_chars (length text')
        then some too_large
        else if v'.eof
        then some (captured text' c.exit_code false)
        else if size == 0
        then (if goes then rest else some (captured text' c.exit_code true))
        else rest
  ]
]

pub record CaptureArgs : Type 0 where
  pub timeout_s : Option Num
  pub deadline_ms : ℕ
  pub max_chars : ℕ
  pub label : Option String

-- What follows the wait.
after_wait :
    World
    → CaptureArgs
    → (List ℕ → Text)
    → (ℕ → ℕ → String)
    → String
    → ℕ
    → ℕ
    → Waited
    → Option Capture
unfolding read_loop
after_wait w a decode req_id job_id at fuel waited =
    let state = of waited.held (λ v. v.state) none in
    let reads =
      read_loop w
        (record {
          job_id = job_id;
          exit_code = of waited.held (λ v. v.exit_code) none;
          max_chars = a.max_chars;
          decode = decode;
          req_id = req_id;
          at = at;
        })
        fuel 0 [] waited.time in
    if waited.ended
    then elim state [ none ↦ reads | some lost ↦ some not_accounted | some _ ↦ reads ]
    else some (unfinished state)

after_submit :
    World → CaptureArgs → (List ℕ → Text) → (ℕ → ℕ → String) → ℕ → ℕ → Submit → Option Capture
unfolding wait_for after_wait
after_submit w a decode req_id fuel t (refused r) = some (not_admitted r)
after_submit w a decode req_id fuel t threw = some exception
after_submit w a decode req_id fuel t (submitted s) =
    let at = t + min a.deadline_ms soft_cap_ms in
    elim (wait_for w s.job_id at fuel (make_poll_clock window_poll_min_ms window_poll_max_ms) t
      none) [ none ↦ none | some waited ↦ after_wait w a decode req_id s.job_id at fuel waited ]

-- The snapshot is `snap`, the queue's object `e`; the wait begins at `t`.
pub run_capture :
    World
    → (ℕ → String)
    → Snapshot
    → Env
    → CaptureArgs
    → (List ℕ → Text)
    → (ℕ → ℕ → String)
    → String
    → String
    → ℕ
    → ℕ
    → ℕ
    → ℕ
    → Env × Option Capture
unfolding after_submit
run_capture w payload snap e a decode req_id job_id seed_hash now later t fuel =
    let (e', s) =
      submit payload snap e
        (record {
          timeout_s_raw = a.timeout_s;
          allow_duplicate = true;
          label = a.label;
          cwd = none;
          idem_window_ms = a.deadline_ms + 60_000;
          seed_hash = seed_hash;
        })
        job_id now later in
    (e', after_submit w a decode req_id fuel t s)
