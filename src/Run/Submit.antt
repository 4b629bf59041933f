-- ===== src/Run/Submit.antt =====
-- broker/src/tools-run.ts: ensureReady and enqueueCommand. The seed's hash, the random id and the
-- JSON text of the payload, given its timeout, are arguments. A number that arrives is an integer, or
-- not finite.
pub mod Admits
use Prim.Native.String.{◌++◌}
use gha_mcp_host.Prelude.{
  ℕ, ℤ, pos_part, ◌+◌, ◌-◌, max, Bool, true, false, String, List, Option, none, some, ltb,
  if◌then◌else◌, get_or_else,
}
use mathlib.Core.List
use mathlib.Core.List.{[], ◌∷◌}
use gha_mcp_host.Text.{Text}
use gha_mcp_host.Result.{clamp, CommonTail, fail}
use gha_mcp_host.Job.{JobWarning, deduplicated, low_disk, clamped_timeout}
use gha_mcp_host.EnvSchema.{EnvState, provisioning, ready, expired, FailureReason, Num, num_or}
use gha_mcp_host.EnvDo.{Env}
use gha_mcp_host.EnvDo.Snapshot.{Snapshot}
use gha_mcp_host.EnvDo.Queue.{
  Request, Enqueued, EnqueueResult, accepted, queue_full, conflict, enqueue,
}

pub data Refusal : Type 0 where
  no_environment not_enrolled : Refusal
  environment_is : EnvState → Option FailureReason → Refusal
  busy : ℕ → ℕ → Refusal

-- The payload of a refusal, as far as a caller branches on it.
pub verdict_of : Refusal → CommonTail
verdict_of no_environment = fail "env_not_found" none none
verdict_of not_enrolled = fail "enroll_race" none (some 3000)
verdict_of (environment_is expired reason) = fail "env_expired" none none
verdict_of (environment_is _ reason) = fail "env_not_found" none none
verdict_of (busy depth limit) = fail "runner_busy_queue_full" none (some 2000)

state_refusal : EnvState → Option FailureReason → Option Refusal
state_refusal provisioning reason = some not_enrolled
state_refusal ready reason = none
state_refusal s reason = some (environment_is s reason)

pub ensure_ready : Snapshot → Option Refusal
unfolding state_refusal
ensure_ready snap = elim snap.env_id [
  | none ↦ some no_environment
  | some id ↦ state_refusal snap.state snap.failure_reason
]

-- `numArg`, for a value that is clamped to a range of positive numbers afterwards.
unfoldable pub num_arg : Option Num → ℕ → ℕ
num_arg v d = elim (num_or v none) [ none ↦ d | some z ↦ pos_part z ]

-- The timeout that is sent, and what the caller is told of it.
pub timeout_of : Option Num → ℕ → ℕ × List JobWarning
unfolding num_arg clamp
timeout_of raw ttl_remaining_s =
    let wanted = clamp (num_arg raw 3600) 1 21600 in
    let clamped = max 1 (ttl_remaining_s - 30) in
    if ltb (ttl_remaining_s - 30) wanted
    then (clamped, clamped_timeout wanted clamped ttl_remaining_s ∷ [])
    else (wanted, [])

pub record Submission : Type 0 where
  pub timeout_s_raw : Option Num
  pub allow_duplicate : Bool
  pub label : Option String
  pub cwd : Option String
  pub idem_window_ms : ℕ
  pub seed_hash : String

pub record Submitted : Type 0 where
  pub job_id : String
  pub snap : Snapshot
  pub enq : Enqueued
  pub warnings : List JobWarning

pub data Submit : Type 0 where
  refused : Refusal → Submit
  submitted : Submitted → Submit
  threw : Submit

pub request_of : (ℕ → String) → Submission → String → ℕ → Request
request_of payload a job_id timeout_s = record {
  command_id = job_id;
  idem_hash = if a.allow_duplicate then "nodedupe:" ++ job_id else a.seed_hash;
  payload = payload timeout_s;
  label = a.label;
  cwd = a.cwd;
  shell = none;
  max_queue = 8;
  idem_window_ms = a.idem_window_ms;
}

abbrev dedupe_warning : Bool → List JobWarning
dedupe_warning true = deduplicated ∷ []
dedupe_warning false = []

conclude : Snapshot → List JobWarning → EnqueueResult → Submit
conclude snap warnings (accepted x) = submitted (record {
  job_id = x.command_id;
  snap = snap;
  enq = x;
  warnings = List.◌++◌ warnings (dedupe_warning x.deduped);
})
conclude snap warnings (queue_full depth limit) = refused (busy depth limit)
conclude snap warnings conflict = threw

-- `snap` is what the first call answered, `e` the object when the second one reaches it.
pub submit : (ℕ → String) → Snapshot → Env → Submission → String → ℕ → ℕ → Env × Submit
unfolding conclude timeout_of
submit payload snap e a job_id now later = elim (ensure_ready snap) [
  | some r ↦ (e, refused r)
  | none ↦
      let (timeout_s, clamp_warning) = timeout_of a.timeout_s_raw snap.ttl_remaining_s in
      let (e', answer) = enqueue e (request_of payload a job_id timeout_s) now later in
      (e', conclude snap (List.◌++◌ (List.map low_disk snap.warnings) clamp_warning) answer)
]
