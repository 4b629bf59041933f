-- ===== src/Job.antt =====
-- broker/src/tools-shared.ts: what the tools have in common, above all the result of a job.
-- The texts of warnings and hints are constructors with the values that they quote. `decode` is the
-- platform's TextDecoder; no caller passes a redactor.
pub mod Ids
pub mod Outcome
mod Tests
use gha_mcp_host.Prelude.{
  ℕ, ℤ, ◌+◌, ◌-◌, ◌/◌, ◌%◌, Bool, true, false, not, ◌&&◌, String, List, [], ◌∷◌, ◌++◌, map, Option,
  none, some, ltb, leb, ◌==◌, if◌then◌else◌, get_or_else, or_else, length, get_or, is_some,
}
use mathlib.Core.Option
use gha_mcp_host.Text.{Text, codes}
use gha_mcp_host.Config.{Platform, linux, macos, windows}
use gha_mcp_host.Bytes.Render.{render_window}
use gha_mcp_host.KillReason.{KilledReason}
use gha_mcp_host.EnvSchema.{CmdState, is_terminal}
use gha_mcp_host.EnvWindow.{WindowResult}
use gha_mcp_host.Result.{OnError, reexecute_unsafe, CommonTail, ok}

abbrev pub base32 : Text
base32 = codes "0123456789abcdefghjkmnpqrstvwxyz"

-- ID_PREFIX
pub id_prefix : Platform → Text
id_prefix linux = codes "linux"
id_prefix macos = codes "mac"
id_prefix windows = codes "win"

-- The random bytes are an argument.
pub new_env_id : Platform → List ℕ → Text
unfolding id_prefix
new_env_id p raw = id_prefix p ++ (codes "-" ++ map (λ b. get_or base32 (b % 32) 0) raw)

unfoldable pub starts_with : Text → Text → Bool
starts_with [] s = true
starts_with (p ∷ ps) [] = false
starts_with (p ∷ ps) (c ∷ cs) = p == c && starts_with ps cs

pub platform_of : Text → Platform
unfolding starts_with
platform_of env_id =
    if starts_with (codes "mac-") env_id
    then macos
    else if starts_with (codes "win-") env_id
    then windows
    else linux

-- `tryCall`: a call that fails is a poll_error, whose code is always do_unavailable.
pub data PollError : Type 0 where
  do_unavailable pull_timed_out : PollError

pub data ReturnedBecause : Type 0 where
  exit idle deadline output_cap still_queued : ReturnedBecause

pub data JobStatus : Type 0 where
  running exited killed lost : JobStatus

pub status_of : CmdState → JobStatus
status_of CmdState.exited = exited
status_of CmdState.killed = killed
status_of CmdState.lost = lost
status_of _ = running

pub record RenderedText : Type 0 where
  pub text : Text
  pub raw_bytes : ℕ
  pub partial_line_dropped : Bool
  pub forced_split : Bool
  pub fully_consumed : Bool

pub render_text : (List ℕ → Text) → List ℕ → Bool → RenderedText
render_text decode raw eof =
    let rendered = render_window decode (λ s. s) raw eof in
    record {
      text = rendered.text;
      raw_bytes = rendered.raw_bytes;
      partial_line_dropped = rendered.partial_line_dropped;
      forced_split = rendered.forced_split;
      fully_consumed = leb (length raw) rendered.raw_bytes;
    }

pub data JobWarning : Type 0 where
  given : Text → JobWarning
  partial_line split_escape capped_output : JobWarning
  not_buffered_before silent_for : ℕ → JobWarning
  skipped : ℕ → ℕ → JobWarning
  deduplicated : JobWarning
  low_disk : ℤ → JobWarning
  clamped_timeout : ℕ → ℕ → ℕ → JobWarning
  served_again no_answer_to_pull still_waiting : JobWarning

pub data Hint : Type 0 where
  unaccounted : Hint
  queued_behind : ℕ → Hint
  resume unread : Hint

-- The `poll_job` call that `next_action` spells out, with its offset and what it waits for.
pub data NextAction : Type 0 where
  read_from wait_output wait_exit : ℕ → NextAction

pub record JobArgs : Type 0 where
  pub w : Option WindowResult
  pub returned_because : ReturnedBecause
  pub poll_error : Option PollError
  pub given_warnings : List JobWarning
  pub deduped : Bool
  pub queue_position : ℕ
  pub queue_depth : ℕ
  pub overlay_version : ℕ
  pub runner_gone : Bool
  pub sticky_cwd : Option String

pub record JobResult : Type 0 where
  pub status : JobStatus
  pub state : CmdState
  pub returned_because : ReturnedBecause
  pub exit_code : Option ℤ
  pub runtime_ms : Option ℤ
  pub idle_seconds : ℕ
  pub cwd : Option String
  pub output : Text
  pub start_byte : ℕ
  pub next_byte : ℕ
  pub bytes_returned : ℕ
  pub total_bytes : ℕ
  pub bytes_written : ℕ
  pub head_discarded_bytes : ℕ
  pub eof : Bool
  pub partial_line_dropped : Bool
  pub forced_split : Bool
  pub output_capped : Bool
  pub truncated : Bool
  pub runner_gone : Bool
  pub range_evicted : Bool
  pub available_from_byte : ℕ
  pub killed_reason : Option KilledReason
  pub poll_error : Option PollError
  pub deduped : Bool
  pub queue_position : ℕ
  pub queue_depth : ℕ
  pub overlay_version : ℕ
  pub warnings : List JobWarning
  pub hint : Option Hint
  pub next_action : Option NextAction
  pub verdict : CommonTail

abbrev pub of {ℓ} : {A : Type ℓ} → Option WindowResult → (WindowResult → A) → A → A
of none f d = d
of (some w) f d = f w

pub state_of : Option WindowResult → CmdState
state_of w = get_or_else (of w (λ v. v.state) none) CmdState.queued

pub idle_seconds_of : Option WindowResult → ℕ → ℕ
idle_seconds_of w now = elim (of w (λ v. v.last_output_at) none) [
  | none ↦ 0
  | some t ↦ (now - t) / 1000
]

abbrev when {ℓ} : {A : Type ℓ} → Bool → A → List A
when true x = x ∷ []
when false x = []

filled : List Text → List JobWarning
filled [] = []
filled ([] ∷ ts) = filled ts
filled ((c ∷ cs) ∷ ts) = given (c ∷ cs) ∷ filled ts

job_warnings : JobArgs → RenderedText → ℕ → List JobWarning
unfolding filled state_of idle_seconds_of
job_warnings a rendered now =
    let start_byte = of a.w (λ v. v.start_byte) 0 in
    let discarded = of a.w (λ v. v.head_discarded_bytes) 0 in
    let idle = idle_seconds_of a.w now in
    a.given_warnings
    ++ (filled (of a.w (λ v. v.command_warnings) [])
        ++ (when rendered.partial_line_dropped partial_line
            ++ (when rendered.forced_split split_escape
                ++ (when (of a.w (λ v. v.range_evicted) false)
                      (not_buffered_before (of a.w (λ v. v.available_from_byte) 0))
                    ++ (when (ltb 0 discarded) (skipped discarded start_byte)
                        ++ (when (of a.w (λ v. v.output_capped) false) capped_output
                            ++ when (not (is_terminal (state_of a.w)) && leb 300 idle)
                                (silent_for idle)))))))

-- Hint and next action, by the state and whether the output has been read to its end.
advice : CmdState → ℕ → ℕ → Bool → Option Hint × Option NextAction
advice CmdState.lost position next_byte eof = (some unaccounted, some (read_from 0))
advice CmdState.queued position next_byte eof =
    (some (queued_behind position), some (wait_output 0))
advice CmdState.running position next_byte eof = (some resume, some (wait_exit next_byte))
advice _ position next_byte true = (none, none)
advice _ position next_byte false = (some unread, some (read_from next_byte))

on_error_of : CmdState → Option OnError
on_error_of CmdState.lost = some reexecute_unsafe
on_error_of _ = none

pub job_result : (List ℕ → Text) → JobArgs → ℕ → JobResult
unfolding state_of job_warnings advice on_error_of
job_result decode a now =
    let state = state_of a.w in
    let start_byte = of a.w (λ v. v.start_byte) 0 in
    let w_eof = of a.w (λ v. v.eof) false in
    let rendered = render_text decode (of a.w (λ v. v.bytes_b64) []) w_eof in
    let next_byte = start_byte + rendered.raw_bytes in
    let eof = w_eof && rendered.fully_consumed in
    let total = of a.w (λ v. v.total_bytes) 0 in
    let (hint, next_action) = advice state a.queue_position next_byte eof in
    record {
      status = status_of state;
      state = state;
      returned_because = a.returned_because;
      exit_code = of a.w (λ v. v.exit_code) none;
      runtime_ms = of a.w (λ v. v.runtime_ms) none;
      idle_seconds = idle_seconds_of a.w now;
      cwd = or_else (of a.w (λ v. v.cwd) none) a.sticky_cwd;
      output = rendered.text;
      start_byte = start_byte;
      next_byte = next_byte;
      bytes_returned = rendered.raw_bytes;
      total_bytes = total;
      bytes_written = get_or_else (of a.w (λ v. v.bytes_written) none) total;
      head_discarded_bytes = of a.w (λ v. v.head_discarded_bytes) 0;
      eof = eof;
      partial_line_dropped = rendered.partial_line_dropped;
      forced_split = rendered.forced_split;
      output_capped = of a.w (λ v. v.output_capped) false;
      truncated = of a.w (λ v. v.truncated) false;
      runner_gone = a.runner_gone;
      range_evicted = of a.w (λ v. v.range_evicted) false;
      available_from_byte = of a.w (λ v. v.available_from_byte) 0;
      killed_reason = of a.w (λ v. v.killed_reason) none;
      poll_error = a.poll_error;
      deduped = a.deduped;
      queue_position = a.queue_position;
      queue_depth = a.queue_depth;
      overlay_version = a.overlay_version;
      warnings = job_warnings a rendered now;
      hint = hint;
      next_action = next_action;
      verdict = ok (on_error_of state) none;
    }
