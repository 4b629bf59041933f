-- ===== src/EnvSchema.antt =====
-- broker/src/env-schema.ts: what a Durable Object stores about one environment.
-- A table is a list of its rows, a nullable column an option. Each key that the broker uses of the
-- `meta` table is a field, absent until it is set; a number that is stored there as decimal text and
-- read back by Number() is kept as the number. Base64 columns hold the bytes that they encode, JSON
-- columns the values that they encode.
use gha_mcp_host.Prelude.{ℕ, ℤ, Bool, true, false, not, String, List, Option, none, some, str_eq}
use gha_mcp_host.Text.{Text}
use gha_mcp_host.KillReason.{KilledReason}

pub data EnvState : Type 0 where
  provisioning ready destroying expired failed lost : EnvState

pub data CmdState : Type 0 where
  queued running exited killed lost : CmdState

abbrev pub is_terminal : CmdState → Bool
is_terminal queued = false
is_terminal running = false
is_terminal exited = true
is_terminal killed = true
is_terminal CmdState.lost = true

-- A number as it arrives: an integer, or NaN or an infinity.
pub data Num : Type 0 where
  finite : ℤ → Num
  not_finite : Num

-- `numOr(v, d)`, where null and undefined are both `none`.
abbrev pub num_or : Option Num → Option ℤ → Option ℤ
num_or none d = d
num_or (some (finite z)) d = some z
num_or (some not_finite) d = d

-- A nullable string in a condition.
abbrev pub truthy : Option String → Bool
truthy none = false
truthy (some s) = not (str_eq s "")

-- What the runner reports of itself, as far as the broker reads it.
pub record Facts : Type 0 where
  pub shells : List (String × Option String)
  pub run_url : Option String
  pub work_dir : Option String

-- The parts of the message that `failure_reason` holds.
pub data FailureReason : Type 0 where
  run_id_mismatch run_attempt_mismatch : String → String → FailureReason
  shell_missing : String → String → List String → FailureReason
  reported : String → FailureReason

pub record Meta : Type 0 where
  pub env_id : Option String
  pub platform : Option String
  pub state : Option EnvState
  pub label : Option String
  pub created_by : Option String
  pub created_at : Option ℕ
  pub ttl_expires_at : Option ℕ
  pub overlay_version : Option ℕ
  pub overlay_preview : Option Text
  pub run_id : Option String
  pub run_attempt : Option String
  pub run_url : Option String
  pub agent_token : Option String
  pub agent_version : Option String
  pub last_seen_at : Option ℕ
  pub disk_free_mb : Option ℤ
  pub sticky_cwd : Option String
  pub facts : Option Facts
  pub failure_reason : Option FailureReason

pub record Command : Type 0 where
  pub command_id : String
  pub idem_hash : String
  pub state : CmdState
  pub exit_code : Option ℤ
  pub signal : Option String
  pub created_at : ℕ
  pub started_at : Option ℕ
  pub ended_at : Option ℕ
  pub runtime_ms : Option ℤ
  pub total_bytes : ℕ
  pub bytes_written : Option ℕ
  pub head_discarded_bytes : ℕ
  pub output_capped : Bool
  pub last_output_at : Option ℕ
  pub label : Option String
  pub cwd : Option String
  pub shell : Option String
  pub killed_reason : Option KilledReason
  pub warnings : Option (List Text)
  pub tail_b64 : Option (List ℕ)
  pub tail_start : Option ℕ

pub record QueueRow : Type 0 where
  pub seq : ℕ
  pub command_id : String
  pub payload : String
  pub claimed_by : Option String
  pub claimed_at : Option ℕ
