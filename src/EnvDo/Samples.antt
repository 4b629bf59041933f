-- ===== src/EnvDo/Samples.antt =====
-- The inputs that the tests of the Durable Object share.
use gha_mcp_host.Prelude.{
  ℕ, ◌≡◌, refl, pos, true, false, String, List, [], ◌∷◌, Option, none, some, ap, sym, ◌∙◌, str_eq,
  if◌then◌else◌, get_or_else, Bool,
}
use gha_mcp_host.EnvSchema.{
  provisioning, ready, CmdState, running, exited, finite, Facts, Meta, Command, QueueRow,
}
use gha_mcp_host.EnvDo.{Env, find_command, lookup}
use gha_mcp_host.EnvDo.Ingest.Truth.{Truthful, TailOk}
use gha_mcp_host.EnvDo.Lifecycle.{Claim}
use gha_mcp_host.EnvDo.Queue.{Request}
use gha_mcp_host.EnvDo.Warnings.{absent}
use gha_mcp_host.EnvDo.Ingest.{Chunk}

abbrev pub no_meta : Meta
no_meta = record {
  env_id = none;
  platform = none;
  state = none;
  label = none;
  created_by = none;
  created_at = none;
  ttl_expires_at = none;
  overlay_version = none;
  overlay_preview = none;
  run_id = none;
  run_attempt = none;
  run_url = none;
  agent_token = none;
  agent_version = none;
  last_seen_at = none;
  disk_free_mb = none;
  sticky_cwd = none;
  facts = none;
  failure_reason = none;
}

abbrev pub no_env : Env
no_env = record {
  meta = no_meta;
  commands = [];
  queue = [];
  next_seq = 1;
  rings = [];
  actions = [];
  pulls = [];
}

-- Created at 0 for an hour, for run 7.
abbrev pub waiting : Env
waiting = record no_env {
  meta = record no_meta {
    platform = some "linux";
    state = some provisioning;
    created_at = some 0;
    ttl_expires_at = some 3_600_000;
    run_id = some "7";
  };
}

abbrev pub working : Env
working = record no_env {
  meta = record no_meta {
    platform = some "linux";
    state = some ready;
    created_at = some 0;
    ttl_expires_at = some 3_600_000;
    run_id = some "7";
    agent_token = some "t";
  };
}

abbrev pub with_bash : Facts
with_bash = record {
  shells = ("bash", some "/bin/bash") ∷ [];
  run_url = none;
  work_dir = some "/w";
}

abbrev pub claim : Claim
claim = record {
  run_id = "7";
  run_attempt = "1";
  facts = with_bash;
  exec_workers = 2;
  unreachable_limit_seconds = 60;
  redact = [];
}

abbrev pub request : Request
request = record {
  command_id = "c";
  idem_hash = "h";
  payload = "p";
  label = none;
  cwd = none;
  shell = none;
  max_queue = 4;
  idem_window_ms = 100;
}

-- A row of a command in a given state.
abbrev pub row_in : CmdState → Command
row_in state = record {
  command_id = "c";
  idem_hash = "h";
  state = state;
  exit_code = none;
  signal = none;
  created_at = 5;
  started_at = none;
  ended_at = none;
  runtime_ms = none;
  total_bytes = 0;
  bytes_written = none;
  head_discarded_bytes = 0;
  output_capped = false;
  last_output_at = none;
  label = none;
  cwd = none;
  shell = none;
  killed_reason = none;
  warnings = none;
  tail_b64 = none;
  tail_start = none;
}

abbrev pub queue_row : QueueRow
queue_row = record {
  seq = 1;
  command_id = "c";
  payload = "p";
  claimed_by = none;
  claimed_at = none;
}

-- The last chunk of a command: two bytes, and the exit code.
abbrev pub last_chunk : Chunk
last_chunk = record {
  command_id = "c";
  start_byte = 0;
  bytes = 10 ∷ 11 ∷ [];
  total_bytes = finite (pos 2);
  bytes_written = none;
  state = exited;
  exit_code = some (finite (pos 0));
  runtime_ms = none;
  req_id = none;
  is_pull = false;
  cwd_after = none;
  killed_reason = none;
  signal = none;
  output_capped = false;
  disk_free_mb = none;
  warnings = absent;
  agent_error = none;
}

-- The answer to pull "r".
abbrev pub pull_chunk : Chunk
pull_chunk = record last_chunk { state = running; req_id = some "r"; is_pull = true }

-- A running command, and no output yet.
abbrev pub with_row : Env
with_row = record no_env { commands = row_in running ∷ [] }

-- What every command writes.
abbrev pub output : String → List ℕ
output id = 10 ∷ 11 ∷ 12 ∷ []

no_tail :
    (b : Bool) (c : Command)
    → (if b then some (row_in running) else none) ≡ some c
    → c.tail_start ≡ none
no_tail true c h = ap (λ (o : Option Command). (get_or_else o c).tail_start) (sym h)
no_tail false c h = cc h

pub with_row-Truthful : Truthful output with_row
unfolding lookup find_command
with_row-Truthful = record { rings = λ id r h. cc h; tails = tails }
  where
    tails :
        (id : String) (c : Command)
        → find_command id with_row.commands ≡ some c
        → TailOk (output id) c.tail_start c.tail_b64
    tails id c h s p = cc (sym (no_tail (str_eq "c" id) c h) ∙ p)

pub with_row_pulls : (k : String) → lookup k with_row.pulls ≡ none
unfolding lookup
with_row_pulls k = refl
