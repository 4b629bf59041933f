-- ===== src/Run/Samples.antt =====
-- The worlds and the snapshot that the tests of the tools share.
use gha_mcp_host.Prelude.{arith, ◌+◌, inl, true, false, [], none, some}
use gha_mcp_host.EnvSchema.{ready}
use gha_mcp_host.EnvDo.Snapshot.{Snapshot}
use gha_mcp_host.EnvDo.Samples.{with_row}
use gha_mcp_host.Run.{World, IsTimely, IsPrompt}

-- Every call takes five milliseconds, and the object is always the same.
abbrev pub steady : World
steady = record {
  env = λ t. with_row;
  reachable = λ t. true;
  answered = λ t. t + 5;
  wake = λ t ms. t + ms;
  aborted = λ t. false;
}

-- The same without an object to reach.
abbrev pub cut_off : World
cut_off = record steady { reachable = λ t. false }

pub steady-IsTimely : IsTimely steady
steady-IsTimely = record {
  answers_later = λ t. omega arith;
  wakes_later = λ t ms. omega arith;
  sleeps = λ t ms. inl (omega arith);
}

pub cut_off-IsTimely : IsTimely cut_off
cut_off-IsTimely = record {
  answers_later = λ t. omega arith;
  wakes_later = λ t ms. omega arith;
  sleeps = λ t ms. inl (omega arith);
}

pub steady-IsPrompt : IsPrompt 5 steady
steady-IsPrompt = record { answers_by = λ t. omega arith; wakes_by = λ t ms. omega arith }

abbrev pub snap : Snapshot
snap = record {
  env_id = some "linux-1";
  platform = some "linux";
  state = ready;
  label = none;
  run_url = none;
  run_id = none;
  created_by = none;
  expires_at = 3_600_000;
  ttl_remaining_s = 100;
  sticky_cwd = none;
  overlay_version = 0;
  queue_depth = 0;
  last_seen_ms_ago = none;
  failure_reason = none;
  commands = [];
  commands_truncated = false;
  disk_free_mb = none;
  warnings = [];
}
