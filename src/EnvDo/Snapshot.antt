-- ===== src/EnvDo/Snapshot.antt =====
-- broker/src/env-snapshot.ts: buildSnapshot, and the method snapshot of broker/src/env-do.ts.
-- `cost` stands for the length of a row's JSON text. The warning about disk space is the number that
-- it quotes.
pub mod Budget
mod Tests
use gha_mcp_host.Prelude.{
  ℕ, ℤ, pos, negsuc, ◌+◌, ◌-◌, ◌/◌, ◌*◌, Bool, true, false, not, ◌&&◌, String, List, [], ◌∷◌, map,
  Option, none, some, ltb, leb, if◌then◌else◌, get_or_else, length, take,
}
use mathlib.Core.Option
use gha_mcp_host.Text.{Text, codes}
use gha_mcp_host.KillReason.{KilledReason}
use gha_mcp_host.EnvSchema.{
  EnvState, ready, expired, lost, CmdState, Facts, FailureReason, Command, Meta, truthy,
}
use gha_mcp_host.EnvDo.{Env}

abbrev pub commands_scan_limit : ℕ
commands_scan_limit = 60

abbrev pub commands_budget_bytes : ℕ
commands_budget_bytes = 8 * 1024

abbrev pub disk_low_mb : ℕ
disk_low_mb = 2048

pub record Item : Type 0 where
  pub command_id : String
  pub state : CmdState
  pub exit_code : Option ℤ
  pub total_bytes : ℕ
  pub runtime_ms : Option ℤ
  pub killed_reason : Option KilledReason
  pub label : Option Text

pub item_of : Command → Item
item_of c = record {
  command_id = c.command_id;
  state = c.state;
  exit_code = c.exit_code;
  total_bytes = c.total_bytes;
  runtime_ms = c.runtime_ms;
  killed_reason = c.killed_reason;
  label = if truthy c.label then Option.map (λ s. take 64 (codes s)) c.label else none;
}

-- `ORDER BY created_at DESC`: among rows of one time, the order of the table.
pub put_newest : Command → List Command → List Command
put_newest c [] = c ∷ []
put_newest c (d ∷ ds) = if leb d.created_at c.created_at then c ∷ d ∷ ds else d ∷ put_newest c ds

pub newest_first : List Command → List Command
unfolding put_newest
newest_first [] = []
newest_first (c ∷ cs) = put_newest c (newest_first cs)

-- The loop over the rows: what fits, and whether a row did not.
pub within_budget : (Item → ℕ) → ℕ → List Item → List Item × Bool
within_budget cost budget [] = ([], false)
within_budget cost budget (i ∷ items) =
    let (rest, truncated) = within_budget cost (budget - cost i) items in
    if ltb budget (cost i) then ([], true) else (i ∷ rest, truncated)

-- A ready environment whose lease is over reads as expired.
pub state_at : Option EnvState → ℕ → ℕ → EnvState
state_at none ttl now = lost
state_at (some ready) ttl now = if ltb ttl now then expired else ready
state_at (some s) ttl now = s

abbrev pub state_now : Env → ℕ → EnvState
state_now e now = state_at e.meta.state (get_or_else e.meta.ttl_expires_at 0) now

disk_warning : Option ℤ → List ℤ
disk_warning none = []
disk_warning (some (pos n)) = if ltb n disk_low_mb then pos n ∷ [] else []
disk_warning (some (negsuc n)) = negsuc n ∷ []

pub record Snapshot : Type 0 where
  pub env_id : Option String
  pub platform : Option String
  pub state : EnvState
  pub label : Option String
  pub run_url : Option String
  pub run_id : Option String
  pub created_by : Option String
  pub expires_at : ℕ
  pub ttl_remaining_s : ℕ
  pub sticky_cwd : Option String
  pub overlay_version : ℕ
  pub queue_depth : ℕ
  pub last_seen_ms_ago : Option ℕ
  pub failure_reason : Option FailureReason
  pub commands : List Item
  pub commands_truncated : Bool
  pub disk_free_mb : Option ℤ
  pub warnings : List ℤ

-- The keys that only a verbose snapshot has.
pub record Details : Type 0 where
  pub facts : Option Facts
  pub agent_version : Option String
  pub env_overlay_preview : Option Text

-- Every reading of the clock is at one millisecond.
pub build_snapshot : (Item → ℕ) → Env → Bool → ℕ → Snapshot × Option Details
unfolding disk_warning
build_snapshot cost e verbose now =
    let ttl = get_or_else e.meta.ttl_expires_at 0 in
    let rows = take commands_scan_limit (newest_first e.commands) in
    let (commands, truncated) = within_budget cost commands_budget_bytes (map item_of rows) in
    (
      record {
        env_id = e.meta.env_id;
        platform = e.meta.platform;
        state = state_now e now;
        label = e.meta.label;
        run_url = e.meta.run_url;
        run_id = e.meta.run_id;
        created_by = e.meta.created_by;
        expires_at = ttl;
        ttl_remaining_s = (ttl - now) / 1000;
        sticky_cwd = e.meta.sticky_cwd;
        overlay_version = get_or_else e.meta.overlay_version 0;
        queue_depth = length e.queue;
        last_seen_ms_ago = Option.map (λ t. now - t) e.meta.last_seen_at;
        failure_reason = e.meta.failure_reason;
        commands = commands;
        commands_truncated = truncated;
        disk_free_mb = e.meta.disk_free_mb;
        warnings = disk_warning e.meta.disk_free_mb;
      },
      if verbose
          then some (record {
            facts = e.meta.facts;
            agent_version = e.meta.agent_version;
            env_overlay_preview = e.meta.overlay_preview;
          })
          else none,
    )
