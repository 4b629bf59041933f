-- ===== src/EnvDo/Control.antt =====
-- broker/src/env-do.ts, the control section and the methods that queue actions for the runner:
-- controlPoll, pushAction, hasActions, requestPull, takePull, killCommand, setOverlay.
pub mod Overlay
pub mod SpawnGap
pub mod Pulls
mod Tests
use gha_mcp_host.Prelude.{
  ℕ, ◌+◌, Bool, true, false, not, ◌&&◌, ◌||◌, String, List, [], ◌∷◌, ◌++◌, map, Option, none, some,
  ltb, ◌==◌, if◌then◌else◌, str_eq, get_or_else, or_else, length, keep, is_some, ℤ,
}
use gha_mcp_host.Text.{Text, codes}
use gha_mcp_host.KillReason.{KilledReason, spawn_gap}
use gha_mcp_host.EnvSchema.{
  EnvState, destroying, expired, CmdState, queued, running, lost, Num, num_or, truthy, Meta,
  Command,
}
use gha_mcp_host.EnvDo.{
  Env, Action, pull, overlay, Signal, Pull, find_command, update_command, lookup, remove,
}
use gha_mcp_host.EnvDo.Ingest.{disk_after}

-- What the runner says of one command that it holds.
pub record Running : Type 0 where
  pub command_id : Option String
  pub has_spawn_gap : Bool

pub record Poll : Type 0 where
  pub disk_free_mb : Option Num
  pub running : List Running
  pub agent_version : Option String

pub record PollReply : Type 0 where
  pub ttl_expires_at : ℕ
  pub destroy : Bool
  pub actions : List Action

unfoldable pub is_live : CmdState → Bool
is_live queued = true
is_live running = true
is_live _ = false

-- `SET state = 'lost', ... WHERE ... AND state IN ('queued','running')`
unfoldable pub lose : ℕ → Command → Command
unfolding is_live
lose now c =
    if is_live c.state
    then record c {
      state = lost;
      killed_reason = or_else c.killed_reason (some spawn_gap);
      ended_at = some now;
    }
    else c

-- The loop over `body.running`; each UPDATE reads the clock, here at the same millisecond.
unfoldable pub report_gaps : ℕ → List Running → List Command → List Command
unfolding lose
report_gaps now [] commands = commands
report_gaps now (r ∷ rs) commands = report_gaps now rs (
    if r.has_spawn_gap && truthy r.command_id
    then update_command (get_or_else r.command_id "") (lose now) commands
    else commands)

abbrev pub ends_env : Option EnvState → Bool
ends_env (some destroying) = true
ends_env (some expired) = true
ends_env _ = false

-- The clock readings are those of last_seen_at, of the UPDATEs, and of the lease's default.
unfoldable pub control_poll : Env → Poll → ℕ → ℕ → ℕ → Env × PollReply
unfolding report_gaps
control_poll e body now gap_at later = (
  record e {
    meta = record (e.meta) {
      last_seen_at = some now;
      disk_free_mb = disk_after e.meta.disk_free_mb body.disk_free_mb;
      agent_version =
          if truthy body.agent_version then body.agent_version else e.meta.agent_version;
    };
    commands = report_gaps gap_at body.running e.commands;
    actions = [];
  },
  record {
    ttl_expires_at = get_or_else e.meta.ttl_expires_at later;
    destroy = ends_env e.meta.state;
    actions = e.actions;
  },
)

unfoldable pub push_action : Env → Action → Env
push_action e a = record e { actions = e.actions ++ a ∷ [] }

abbrev is_destroying : Option EnvState → Bool
is_destroying (some destroying) = true
is_destroying _ = false

pub has_actions : Env → Bool
has_actions e = ltb 0 (length e.actions) || is_destroying e.meta.state

-- `req_id` is the random id of the request.
unfoldable pub request_pull : Env → String → String → ℕ → ℕ → Env × String
unfolding push_action
request_pull e req_id command_id from_byte max_bytes =
    (push_action e (pull req_id command_id from_byte max_bytes), req_id)

unfoldable pub take_pull : Env → String → Env × Option Pull
take_pull e req_id = elim (lookup req_id e.pulls) [
  | none ↦ (e, none)
  | some p ↦ (record e { pulls = remove req_id e.pulls }, some p)
]

live_ids : List Command → List String
unfolding is_live
live_ids [] = []
live_ids (c ∷ cs) = if is_live c.state then c.command_id ∷ live_ids cs else live_ids cs

unfoldable pub kill_command : Env → String → Signal → Env × List String
unfolding push_action live_ids
kill_command e command_id signal = (
  push_action e (Action.kill command_id signal),
  if str_eq command_id "all" then live_ids e.commands else command_id ∷ [],
)

-- The characters that end a line for `.` and `$`.
pub is_line_end : ℕ → Bool
is_line_end c = c == 0x0a || c == 0x0d || c == 0x2028 || c == 0x2029

-- `content.replace(/=(.*)$/gm, "=***")`, with whether the scan stands behind the first = of a line.
pub mask : Bool → Text → Text
unfolding is_line_end
mask hiding [] = []
mask true (c ∷ cs) =
    let next = c ∷ mask false cs in let skip = mask true cs in if is_line_end c then next else skip
mask false (c ∷ cs) =
    let hide = codes "=***" ++ mask true cs in
    let next = c ∷ mask false cs in if c == b'=' then hide else next

unfoldable pub set_overlay : Env → Text → Env × ℕ
unfolding mask
set_overlay e content =
    let version = get_or_else e.meta.overlay_version 0 + 1 in
    (
      record e {
        meta = record (e.meta) {
          overlay_version = some version;
          overlay_preview = some (mask false content);
        };
        actions = e.actions ++ overlay content ∷ [];
      },
      version,
    )
