-- ===== src/EnvDo/Snapshot/Tests.antt =====
-- Snapshots of concrete environments, and the theorem at such an input.
use gha_mcp_host.Prelude.{◌≡◌, ◌≤◌, ◌↔◌, get_or_else, refl, true, [], ◌∷◌, none, some, pos, negsuc}
use mathlib.Core.List.{Perm}
use gha_mcp_host.EnvSchema.{running, exited, ready, expired, lost, Command}
use gha_mcp_host.EnvDo.{Env}
use gha_mcp_host.EnvDo.Snapshot.{
  item_of, put_newest, newest_first, state_at, disk_warning, build_snapshot, commands_budget_bytes,
}
use gha_mcp_host.EnvDo.Snapshot.Budget.{
  total_cost, IsListed, IsNewestFirst, candidates, build_snapshot_lem,
}
use gha_mcp_host.EnvDo.Samples.{working, row_in}

abbrev later : Command
later = record (row_in exited) { created_at = 9 }

newest_run : newest_first (row_in running ∷ later ∷ []) ≡ later ∷ row_in running ∷ []
unfolding newest_first put_newest
newest_run = refl

item_runs : ((item_of later).state ≡ exited) × ((item_of later).label ≡ none)
unfolding item_of
item_runs = (refl, refl)

state_runs :
    (state_at (some ready) 5 6 ≡ expired)
    × (state_at (some ready) 5 5 ≡ ready)
    × (state_at none 5 5 ≡ lost)
unfolding state_at
state_runs = (refl, refl, refl)

disk_runs : (disk_warning (some (pos 2048)) ≡ []) × (disk_warning (some (negsuc 0)) ≡ negsuc 0 ∷ [])
unfolding disk_warning
disk_runs = (refl, refl)

abbrev two_jobs : Env
two_jobs = record working { commands = row_in running ∷ later ∷ [] }

build_snapshot_lem_example :
    let s = (build_snapshot (λ i. 5_000) two_jobs true 6).0 in
    ((s.state ≡ ready)
      ↔ ((two_jobs.meta.state ≡ some ready) × (6 ≤ get_or_else two_jobs.meta.ttl_expires_at 0)))
    × (total_cost (λ i. 5_000) s.commands ≤ commands_budget_bytes)
    × IsListed
        (λ i. 5_000)
        commands_budget_bytes
        (candidates two_jobs)
        s.commands
        s.commands_truncated
    × IsNewestFirst (newest_first two_jobs.commands)
    × Perm (newest_first two_jobs.commands) two_jobs.commands
build_snapshot_lem_example = build_snapshot_lem (λ i. 5_000) two_jobs true 6
