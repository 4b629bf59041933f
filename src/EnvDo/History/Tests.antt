-- ===== src/EnvDo/History/Tests.antt =====
-- A history of the object on a concrete request, and the theorems in it.
use gha_mcp_host.Prelude.{◌≡◌, refl, false, true, String, [], ◌∷◌, none, some, get_or_else}
use gha_mcp_host.Text.{Text, codes}
use gha_mcp_host.EnvSchema.{running, Command}
use gha_mcp_host.EnvDo.{Env, find_command, update_command, in_queue}
use gha_mcp_host.EnvDo.Queue.{
  enqueue, claim_next, next_row, mark_claimed, start, first_by_seq, least_seq, claimable, lapsed,
  insert_both, find_dupe, first_of_newest, new_command, new_row, version,
}
use gha_mcp_host.EnvDo.Ingest.{
  ingest_chunk, ingest_output, ingest_known, merge_row, state_after, settled,
}
use gha_mcp_host.EnvDo.Ingest.Advance.{IsSettled}
use gha_mcp_host.EnvDo.Control.{Poll, control_poll}
use gha_mcp_host.EnvDo.Samples.{row_in, no_env, request, last_chunk}
use gha_mcp_host.EnvDo.History.{
  enqueued, claimed, ingested, polled, evicted, evict, Reach, here, next,
}
use gha_mcp_host.EnvDo.History.Tidy.{IsTidy}
use gha_mcp_host.EnvDo.History.Final.{Has, reach-IsTidy}
use gha_mcp_host.EnvDo.History.Settled.{IsOther, settled_for_good}

abbrev no_name : String → Text
no_name s = codes "?"

abbrev queued_env : Env
queued_env = (enqueue no_env request 5 5).0

abbrev claimed_env : Env
claimed_env = (claim_next queued_env "w" 6).0

abbrev ended_env : Env
ended_env = ingest_chunk no_name claimed_env last_chunk 7 7

-- A late report that the command was never spawned.
abbrev late_gap : Poll
late_gap = record {
  disk_free_mb = none;
  running = record { command_id = some "c"; has_spawn_gap = true } ∷ [];
  agent_version = none;
}

abbrev polled_env : Env
polled_env = (control_poll (evict ended_env) late_gap 8 8 8).0

abbrev to_end : Reach no_env ended_env
to_end =
    next (next (next here (enqueued no_env request 5 5)) (claimed queued_env "w" 6))
      (ingested claimed_env no_name last_chunk 7 7)

abbrev on_from_end : Reach ended_env polled_env
on_from_end = next (next here (evicted ended_env)) (polled (evict ended_env) late_gap 8 8 8)

reach-IsTidy_example : IsTidy ended_env
reach-IsTidy_example = reach-IsTidy no_env ended_env (refl, refl) to_end

abbrev ended_row : Command
ended_row = get_or_else (find_command "c" ended_env.commands) (row_in running)

ended_found : (find_command "c" ended_env.commands ≡ some ended_row) × IsSettled ended_row.state
unfolding ingest_chunk ingest_output find_command ingest_known merge_row state_after settled
    update_command claim_next mark_claimed start next_row first_by_seq least_seq claimable lapsed
    enqueue insert_both find_dupe first_of_newest in_queue new_command new_row version
ended_found = (refl, tt)

-- The late report changes nothing of the command that has ended.
settled_for_good_example :
    Has "c" ended_row.state polled_env.commands
    × (in_queue "c" polled_env.queue ≡ false)
    × IsOther "c" (next_row polled_env.queue 9)
settled_for_good_example =
    settled_for_good no_env ended_env polled_env "c" ended_row 9 (refl, refl) to_end ended_found.0
      ended_found.1 on_from_end
