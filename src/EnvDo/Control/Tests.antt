-- ===== src/EnvDo/Control/Tests.antt =====
-- Polls, pulls and overlays on concrete environments, and the theorems at such inputs.
use gha_mcp_host.Prelude.{◌≡◌, ◌≢◌, refl, false, true, String, [], ◌∷◌, none, some, arith}
use mathlib.Core.Option
use gha_mcp_host.Text.{Text, codes}
use gha_mcp_host.EnvSchema.{running, lost, Command}
use gha_mcp_host.EnvDo.{Env, Pull, term, find_command}
use gha_mcp_host.EnvDo.Queue.{next_row, claim_next}
use gha_mcp_host.EnvDo.Queue.Claiming.{next_row_single}
use gha_mcp_host.EnvDo.Ingest.{ingest_chunk}
use gha_mcp_host.EnvDo.Control.{
  Poll, is_live, control_poll, push_action, has_actions, request_pull, take_pull, live_ids,
  kill_command, is_line_end, mask,
}
use gha_mcp_host.EnvDo.Control.Overlay.{OneLine}
use gha_mcp_host.EnvDo.Control.SpawnGap.{names_gap, lost_job_claimed_again}
use gha_mcp_host.EnvDo.Control.Pulls.{take_pull-ingest_chunk}
use gha_mcp_host.EnvDo.Samples.{no_env, row_in, queue_row, pull_chunk}

abbrev no_text : String → Text
no_text s = []

abbrev with_row : Env
with_row = record no_env { commands = row_in running ∷ []; queue = queue_row ∷ [] }

-- The runner says of "c" that it never spawned.
abbrev gap_poll : Poll
gap_poll = record {
  disk_free_mb = none;
  running = record { command_id = some "c"; has_spawn_gap = true } ∷ [];
  agent_version = none;
}

mask_runs : mask false (codes "A=1\nB") ≡ codes "A=***\nB"
unfolding mask is_line_end
mask_runs = refl

kill_runs : (kill_command with_row "all" term).1 ≡ "c" ∷ []
unfolding kill_command push_action live_ids is_live
kill_runs = refl

request_pull_runs : has_actions (request_pull no_env "r" "c" 0 9).0 ≡ true
unfolding has_actions request_pull push_action
request_pull_runs = refl

one_line : OneLine (codes "1")
unfolding is_line_end
one_line = (refl, _)

row_stands : find_command "c" with_row.commands ≡ some (row_in running)
unfolding find_command
row_stands = refl

row_live : is_live running ≡ true
unfolding is_live
row_live = refl

gap_named : names_gap "c" gap_poll.running ≡ true
unfolding names_gap
gap_named = refl

row_next : next_row (queue_row ∷ []) 8 ≡ some queue_row
row_next = next_row_single queue_row 8 refl

lost_job_claimed_again_example :
    let lost_env = (control_poll with_row gap_poll 5 6 7).0 in
    let (e, payload) = claim_next lost_env "w" 8 in
    (Option.map (λ (r : Command). r.state) (find_command "c" lost_env.commands) ≡ some lost)
    × (payload ≡ some "p")
    × (Option.map (λ (r : Command). r.state) (find_command "c" e.commands) ≡ some running)
lost_job_claimed_again_example =
    lost_job_claimed_again with_row gap_poll 5 6 7 8 "w" (row_in running) queue_row row_stands
      row_live gap_named row_next

id_given : ◌≢◌ {A = String} "r" ""
id_given h = cc h

take_pull-ingest_chunk_example :
    let e = ingest_chunk no_text no_env pull_chunk 5 6 in
    ((p : Pull) × ((take_pull e "r").1 ≡ some p) × (p.start ≡ 0) × (p.bytes ≡ 10 ∷ 11 ∷ []))
    × ((take_pull (take_pull e "r").0 "r").1 ≡ none)
take_pull-ingest_chunk_example =
    take_pull-ingest_chunk no_text no_env pull_chunk "r" 5 6 refl refl id_given (omega arith)
