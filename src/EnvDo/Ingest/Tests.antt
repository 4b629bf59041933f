-- ===== src/EnvDo/Ingest/Tests.antt =====
-- Chunks for a concrete command, and the theorems at such inputs.
use gha_mcp_host.Prelude.{pos, ◌≡◌, refl, String, [], ◌∷◌, none, some, map}
use gha_mcp_host.Text.{Text}
use gha_mcp_host.EnvSchema.{running, exited, Command}
use gha_mcp_host.EnvDo.{Env, find_command, update_command}
use gha_mcp_host.EnvDo.Ingest.{
  settled, state_after, merge_row, dequeue, ingest_known, ingest_output, ingest_chunk,
}
use gha_mcp_host.EnvDo.Ingest.Advance.{Advances, TailFrom, merge_row-Advances}
use gha_mcp_host.EnvDo.Samples.{no_env, row_in, queue_row, last_chunk, pull_chunk}

abbrev no_text : String → Text
no_text s = []

abbrev with_row : Env
with_row = record no_env { commands = row_in running ∷ []; queue = queue_row ∷ [] }

-- The first and last chunk of a command settles its row and takes its queue entry away.
last_chunk_runs :
    let e = ingest_chunk no_text with_row last_chunk 9 9 in
    (map (λ (c : Command). c.state) e.commands ≡ exited ∷ [])
    × (map (λ (c : Command). c.exit_code) e.commands ≡ some (pos 0) ∷ [])
    × (e.queue ≡ [])
unfolding ingest_chunk ingest_output find_command ingest_known merge_row state_after settled
    update_command dequeue
last_chunk_runs = (refl, refl, refl)

row_stands : find_command "c" with_row.commands ≡ some (row_in running)
unfolding find_command
row_stands = refl

merge_row-Advances_example :
    let next = merge_row no_text none (row_in exited) pull_chunk 9 in
    Advances (row_in exited) next × TailFrom none (row_in exited) next
merge_row-Advances_example = merge_row-Advances no_text none (row_in exited) pull_chunk 9
