-- ===== src/EnvDo/Reading/Tests.antt =====
-- Reads of concrete environments, and the theorem at such an input.
use gha_mcp_host.Prelude.{◌≡◌, refl, String, [], ◌∷◌, arith, inl, inr}
use gha_mcp_host.Text.{Text}
use gha_mcp_host.Stream.{Agrees}
use gha_mcp_host.EnvSchema.{lost, ready}
use gha_mcp_host.EnvDo.Ingest.Routes.{ingest_all}
use gha_mcp_host.EnvDo.Ingest.Truth.{AllTrue}
use gha_mcp_host.EnvDo.Reading.{window, liveness}
use gha_mcp_host.EnvDo.Reading.Faithful.{IsFaithful, ingest_all-window}
use gha_mcp_host.EnvDo.Samples.{
  with_row, output, with_row-Truthful, no_env, working, last_chunk, pull_chunk,
}

liveness_runs : ((liveness no_env 5).state ≡ lost) × ((liveness working 5).state ≡ ready)
unfolding liveness
liveness_runs = (refl, refl)

chunks_true : AllTrue output ((last_chunk, 9, 9) ∷ (pull_chunk, 10, 10) ∷ (last_chunk, 11, 11) ∷ [])
chunks_true =
    let a : Agrees (output "c") 0 (10 ∷ 11 ∷ []) = record { within = omega arith; same = refl } in
    (inr a, (inl refl, (inr a, _)))

abbrev no_text : String → Text
no_text s = []

ingest_all-window_example : IsFaithful (output "c") 1 8 (
    window
      (ingest_all no_text with_row
        ((last_chunk, 9, 9) ∷ (pull_chunk, 10, 10) ∷ (last_chunk, 11, 11) ∷ []))
      "c"
      1
      8
      20)
ingest_all-window_example =
    ingest_all-window no_text with_row
      ((last_chunk, 9, 9) ∷ (pull_chunk, 10, 10) ∷ (last_chunk, 11, 11) ∷ []) output "c" 1 8 20
      with_row-Truthful chunks_true
