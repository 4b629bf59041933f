-- ===== src/EnvDo/Control/Pulls.antt =====
-- takePull of broker/src/env-do.ts after ingestChunk: ranges that the runner re-serves.
use gha_mcp_host.Prelude.{
  ℕ, ◌+◌, ◌≤◌, ◌≡◌, ◌≢◌, refl, ap, ◌∙◌, true, String, List, [], ◌∷◌, none, some, arith,
}
use gha_mcp_host.Text.{Text}
use gha_mcp_host.EnvDo.{Env, Pull, lookup, remove}
use gha_mcp_host.EnvDo.Ingest.{Chunk, pull_ttl_ms, ingest_chunk}
use gha_mcp_host.EnvDo.Ingest.Answers.{stored_answer}
use gha_mcp_host.EnvDo.Control.{take_pull}

lookup-remove {ℓ} : {V : Type ℓ} (k : String) (m : List (String × V)) → lookup k (remove k m) ≡ none
unfolding lookup remove
lookup-remove k [] = refl
lookup-remove k ((j, w) ∷ m) = ground (arith, lookup-remove k m)

took :
    (e : Env) (req_id : String) (p : Pull)
    → lookup req_id e.pulls ≡ some p
    → ((take_pull e req_id).1 ≡ some p) × ((take_pull e req_id).0.pulls ≡ remove req_id e.pulls)
unfolding take_pull
took e req_id p h = rw (h, take_pull) (refl, refl)

pub nothing_to_take :
    (e : Env) (req_id : String) → lookup req_id e.pulls ≡ none → take_pull e req_id ≡ (e, none)
unfolding take_pull
nothing_to_take e req_id h = rw (h, take_pull)

-- The runner's answer to a pull is handed to whoever takes it by its id, with the offset and bytes
-- that the runner sent, and a second taker gets nothing. (The id is not empty, and the answer is
-- not older than its time to live when the collection runs.)
pub take_pull-ingest_chunk :
    (unknown : String → Text) (e : Env) (body : Chunk) (req_id : String) (now later : ℕ)
    → body.is_pull ≡ true
    → body.req_id ≡ some req_id
    → req_id ≢ ""
    → later ≤ now + pull_ttl_ms
    → let e' = ingest_chunk unknown e body now later in
      ((p : Pull) × ((take_pull e' req_id).1 ≡ some p)
        × (p.start ≡ body.start_byte)
        × (p.bytes ≡ body.bytes))
      × ((take_pull (take_pull e' req_id).0 req_id).1 ≡ none)
take_pull-ingest_chunk unknown e body req_id now later pull asked given fresh =
    let e' = ingest_chunk unknown e body now later in
    let (p, stored, same_start, same_bytes) =
      stored_answer unknown e body req_id now later pull asked given fresh in
    let (taken, left) = took e' req_id p stored in
    (
      (p, taken, same_start, same_bytes),
      ap (λ r. r.1)
          (nothing_to_take (take_pull e' req_id).0 req_id
            (ap (lookup req_id) left ∙ lookup-remove req_id e'.pulls)),
    )
