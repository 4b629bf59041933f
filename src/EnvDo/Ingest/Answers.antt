-- ===== src/EnvDo/Ingest/Answers.antt =====
-- ingestChunk of broker/src/env-do.ts: the answers to pulls.
use gha_mcp_host.Prelude.{
  ℕ, ◌+◌, ◌≤◌, ◌≡◌, ◌≢◌, refl, ap, true, not, String, List, [], ◌∷◌, some, arith, str_eq,
}
use gha_mcp_host.Text.{Text}
use gha_mcp_host.EnvDo.{Env, Pull, lookup, insert}
use gha_mcp_host.EnvDo.Tables.{str_eq_ne, lookup-insert}
use gha_mcp_host.EnvDo.Ingest.{
  Chunk, pull_ttl_ms, gc_pulls, store_pull, non_empty_text, ingest_chunk,
}

-- An answer that is not yet old survives the collection.
lookup-gc_pulls :
    (now : ℕ) (k : String) (p : Pull) (m : List (String × Pull))
    → lookup k m ≡ some p
    → now ≤ p.at + pull_ttl_ms
    → lookup k (gc_pulls now m) ≡ some p
unfolding lookup gc_pulls
lookup-gc_pulls now k p [] e h = cc
lookup-gc_pulls now k p ((j, q) ∷ m) e h = ground (arith, lookup-gc_pulls now k p m)

answer_of : Chunk → ℕ → Pull
unfolding non_empty_text
answer_of body now = record {
  at = now;
  start = body.start_byte;
  bytes = body.bytes;
  total = body.total_bytes;
  state = body.state;
  error = non_empty_text body.agent_error;
}

pub stored_answer :
    (unknown : String → Text) (e : Env) (body : Chunk) (req_id : String) (now later : ℕ)
    → body.is_pull ≡ true
    → body.req_id ≡ some req_id
    → req_id ≢ ""
    → later ≤ now + pull_ttl_ms
    → (p : Pull) × (lookup req_id (ingest_chunk unknown e body now later).pulls ≡ some p)
      × (p.start ≡ body.start_byte)
      × (p.bytes ≡ body.bytes)
unfolding ingest_chunk store_pull answer_of
stored_answer unknown e body req_id now later pull asked given fresh = (
  answer_of body now,
  rw (pull, asked, not_empty req_id given)
      (lookup-gc_pulls later req_id (answer_of body now)
        (insert req_id (answer_of body now) e.pulls)
        (lookup-insert req_id (answer_of body now) e.pulls) fresh),
  refl,
  refl,
)
  where
    not_empty : (s : String) → s ≢ "" → not (str_eq s "") ≡ true
    not_empty s ne = ap not (str_eq_ne s "" ne)
