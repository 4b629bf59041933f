-- ===== src/EnvDo/History.antt =====
-- broker/src/env-do.ts: the histories of one environment's object, as a relation between its states.
-- Every method is a step with any arguments, at any time. When the object is evicted from memory, its
-- rings, actions and pulls are gone and its tables stay.
pub mod Rows
pub mod Live
pub mod Tidy
pub mod Steps
pub mod Final
pub mod Settled
mod Tests
use gha_mcp_host.Prelude.{ℕ, String, [], Option}
use gha_mcp_host.Text.{Text}
use gha_mcp_host.EnvDo.{Env, Action, Signal}
use gha_mcp_host.EnvDo.Lifecycle.{
  Provision, provision, set_dispatch, Claim, enroll, auth_agent, extend, mark_destroying,
  mark_failed,
}
use gha_mcp_host.EnvDo.Queue.{Request, enqueue, claim_next}
use gha_mcp_host.EnvDo.Ingest.{Chunk, ingest_chunk}
use gha_mcp_host.EnvDo.Control.{
  Poll, control_poll, push_action, request_pull, take_pull, kill_command, set_overlay,
}

abbrev pub evict : Env → Env
evict e = record e { rings = []; actions = []; pulls = [] }

pub data Step : Env → Env → Type 0 where
  provisioned : (e : Env) (p : Provision) (now later : ℕ) → Step e (provision e p now later)
  dispatched :
      (e : Env) (run_id run_attempt run_url : Option String)
      → Step e (set_dispatch e run_id run_attempt run_url)
  enrolled :
      (e : Env) (c : Claim) (token : String) (now later : ℕ) → Step e (enroll e c token now later).0
  authorized : (e : Env) (token : String) (now : ℕ) → Step e (auth_agent e token now).0
  extended : (e : Env) (minutes max_minutes now : ℕ) → Step e (extend e minutes max_minutes now).0
  destroyed : (e : Env) → Step e (mark_destroying e).0
  failed : (e : Env) (reason : String) → Step e (mark_failed e reason)
  enqueued : (e : Env) (r : Request) (now later : ℕ) → Step e (enqueue e r now later).0
  claimed : (e : Env) (worker : String) (now : ℕ) → Step e (claim_next e worker now).0
  ingested :
      (e : Env) (unknown : String → Text) (c : Chunk) (now later : ℕ)
      → Step e (ingest_chunk unknown e c now later)
  polled :
      (e : Env) (p : Poll) (now gap_at later : ℕ) → Step e (control_poll e p now gap_at later).0
  pushed : (e : Env) (a : Action) → Step e (push_action e a)
  pulled :
      (e : Env) (req_id command_id : String) (from_byte max_bytes : ℕ)
      → Step e (request_pull e req_id command_id from_byte max_bytes).0
  taken : (e : Env) (req_id : String) → Step e (take_pull e req_id).0
  killed : (e : Env) (command_id : String) (s : Signal) → Step e (kill_command e command_id s).0
  overlaid : (e : Env) (content : Text) → Step e (set_overlay e content).0
  evicted : (e : Env) → Step e (evict e)

pub data Reach (s : Env) : Env → Type 0 where
  here : Reach s s
  next : {t u : Env} → Reach s t → Step t u → Reach s u
