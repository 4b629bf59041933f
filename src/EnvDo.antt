-- ===== src/EnvDo.antt =====
-- broker/src/env-do.ts: the Durable Object of one environment, as a value that each method takes and
-- returns. Times are milliseconds, and each reading of the clock is an argument. Random tokens and
-- ids are arguments too. The creation of the tables is not modelled: they are there, and empty.
pub mod Tables
pub mod Samples
pub mod Lifecycle
pub mod Queue
pub mod Warnings
pub mod Ingest
pub mod Control
pub mod Reading
pub mod Snapshot
pub mod History
use gha_mcp_host.Prelude.{
  ℕ, ◌+◌, Bool, true, false, String, List, [], ◌∷◌, ◌++◌, Option, none, some, if◌then◌else◌, str_eq,
  length, ◌||◌,
}
use gha_mcp_host.Text.{Text}
use gha_mcp_host.Ring.{Ring}
use gha_mcp_host.EnvSchema.{Meta, Command, QueueRow, CmdState, EnvState, Num}

pub data Signal : Type 0 where
  term kill : Signal

-- What waits to be handed to the runner.
pub data Action : Type 0 where
  destroy : Action
  pull : String → String → ℕ → ℕ → Action
  kill : String → Signal → Action
  overlay : Text → Action

-- A range that the runner re-served.
pub record Pull : Type 0 where
  pub at : ℕ
  pub start : ℕ
  pub bytes : List ℕ
  pub total : Num
  pub state : CmdState
  pub error : Option Text

pub record Env : Type 0 where
  pub meta : Meta
  pub commands : List Command
  pub queue : List QueueRow
  -- the next value of the queue's AUTOINCREMENT key
  pub next_seq : ℕ
  pub rings : List (String × Ring)
  pub actions : List Action
  pub pulls : List (String × Pull)

-- `SELECT ... FROM command WHERE command_id = ?`
pub find_command : String → List Command → Option Command
find_command id [] = none
find_command id (c ∷ cs) = if str_eq c.command_id id then some c else find_command id cs

-- `UPDATE command SET ... WHERE command_id = ?`
pub update_command : String → (Command → Command) → List Command → List Command
update_command id f [] = []
update_command id f (c ∷ cs) = (if str_eq c.command_id id then f c else c) ∷ update_command id f cs

-- Whether the queue's UNIQUE column has this id.
pub in_queue : String → List QueueRow → Bool
in_queue id [] = false
in_queue id (q ∷ qs) = str_eq q.command_id id || in_queue id qs

module _ {ℓ} {V : Type ℓ} where
  -- Map.get
  pub lookup : String → List (String × V) → Option V
  lookup k [] = none
  lookup k ((j, v) ∷ m) = if str_eq j k then some v else lookup k m

  -- Map.set
  pub insert : String → V → List (String × V) → List (String × V)
  insert k v [] = (k, v) ∷ []
  insert k v ((j, w) ∷ m) = if str_eq j k then (k, v) ∷ m else (j, w) ∷ insert k v m

  -- Map.delete
  pub remove : String → List (String × V) → List (String × V)
  remove k [] = []
  remove k ((j, v) ∷ m) = if str_eq j k then remove k m else (j, v) ∷ remove k m
