-- ===== src/Run/Stop/Ends.antt =====
-- stop_job of broker/src/tools-run.ts: that it ends, and what its answer means.
use gha_mcp_host.Prelude.{ℕ, ◌≡◌, ◌⊎◌, true, false, String, Option, none, some}
use mathlib.Core.Option
use gha_mcp_host.EnvSchema.{CmdState, is_terminal}
use gha_mcp_host.EnvDo.Reading.{window}
use gha_mcp_host.Run.{World, is_expired}
use gha_mcp_host.Run.Stop.{Told, is_over, StopJob}

-- A state that the object gave for the job at some time, or none.
abbrev IsReported : World → String → Option CmdState → Type 0
IsReported w id none = Unit {0}
IsReported w id (some s) = (t : ℕ) × ((window (w.env t) id 0 1024 t).state ≡ some s)

abbrev IsGood : World → String → ℕ → Option Told → Type 0
IsGood w id at none = ⊥
IsGood w id at (some told) =
    IsReported w id told.state
    × ((is_over told.state ≡ true)
        ⊎ ((is_over told.state ≡ false) × (is_expired w at told.time ≡ true)))

-- The answer without its warning, of a job whose end the object reported; with it, of a job that it
-- reported as not ended; or a guess.
abbrev pub IsConfirmed : World → String → StopJob → Type 0
IsConfirmed w id r =
    (r.is_unconfirmed ≡ false)
    × (is_terminal r.state ≡ true)
    × ((t : ℕ) × ((window (w.env t) id 0 1024 t).state ≡ some r.state))

abbrev pub IsPending : World → String → StopJob → Type 0
IsPending w id r =
    (r.is_unconfirmed ≡ true)
    × (is_terminal r.state ≡ false)
    × ((t : ℕ) × ((window (w.env t) id 0 1024 t).state ≡ some r.state))

abbrev pub IsGuess : StopJob → Type 0
IsGuess r = (r.is_unconfirmed ≡ false) × (r.state ≡ CmdState.killed)
