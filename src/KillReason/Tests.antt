-- ===== src/KillReason/Tests.antt =====
-- Merges of concrete reports, and the theorems at such inputs.
use gha_mcp_host.Prelude.{◌≡◌, refl, String, List, [], ◌∷◌, Option, none, some, ltb, if◌then◌else◌}
use gha_mcp_host.KillReason.{timeout, known, is_killed_reason, pick_killed_reason}
use gha_mcp_host.KillReason.Laws.{rank, pick_killed_reason_lem}

unknown_runs :
    pick_killed_reason (some "user") (some "gremlins")
    ≡ record { reason = known (some "user"); warning = some "gremlins" }
unfolding pick_killed_reason is_killed_reason
unknown_runs = refl

tie_runs : (pick_killed_reason (some "timeout") (some "inactivity")).reason ≡ some timeout
unfolding pick_killed_reason is_killed_reason
tie_runs = refl

abbrev reports : List (Option String)
reports = some "inactivity" ∷ none ∷ some "enospc" ∷ some "user" ∷ []

pick_killed_reason_lem_example : (pick_killed_reason (some "user") (some "timeout")).reason ≡ (
    if ltb (rank (known (some "user"))) (rank (known (some "timeout")))
    then known (some "timeout")
    else known (some "user"))
pick_killed_reason_lem_example = pick_killed_reason_lem (some "user") (some "timeout")
