-- ===== src/Guard/Tests.antt =====
-- Runs of the guard on concrete times, and the theorems at such inputs.
use gha_mcp_host.Prelude.{◌≡◌, ◌≤◌, refl, [], ◌∷◌, none, some, arith}
use gha_mcp_host.Guard.{Guard, recent, oldest, refused, allow_env_create}
use gha_mcp_host.Guard.RateCap.{hour_count, run, run-hour_count}

abbrev empty : Guard
empty = record { creates = []; tripped = none }

-- One create at millisecond 5, and a cap of one.
abbrev busy : Guard
busy = record { creates = 5 ∷ []; tripped = none }

refused_runs : allow_env_create busy 1 10 10 ≡ (busy, some (refused 1 (5 ∷ []) 10 5))
unfolding allow_env_create recent oldest
refused_runs = refl

-- A cap of zero makes the call throw on an empty table.
zero_cap_throws : allow_env_create empty 0 10 10 ≡ (empty, none)
unfolding allow_env_create recent oldest
zero_cap_throws = refl

run-hour_count_example :
    hour_count 0 (run 1 empty [] ((5, 5) ∷ (6, 7) ∷ (3_600_006, 3_600_006) ∷ [])).1 ≤ 1
run-hour_count_example =
    run-hour_count 1 empty ((5, 5) ∷ (6, 7) ∷ (3_600_006, 3_600_006) ∷ []) (omega arith) 0
