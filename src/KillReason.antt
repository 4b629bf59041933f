-- ===== src/KillReason.antt =====
-- broker/src/kill-reason.ts: which of several kill reasons a command keeps.
-- A reason arrives as text; null, undefined and the empty text are all "nothing reported".
pub mod Laws
mod Tests
use gha_mcp_host.Prelude.{
  ℕ, Bool, true, false, String, List, [], ◌∷◌, ◌++◌, Option, none, some, ltb, ◌||◌, if◌then◌else◌,
  str_eq,
}

-- KILLED_REASONS, in the source's order.
pub data KilledReason : Type 0 where
  enospc output_cap timeout inactivity user spawn_gap : KilledReason

abbrev pub name : KilledReason → String
name enospc = "enospc"
name output_cap = "output_cap"
name timeout = "timeout"
name inactivity = "inactivity"
name user = "user"
name spawn_gap = "spawn_gap"

-- PRIORITY
pub priority : KilledReason → ℕ
priority enospc = 60
priority output_cap = 50
priority timeout = 40
priority inactivity = 40
priority user = 20
priority spawn_gap = 10

abbrev killed_reasons : List KilledReason
killed_reasons = enospc ∷ output_cap ∷ timeout ∷ inactivity ∷ user ∷ spawn_gap ∷ []

find_name : String → List KilledReason → Option KilledReason
find_name v [] = none
find_name v (r ∷ rs) = if str_eq v (name r) then some r else find_name v rs

-- `isKilledReason(v)`, with the reason that the text names.
pub is_killed_reason : String → Option KilledReason
unfolding find_name
is_killed_reason v = find_name v killed_reasons

abbrev known : Option String → Option KilledReason
known none = none
known (some v) = is_killed_reason v

pub record Picked : Type 0 where
  pub reason : Option KilledReason
  -- the unknown value that the warning quotes
  pub warning : Option String

-- The last two lines of `pickKilledReason`, for two known reasons.
pub outrank : KilledReason → KilledReason → KilledReason
unfolding priority
outrank current incoming = if ltb (priority current) (priority incoming) then incoming else current

pick_known : Option KilledReason → KilledReason → Picked
unfolding outrank
pick_known none incoming = record { reason = some incoming; warning = none }
pick_known (some current) incoming = record {
  reason = some (outrank current incoming);
  warning = none;
}

pick_parsed : Option KilledReason → String → Option KilledReason → Picked
unfolding pick_known
pick_parsed current v none = record { reason = current; warning = some v }
pick_parsed current v (some incoming) = pick_known current incoming

pub pick_killed_reason : Option String → Option String → Picked
unfolding pick_parsed
pick_killed_reason existing none = record { reason = known existing; warning = none }
pick_killed_reason existing (some v) =
    if str_eq v ""
    then record { reason = known existing; warning = none }
    else pick_parsed (known existing) v (is_killed_reason v)
