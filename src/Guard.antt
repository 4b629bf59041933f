-- ===== src/Guard.antt =====
-- broker/src/guard-do.ts: the circuit breaker and the hourly cap on env_create.
-- The tables are values: `creates` holds the ts column, `breaker` the row of that key in `state`.
-- Times are milliseconds since the epoch. Each call of Date.now() is an argument of its own.
pub mod RateCap
pub mod Breaker
pub mod Refund
pub mod Retry
mod Tests
use mathlib.Core.Option
use gha_mcp_host.Prelude.{
  ℕ, ◌+◌, ◌-◌, Bool, true, false, not, String, List, [], ◌∷◌, Option, none, some, min, max, ltb,
  leb, ◌==◌, if◌then◌else◌, length, keep,
}

-- The JSON value of the breaker row.
pub record Trip : Type 0 where
  pub code : String
  pub message : String
  pub since : ℕ

pub record Guard : Type 0 where
  pub creates : List ℕ
  pub tripped : Option Trip

pub record BreakerStatus : Type 0 where
  pub is_open : Bool
  pub code : Option String
  pub message : Option String
  pub since : Option ℕ

unfoldable pub closed : BreakerStatus
closed = record { is_open = false; code = none; message = none; since = none }

unfoldable pub opened : Trip → BreakerStatus
opened t = record {
  is_open = true;
  code = some t.code;
  message = some t.message;
  since = some t.since;
}

unfoldable pub breaker : Guard → BreakerStatus
unfolding closed opened
breaker g = elim g.tripped [ none ↦ closed | some t ↦ opened t ]

unfoldable pub trip : Guard → String → String → ℕ → Guard
trip g code message now = record g {
  tripped = some (record { code = code; message = message; since = now });
}

pub reset : Guard → Guard
reset g = record g { tripped = none }

abbrev pub hour_ms : ℕ
hour_ms = 3_600_000

-- `DELETE FROM creates WHERE ts < now - 3_600_000`: what stays.
pub recent : ℕ → List ℕ → List ℕ
recent now ts = keep (λ t. leb now (t + hour_ms)) ts

-- `rows[0].ts` of `ORDER BY ts ASC`; on an empty table that read throws a TypeError.
pub least : ℕ → List ℕ → ℕ
least t [] = t
least t (u ∷ us) = least (min t u) us

pub oldest : List ℕ → Option ℕ
unfolding least
oldest [] = none
oldest (t ∷ ts) = some (least t ts)

-- `MAX(ts)`
pub newest : List ℕ → ℕ
newest [] = 0
newest (t ∷ ts) = max t (newest ts)

pub record Verdict : Type 0 where
  pub allowed : Bool
  pub used : ℕ
  pub max_creates : ℕ
  pub retry_after_ms : Option ℕ

refused : ℕ → List ℕ → ℕ → ℕ → Verdict
refused max_per_hour rows later oldest_ts = record {
  allowed = false;
  used = length rows;
  max_creates = max_per_hour;
  retry_after_ms = some (max 1000 (oldest_ts + hour_ms - later));
}

granted : ℕ → List ℕ → Verdict
granted max_per_hour rows = record {
  allowed = true;
  used = length rows + 1;
  max_creates = max_per_hour;
  retry_after_ms = none;
}

-- `now` is the time of the DELETE, `later` that of the answer or of the INSERT. The verdict is
-- `none` where the call throws.
pub allow_env_create : Guard → ℕ → ℕ → ℕ → Guard × Option Verdict
unfolding refused granted
allow_env_create g max_per_hour now later =
    let rows = recent now g.creates in
    if leb max_per_hour (length rows)
    then (record g { creates = rows }, Option.map (refused max_per_hour rows later) (oldest rows))
    else (record g { creates = later ∷ rows }, some (granted max_per_hour rows))

-- `DELETE FROM creates WHERE ts = (SELECT MAX(ts) FROM creates)`
unfoldable pub refund_env_create : Guard → Guard
unfolding newest
refund_env_create g = record g { creates = keep (λ t. not (t == newest g.creates)) g.creates }
