-- ===== src/Result.antt =====
-- broker/src/result.ts: the tail that every tool result carries, and the clock of a polling loop.
-- A text of a message is not modelled; times are milliseconds.
pub mod Waits
mod Tests
use gha_mcp_host.Prelude.{
  ℕ, zero, suc, ◌+◌, min, max, ◌*◌, Bool, true, false, ◌||◌, String, List, [], ◌∷◌, Option, none,
  some, if◌then◌else◌, str_eq, get_or_else,
}

pub data OnError : Type 0 where
  retry stop reexecute_unsafe ask_user : OnError

includes_code : String → List String → Bool
includes_code code [] = false
includes_code code (c ∷ cs) = str_eq c code || includes_code code cs

abbrev retryable_codes : List String
retryable_codes =
    "broker_unreachable" ∷ "broker_internal" ∷ "runner_busy_queue_full" ∷ "enroll_race"
    ∷ "github_5xx" ∷ "github_secondary_rate_limit" ∷ "do_unavailable" ∷ []

-- `onErrorFor`: every code outside the two sets stops.
unfoldable pub on_error_for : String → OnError
unfolding includes_code
on_error_for code =
    if includes_code code retryable_codes
    then retry
    else if includes_code code ("lost" ∷ "spawn_gap" ∷ [])
    then reexecute_unsafe
    else stop

pub record CommonTail : Type 0 where
  pub is_ok : Bool
  pub on_error : Option OnError
  pub retryable : Bool
  pub retry_after_ms : Option ℕ

is_retry : Option OnError → Bool
is_retry (some retry) = true
is_retry _ = false

unfoldable pub tail : Bool → Option OnError → Option ℕ → CommonTail
unfolding is_retry
tail is_ok on_error retry_after_ms = record {
  is_ok = is_ok;
  on_error = on_error;
  retryable = is_retry on_error;
  retry_after_ms = retry_after_ms;
}

-- `opts` is spread before the verdict, which overrides its `on_error`.
unfoldable pub ok : Option OnError → Option ℕ → CommonTail
ok on_error retry_after_ms = tail true none retry_after_ms

-- `opts.on_error` goes before the one of the code.
unfoldable pub fail : String → Option OnError → Option ℕ → CommonTail
fail code on_error retry_after_ms =
    tail false (some (get_or_else on_error (on_error_for code))) retry_after_ms

unfoldable pub clamp : ℕ → ℕ → ℕ → ℕ
clamp n lo hi = max lo (min hi n)

pub record PollClock : Type 0 where
  pub floor : ℕ
  pub max_ms : ℕ
  pub ms : ℕ

pub make_poll_clock : ℕ → ℕ → PollClock
unfolding clamp
make_poll_clock min_ms max_ms =
    let floor = clamp min_ms 1 max_ms in record { floor = floor; max_ms = max_ms; ms = floor }

-- One call of `next`, with the default factor of 2.
pub next : PollClock → PollClock × ℕ
unfolding clamp
next c = (record c { ms = clamp (c.ms * 2) c.floor c.max_ms }, c.ms)

pub reset : PollClock → PollClock
reset c = record c { ms = c.floor }
