-- ===== src/Result/Waits.antt =====
-- The waits of makePollClock of broker/src/result.ts.
use gha_mcp_host.Prelude.{◌<◌, ℕ, zero, suc, ◌*◌, ◌≤◌, ◌≡◌, refl, ap, ap₂, min, arith}
use gha_mcp_host.Result.{clamp, PollClock, make_poll_clock, next, reset}

-- The clock after `k` calls of `next`.
pub after : ℕ → PollClock → PollClock
after zero c = c
after (suc k) c = (next (after k c)).0

pub doubled : ℕ → ℕ → ℕ
doubled floor zero = floor
doubled floor (suc k) = doubled floor k * 2

doubled-le : (floor k : ℕ) → floor ≤ doubled floor k
unfolding doubled
doubled-le floor zero = omega arith
doubled-le floor (suc k) = omega (arith, doubled-le floor k)

fixed : (k : ℕ) (c : PollClock) → ((after k c).floor ≡ c.floor) × ((after k c).max_ms ≡ c.max_ms)
unfolding after next
fixed zero c = (refl, refl)
fixed (suc k) c = fixed k c

after_lem :
    (k : ℕ) (c : PollClock)
    → c.ms ≡ c.floor
    → c.floor ≤ c.max_ms
    → (after k c).ms ≡ min c.max_ms (doubled c.floor k)
unfolding after next clamp doubled
after_lem zero c start le = omega arith
after_lem (suc k) c start le =
    omega (arith, after_lem k c start le, fixed k c, doubled-le c.floor k)

reset-after : (j : ℕ) (c : PollClock) → reset (after j c) ≡ reset c
unfolding reset
reset-after j c =
    ap₂ (λ f m. let d : PollClock = record { floor = f; max_ms = m; ms = f } in d) (fixed j c).0
      (fixed j c).1

-- From a fresh clock or one that was just reset, the wait handed out after `k` others is the floor
-- doubled `k` times, cut at the ceiling. (The ceiling is at least a millisecond.)
pub make_poll_clock-next :
    (min_ms max_ms k : ℕ)
    → 1 ≤ max_ms
    → let c = make_poll_clock min_ms max_ms in
      ((next (after k c)).1 ≡ min max_ms (doubled c.floor k))
      × (1 ≤ c.floor)
      × (c.floor ≤ max_ms)
      × ((j : ℕ) → (next (after k (reset (after j c)))).1 ≡ (next (after k c)).1)
unfolding make_poll_clock next clamp reset
make_poll_clock-next min_ms max_ms k h =
    let c = make_poll_clock min_ms max_ms in
    (
      after_lem k c refl (omega arith),
      omega arith,
      omega arith,
      λ j. ap (λ d. (next (after k d)).1) (reset-after j c),
    )

-- A clock that never hands out a wait of no time.
pub record Runs (c : PollClock) : Type 0 where
  pub floor_pos : 0 < c.floor
  pub ms_pos : 0 < c.ms

pub next-Runs : (c : PollClock) → Runs c → (0 < (next c).1) × Runs (next c).0
unfolding next clamp
next-Runs c r = (r.ms_pos, record { floor_pos = r.floor_pos; ms_pos = omega (arith, r.floor_pos) })

pub make_poll_clock-Runs : (min_ms max_ms : ℕ) → Runs (make_poll_clock min_ms max_ms)
unfolding make_poll_clock clamp
make_poll_clock-Runs min_ms max_ms = record { floor_pos = omega arith; ms_pos = omega arith }
