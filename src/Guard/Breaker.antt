-- ===== src/Guard/Breaker.antt =====
-- The breaker of broker/src/guard-do.ts over sequences of calls.
use gha_mcp_host.Prelude.{ℕ, ◌≡◌, refl, String, List, [], ◌∷◌, true, false, arith}
use gha_mcp_host.Guard.{Guard, breaker, trip, reset, allow_env_create, refund_env_create}

-- The calls that the object answers.
pub data Call : Type 0 where
  trips : String → String → ℕ → Call
  resets refunds : Call
  creates : ℕ → ℕ → ℕ → Call

pub step : Guard → Call → Guard
step g (trips code message now) = trip g code message now
step g resets = reset g
step g refunds = refund_env_create g
step g (creates cap now later) = (allow_env_create g cap now later).0

abbrev pub NoReset : List Call → Type 0
NoReset [] = Unit {0}
NoReset (resets ∷ cs) = ⊥
NoReset (_ ∷ cs) = NoReset cs

pub steps : Guard → List Call → Guard
steps g [] = g
steps g (c ∷ cs) = steps (step g c) cs

tripped_allow :
    (g : Guard) (cap now later : ℕ) → (allow_env_create g cap now later).0.tripped ≡ g.tripped
unfolding allow_env_create
tripped_allow g cap now later = ground arith

open_of_tripped :
    (g h : Guard) → h.tripped ≡ g.tripped → (breaker g).is_open ≡ true → (breaker h).is_open ≡ true
unfolding breaker
open_of_tripped g h e o = ground arith

step-open :
    (g : Guard) (c : Call) (cs : List Call)
    → NoReset (c ∷ cs)
    → (breaker g).is_open ≡ true
    → (breaker (step g c)).is_open ≡ true
unfolding step trip refund_env_create breaker
step-open g (trips code message now) cs n o = refl
step-open g resets cs n o = absurd n
step-open g refunds cs n o = o
step-open g (creates cap now later) cs n o =
    open_of_tripped g (allow_env_create g cap now later).0 (tripped_allow g cap now later) o

NoReset-tail : (c : Call) (cs : List Call) → NoReset (c ∷ cs) → NoReset cs
NoReset-tail (trips code message now) cs n = n
NoReset-tail resets cs n = absurd n
NoReset-tail refunds cs n = n
NoReset-tail (creates cap now later) cs n = n

steps-open :
    (g : Guard) (cs : List Call)
    → NoReset cs
    → (breaker g).is_open ≡ true
    → (breaker (steps g cs)).is_open ≡ true
unfolding steps
steps-open g [] n o = o
steps-open g (c ∷ cs) n o = steps-open (step g c) cs (NoReset-tail c cs n) (step-open g c cs n o)

-- After a trip the breaker is open through every later call but a reset, and a reset closes it.
pub breaker_latches :
    (g : Guard) (code message : String) (now : ℕ) (cs : List Call)
    → NoReset cs
    → ((breaker (steps (trip g code message now) cs)).is_open ≡ true)
      × ((breaker (reset (steps (trip g code message now) cs))).is_open ≡ false)
unfolding trip reset breaker
breaker_latches g code message now cs n = (steps-open (trip g code message now) cs n refl, refl)
