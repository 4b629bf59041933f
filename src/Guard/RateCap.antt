-- ===== src/Guard/RateCap.antt =====
-- The hourly cap of broker/src/guard-do.ts over sequences of calls.
use mathlib.Core.Option
use gha_mcp_host.Prelude.{
  ℕ, suc, ◌+◌, ◌≤◌, ◌≡◌, refl, List, [], ◌∷◌, Option, none, some, arith, length, leb, ◌&&◌,
  if◌then◌else◌,
}
use gha_mcp_host.Guard.{Guard, Verdict, hour_ms, recent, oldest, refused, allow_env_create}

-- How many times lie at or after `t`.
pub since_count : ℕ → List ℕ → ℕ
since_count t [] = 0
since_count t (u ∷ us) = if leb t u then suc (since_count t us) else since_count t us

-- How many lie in the hour that begins at `t`, its ends included.
pub hour_count : ℕ → List ℕ → ℕ
hour_count t [] = 0
hour_count t (u ∷ us) =
    if leb t u && leb u (t + hour_ms) then suc (hour_count t us) else hour_count t us

since_count-le : (t : ℕ) (us : List ℕ) → since_count t us ≤ length us
unfolding since_count
since_count-le t [] = omega arith
since_count-le t (u ∷ us) = ground (arith, since_count-le t us)

hour_count-le : (t : ℕ) (us : List ℕ) → hour_count t us ≤ since_count t us
unfolding hour_count since_count
hour_count-le t [] = omega arith
hour_count-le t (u ∷ us) = ground (arith, hour_count-le t us)

since_count-recent :
    (t now : ℕ) (us : List ℕ) → now ≤ t + hour_ms → since_count t (recent now us) ≡ since_count t us
unfolding since_count recent
since_count-recent t now [] h = refl
since_count-recent t now (u ∷ us) h = ground (arith, since_count-recent t now us h)

-- Calls with the times of their two clock reads, in the order of the first.
abbrev pub Chronological : ℕ → List (ℕ × ℕ) → Type 0
Chronological t [] = Unit {0}
Chronological t ((now, later) ∷ calls) = (t ≤ now) × (now ≤ later) × Chronological now calls

-- The grants of one call, on top of those before it.
abbrev pub log_grant : ℕ → Option Verdict → List ℕ → List ℕ
log_grant later none log = log
log_grant later (some v) log = if v.allowed then later ∷ log else log

-- The guard and all grants after a list of calls under one cap.
pub run : ℕ → Guard → List ℕ → List (ℕ × ℕ) → Guard × List ℕ
run cap g log [] = (g, log)
run cap g log ((now, later) ∷ calls) =
    let (g', v) = allow_env_create g cap now later in run cap g' (log_grant later v log) calls

record Covers (cap t : ℕ) (g : Guard) (log : List ℕ) : Type 0 where
  hours : (from : ℕ) → hour_count from log ≤ cap
  kept : (from : ℕ) → t ≤ from + hour_ms → since_count from log ≤ since_count from g.creates

-- A refusal or a crash grants nothing.
log_refused :
    (cap later : ℕ) (rows log : List ℕ) (o : Option ℕ)
    → log_grant later (Option.map (refused cap rows later) o) log ≡ log
unfolding refused
log_refused cap later rows log none = refl
log_refused cap later rows log (some t) = refl

module _ (cap t now later : ℕ) (g : Guard) (log : List ℕ) (c : Covers cap t g log) where
  step-hours :
      t ≤ now
      → now ≤ later
      → (from : ℕ)
      → let (g', v) = allow_env_create g cap now later in
        hour_count from (log_grant later v log) ≤ cap
  unfolding allow_env_create hour_count
  step-hours p q from =
      let rows = recent now g.creates in
      ground (
        arith,
        log_refused cap later rows log (oldest rows),
        c.hours from,
        c.kept from,
        hour_count-le from log,
        since_count-recent from now g.creates,
        since_count-le from rows,
      )

  step-kept :
      t ≤ now
      → (from : ℕ) → now ≤ from + hour_ms
      → let (g', v) = allow_env_create g cap now later in
        since_count from (log_grant later v log) ≤ since_count from g'.creates
  unfolding allow_env_create since_count
  step-kept p from r =
      let rows = recent now g.creates in
      ground (
        arith,
        log_refused cap later rows log (oldest rows),
        c.kept from,
        since_count-recent from now g.creates,
      )

run-Covers :
    (cap t : ℕ) (g : Guard) (log : List ℕ) (calls : List (ℕ × ℕ))
    → Chronological t calls
    → Covers cap t g log
    → (from : ℕ) → hour_count from (run cap g log calls).1 ≤ cap
unfolding run
run-Covers cap t g log [] h c from = c.hours from
run-Covers cap t g log ((now, later) ∷ calls) h c from =
    let (g', v) = allow_env_create g cap now later in
    run-Covers cap now g' (log_grant later v log) calls h.2
      (record {
        hours = step-hours cap t now later g log c h.0 h.1;
        kept = step-kept cap t now later g log c h.0;
      })
      from

-- From a guard whose grants so far are none, and while no grant is refunded, every hour sees at most
-- `cap` grants, wherever the hour begins and whatever calls arrive in the order of time.
pub run-hour_count :
    (cap : ℕ) (g : Guard) (calls : List (ℕ × ℕ))
    → Chronological 0 calls
    → (from : ℕ) → hour_count from (run cap g [] calls).1 ≤ cap
unfolding hour_count since_count
run-hour_count cap g calls h from =
    run-Covers cap 0 g [] calls h (record { hours = λ _. omega arith; kept = λ _ _. omega arith })
      from
