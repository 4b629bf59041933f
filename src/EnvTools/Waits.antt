-- ===== src/EnvTools/Waits.antt =====
-- The wait of env_status, and of env_create, of broker/src/tools-env.ts.
use gha_mcp_host.Prelude.{
  arith, ℕ, zero, suc, ◌+◌, ◌-◌, ◌≤◌, ◌<◌, ◌≡◌, ◌↔◌, ◌⊎◌, ltb, inl, inr, refl, ◌∙◌, Bool, true,
  false, Option, none, some, String, Bool-cases, Option-cases,
}
use gha_mcp_host.EnvSchema.{EnvState, provisioning, ready, destroying, expired, failed, lost, Num}
use gha_mcp_host.EnvDo.Snapshot.{Item, Snapshot, build_snapshot}
use gha_mcp_host.Run.{World, IsTimely, is_expired, tick, tick_goes, tick_stops, over_at_once}
use gha_mcp_host.EnvTools.{
  is_provisioning, wait_loop, Status, env_not_found, threw, status, do_execute, do_env_status,
  next_of, conclude, found_status, env_status,
}
use gha_mcp_host.Run.Submit.{num_arg}
use gha_mcp_host.Result.{clamp}
use mathlib.Core.Option

-- A snapshot that is `first`, or that the object gave at some time.
abbrev pub IsGiven : World → (Item → ℕ) → Bool → Snapshot → Snapshot → Type 0
IsGiven w cost verbose first snap =
    (snap ≡ first) ⊎ ((t : ℕ) × (snap ≡ (build_snapshot cost (w.env t) verbose t).0))

-- A wait ends with such a snapshot, once the environment is no longer provisioning or the deadline is
-- over; or with a snapshot that could not be had.
abbrev pub HasWaited :
    World → (Item → ℕ) → Bool → ℕ → Snapshot → Option (Option (Snapshot × ℕ)) → Type 0
HasWaited w cost verbose at first none = ⊥
HasWaited w cost verbose at first (some none) = (t : ℕ) × (w.reachable t ≡ false)
HasWaited w cost verbose at first (some (some (snap, t))) =
    IsGiven w cost verbose first snap
    × ((is_provisioning snap.state ≡ false) ⊎ (is_expired w at t ≡ true))

-- If no answer comes before its call, time does not run back in a sleep and no timer fires early, then
-- with more rounds than there are milliseconds to the deadline the wait for a runner ends: with a
-- snapshot of which the environment is not provisioning, or when the deadline is over or the client
-- has gone; or it throws, when the object cannot be reached.
pub wait_loop-HasWaited :
    (w : World) (cost : Item → ℕ) (verbose : Bool) (at fuel t : ℕ) (first snap : Snapshot)
    → IsTimely w
    → at - t < fuel
    → IsGiven w cost verbose first snap
    → HasWaited w cost verbose at first (wait_loop w cost verbose at fuel t snap)
unfolding wait_loop
wait_loop-HasWaited w cost verbose at zero t first snap timely enough given = omega arith
wait_loop-HasWaited w cost verbose at (suc n) t first snap timely enough given =
    let t' = (tick w at 1500 t).1 in
    elim (Bool-cases (is_provisioning snap.state)) [
      | inr done ↦ rw (done) (given, inl done)
      | inl queued ↦ elim (Bool-cases (tick w at 1500 t).0) [
        | inr stops ↦ rw (queued, stops) (given, inr (tick_stops w at 1500 t stops))
        | inl goes ↦ elim (Bool-cases (w.reachable t')) [
          | inr missed ↦ rw (queued, goes, missed) (t', missed)
          | inl reached ↦
              let further = tick_goes w at 1500 t timely (omega arith) goes in
              rw (queued, goes, reached)
                (wait_loop-HasWaited w cost verbose at n (w.answered t') first
                  (build_snapshot cost (w.env t') verbose t').0 timely
                  (omega (arith, further, timely.answers_later t')) (inr (t', refl)))
        ]
      ]
    ]

-- What each answer of env_status means, for a wait with the deadline `at`.
abbrev pub IsStatus : World → (Item → ℕ) → Bool → ℕ → Snapshot → Status → Type 0
IsStatus w cost verbose at first env_not_found = first.env_id ≡ none
IsStatus w cost verbose at first threw = (t : ℕ) × (w.reachable t ≡ false)
IsStatus w cost verbose at first (status snap hint next) =
    IsGiven w cost verbose first snap
    × ((next ≡ do_execute) ↔ (snap.state ≡ ready))
    × ((next ≡ do_env_status) ↔ (snap.state ≡ provisioning))
    × ((is_provisioning snap.state ≡ false) ⊎ ((t : ℕ) × (is_expired w at t ≡ true)))

next_of_lem :
    (s : EnvState)
    → ((next_of s ≡ do_execute) ↔ (s ≡ ready)) × ((next_of s ≡ do_env_status) ↔ (s ≡ provisioning))
unfolding next_of
next_of_lem ready = (((λ h. refl), (λ h. refl)), ((λ h. cc h), (λ h. cc h)))
next_of_lem provisioning = (((λ h. cc h), (λ h. cc h)), ((λ h. refl), (λ h. refl)))
next_of_lem destroying = (((λ h. cc h), (λ h. cc h)), ((λ h. cc h), (λ h. cc h)))
next_of_lem expired = (((λ h. cc h), (λ h. cc h)), ((λ h. cc h), (λ h. cc h)))
next_of_lem failed = (((λ h. cc h), (λ h. cc h)), ((λ h. cc h), (λ h. cc h)))
next_of_lem lost = (((λ h. cc h), (λ h. cc h)), ((λ h. cc h), (λ h. cc h)))

waited :
    (w : World) (cost : Item → ℕ) (verbose : Bool) (at : ℕ) (first : Snapshot)
    (o : Option (Option (Snapshot × ℕ)))
    → HasWaited w cost verbose at first o
    → (x : Status) × (Option.map conclude o ≡ some x) × IsStatus w cost verbose at first x
unfolding conclude
waited w cost verbose at first none ok = absurd ok
waited w cost verbose at first (some none) ok = (threw, refl, ok)
waited w cost verbose at first (some (some (snap, t))) (given, inl done) =
    let (go, wait) = next_of_lem snap.state in
    (conclude (some (snap, t)), refl, (given, go, wait, inl done))
waited w cost verbose at first (some (some (snap, t))) (given, inr over) =
    let (go, wait) = next_of_lem snap.state in
    (conclude (some (snap, t)), refl, (given, go, wait, inr (t, over)))

found_status_lem :
    (w : World) (cost : Item → ℕ) (verbose : Bool) (ms : ℕ) (first : Snapshot) (t fuel : ℕ)
    → IsTimely w
    → ms < fuel
    → (x : Status) × (at : ℕ) × (at ≤ t + ms)
      × (found_status w cost verbose ms first t fuel ≡ some x)
      × IsStatus w cost verbose at first x
unfolding found_status
found_status_lem w cost verbose ms first t fuel timely enough = elim (Bool-cases (ltb 0 ms)) [
  | inl waits ↦
      let (x, same, means) =
        waited w cost verbose (t + ms) first (wait_loop w cost verbose (t + ms) fuel t first) (
          wait_loop-HasWaited w cost verbose (t + ms) fuel t first first timely (omega arith)
            (inl refl)) in
      (x, t + ms, omega arith, rw (waits) refl ∙ same, means)
  | inr at_once ↦
      let (x, same, means) =
        waited w cost verbose t first (some (some (first, t)))
          (inl refl, inr (over_at_once w t t (omega arith))) in
      (x, t, omega arith, rw (at_once) refl ∙ same, means)
]

known :
    (o : Option String) (x y : Option Status) (id : String)
    → o ≡ some id
    → (elim o as (λ k. Option Status) [ none ↦ x | some k ↦ y ]) ≡ y
known none x y id h = cc h
known (some k) x y id h = refl

found :
    (w : World) (cost : Item → ℕ) (verbose : Bool) (wait_ready_ms : Option Num) (first : Snapshot)
    (t fuel : ℕ) (id : String)
    → first.env_id ≡ some id
    → env_status w cost verbose wait_ready_ms first t fuel
      ≡ found_status w cost verbose (clamp (num_arg wait_ready_ms 0) 0 45_000) first t fuel
unfolding env_status
found w cost verbose wait_ready_ms first t fuel id there =
    known first.env_id (some env_not_found)
      (found_status w cost verbose (clamp (num_arg wait_ready_ms 0) 0 45_000) first t fuel) id there

-- If no answer comes before its call, time does not run back in a sleep and no timer fires early, then
-- with more rounds than 45 seconds have milliseconds env_status answers. The environment is not found
-- only if the first snapshot has no id, and the call throws only if the object could not be reached.
-- Otherwise it tells what the object gave, says to go on with execute exactly if that is ready and
-- with env_status exactly if it is provisioning, which it is only once the deadline is over, which
-- is at most 45 seconds off, or the client has gone.
pub env_status_lem :
    (w : World) (cost : Item → ℕ) (verbose : Bool) (wait_ready_ms : Option Num) (first : Snapshot)
    (t fuel : ℕ)
    → IsTimely w
    → 45_000 < fuel
    → (x : Status) × (at : ℕ) × (at ≤ t + 45_000)
      × (env_status w cost verbose wait_ready_ms first t fuel ≡ some x)
      × IsStatus w cost verbose at first x
unfolding env_status clamp
env_status_lem w cost verbose wait_ready_ms first t fuel timely enough =
    elim (Option-cases first.env_id) [
      | inl absent ↦ (env_not_found, t, omega arith, rw (absent, env_status) refl, absent)
      | inr (id, there) ↦
          let ms = clamp (num_arg wait_ready_ms 0) 0 45_000 in
          let (x, at, by, same, means) =
            found_status_lem w cost verbose ms first t fuel timely (omega arith) in
          (
            x,
            at,
            omega (arith, by),
            found w cost verbose wait_ready_ms first t fuel id there ∙ same,
            means,
          )
    ]
