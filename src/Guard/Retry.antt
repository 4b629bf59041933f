-- ===== src/Guard/Retry.antt =====
-- The wait that allowEnvCreate of broker/src/guard-do.ts names.
use gha_mcp_host.Prelude.{
  ℕ, ◌+◌, ◌-◌, ◌≤◌, ◌<◌, ◌≡◌, refl, ap, List, [], ◌∷◌, Option, none, some, Bool, true, false, arith,
  length, min,
}
use gha_mcp_host.Guard.{
  Guard, Verdict, hour_ms, recent, oldest, least, refused, granted, allow_env_create,
}
use gha_mcp_host.Guard.Refund.{AllGe}

AllGe-mono : {s t : ℕ} (us : List ℕ) → s ≤ t → AllGe us t → AllGe us s
AllGe-mono [] h a = tt
AllGe-mono (u ∷ us) h a = (omega arith, AllGe-mono us h a.1)

least-le : (t : ℕ) (us : List ℕ) → least t us ≤ t
unfolding least
least-le t [] = omega arith
least-le t (u ∷ us) = omega (arith, least-le (min t u) us)

least-AllGe : (t : ℕ) (us : List ℕ) → AllGe us (least t us)
unfolding least
least-AllGe t [] = tt
least-AllGe t (u ∷ us) = (omega (arith, least-le (min t u) us), least-AllGe (min t u) us)

oldest-AllGe : (us : List ℕ) (o : ℕ) → oldest us ≡ some o → AllGe us o
unfolding oldest
oldest-AllGe [] o e = tt
oldest-AllGe (u ∷ us) o e =
    let e' : least u us ≡ o = cc in
    (omega (arith, least-le u us), AllGe-mono us (omega arith) (least-AllGe u us))

recent_all : (now : ℕ) (us : List ℕ) (o : ℕ) → AllGe us o → now ≤ o + hour_ms → recent now us ≡ us
unfolding recent
recent_all now [] o a h = refl
recent_all now (u ∷ us) o a h = ground (arith, recent_all now us o a.1 h)

recent-least :
    (now t : ℕ) (us : List ℕ)
    → least t us + hour_ms < now
    → length (recent now (t ∷ us)) ≤ length us
unfolding recent least
recent-least now t [] h = ground arith
recent-least now t (u ∷ us) h = ground (arith, recent-least now (min t u) us h)

recent-oldest :
    (now : ℕ) (us : List ℕ) (o : ℕ)
    → oldest us ≡ some o
    → o + hour_ms < now
    → length (recent now us) < length us
unfolding oldest
recent-oldest now [] o e h = cc
recent-oldest now (u ∷ us) o e h =
    let e' : least u us ≡ o = cc in omega (arith, recent-least now u us (omega arith))

abbrev pub allows : Option Verdict → Bool
allows none = false
allows (some v) = v.allowed

abbrev pub wait_of : Option Verdict → Option ℕ
wait_of none = none
wait_of (some v) = v.retry_after_ms

allow_full :
    (g : Guard) (cap now later o : ℕ) (rows : List ℕ)
    → recent now g.creates ≡ rows
    → oldest rows ≡ some o
    → cap ≤ length rows
    → allow_env_create g cap now later
      ≡ (record g { creates = rows }, some (refused cap rows later o))
unfolding allow_env_create
allow_full g cap now later o rows r e full = rw r (ground (arith, e))

allow_room :
    (g : Guard) (cap now later : ℕ)
    → length (recent now g.creates) < cap
    → allows (allow_env_create g cap now later).1 ≡ true
unfolding allow_env_create granted
allow_room g cap now later h = ground arith

-- A guard exactly at its cap refuses and names a wait. A call made when exactly that wait is over is
-- refused once more; one made a millisecond later is granted. (The cap is full, its oldest row is
-- `o`, and at least a second is left of that row's hour.)
pub retry_after_early :
    (g : Guard) (cap now later o : ℕ)
    → length (recent now g.creates) ≡ cap
    → oldest (recent now g.creates) ≡ some o
    → later + 1000 ≤ o + hour_ms
    → let (g', v) = allow_env_create g cap now later in
      (wait_of v ≡ some (o + hour_ms - later))
      × (allows v ≡ false)
      × (allows (allow_env_create g' cap (o + hour_ms) (o + hour_ms)).1 ≡ false)
      × (allows (allow_env_create g' cap (o + hour_ms + 1) (o + hour_ms + 1)).1 ≡ true)
unfolding refused
retry_after_early g cap now later o full e far =
    let rows = recent now g.creates in
    let g' : Guard = record g { creates = rows } in
    let due = o + hour_ms in
    let again = recent_all due rows o (oldest-AllGe rows o e) (omega arith) in
    rw (allow_full g cap now later o rows refl e (omega arith)) (
      ground arith,
      refl,
      ap (λ p. allows p.1) (allow_full g' cap due due o rows again e (omega arith)),
      allow_room g' cap (due + 1) (due + 1)
          (omega (arith, recent-oldest (due + 1) rows o e (omega arith))),
    )
