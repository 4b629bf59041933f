-- ===== src/Guard/Refund.antt =====
-- refundEnvCreate of broker/src/guard-do.ts after a grant.
use gha_mcp_host.Prelude.{
  ℕ, suc, ◌+◌, ◌≤◌, ◌<◌, ◌≡◌, refl, List, [], ◌∷◌, not, arith, length, keep, ◌==◌, if◌then◌else◌,
  max,
}
use gha_mcp_host.Guard.{Guard, recent, newest, allow_env_create, refund_env_create}

abbrev pub AllLe : List ℕ → ℕ → Type 0
AllLe [] t = Unit {0}
AllLe (u ∷ us) t = (u ≤ t) × AllLe us t

abbrev pub AllGe : List ℕ → ℕ → Type 0
AllGe [] t = Unit {0}
AllGe (u ∷ us) t = (t ≤ u) × AllGe us t

-- How many rows carry this very timestamp.
pub at_count : ℕ → List ℕ → ℕ
at_count t [] = 0
at_count t (u ∷ us) = if u == t then suc (at_count t us) else at_count t us

newest-le : (us : List ℕ) (t : ℕ) → AllLe us t → newest us ≤ t
unfolding newest
newest-le [] t h = omega arith
newest-le (u ∷ us) t h = omega (arith, newest-le us t h.1)

keep-at_count :
    (t : ℕ) (us : List ℕ) → length (keep (λ u. not (u == t)) us) + at_count t us ≡ length us
unfolding at_count
keep-at_count t [] = refl
keep-at_count t (u ∷ us) = ground (arith, keep-at_count t us)

-- A granted create that is refunded at once gives back its own row, and with it every other row of
-- the same millisecond.
pub refund-allow :
    (g : Guard) (cap now later : ℕ)
    → length (recent now g.creates) < cap
    → AllLe (recent now g.creates) later
    → let g' = refund_env_create (allow_env_create g cap now later).0 in
      length g'.creates + at_count later (recent now g.creates) ≡ length (recent now g.creates)
unfolding refund_env_create allow_env_create newest
refund-allow g cap now later h le =
    let rows = recent now g.creates in
    ground (
      arith,
      newest-le rows later le,
      keep-at_count later rows,
      keep-at_count (max later (newest rows)) rows,
    )
