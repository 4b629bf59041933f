-- ===== src/EnvDo/Lifecycle/Lease.antt =====
-- extend and authAgent of broker/src/env-do.ts: the lease.
use gha_mcp_host.Prelude.{
  ℕ, ◌+◌, ◌*◌, ◌≤◌, ◌<◌, ◌≡◌, ◌≢◌, ◌↔◌, refl, ap, ◌∙◌, max, true, String, Option, none, some, arith,
  ltb, get_or_else, if◌then◌else◌, Bool-cases, inl, inr, ◌⊎◌,
}
use gha_mcp_host.EnvSchema.{EnvState, ready, destroying, expired}
use gha_mcp_host.EnvDo.{Env}
use gha_mcp_host.EnvDo.Lifecycle.{
  minute_ms, authorized, gone, token_matches, auth_in, lease_check, auth_agent, extend,
}

-- The lease that `extend` starts from, and the latest one that it grants by itself.
abbrev pub lease_of : Env → ℕ → ℕ
lease_of e now = get_or_else e.meta.ttl_expires_at now

abbrev pub ceiling : Env → ℕ → ℕ → ℕ
ceiling e max_ttl_minutes now = get_or_else e.meta.created_at now + max_ttl_minutes * minute_ms

-- `extend` stores the lease that it answers. That lease is never before the one that the
-- environment had, never after both the ceiling and that one, and where no warning is given it is
-- the whole of what was asked for, counted from the later one of now and the old lease.
pub extend_lem :
    (e : Env) (minutes max_ttl_minutes now : ℕ)
    → let (e', r) = extend e minutes max_ttl_minutes now in
      (e'.meta.ttl_expires_at ≡ some r.ttl_expires_at)
      × (lease_of e now ≤ r.ttl_expires_at)
      × (r.ttl_expires_at ≤ max (lease_of e now) (ceiling e max_ttl_minutes now))
      × ((r.clamped ≡ true) ⊎ (r.ttl_expires_at ≡ max (lease_of e now) now + minutes * minute_ms))
unfolding extend
extend_lem e minutes m now =
    extend_bounds (lease_of e now) (ceiling e m now)
      (max (lease_of e now) now + minutes * minute_ms) (omega arith)
  where
    extend_bounds :
        (current cap wanted : ℕ)
        → current ≤ wanted
        → let next = if ltb cap wanted then cap else wanted in
          let lease = if ltb next current then current else next in
          (some lease ≡ some lease)
          × (current ≤ lease)
          × (lease ≤ max current cap)
          × ((ltb cap wanted ≡ true) ⊎ (lease ≡ wanted))
    extend_bounds current cap wanted h = (refl, ground arith, ground arith, ground arith)

-- The token is the stored one, nobody ended the environment, and the lease has not run out.
abbrev pub MayEnter : Env → String → ℕ → Type 0
MayEnter e token now =
    (token_matches e.meta.agent_token token ≡ true)
    × (e.meta.state ≢ some destroying)
    × (e.meta.state ≢ some expired)
    × (now ≤ get_or_else e.meta.ttl_expires_at 0)

in_lease :
    (e : Env) (now : ℕ)
    → ((lease_check e now).1 ≡ authorized) ↔ (now ≤ get_or_else e.meta.ttl_expires_at 0)
unfolding lease_check
in_lease e now = (λ h. ground arith, λ h. ground arith)

enters :
    (e : Env) (s : Option EnvState) (now : ℕ)
    → ((auth_in s e now).1 ≡ authorized)
      ↔ ((s ≢ some destroying) × (s ≢ some expired) × (now ≤ get_or_else e.meta.ttl_expires_at 0))
unfolding auth_in
enters e (some destroying) now = (λ h. cc, λ h. absurd (h.0 refl))
enters e (some expired) now = (λ h. cc, λ h. absurd (h.1 refl))
enters e none now = (λ h. (λ q. cc, λ q. cc, (in_lease e now).0 h), λ h. (in_lease e now).1 h.2)
enters e _ now = (λ h. (λ q. cc, λ q. cc, (in_lease e now).0 h), λ h. (in_lease e now).1 h.2)

-- An agent is authorized exactly when it may enter. The lease is read on every request, so an
-- extension counts at once.
pub auth_agent_iff :
    (e : Env) (token : String) (now : ℕ)
    → ((auth_agent e token now).1 ≡ authorized) ↔ MayEnter e token now
unfolding auth_agent
auth_agent_iff e token now = elim (Bool-cases (token_matches e.meta.agent_token token)) [
  | inl good ↦
      rw (good, auth_agent)
        (
          λ h. let (a, b, c) = (enters e e.meta.state now).0 h in (refl, a, b, c),
          λ h. (enters e e.meta.state now).1 (h.1, h.2, h.3),
        )
  | inr bad ↦ rw (bad, auth_agent) (λ h. cc, λ h. cc (h.0))
]

state-extend :
    (e : Env) (minutes m now : ℕ)
    → ((extend e minutes m now).0.meta.state ≡ e.meta.state)
      × ((extend e minutes m now).0.meta.agent_token ≡ e.meta.agent_token)
unfolding extend
state-extend e minutes m now = (refl, refl)

expired_gone :
    (e : Env) (token : String) (now : ℕ)
    → token_matches e.meta.agent_token token ≡ true
    → e.meta.state ≡ some expired
    → (auth_agent e token now).1 ≡ gone expired
unfolding auth_agent auth_in
expired_gone e token now good s = rw (good, s)

lapse_stored :
    (e : Env) (token : String) (now : ℕ)
    → token_matches e.meta.agent_token token ≡ true
    → e.meta.state ≡ some ready
    → get_or_else e.meta.ttl_expires_at 0 < now
    → ((auth_agent e token now).0.meta.state ≡ some expired)
      × ((auth_agent e token now).0.meta.agent_token ≡ e.meta.agent_token)
unfolding auth_agent auth_in lease_check
lapse_stored e token now good s late = rw (good, s) (ground arith)

-- Once one request of the agent has met a lapsed lease, no extension, however long, lets that agent
-- in again: the stored state is `expired`, and `extend` leaves it.
pub extend_after_lapse :
    (e : Env) (token : String) (now minutes max_ttl_minutes extended_at asked_at : ℕ)
    → token_matches e.meta.agent_token token ≡ true
    → e.meta.state ≡ some ready
    → get_or_else e.meta.ttl_expires_at 0 < now
    → let e' = (extend (auth_agent e token now).0 minutes max_ttl_minutes extended_at).0 in
      (auth_agent e' token asked_at).1 ≡ gone expired
extend_after_lapse e token now minutes m extended_at asked_at good s late =
    let lapsed = (auth_agent e token now).0 in
    let (same_state, same_token) = state-extend lapsed minutes m extended_at in
    let (stored, kept) = lapse_stored e token now good s late in
    expired_gone (extend lapsed minutes m extended_at).0 token asked_at
      (ap (λ t. token_matches t token) (same_token ∙ kept) ∙ good) (same_state ∙ stored)
