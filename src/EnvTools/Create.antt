-- ===== src/EnvTools/Create.antt =====
-- env_create of broker/src/tools-env.ts, with the guard and the object of the new environment.
use gha_mcp_host.Prelude.{
  arith, ◌+◌, ◌*◌, ◌≤◌, ◌≡◌, ◌⊎◌, inl, inr, refl, sym, ap, ◌∙◌, max, Bool, true, false, Option,
  none, some, Bool-cases, if◌then◌else◌,
}
use gha_mcp_host.Text.{Text}
use gha_mcp_host.Result.{clamp}
use gha_mcp_host.EnvSchema.{provisioning, failed}
use gha_mcp_host.Guard.{
  Guard, closed, opened, BreakerStatus, breaker, trip, refund_env_create, Verdict, allow_env_create,
}
use gha_mcp_host.EnvDo.{Env}
use gha_mcp_host.EnvDo.Lifecycle.{minute_ms, provision, set_dispatch, mark_failed}
use gha_mcp_host.Github.{Dispatch, dispatched, not_dispatched, dispatch_workflow}
use gha_mcp_host.EnvTools.{
  CreateConfig, CreateArgs, Meets, Created, breaker_open, rate_capped, threw, not_created, created,
  ttl_of, is_suspension, after_dispatch, after_grant, env_create,
}

abbrev asked : CreateConfig → Meets → Guard → Guard × Option Verdict
asked cfg m g = allow_env_create g cfg.max_env_creates_per_hour m.deleted_at m.granted_at

-- What each answer of env_create says of the guard and the object, before and after.
abbrev pub IsCreated :
    (Text → Text) → CreateConfig → Meets → Guard → Env → Guard × Env × Created → Type 0
IsCreated lower cfg m g e (g', e', breaker_open b) =
    (b ≡ breaker g) × (b.is_open ≡ true) × (g' ≡ g) × (e' ≡ e)
IsCreated lower cfg m g e (g', e', rate_capped v) =
    ((breaker g).is_open ≡ false) × (v.allowed ≡ false) × (asked cfg m g ≡ (g', some v)) × (e' ≡ e)
IsCreated lower cfg m g e (g', e', threw) =
    ((breaker g).is_open ≡ false) × (asked cfg m g ≡ (g', none)) × (e' ≡ e)
IsCreated lower cfg m g e (g', e', not_created f) =
    ((breaker g).is_open ≡ false)
    × (dispatch_workflow lower m.response ≡ not_dispatched f)
    × (e'.meta.state ≡ some failed)
    × (g'.creates ≡ (refund_env_create (asked cfg m g).0).creates)
    × (((is_suspension f.code ≡ true) × ((breaker g').is_open ≡ true))
        ⊎ ((is_suspension f.code ≡ false) × (g' ≡ refund_env_create (asked cfg m g).0)))
IsCreated lower cfg m g e (g', e', created d v ttl) =
    ((breaker g).is_open ≡ false)
    × (dispatch_workflow lower m.response ≡ dispatched d)
    × (asked cfg m g ≡ (g', some v))
    × (v.allowed ≡ true)
    × (5 ≤ ttl)
    × (ttl ≤ max 5 cfg.max_ttl_minutes)
    × (e'.meta.env_id ≡ some m.env_id)
    × (e'.meta.state ≡ some provisioning)
    × (e'.meta.ttl_expires_at ≡ some (m.leased_at + ttl * minute_ms))

ttl_bounds :
    (cfg : CreateConfig) (args : CreateArgs)
    → (5 ≤ ttl_of cfg args) × (ttl_of cfg args ≤ max 5 cfg.max_ttl_minutes)
unfolding ttl_of clamp
ttl_bounds cfg args = (omega arith, omega arith)

dispatched-IsCreated :
    (lower : Text → Text) (cfg : CreateConfig) (args : CreateArgs) (m : Meets) (g0 g : Guard)
    (e0 e : Env) (v : Verdict) (d : Dispatch)
    → (breaker g0).is_open ≡ false
    → dispatch_workflow lower m.response ≡ d
    → asked cfg m g0 ≡ (g, some v)
    → v.allowed ≡ true
    → e.meta.env_id ≡ some m.env_id
    → e.meta.state ≡ some provisioning
    → e.meta.ttl_expires_at ≡ some (m.leased_at + ttl_of cfg args * minute_ms)
    → IsCreated lower cfg m g0 e0 (after_dispatch g e m v (ttl_of cfg args) d)
unfolding after_dispatch set_dispatch mark_failed trip breaker closed opened refund_env_create
dispatched-IsCreated lower cfg args m g0 g e0 e v (dispatched d) goes answer grant allowed id state
      lease =
    let (least, most) = ttl_bounds cfg args in
    (goes, answer, grant, allowed, least, most, id, state, lease)
dispatched-IsCreated lower cfg args m g0 g e0 e v (not_dispatched f) goes answer grant allowed id
      state lease =
    let back = ap (λ (p : Guard × Option Verdict). (refund_env_create p.0).creates) (sym grant) in
    elim (Bool-cases (is_suspension f.code)) [
      | inl suspended ↦ rw (suspended) (goes, answer, refl, back, inl (refl, refl))
      | inr other ↦ rw (other) (
        goes,
        answer,
        refl,
        back,
        inr (refl, ap (λ (p : Guard × Option Verdict). refund_env_create p.0) (sym grant)),
      )
    ]

by_test {ℓ κ} :
    {A : Type ℓ} {x y : A}
    → (b : Bool) (P : A → Type κ) → (b ≡ true → P x)
    → (b ≡ false → P y)
    → P (if b then x else y)
by_test true P on off = on refl
by_test false P on off = off refl

granted-IsCreated :
    (lower : Text → Text) (cfg : CreateConfig) (args : CreateArgs) (m : Meets) (g : Guard) (e : Env)
    (answer : Guard × Option Verdict)
    → (breaker g).is_open ≡ false
    → asked cfg m g ≡ answer
    → IsCreated lower cfg m g e (after_grant lower cfg args m e answer)
unfolding after_grant provision
granted-IsCreated lower cfg args m g e (g', none) goes asks = (goes, asks, refl)
granted-IsCreated lower cfg args m g e (g', some v) goes asks =
    by_test v.allowed (IsCreated lower cfg m g e)
      (λ allowed.
        dispatched-IsCreated lower cfg args m g g' e _ v (dispatch_workflow lower m.response) goes
          refl asks allowed refl refl refl)
      (λ capped. (goes, capped, asks, refl))

-- What env_create answers is what it did. It answers that the breaker is open exactly if it is, and
-- then changes nothing; every other answer is given with the breaker closed. A create over
-- the cap leaves the object as it was. A dispatch that fails marks the environment as failed, undoes
-- the grant as a refund does, and opens the breaker if the account is suspended; otherwise the guard is
-- the refunded one. A create that succeeds was granted and dispatched, and its environment is
-- provisioning under the new id, for at least 5 minutes and at most the ceiling (5 minutes where it is lower).
pub env_create-IsCreated :
    (lower : Text → Text) (cfg : CreateConfig) (args : CreateArgs) (m : Meets) (g : Guard) (e : Env)
    → IsCreated lower cfg m g e (env_create lower cfg args m g e)
unfolding env_create
env_create-IsCreated lower cfg args m g e =
    by_test (breaker g).is_open (IsCreated lower cfg m g e) (λ shut. (refl, shut, refl, refl))
      (λ goes. granted-IsCreated lower cfg args m g e (asked cfg m g) goes refl)

-- What becomes of the next env_create, by the answer of one that left the guard `g`.
abbrev pub Latches :
    (Text → Text) → CreateConfig → CreateArgs → Meets → Guard → Env → Created → Type 0
Latches lower cfg args m g next (not_created f) =
    (is_suspension f.code ≡ false)
    ⊎ (env_create lower cfg args m g next ≡ (g, next, breaker_open (breaker g)))
Latches lower cfg args m g next (breaker_open b) =
    env_create lower cfg args m g next ≡ (g, next, breaker_open (breaker g))
Latches lower cfg args m g next _ = Unit {0}

turned_away :
    (lower : Text → Text) (cfg : CreateConfig) (args : CreateArgs) (m : Meets) (g : Guard)
    (next : Env)
    → (breaker g).is_open ≡ true
    → env_create lower cfg args m g next ≡ (g, next, breaker_open (breaker g))
unfolding env_create
turned_away lower cfg args m g next shut =
    by_test (breaker g).is_open (λ r. r ≡ (g, next, breaker_open (breaker g))) (λ h. refl)
      (λ h. cc (h, shut))

latched :
    (lower : Text → Text) (cfg : CreateConfig) (args : CreateArgs) (m m' : Meets) (g : Guard)
    (e next : Env) (r : Guard × Env × Created)
    → IsCreated lower cfg m g e r
    → Latches lower cfg args m' r.0 next r.2
latched lower cfg args m m' g e next (g', e', breaker_open b) (same, shut, kept, _) =
    turned_away lower cfg args m' g' next (
      ap (λ (k : Guard). (breaker k).is_open) kept
      ∙ (ap (λ (k : BreakerStatus). k.is_open) (sym same) ∙ shut))
latched lower cfg args m m' g e next (g', e', rate_capped v) _ = tt
latched lower cfg args m m' g e next (g', e', threw) _ = tt
latched lower cfg args m m' g e next (g', e', created d v ttl) _ = tt
latched lower cfg args m m' g e next (g', e', not_created f) (_, _, _, _, inl (_, shut)) =
    inr (turned_away lower cfg args m' g' next shut)
latched lower cfg args m m' g e next (g', e', not_created f) (_, _, _, _, inr (other, _)) =
    inl other

-- Once an env_create has met a suspended account, or the open breaker, the next one dispatches nothing
-- and changes nothing, whatever it is asked for and whatever GitHub would answer.
pub env_create-Latches :
    (lower : Text → Text) (cfg : CreateConfig) (args args' : CreateArgs) (m m' : Meets) (g : Guard)
    (e next : Env)
    → let (g', e', answer) = env_create lower cfg args m g e in
      Latches lower cfg args' m' g' next answer
env_create-Latches lower cfg args args' m m' g e next =
    latched lower cfg args' m m' g e next (env_create lower cfg args m g e)
      (env_create-IsCreated lower cfg args m g e)
