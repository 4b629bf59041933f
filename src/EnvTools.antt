-- ===== src/EnvTools.antt =====
-- broker/src/tools-env.ts: env_create, env_status, env_destroy and env_extend. The new environment's id is
-- an argument, and the platform is named by its text.
pub mod Create
pub mod Waits
pub mod Destroy
mod Tests
use gha_mcp_host.Prelude.{
  ℕ, zero, suc, ◌+◌, ◌-◌, ◌/◌, max, min, Bool, true, false, String, List, [], ◌∷◌, Option, none,
  some, if◌then◌else◌, get_or_else, ltb, str_eq,
}
use mathlib.Core.Option
use gha_mcp_host.Text.{Text}
use gha_mcp_host.Result.{clamp}
use gha_mcp_host.EnvSchema.{EnvState, provisioning, ready, failed, FailureReason, Num}
use gha_mcp_host.Guard.{
  Guard, breaker, BreakerStatus, Verdict, allow_env_create, refund_env_create, trip,
}
use gha_mcp_host.EnvDo.{Env}
use gha_mcp_host.EnvDo.Lifecycle.{
  Provision, provision, set_dispatch, mark_failed, mark_destroying, Extended, extend,
}
use gha_mcp_host.EnvDo.Snapshot.{Item, Snapshot, build_snapshot}
use gha_mcp_host.Github.{
  GhFailure, GhCode, account_suspended, code_name, Response, DispatchOk, Dispatch, dispatched,
  not_dispatched, dispatch_workflow, Cancelled, cancel_run,
}
use gha_mcp_host.Run.{World, tick}
use gha_mcp_host.Run.Submit.{num_arg}

pub record CreateConfig : Type 0 where
  pub default_ttl_minutes : ℕ
  pub max_ttl_minutes : ℕ
  pub max_env_creates_per_hour : ℕ

pub record CreateArgs : Type 0 where
  pub platform : String
  pub ttl_minutes : Option Num
  pub label : Option String

-- What the calls of one env_create meet: the new id, GitHub's answer with the text that a failure is
-- recorded by, and the readings of the clock.
pub record Meets : Type 0 where
  pub env_id : String
  pub response : Option Response
  pub reason_of : GhFailure → String
  pub message_of : GhFailure → String
  pub deleted_at : ℕ
  pub granted_at : ℕ
  pub created_at : ℕ
  pub leased_at : ℕ
  pub tripped_at : ℕ

pub data Created : Type 0 where
  breaker_open : BreakerStatus → Created
  rate_capped : Verdict → Created
  threw : Created
  not_created : GhFailure → Created
  created : DispatchOk → Verdict → ℕ → Created

pub ttl_of : CreateConfig → CreateArgs → ℕ
unfolding clamp num_arg
ttl_of cfg args = clamp (num_arg args.ttl_minutes cfg.default_ttl_minutes) 5 cfg.max_ttl_minutes

abbrev pub is_suspension : GhCode → Bool
is_suspension account_suspended = true
is_suspension _ = false

-- What follows the dispatch, up to the first snapshot.
pub after_dispatch : Guard → Env → Meets → Verdict → ℕ → Dispatch → Guard × Env × Created
after_dispatch g e m v ttl (dispatched d) =
    (g, set_dispatch e d.run_id d.run_attempt d.run_url, created d v ttl)
after_dispatch g e m v ttl (not_dispatched f) =
    let g' = refund_env_create g in
    (
      if is_suspension f.code then trip g' (code_name f.code) (m.message_of f) m.tripped_at else g',
      mark_failed e (m.reason_of f),
      not_created f,
    )

-- The grant's answer, then provision and the dispatch.
pub after_grant :
    (Text → Text)
    → CreateConfig
    → CreateArgs
    → Meets
    → Env
    → Guard × Option Verdict
    → Guard × Env × Created
unfolding after_dispatch ttl_of
after_grant lower cfg args m e (g, none) = (g, e, threw)
after_grant lower cfg args m e (g, some v) =
    let ttl = ttl_of cfg args in
    let e' =
      provision e
        (record {
          env_id = m.env_id;
          platform = args.platform;
          ttl_minutes = ttl;
          label = args.label;
          created_by = none;
        })
        m.created_at m.leased_at in
    let done = after_dispatch g e' m v ttl (dispatch_workflow lower m.response) in
    if v.allowed then done else (g, e, rate_capped v)

-- env_create, without the wait. `e` is the object of the new id.
pub env_create :
    (Text → Text) → CreateConfig → CreateArgs → Meets → Guard → Env → Guard × Env × Created
unfolding after_grant
env_create lower cfg args m g e =
    let b = breaker g in
    if b.is_open
    then (g, e, breaker_open b)
    else after_grant lower cfg args m e
        (allow_env_create g cfg.max_env_creates_per_hour m.deleted_at m.granted_at)

-- `while (snap.state === "provisioning" && (await dl.tick(1500)))`, with the answer's time; none inside
-- if a snapshot fails.
abbrev pub is_provisioning : EnvState → Bool
is_provisioning provisioning = true
is_provisioning _ = false

pub wait_loop : World → (Item → ℕ) → Bool → ℕ → ℕ → ℕ → Snapshot → Option (Option (Snapshot × ℕ))
wait_loop w cost verbose at zero t snap = none
wait_loop w cost verbose at (suc n) t snap =
    let (goes, t') = tick w at 1500 t in
    let rest =
      wait_loop w cost verbose at n (w.answered t') (build_snapshot cost (w.env t') verbose t').0 in
    if is_provisioning snap.state
    then (if goes then (if w.reachable t' then rest else some none) else some (some (snap, t')))
    else some (some (snap, t))

pub data Next : Type 0 where
  do_execute do_env_status do_env_create : Next

-- env_status: what to do next, by the state that it ends with.
pub next_of : EnvState → Next
next_of ready = do_execute
next_of provisioning = do_env_status
next_of _ = do_env_create

pub data Status : Type 0 where
  env_not_found : Status
  threw : Status
  status : Snapshot → Option FailureReason → Next → Status

abbrev hint_of : Snapshot → Option FailureReason
hint_of snap = elim snap.state [ failed ↦ snap.failure_reason | _ ↦ none ]

conclude : Option (Snapshot × ℕ) → Status
unfolding next_of
conclude none = threw
conclude (some (snap, t)) = status snap (hint_of snap) (next_of snap.state)

-- The wait, if one is asked for, and the answer.
found_status : World → (Item → ℕ) → Bool → ℕ → Snapshot → ℕ → ℕ → Option Status
unfolding wait_loop conclude
found_status w cost verbose wait_ms snap t fuel =
    if ltb 0 wait_ms
    then Option.map conclude (wait_loop w cost verbose (t + wait_ms) fuel t snap)
    else some (conclude (some (snap, t)))

-- `snap` is the first answer, which is there at `t`.
pub env_status : World → (Item → ℕ) → Bool → Option Num → Snapshot → ℕ → ℕ → Option Status
unfolding found_status clamp num_arg
env_status w cost verbose wait_ready_ms snap t fuel = elim snap.env_id [
  | none ↦ some env_not_found
  | some id ↦ found_status w cost verbose (clamp (num_arg wait_ready_ms 0) 0 45_000) snap t fuel
]

pub data Destroyed : Type 0 where
  -- no run was recorded, and a warning says so
  not_cancelled : Destroyed
  cancelled : ℕ → Destroyed
  cancel_refused : ℕ → Destroyed

abbrev of_cancel : Cancelled → Destroyed
of_cancel c = if c.is_ok then cancelled c.status else cancel_refused c.status

-- A run id that is empty counts as none.
destroyed_of : Option Response → Option String → Destroyed
destroyed_of response none = not_cancelled
destroyed_of response (some run_id) =
    if str_eq run_id "" then not_cancelled else of_cancel (cancel_run response)

pub env_destroy : Env → Option Response → Env × Destroyed
unfolding destroyed_of
env_destroy e response = let (e', run_id) = mark_destroying e in (e', destroyed_of response run_id)

pub env_extend : CreateConfig → Env → Option Num → ℕ → Env × Extended
unfolding clamp num_arg
env_extend cfg e minutes now =
    extend e (clamp (num_arg minutes 30) 1 cfg.max_ttl_minutes) cfg.max_ttl_minutes now
