-- ===== src/EnvDo/Lifecycle.antt =====
-- broker/src/env-do.ts, the lifecycle section: provision, setDispatch, enroll, shellsAvailable,
-- authAgent, extend, markDestroying and markFailed.
pub mod Enroll
pub mod Lease
mod Tests
use gha_mcp_host.Prelude.{
  ℕ, ◌+◌, ◌*◌, max, Bool, true, false, not, ◌&&◌, ◌||◌, String, List, [], ◌∷◌, ◌++◌, Option, none,
  some, ltb, if◌then◌else◌, str_eq, get_or_else, or_else,
}
use gha_mcp_host.EnvSchema.{
  EnvState, provisioning, ready, destroying, expired, failed, Facts, FailureReason, run_id_mismatch,
  run_attempt_mismatch, shell_missing, reported, Meta, truthy,
}
use gha_mcp_host.EnvDo.{Env, Action, destroy}

pub record Provision : Type 0 where
  pub env_id : String
  pub platform : String
  pub ttl_minutes : ℕ
  pub label : Option String
  pub created_by : Option String

abbrev pub minute_ms : ℕ
minute_ms = 60_000

-- `now` is read for created_at, `later` for the lease.
unfoldable pub provision : Env → Provision → ℕ → ℕ → Env
provision e input now later = record e {
  meta = record (e.meta) {
    env_id = some input.env_id;
    platform = some input.platform;
    state = some provisioning;
    label = input.label;
    created_by = input.created_by;
    created_at = some now;
    ttl_expires_at = some (later + input.ttl_minutes * minute_ms);
    overlay_version = some 0;
  };
}

abbrev keep_or : Option String → Option String → Option String
keep_or given stored = if truthy given then given else stored

unfoldable pub set_dispatch : Env → Option String → Option String → Option String → Env
set_dispatch e run_id run_attempt run_url = record e {
  meta = record (e.meta) {
    run_id = keep_or run_id e.meta.run_id;
    run_attempt = keep_or run_attempt e.meta.run_attempt;
    run_url = keep_or run_url e.meta.run_url;
  };
}

pub record Claim : Type 0 where
  pub run_id : String
  pub run_attempt : String
  pub facts : Facts
  pub exec_workers : ℕ
  pub unreachable_limit_seconds : ℕ
  pub redact : List String

pub record Enrolled : Type 0 where
  pub agent_token : String
  pub ttl_expires_at : ℕ
  pub exec_workers : ℕ
  pub unreachable_limit_s : ℕ
  pub redact : List String

pub data EnrollResult : Type 0 where
  enrolled : Enrolled → EnrollResult
  not_provisioning : Option EnvState → EnrollResult
  rejected : FailureReason → EnrollResult

shell_path : String → List (String × Option String) → Option String
shell_path k [] = none
shell_path k ((j, v) ∷ m) = if str_eq j k then v else shell_path k m

shells_present : List (String × Option String) → List String
shells_present [] = []
shells_present ((j, v) ∷ m) = if truthy v then j ∷ shells_present m else shells_present m

needed_shell : String → String
needed_shell platform = if str_eq platform "windows" then "pwsh" else "bash"

pub missing_shell : String → Facts → Option FailureReason
missing_shell platform facts =
    if truthy (shell_path (needed_shell platform) facts.shells)
    then none
    else some (shell_missing platform (needed_shell platform) (shells_present facts.shells))

-- A recorded value that is not empty and not the claimed one.
pub mismatch : Option String → String → Bool
mismatch none claimed = false
mismatch (some expected) claimed = not (str_eq expected "") && not (str_eq expected claimed)

unfoldable pub fail_with : Env → FailureReason → Env × EnrollResult
fail_with e reason = (
  record e { meta = record (e.meta) { state = some failed; failure_reason = some reason } },
  rejected reason,
)

unfoldable pub admit : Env → Claim → String → ℕ → ℕ → Env × EnrollResult
admit e claim token now later = (
  record e {
    meta = record (e.meta) {
      agent_token = some token;
      state = some ready;
      run_id = some claim.run_id;
      run_attempt = some claim.run_attempt;
      last_seen_at = some now;
      facts = some claim.facts;
      run_url = or_else claim.facts.run_url e.meta.run_url;
      sticky_cwd =
          if truthy e.meta.sticky_cwd
          then e.meta.sticky_cwd
          else or_else claim.facts.work_dir e.meta.sticky_cwd;
    };
  },
  enrolled (record {
    agent_token = token;
    ttl_expires_at = get_or_else e.meta.ttl_expires_at (later + 3_600_000);
    exec_workers = claim.exec_workers;
    unreachable_limit_s = claim.unreachable_limit_seconds;
    redact = claim.redact;
  }),
)

-- The checks of a claim against a provisioning environment, in the source's order.
unfoldable pub enroll_provisioning : Env → Claim → String → ℕ → ℕ → Env × EnrollResult
unfolding fail_with admit
enroll_provisioning e claim token now later =
    if mismatch e.meta.run_id claim.run_id
    then fail_with e (run_id_mismatch (get_or_else e.meta.run_id "") claim.run_id)
    else if mismatch e.meta.run_attempt claim.run_attempt
    then fail_with e (run_attempt_mismatch (get_or_else e.meta.run_attempt "") claim.run_attempt)
    else elim (missing_shell (get_or_else e.meta.platform "") claim.facts) [
      | some reason ↦ fail_with e reason
      | none ↦ admit e claim token now later
    ]

unfoldable pub enroll_in : Option EnvState → Env → Claim → String → ℕ → ℕ → Env × EnrollResult
unfolding enroll_provisioning
enroll_in (some provisioning) e claim token now later = enroll_provisioning e claim token now later
enroll_in other e claim token now later = (e, not_provisioning other)

unfoldable pub enroll : Env → Claim → String → ℕ → ℕ → Env × EnrollResult
unfolding enroll_in
enroll e claim token now later = enroll_in e.meta.state e claim token now later

pub shells_available : Env → List (String × Option String)
shells_available e = elim e.meta.facts [ none ↦ [] | some f ↦ f.shells ]

pub data AuthResult : Type 0 where
  authorized bad_token lease_expired : AuthResult
  gone : EnvState → AuthResult

unfoldable pub lease_check : Env → ℕ → Env × AuthResult
lease_check e now =
    if ltb (get_or_else e.meta.ttl_expires_at 0) now
    then (record e { meta = record (e.meta) { state = some expired } }, lease_expired)
    else (e, authorized)

unfoldable pub auth_in : Option EnvState → Env → ℕ → Env × AuthResult
unfolding lease_check
auth_in (some destroying) e now = (e, gone destroying)
auth_in (some expired) e now = (e, gone expired)
auth_in other e now = lease_check e now

pub token_matches : Option String → String → Bool
token_matches none token = false
token_matches (some expected) token = not (str_eq expected "") && str_eq token expected

unfoldable pub auth_agent : Env → String → ℕ → Env × AuthResult
unfolding auth_in token_matches
auth_agent e token now =
    if token_matches e.meta.agent_token token then auth_in e.meta.state e now else (e, bad_token)

pub record Extended : Type 0 where
  pub ttl_expires_at : ℕ
  pub clamped : Bool
  pub at_ceiling : Bool

unfoldable pub extend : Env → ℕ → ℕ → ℕ → Env × Extended
extend e minutes max_ttl_minutes now =
    let hard_cap = get_or_else e.meta.created_at now + max_ttl_minutes * minute_ms in
    let current = get_or_else e.meta.ttl_expires_at now in
    let wanted = max current now + minutes * minute_ms in
    let clamped = ltb hard_cap wanted in
    let next = if clamped then hard_cap else wanted in
    let at_ceiling = ltb next current in
    let lease = if at_ceiling then current else next in
    (
      record e { meta = record (e.meta) { ttl_expires_at = some lease } },
      record { ttl_expires_at = lease; clamped = clamped; at_ceiling = at_ceiling },
    )

unfoldable pub mark_destroying : Env → Env × Option String
mark_destroying e = (
  record e {
    meta = record (e.meta) { state = some destroying };
    actions = e.actions ++ destroy ∷ [];
  },
  e.meta.run_id,
)

unfoldable pub mark_failed : Env → String → Env
mark_failed e reason = record e {
  meta = record (e.meta) { state = some failed; failure_reason = some (reported reason) };
}
