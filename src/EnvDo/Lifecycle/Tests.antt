-- ===== src/EnvDo/Lifecycle/Tests.antt =====
-- Runs of the lifecycle on concrete environments, and the theorems at such inputs.
use gha_mcp_host.Prelude.{◌≡◌, ◌≤◌, ◌+◌, ◌*◌, ◌⊎◌, max, refl, true, [], ◌∷◌, none, some}
use gha_mcp_host.EnvSchema.{provisioning, destroying, shell_missing}
use gha_mcp_host.EnvDo.{destroy}
use gha_mcp_host.EnvDo.Lifecycle.{
  provision, set_dispatch, not_provisioning, missing_shell, needed_shell, shell_path,
  shells_present, mismatch, fail_with, admit, enroll_provisioning, enroll_in, enroll,
  shells_available, token_matches, extend, mark_destroying, mark_failed, minute_ms,
}
use gha_mcp_host.EnvDo.Lifecycle.Enroll.{Justified, enroll-Justified, enroll_once}
use gha_mcp_host.EnvDo.Lifecycle.Lease.{lease_of, ceiling, extend_lem}
use gha_mcp_host.EnvDo.Samples.{no_env, waiting, working, claim, with_bash}

provision_runs :
    let e =
      provision no_env
        (record {
          env_id = "lin-1";
          platform = "linux";
          ttl_minutes = 2;
          label = none;
          created_by = none;
        })
        5
        6 in
    (e.meta.state ≡ some provisioning) × (e.meta.ttl_expires_at ≡ some 120_006)
unfolding provision
provision_runs = (refl, refl)

-- An empty run id is not stored.
set_dispatch_runs :
    let e = set_dispatch waiting (some "") (some "2") none in
    (e.meta.run_id ≡ some "7") × (e.meta.run_attempt ≡ some "2")
unfolding set_dispatch
set_dispatch_runs = (refl, refl)

enroll_runs : (enroll waiting claim "t" 10 11).0.meta.sticky_cwd ≡ some "/w"
unfolding enroll enroll_in enroll_provisioning mismatch missing_shell needed_shell shell_path
    fail_with admit
enroll_runs = refl

no_pwsh_runs :
    missing_shell "windows" with_bash ≡ some (shell_missing "windows" "pwsh" ("bash" ∷ []))
unfolding missing_shell needed_shell shell_path shells_present
no_pwsh_runs = refl

shells_available_runs : shells_available (mark_failed working "no disk") ≡ []
unfolding shells_available mark_failed
shells_available_runs = refl

mark_destroying_runs :
    let (e, run) = mark_destroying working in
    (e.meta.state ≡ some destroying) × (e.actions ≡ destroy ∷ []) × (run ≡ some "7")
unfolding mark_destroying
mark_destroying_runs = (refl, refl, refl)

enroll-Justified_example : Justified waiting claim "t" (enroll waiting claim "t" 10 11)
enroll-Justified_example = enroll-Justified waiting claim "t" 10 11

enroll_once_example :
    let e = (enroll waiting claim "t" 10 11).0 in
    enroll e claim "u" 20 21 ≡ (e, not_provisioning e.meta.state)
enroll_once_example = enroll_once waiting claim claim "t" "u" 10 11 20 21

extend_lem_example :
    let (e, r) = extend working 5 90 1_000 in
    (e.meta.ttl_expires_at ≡ some r.ttl_expires_at)
    × (lease_of working 1_000 ≤ r.ttl_expires_at)
    × (r.ttl_expires_at ≤ max (lease_of working 1_000) (ceiling working 90 1_000))
    × ((r.clamped ≡ true) ⊎ (r.ttl_expires_at ≡ max (lease_of working 1_000) 1_000 + 5 * minute_ms))
extend_lem_example = extend_lem working 5 90 1_000

working_token : token_matches (some "t") "t" ≡ true
unfolding token_matches
working_token = refl
