-- ===== src/EnvDo/Lifecycle/Enroll.antt =====
-- enroll of broker/src/env-do.ts: what each answer to a claim means.
use gha_mcp_host.Prelude.{
  ℕ, ◌≡◌, ◌≢◌, refl, sym, ap, ◌∙◌, false, String, Option, none, some, get_or_else, Option-cases,
  Bool-cases, inl, inr,
}
use gha_mcp_host.EnvSchema.{EnvState, provisioning, ready, failed}
use gha_mcp_host.EnvDo.{Env}
use gha_mcp_host.EnvDo.Lifecycle.{
  Claim, EnrollResult, enrolled, not_provisioning, rejected, missing_shell, mismatch,
  enroll_provisioning, enroll_in, enroll,
}

-- What each answer to a claim says of the environment before and after.
abbrev pub Justified : Env → Claim → String → Env × EnrollResult → Type 0
Justified e claim token (e', enrolled r) =
    (e.meta.state ≡ some provisioning)
    × (mismatch e.meta.run_id claim.run_id ≡ false)
    × (mismatch e.meta.run_attempt claim.run_attempt ≡ false)
    × (missing_shell (get_or_else e.meta.platform "") claim.facts ≡ none)
    × (e'.meta.state ≡ some ready)
    × (e'.meta.agent_token ≡ some token)
    × (r.agent_token ≡ token)
Justified e claim token (e', rejected reason) =
    (e.meta.state ≡ some provisioning)
    × (e'.meta.state ≡ some failed)
    × (e'.meta.failure_reason ≡ some reason)
    × (e'.meta.agent_token ≡ e.meta.agent_token)
Justified e claim token (e', not_provisioning s) =
    (e' ≡ e) × (s ≡ e.meta.state) × (e.meta.state ≢ some provisioning)

module _ (e : Env) (claim : Claim) (token : String) (now later : ℕ) where
  enroll_provisioning-Justified :
      e.meta.state ≡ some provisioning
      → Justified e claim token (enroll_provisioning e claim token now later)
  unfolding enroll_provisioning
  enroll_provisioning-Justified p = elim (Bool-cases (mismatch e.meta.run_id claim.run_id)) [
    | inl a ↦ rw a (p, refl, refl, refl)
    | inr a ↦ elim (Bool-cases (mismatch e.meta.run_attempt claim.run_attempt)) [
      | inl b ↦ rw (a, b) (p, refl, refl, refl)
      | inr b ↦ elim (Option-cases (missing_shell (get_or_else e.meta.platform "") claim.facts)) [
        | inl c ↦ rw (a, b, c, enroll_provisioning) (p, a, b, c, refl, refl, refl)
        | inr (reason, c) ↦ rw (a, b, c, enroll_provisioning) (p, refl, refl, refl)
      ]
    ]
  ]

  enroll_in-Justified :
      (s : Option EnvState)
      → e.meta.state ≡ s
      → Justified e claim token (enroll_in s e claim token now later)
  unfolding enroll_in
  enroll_in-Justified (some provisioning) p = enroll_provisioning-Justified p
  enroll_in-Justified none p = (refl, sym p, λ h. cc)
  enroll_in-Justified _ p = (refl, sym p, λ h. cc)

-- A claim succeeds only while the environment is provisioning, for the recorded run and attempt, on a
-- runner with the shell that the platform needs; it then stores the token that it hands out. A
-- refused claim is recorded as the failure of the environment and stores no token. Any other claim
-- changes nothing.
pub enroll-Justified :
    (e : Env) (claim : Claim) (token : String) (now later : ℕ)
    → Justified e claim token (enroll e claim token now later)
unfolding enroll
enroll-Justified e claim token now later =
    enroll_in-Justified e claim token now later e.meta.state refl

leaves_provisioning :
    (e : Env) (claim : Claim) (token : String) (r : Env × EnrollResult)
    → Justified e claim token r
    → r.0.meta.state ≢ some provisioning
leaves_provisioning e claim token (e', enrolled x) j h = cc (j.4)
leaves_provisioning e claim token (e', rejected x) j h = cc (j.1)
leaves_provisioning e claim token (e', not_provisioning x) j h =
    j.2 (ap (λ v. v.meta.state) (sym (j.0)) ∙ h)

not_provisioning_stays :
    (e : Env) (claim : Claim) (token : String) (r : Env × EnrollResult)
    → Justified e claim token r
    → e.meta.state ≢ some provisioning
    → r ≡ (e, not_provisioning e.meta.state)
not_provisioning_stays e claim token (e', enrolled x) j n = absurd (n j.0)
not_provisioning_stays e claim token (e', rejected x) j n = absurd (n j.0)
not_provisioning_stays e claim token (e', not_provisioning x) j n = cc (j.0, j.1)

-- Enrolment is one-shot: after any claim, whatever became of it, the next one is turned away and
-- changes nothing.
pub enroll_once :
    (e : Env) (first second : Claim) (token token' : String) (now later now' later' : ℕ)
    → let e' = (enroll e first token now later).0 in
      enroll e' second token' now' later' ≡ (e', not_provisioning e'.meta.state)
enroll_once e first second token token' now later now' later' =
    let r = enroll e first token now later in
    not_provisioning_stays r.0 second token' (enroll r.0 second token' now' later')
      (enroll-Justified r.0 second token' now' later')
      (leaves_provisioning e first token r (enroll-Justified e first token now later))
