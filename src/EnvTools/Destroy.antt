-- ===== src/EnvTools/Destroy.antt =====
-- env_destroy and env_extend of broker/src/tools-env.ts.
use gha_mcp_host.Prelude.{
  ◌≡◌, not, inl, inr, refl, Bool, true, false, String, Option, none, some, Bool-cases, str_eq,
}
use gha_mcp_host.EnvSchema.{destroying, truthy}
use gha_mcp_host.Github.{Response, cancel_run}
use gha_mcp_host.EnvDo.{Env}
use gha_mcp_host.EnvDo.Lifecycle.{mark_destroying}
use gha_mcp_host.EnvTools.{
  Destroyed, not_cancelled, cancelled, cancel_refused, destroyed_of, env_destroy,
}

-- What each answer says of the recorded run and of GitHub's response.
abbrev pub Says : Option Response → Option String → Destroyed → Type 0
Says response run_id not_cancelled = truthy run_id ≡ false
Says response run_id (cancelled status) =
    (truthy run_id ≡ true)
    × (status ≡ (cancel_run response).status)
    × ((cancel_run response).is_ok ≡ true)
Says response run_id (cancel_refused status) =
    (truthy run_id ≡ true)
    × (status ≡ (cancel_run response).status)
    × ((cancel_run response).is_ok ≡ false)

negated : (b : Bool) → b ≡ true → not b ≡ false
negated true h = refl
negated false h = cc h

affirmed : (b : Bool) → b ≡ false → not b ≡ true
affirmed true h = cc h
affirmed false h = refl

destroyed_of_lem :
    (response : Option Response) (run_id : Option String)
    → Says response run_id (destroyed_of response run_id)
unfolding destroyed_of
destroyed_of_lem response none = refl
destroyed_of_lem response (some id) = elim (Bool-cases (str_eq id "")) [
  | inl empty ↦ rw (empty) (negated (str_eq id "") empty)
  | inr given ↦ elim (Bool-cases (cancel_run response).is_ok) [
    | inl accepted ↦ rw (given, accepted) (affirmed (str_eq id "") given, refl, accepted)
    | inr refused ↦ rw (given, refused) (affirmed (str_eq id "") given, refl, refused)
  ]
]

-- env_destroy always marks the environment as destroying. It answers that nothing was cancelled (a
-- success) only where no run was recorded; that a cancel was accepted, or that it was refused (the
-- failure), only where a run was recorded and GitHub's answer to the cancel says so.
pub env_destroy_lem :
    (e : Env) (response : Option Response)
    → let (e', d) = env_destroy e response in
      (e'.meta.state ≡ some destroying) × Says response e.meta.run_id d
unfolding env_destroy mark_destroying
env_destroy_lem e response = (refl, destroyed_of_lem response e.meta.run_id)
