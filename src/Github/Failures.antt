-- ===== src/Github/Failures.antt =====
-- classify and dispatchWorkflow of broker/src/github.ts: what a caller may do about a failure.
use gha_mcp_host.Prelude.{
  arith, ℕ, ◌≡◌, ◌≢◌, ◌↔◌, ◌⊎◌, inl, inr, refl, true, false, ◌&&◌, ◌||◌, ◌==◌, leb, Option, none,
  some, Bool-cases,
}
use gha_mcp_host.Text.{Text, codes}
use gha_mcp_host.Result.{CommonTail, fail, tail, on_error_for}
use gha_mcp_host.Github.{
  includes, RetryAfter, missing, GhCode, account_suspended, github_secondary_rate_limit, github_5xx,
  bad_input, unauthorized, platform_unavailable, broker_unreachable, code_name, GhFailure,
  wait_ms_of, classify, Response, Dispatch, dispatched, not_dispatched, dispatch_workflow,
  is_success,
}

-- The verdict that a tool makes of a failure.
abbrev pub verdict : GhFailure → CommonTail
verdict f = fail (code_name f.code) none f.retry_after_ms

-- Waiting is offered exactly where the failure is marked as retryable.
abbrev pub IsCoherent : GhFailure → Type 0
IsCoherent f = ((verdict f).retryable ≡ true) ↔ (f.retry_after_ms ≢ none)

abbrev IsWithWait : GhCode → Option ℕ → Type 0
IsWithWait code wait = ((fail (code_name code) none wait).retryable ≡ true) ↔ (wait ≢ none)

waits :
    (ms : ℕ)
    → IsWithWait github_secondary_rate_limit (some ms)
      × IsWithWait github_5xx (some ms)
      × IsWithWait broker_unreachable (some ms)
unfolding code_name fail tail on_error_for
waits ms =
    (((λ h p. cc p), (λ h. refl)), ((λ h p. cc p), (λ h. refl)), ((λ h p. cc p), (λ h. refl)))

stops :
    IsWithWait account_suspended none
    × IsWithWait unauthorized none
    × IsWithWait platform_unavailable none
    × IsWithWait bad_input none
unfolding code_name fail tail on_error_for
stops = (
  ((λ h. cc h), (λ h. absurd (h refl))),
  ((λ h. cc h), (λ h. absurd (h refl))),
  ((λ h. cc h), (λ h. absurd (h refl))),
  ((λ h. cc h), (λ h. absurd (h refl))),
)

classify-IsCoherent :
    (lower : Text → Text) (status : ℕ) (body : Text) (retry_after : RetryAfter)
    → IsCoherent (classify lower status body retry_after)
unfolding classify
classify-IsCoherent lower status body retry_after =
    elim (Bool-cases (status == 403 && includes (lower body) (codes "suspend"))) [
      | inl a ↦ rw (a) stops.0
      | inr a ↦ elim (Bool-cases (status == 403 || status == 429)) [
        | inl b ↦ rw (a, b) (waits (wait_ms_of retry_after)).0
        | inr b ↦ elim (Bool-cases (status == 401)) [
          | inl c ↦ rw (a, b, c) stops.1
          | inr c ↦ elim (Bool-cases (status == 404)) [
            | inl d ↦ rw (a, b, c, d) stops.2
            | inr d ↦ elim (Bool-cases (leb 500 status)) [
              | inl e ↦ rw (a, b, c, d, e) (waits 3000).1
              | inr e ↦ rw (a, b, c, d, e) stops.3
            ]
          ]
        ]
      ]
    ]

suspended_iff :
    (lower : Text → Text) (status : ℕ) (body : Text) (retry_after : RetryAfter)
    → ((classify lower status body retry_after).code ≡ account_suspended)
      ↔ ((status ≡ 403) × (includes (lower body) (codes "suspend") ≡ true))
unfolding classify
suspended_iff lower status body retry_after = ground arith

-- A limit that comes without the header retry-after is answered with a wait of no time, never with
-- the minute that is meant for it.
pub classify_no_wait :
    (lower : Text → Text) (status : ℕ) (body : Text)
    → (status ≡ 403) ⊎ (status ≡ 429)
    → includes (lower body) (codes "suspend") ≡ false
    → classify lower status body missing
      ≡ record { code = github_secondary_rate_limit; status = status; retry_after_ms = some 0 }
unfolding classify wait_ms_of
classify_no_wait lower status body limited calm = elim limited [
  | inl at_403 ↦ rw (at_403, calm) refl
  | inr at_429 ↦ rw (at_429) refl
]

abbrev pub IsOutcome : (Text → Text) → Option Response → Dispatch → Type 0
IsOutcome lower none (dispatched d) = ⊥
IsOutcome lower none (not_dispatched f) = (f.code ≡ broker_unreachable) × IsCoherent f
IsOutcome lower (some r) (dispatched d) = is_success r.status ≡ true
IsOutcome lower (some r) (not_dispatched f) =
    (is_success r.status ≡ false)
    × IsCoherent f
    × ((f.code ≡ account_suspended)
        ↔ ((r.status ≡ 403) × (includes (lower r.text) (codes "suspend") ≡ true)))

success_204 : (status : ℕ) → (status == 204) ≡ true → is_success status ≡ true
success_204 status h = ground arith

-- A dispatch succeeds exactly on a status from 200 to 299. Where it does not, the failure is marked as
-- retryable exactly where it names a wait, and it is that of a suspended account exactly for a 403
-- whose text speaks of a suspension; where there is no response at all, GitHub could not be reached.
pub dispatch_workflow-IsOutcome :
    (lower : Text → Text) (r : Option Response) → IsOutcome lower r (dispatch_workflow lower r)
unfolding dispatch_workflow
dispatch_workflow-IsOutcome lower none = (refl, (waits 2000).2)
dispatch_workflow-IsOutcome lower (some r) = elim (Bool-cases (r.status == 204)) [
  | inl empty ↦ rw (empty, dispatch_workflow) (success_204 r.status empty)
  | inr other ↦ elim (Bool-cases (is_success r.status)) [
    | inl fine ↦ rw (other, fine, dispatch_workflow) fine
    | inr failed ↦
        rw (other, failed, dispatch_workflow)
          (
            failed,
            classify-IsCoherent lower r.status r.text r.retry_after,
            suspended_iff lower r.status r.text r.retry_after,
          )
  ]
]
