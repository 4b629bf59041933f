-- ===== src/Run/Submit/Admits.antt =====
-- enqueueCommand of broker/src/tools-run.ts: when a job is queued, with what timeout, and what a caller
-- may do about a refusal.
use gha_mcp_host.Prelude.{
  ℕ, ◌-◌, ◌≤◌, ◌≡◌, ◌≢◌, ◌↔◌, ◌⊎◌, inl, inr, refl, sym, ap, ◌∙◌, max, true, false, String, List,
  Option, none, arith, Option-cases,
}
use gha_mcp_host.Result.{clamp, fail, tail, on_error_for}
use gha_mcp_host.EnvSchema.{
  EnvState, provisioning, ready, destroying, expired, failed, lost, FailureReason, Num,
}
use gha_mcp_host.EnvDo.{Env}
use gha_mcp_host.EnvDo.Snapshot.{Snapshot}
use mathlib.Core.List
use gha_mcp_host.Job.{JobWarning, low_disk}
use gha_mcp_host.EnvDo.Queue.Dedupe.{enqueue_full}
use gha_mcp_host.EnvDo.Queue.{EnqueueResult, accepted, queue_full, conflict, enqueue}
use gha_mcp_host.Run.Submit.{
  Refusal, no_environment, not_enrolled, environment_is, busy, verdict_of, ensure_ready,
  state_refusal, timeout_of, Submission, Submit, refused, submitted, threw, conclude, request_of,
  submit,
}

timeout_bounds :
    (raw : Option Num) (ttl : ℕ)
    → let t = (timeout_of raw ttl).0 in (1 ≤ t) × (t ≤ 21600) × (t ≤ max 1 (ttl - 30))
unfolding timeout_of clamp
timeout_bounds raw ttl = ground arith

abbrev pub IsBusy : Refusal → Type 0
IsBusy (busy depth limit) = Unit {0}
IsBusy _ = ⊥

-- A refusal is marked as retryable exactly where waiting can help: the runner has yet to enroll, or
-- its queue is full. It then names a wait.
pub verdict_of_retryable :
    (r : Refusal)
    → let v = verdict_of r in
      (v.is_ok ≡ false)
      × ((v.retryable ≡ true) ↔ ((r ≡ not_enrolled) ⊎ IsBusy r))
      × ((v.retryable ≡ true) ↔ (v.retry_after_ms ≢ none))
unfolding verdict_of fail tail on_error_for
verdict_of_retryable no_environment =
    (refl, ((λ h. cc h), (λ h. ground arith)), ((λ h. cc h), (λ h. absurd (h refl))))
verdict_of_retryable not_enrolled =
    (refl, ((λ h. inl refl), (λ h. refl)), ((λ h p. cc p), (λ h. refl)))
verdict_of_retryable (busy depth limit) =
    (refl, ((λ h. inr tt), (λ h. refl)), ((λ h p. cc p), (λ h. refl)))
verdict_of_retryable (environment_is s reason) = no_use s
  where
    no_use :
        (s : EnvState)
        → let v = verdict_of (environment_is s reason) in
          (v.is_ok ≡ false)
          × ((v.retryable ≡ true) ↔ ((environment_is s reason ≡ not_enrolled) ⊎ ⊥))
          × ((v.retryable ≡ true) ↔ (v.retry_after_ms ≢ none))
    no_use expired =
        (refl, ((λ h. cc h), (λ h. ground arith)), ((λ h. cc h), (λ h. absurd (h refl))))
    no_use provisioning =
        (refl, ((λ h. cc h), (λ h. ground arith)), ((λ h. cc h), (λ h. absurd (h refl))))
    no_use ready = (refl, ((λ h. cc h), (λ h. ground arith)), ((λ h. cc h), (λ h. absurd (h refl))))
    no_use destroying =
        (refl, ((λ h. cc h), (λ h. ground arith)), ((λ h. cc h), (λ h. absurd (h refl))))
    no_use failed =
        (refl, ((λ h. cc h), (λ h. ground arith)), ((λ h. cc h), (λ h. absurd (h refl))))
    no_use lost = (refl, ((λ h. cc h), (λ h. ground arith)), ((λ h. cc h), (λ h. absurd (h refl))))

state_refusal-none :
    (s : EnvState) (reason : Option FailureReason) → state_refusal s reason ≡ none → s ≡ ready
unfolding state_refusal
state_refusal-none ready reason h = refl
state_refusal-none provisioning reason h = cc h
state_refusal-none destroying reason h = cc h
state_refusal-none expired reason h = cc h
state_refusal-none failed reason h = cc h
state_refusal-none lost reason h = cc h

ensure_ready-none :
    (snap : Snapshot) → ensure_ready snap ≡ none → (snap.env_id ≢ none) × (snap.state ≡ ready)
unfolding ensure_ready
ensure_ready-none snap h = elim (Option-cases snap.env_id) [
  | inl missing ↦ cc (rw missing at h)
  | inr (id, known) ↦
      ((λ p. cc (p, known)), state_refusal-none snap.state snap.failure_reason (rw known at h))
]

-- What `submit` did, by its answer.
abbrev pub IsAdmitted :
    (ℕ → String) → Snapshot → Env → Submission → String → ℕ → ℕ → Env × Submit → Type 0
IsAdmitted payload snap e a job_id now later (e', submitted x) =
    (snap.env_id ≢ none)
    × (snap.state ≡ ready)
    × (x.job_id ≡ x.enq.command_id)
    × ((t : ℕ) × (1 ≤ t)
        × (t ≤ 21600)
        × (t ≤ max 1 (snap.ttl_remaining_s - 30))
        × (enqueue e (request_of payload a job_id t) now later ≡ (e', accepted x.enq)))
IsAdmitted payload snap e a job_id now later (e', refused r) = e' ≡ e
IsAdmitted payload snap e a job_id now later (e', threw) =
    (t : ℕ) × (enqueue e (request_of payload a job_id t) now later ≡ (e', conflict))

-- A job is queued only in an environment that exists and is ready, with a timeout of at least a second,
-- at most six hours and at most what the lease leaves but for half a minute (one second where it leaves
-- no more); its id is that of the queue's answer. A refusal changes nothing, and an id that is taken
-- makes the call throw.
pub submit-IsAdmitted :
    (payload : ℕ → String) (snap : Snapshot) (e : Env) (a : Submission) (job_id : String)
    (now later : ℕ)
    → IsAdmitted payload snap e a job_id now later (submit payload snap e a job_id now later)
unfolding submit conclude
submit-IsAdmitted payload snap e a job_id now later = elim (Option-cases (ensure_ready snap)) [
  | inr (r, turned_away) ↦ rw (turned_away, submit) refl
  | inl ready_now ↦
      let (t, clamp_warning) = timeout_of a.timeout_s_raw snap.ttl_remaining_s in
      rw (ready_now, submit)
        (concluded (List.◌++◌ (List.map low_disk snap.warnings) clamp_warning)
          (ensure_ready-none snap ready_now) t (timeout_bounds a.timeout_s_raw snap.ttl_remaining_s)
          (enqueue e (request_of payload a job_id t) now later) refl)
]
  where
    concluded :
        (warnings : List JobWarning)
        → (snap.env_id ≢ none) × (snap.state ≡ ready)
        → (t : ℕ) → (1 ≤ t) × (t ≤ 21600) × (t ≤ max 1 (snap.ttl_remaining_s - 30))
        → (r : Env × EnqueueResult) → enqueue e (request_of payload a job_id t) now later ≡ r
        → IsAdmitted payload snap e a job_id now later (r.0, conclude snap warnings r.1)
    concluded warnings known t b (e', accepted x) h =
        (known.0, known.1, refl, (t, b.0, b.1, b.2, h))
    concluded warnings known t b (e', queue_full depth limit) h =
        ap (λ (r : Env × EnqueueResult). r.0) (sym h)
        ∙ enqueue_full e (request_of payload a job_id t) now later depth limit
            (ap (λ (r : Env × EnqueueResult). r.1) h)
    concluded warnings known t b (e', conflict) h = (t, h)
