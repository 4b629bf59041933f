-- ===== src/Github.antt =====
-- broker/src/github.ts: what an answer of GitHub means. A call is its response, or none where fetch
-- threw; the JSON of a response is the values that are read from it. `lower` is toLowerCase, and
-- String(x) of an id is the id as text.
pub mod Failures
mod Tests
use gha_mcp_host.Prelude.{
  ℕ, ◌*◌, Bool, true, false, ◌&&◌, ◌||◌, String, List, [], ◌∷◌, ◌++◌, map, Option, none, some, take,
  leb, ltb, ◌==◌, if◌then◌else◌, get_or_else, or_else, is_some,
}
use gha_mcp_host.Text.{Text, codes}
use gha_mcp_host.EnvSchema.{truthy}
use gha_mcp_host.Job.{starts_with}

-- `s.includes(t)`
pub includes : Text → Text → Bool
includes [] t = starts_with t []
includes (c ∷ s) t = starts_with t (c ∷ s) || includes s t

-- The header retry-after: not there, a number of seconds, or a date, which Number makes NaN of.
pub data RetryAfter : Type 0 where
  missing date : RetryAfter
  seconds : ℕ → RetryAfter

pub data GhCode : Type 0 where
  account_suspended github_secondary_rate_limit github_5xx bad_input unauthorized : GhCode
  platform_unavailable broker_unreachable : GhCode

pub code_name : GhCode → String
code_name account_suspended = "account_suspended"
code_name github_secondary_rate_limit = "github_secondary_rate_limit"
code_name github_5xx = "github_5xx"
code_name bad_input = "bad_input"
code_name unauthorized = "unauthorized"
code_name platform_unavailable = "platform_unavailable"
code_name broker_unreachable = "broker_unreachable"

pub record GhFailure : Type 0 where
  pub code : GhCode
  pub status : ℕ
  pub retry_after_ms : Option ℕ

-- `Number(headers.get("retry-after") || "")`: Number("") is 0.
pub wait_ms_of : RetryAfter → ℕ
wait_ms_of missing = 0 * 1000
wait_ms_of (seconds n) = n * 1000
wait_ms_of date = 60_000

abbrev failure : GhCode → ℕ → Option ℕ → GhFailure
failure code status retry_after_ms = record {
  code = code;
  status = status;
  retry_after_ms = retry_after_ms;
}

pub classify : (Text → Text) → ℕ → Text → RetryAfter → GhFailure
unfolding wait_ms_of
classify lower status body retry_after =
    if status == 403 && includes (lower body) (codes "suspend")
    then failure account_suspended status none
    else if status == 403 || status == 429
    then failure github_secondary_rate_limit status (some (wait_ms_of retry_after))
    else if status == 401
    then failure unauthorized status none
    else if status == 404
    then failure platform_unavailable status none
    else if leb 500 status
    then failure github_5xx status (some 3000)
    else failure bad_input status none

-- A run as the list of runs, or the answer to a dispatch, has it.
pub record RunJson : Type 0 where
  pub id : Option String
  pub run_id : Option String
  pub html_url : Option String
  pub run_html_url : Option String
  pub run_attempt : Option String
  pub name : Option String
  pub status : Option String
  pub created_at : Option String

pub record Json : Type 0 where
  pub run : Option RunJson
  pub workflow_run : Option RunJson
  -- the object itself, read as a run
  pub top : RunJson
  pub workflow_runs : Option (List RunJson)

pub record Response : Type 0 where
  pub status : ℕ
  pub text : Text
  pub json : Option Json
  pub retry_after : RetryAfter

pub record DispatchOk : Type 0 where
  pub run_id : Option String
  pub run_url : Option String
  pub run_attempt : Option String

pub data Dispatch : Type 0 where
  dispatched : DispatchOk → Dispatch
  not_dispatched : GhFailure → Dispatch

abbrev non_empty : Option String → Option String
non_empty s = if truthy s then s else none

-- `j.run || j.workflow_run || j`, of nothing where there is no JSON.
details : Option Json → DispatchOk
details none = record { run_id = none; run_url = none; run_attempt = some "1" }
details (some j) =
    let run = get_or_else (or_else j.run j.workflow_run) j.top in
    record {
      run_id = or_else run.id run.run_id;
      run_url = or_else (non_empty run.html_url) (non_empty run.run_html_url);
      run_attempt = some (get_or_else run.run_attempt "1");
    }

abbrev unreachable : GhFailure
unreachable = failure broker_unreachable 0 (some 2000)

abbrev pub is_success : ℕ → Bool
is_success status = leb 200 status && ltb status 300

pub dispatch_workflow : (Text → Text) → Option Response → Dispatch
unfolding details
dispatch_workflow lower none = not_dispatched unreachable
dispatch_workflow lower (some r) =
    if r.status == 204
    then dispatched (record { run_id = none; run_url = none; run_attempt = none })
    else if is_success r.status
    then dispatched (details r.json)
    else not_dispatched (classify lower r.status r.text r.retry_after)

pub record Cancelled : Type 0 where
  pub is_ok : Bool
  pub status : ℕ

pub cancel_run : Option Response → Cancelled
cancel_run none = record { is_ok = false; status = 0 }
cancel_run (some r) = record { is_ok = r.status == 202 || r.status == 409; status = r.status }

pub record RunSummary : Type 0 where
  pub run_id : Option String
  pub run_attempt : String
  pub name : String
  pub status : String
  pub html_url : String
  pub created_at : String

-- An id that is not there reads as the text "undefined".
summary_of : RunJson → RunSummary
summary_of r = record {
  run_id = r.id;
  run_attempt = get_or_else (non_empty r.run_attempt) "1";
  name = get_or_else r.name "";
  status = get_or_else r.status "";
  html_url = get_or_else r.html_url "";
  created_at = get_or_else r.created_at "";
}

pub data Live : Type 0 where
  listed : List RunSummary → Live
  not_listed : GhFailure → Live

runs_of : Response → List RunSummary
unfolding summary_of
runs_of r = elim r.json [ none ↦ [] | some j ↦ map summary_of (get_or_else j.workflow_runs []) ]

-- The loop over the two statuses, with the answers to the calls that it makes.
list_from : (Text → Text) → List (Option Response) → List RunSummary → Live
unfolding runs_of
list_from lower [] out = listed out
list_from lower (none ∷ rs) out = not_listed unreachable
list_from lower (some r ∷ rs) out =
    let rest = list_from lower rs (out ++ runs_of r) in
    if is_success r.status then rest else not_listed (classify lower r.status r.text r.retry_after)

pub list_live_runs : (Text → Text) → Option Response → Option Response → Live
unfolding list_from
list_live_runs lower in_progress queued = list_from lower (in_progress ∷ queued ∷ []) []

first_named : Text → List RunSummary → Option RunSummary
first_named env_id [] = none
first_named env_id (r ∷ rs) =
    if includes (codes r.name) env_id then some r else first_named env_id rs

pub find_run_for_env : (Text → Text) → Text → Option Response → Option Response → Option RunSummary
unfolding first_named
find_run_for_env lower env_id in_progress queued = elim (list_live_runs lower in_progress queued) [
  | listed runs ↦ first_named env_id runs
  | not_listed f ↦ none
]
