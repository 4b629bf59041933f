-- ===== src/Github/Tests.antt =====
-- Answers of GitHub, and the theorems at such inputs.
use gha_mcp_host.Prelude.{◌≡◌, refl, false, [], ◌∷◌, none, some}
use gha_mcp_host.Text.{Text, codes}
use gha_mcp_host.Github.{
  includes, missing, seconds, date, broker_unreachable, wait_ms_of, RunJson, Response, dispatched,
  details, dispatch_workflow, cancel_run, listed, not_listed, summary_of, runs_of, list_from,
  list_live_runs, first_named, find_run_for_env,
}
use gha_mcp_host.Job.{starts_with}
use gha_mcp_host.Github.Failures.{IsOutcome, dispatch_workflow-IsOutcome}

abbrev same : Text → Text
same s = s

abbrev a_run : RunJson
a_run = record {
  id = some "7";
  run_id = none;
  html_url = some "";
  run_html_url = some "u";
  run_attempt = none;
  name = some "gha-mcp linux-0";
  status = some "queued";
  created_at = none;
}

abbrev ok_response : Response
ok_response = record {
  status = 200;
  text = [];
  json = some (record {
    run = none;
    workflow_run = some a_run;
    top = a_run;
    workflow_runs = some (a_run ∷ []);
  });
  retry_after = missing;
}

abbrev limited : Response
limited = record ok_response { status = 429; json = none }

dispatch_runs :
    dispatch_workflow same (some ok_response)
    ≡ dispatched (record { run_id = some "7"; run_url = some "u"; run_attempt = some "1" })
unfolding dispatch_workflow details
dispatch_runs = refl

cancel_runs : ((cancel_run none).is_ok ≡ false) × ((cancel_run (some ok_response)).is_ok ≡ false)
unfolding cancel_run
cancel_runs = (refl, refl)

-- A failure in the first list ends the loop; a run is found by the name that has the id.
list_runs :
    (list_live_runs same none (some ok_response)
      ≡ not_listed (record { code = broker_unreachable; status = 0; retry_after_ms = some 2000 }))
    × (list_live_runs same (some ok_response) (some ok_response)
        ≡ listed (summary_of a_run ∷ summary_of a_run ∷ []))
    × ((summary_of a_run).run_attempt ≡ "1")
unfolding list_live_runs list_from runs_of summary_of
list_runs = (refl, refl, refl)

find_runs :
    (find_run_for_env same (codes "linux-0") (some ok_response) (some ok_response)
      ≡ some (summary_of a_run))
    × (find_run_for_env same (codes "linux-1") (some ok_response) (some ok_response) ≡ none)
unfolding find_run_for_env first_named includes list_live_runs list_from runs_of summary_of
    starts_with
find_runs = (refl, refl)

waits_run : (wait_ms_of date ≡ 60_000) × (wait_ms_of (seconds 2) ≡ 2_000)
unfolding wait_ms_of
waits_run = (refl, refl)

dispatch_workflow-IsOutcome_example :
    IsOutcome same (some limited) (dispatch_workflow same (some limited))
dispatch_workflow-IsOutcome_example = dispatch_workflow-IsOutcome same (some limited)
