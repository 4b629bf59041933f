-- ===== src/EnvDo/Queue/Tests.antt =====
-- Runs of the queue on a concrete request, and the theorems at such inputs.
use gha_mcp_host.Prelude.{◌≡◌, refl, false, true, [], ◌∷◌, some, arith}
use gha_mcp_host.EnvSchema.{QueueRow}
use gha_mcp_host.EnvDo.{Env, find_command, in_queue}
use gha_mcp_host.EnvDo.Queue.{
  Enqueued, accepted, queue_full, conflict, newest, first_of_newest, is_dupe, find_dupe,
  new_command, new_row, version, insert_both, enqueue, queue_depth, lapsed, claimable, least_seq,
  first_by_seq, next_row, mark_claimed, claim_next,
}
use gha_mcp_host.EnvDo.Queue.Dedupe.{enqueue_again}
use gha_mcp_host.EnvDo.Queue.Claiming.{IsNext, next_row-IsNext}
use gha_mcp_host.EnvDo.Samples.{no_env, request, queue_row}

abbrev first_answer : Enqueued
first_answer = record {
  command_id = "c";
  deduped = false;
  queue_position = 0;
  queue_depth = 1;
  overlay_version = 0;
}

enqueue_runs :
    let (e, r) = enqueue no_env request 5 5 in
    (r ≡ accepted first_answer) × (e.queue ≡ queue_row ∷ []) × (e.next_seq ≡ 2)
unfolding enqueue find_dupe first_of_newest insert_both find_command in_queue version new_command
    new_row
enqueue_runs = (refl, refl, refl)

-- A new hash under an id that is taken.
conflict_runs :
    (enqueue (enqueue no_env request 5 5).0 (record request { idem_hash = "g" }) 6 6).1 ≡ conflict
unfolding enqueue find_dupe first_of_newest newest is_dupe insert_both find_command in_queue version
    new_command new_row
conflict_runs = refl

full_runs : (enqueue no_env (record request { max_queue = 0 }) 5 5).1 ≡ queue_full 0 0
unfolding enqueue find_dupe first_of_newest
full_runs = refl

abbrev waiting_row : Env
waiting_row = record no_env { queue = queue_row ∷ [] }

abbrev second_row : QueueRow
second_row = record queue_row { seq = 2; command_id = "d" }

next_row_runs : next_row (second_row ∷ queue_row ∷ []) 7 ≡ some queue_row
unfolding next_row first_by_seq least_seq claimable lapsed
next_row_runs = refl

enqueue_again_example :
    let e = (enqueue no_env request 5 5).0 in
    enqueue e request 100 101 ≡ (
      e,
      accepted (record {
        command_id = "c";
        deduped = true;
        queue_position = 0;
        queue_depth = queue_depth e;
        overlay_version = version e;
      }),
    )
enqueue_again_example =
    enqueue_again no_env request request 5 5 100 101 first_answer enqueue_runs.0 refl refl refl
      (omega arith) (omega arith)

next_row-IsNext_example :
    IsNext (second_row ∷ queue_row ∷ []) 7 (next_row (second_row ∷ queue_row ∷ []) 7)
next_row-IsNext_example = next_row-IsNext (second_row ∷ queue_row ∷ []) 7

abbrev two_rows : Env
two_rows = record no_env { queue = queue_row ∷ second_row ∷ [] }

first_claimed : next_row two_rows.queue 7 ≡ some queue_row
unfolding next_row first_by_seq least_seq claimable lapsed
first_claimed = refl

then_second : next_row (claim_next two_rows "w" 7).0.queue 8 ≡ some second_row
unfolding claim_next mark_claimed next_row first_by_seq least_seq claimable lapsed
then_second = refl
