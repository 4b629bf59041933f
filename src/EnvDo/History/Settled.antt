-- ===== src/EnvDo/History/Settled.antt =====
-- broker/src/env-do.ts: what becomes of a command that has ended.

use gha_mcp_host.Prelude.{ℕ, ◌≡◌, ◌≢◌, refl, sym, false, String, List, [], ◌∷◌, Option, none, some}
use gha_mcp_host.EnvSchema.{CmdState, Command, QueueRow}
use gha_mcp_host.EnvDo.{Env, find_command, in_queue}
use gha_mcp_host.EnvDo.Tables.{str_eq_ne}
use gha_mcp_host.EnvDo.Lifecycle.{provision, set_dispatch, extend, mark_destroying, mark_failed}
use gha_mcp_host.EnvDo.Queue.{next_row}
use gha_mcp_host.EnvDo.Queue.Claiming.{IsNext, next_row-IsNext}
use gha_mcp_host.EnvDo.Ingest.Advance.{IsSettled}
use gha_mcp_host.EnvDo.Control.{push_action, request_pull, kill_command, set_overlay}
use gha_mcp_host.EnvDo.History.{
  Step, provisioned, dispatched, enrolled, authorized, extended, destroyed, failed, enqueued,
  claimed, ingested, polled, pushed, pulled, taken, overlaid, evicted, Reach, here, next,
}
use gha_mcp_host.EnvDo.History.Rows.{LiveEntries}
use gha_mcp_host.EnvDo.History.Tidy.{IsTidy, enroll_same, auth_same}
use gha_mcp_host.EnvDo.History.Steps.{take_pull_same, Step-IsTidy}
use gha_mcp_host.EnvDo.History.Final.{
  IsNew, reach-IsTidy, Has, Has-same, enqueue-Has, IsLive-at, settled_apart, claim_next-Has,
  control_poll-Has, ingest_chunk-Has,
}

Step-Has :
    {e e' : Env} (id : String) (state : CmdState)
    → Step e e'
    → IsSettled state
    → IsTidy e
    → Has id state e.commands
    → Has id state e'.commands
unfolding provision set_dispatch extend mark_destroying mark_failed push_action request_pull
    kill_command set_overlay
Step-Has id state (provisioned e p now later) st t h = h
Step-Has id state (dispatched e a b c) st t h = h
Step-Has id state (enrolled e c token now later) st t h =
    Has-same id state (enroll_same e c token now later).0 h
Step-Has id state (authorized e token now) st t h = Has-same id state (auth_same e token now).0 h
Step-Has id state (extended e minutes max_minutes now) st t h = h
Step-Has id state (destroyed e) st t h = h
Step-Has id state (failed e reason) st t h = h
Step-Has id state (enqueued e r now later) st t h = enqueue-Has id state e r now later h
Step-Has id state (claimed e worker now) st t h = claim_next-Has id state e worker now st t h
Step-Has id state (ingested e unknown body now later) st t h =
    ingest_chunk-Has id state unknown e body now later st h
Step-Has id state (polled e p now gap_at later) st t h =
    control_poll-Has id state e p now gap_at later st h
Step-Has id state (pushed e a) st t h = h
Step-Has id state (pulled e req_id j from max) st t h = h
Step-Has id state (taken e req_id) st t h = Has-same id state (take_pull_same e req_id).0 h
Step-Has id state (Step.killed e j s) st t h = h
Step-Has id state (overlaid e content) st t h = h
Step-Has id state (evicted e) st t h = h

reach-Has :
    {e e' : Env} (id : String) (state : CmdState)
    → IsSettled state
    → Reach e e'
    → IsTidy e
    → Has id state e.commands
    → IsTidy e' × Has id state e'.commands
reach-Has id state st here t h = (t, h)
reach-Has id state st (next before step) t h =
    let (mid, has) = reach-Has id state st before t h in
    (Step-IsTidy step mid, Step-Has id state step st mid has)

settled_unqueued :
    (id : String) (state : CmdState) (cs : List Command) (qs : List QueueRow)
    → IsSettled state
    → Has id state cs
    → LiveEntries cs qs
    → in_queue id qs ≡ false
unfolding in_queue
settled_unqueued id state cs [] st h l = refl
settled_unqueued id state cs (q ∷ qs) st h (live, more) =
    let apart = settled_apart id q.command_id state cs st h live in
    rw (str_eq_ne q.command_id id (λ p. apart (sym p)), settled_unqueued id state cs qs st h more)

-- The next claim is of another command, if of any.
abbrev pub IsOther : String → Option QueueRow → Type 0
IsOther id none = Unit {0}
IsOther id (some q) = id ≢ q.command_id

next_row-IsOther :
    (id : String) (state : CmdState) (cs : List Command) (qs : List QueueRow) (now : ℕ)
    → IsSettled state
    → Has id state cs
    → LiveEntries cs qs
    → IsOther id (next_row qs now)
next_row-IsOther id state cs qs now st h l = by_row (next_row qs now) (next_row-IsNext qs now)
  where
    by_row : (o : Option QueueRow) → IsNext qs now o → IsOther id o
    by_row none n = tt
    by_row (some q) (_, stands, _) =
        settled_apart id q.command_id state cs st h (IsLive-at cs qs q l stands)

-- A command that has exited or was killed in a reachable state keeps that state in everything that can
-- follow, has no queue entry there, and no claim there hands out its entry.
pub settled_for_good :
    (s e e' : Env) (id : String) (c : Command) (now : ℕ)
    → IsNew s
    → Reach s e
    → find_command id e.commands ≡ some c
    → IsSettled c.state
    → Reach e e'
    → Has id c.state e'.commands
      × (in_queue id e'.queue ≡ false)
      × IsOther id (next_row e'.queue now)
settled_for_good s e e' id c now new before found settled after =
    let (tidy, has) =
      reach-Has id c.state settled after (reach-IsTidy s e new before) (c, found, refl) in
    (
      has,
      settled_unqueued id c.state e'.commands e'.queue settled has tidy.live,
      next_row-IsOther id c.state e'.commands e'.queue now settled has tidy.live,
    )
