-- ===== src/EnvDo/History/Final.antt =====
-- broker/src/env-do.ts: what holds of the tables in every history, and which methods keep the state of a
-- command that has ended.
use mathlib.Core.Option
use gha_mcp_host.Prelude.{
  ℕ, ◌≡◌, ◌≢◌, inl, inr, refl, sym, ap, subst, ◌∙◌, Bool, true, false, String, List, [], ◌∷◌, ◌++◌,
  some, arith, Bool-cases, Option-cases, leb, if◌then◌else◌,
}
use gha_mcp_host.Text.{Text}
use gha_mcp_host.EnvSchema.{CmdState, exited, Command, QueueRow}
use gha_mcp_host.EnvDo.{Env, find_command, in_queue}
use gha_mcp_host.EnvDo.Tables.{find_command-update_ne}
use gha_mcp_host.EnvDo.Queue.{
  Request, find_dupe, insert_both, enqueue, new_command, start, next_row, claim_next, queue_depth,
}
use gha_mcp_host.EnvDo.Queue.Claiming.{In, IsNext, next_row-IsNext}
use gha_mcp_host.EnvDo.Ingest.{Chunk, ingest_chunk}
use gha_mcp_host.EnvDo.Ingest.Advance.{IsSettled}
use gha_mcp_host.EnvDo.Ingest.Routes.{ingest_chunk-Kept}
use gha_mcp_host.EnvDo.Control.{is_live, Poll, lose, report_gaps, control_poll}
use gha_mcp_host.EnvDo.Control.SpawnGap.{names_gap, report_row}
use gha_mcp_host.EnvDo.History.{Reach, here, next}
use gha_mcp_host.EnvDo.History.Rows.{
  IsUnsettled, IsLive, RowsOnce, EntriesOnce, InOrder, LiveEntries,
}
use gha_mcp_host.EnvDo.History.Tidy.{IsTidy}
use gha_mcp_host.EnvDo.History.Steps.{Step-IsTidy}

-- The object when its tables have just been made.
abbrev pub IsNew : Env → Type 0
IsNew e = (e.commands ≡ []) × (e.queue ≡ [])

new-IsTidy : (e : Env) → IsNew e → IsTidy e
new-IsTidy e (cs, qs) = record {
  rows_once = subst RowsOnce (sym cs) tt;
  entries_once = subst EntriesOnce (sym qs) tt;
  in_order = subst (InOrder 0 e.next_seq) (sym qs) (omega arith);
  live = subst (LiveEntries e.commands) (sym qs) tt;
}

-- In every history, whatever methods are called in whatever order, with whatever arguments and
-- evictions between them: no command has two rows, no command has two queue entries, the entries stand
-- in the order of their keys, below the next key, and each entry's command has a row that is neither
-- exited nor killed.
pub reach-IsTidy : (s e : Env) → IsNew s → Reach s e → IsTidy e
reach-IsTidy s e new here = new-IsTidy s new
reach-IsTidy s e new (next before step) = Step-IsTidy step (reach-IsTidy s _ new before)

-- The command has a row of this state.
abbrev pub Has : String → CmdState → List Command → Type 0
Has id state cs = (c : Command) × (find_command id cs ≡ some c) × (c.state ≡ state)

find_command-append :
    (id : String) (cs : List Command) (c d : Command)
    → find_command id cs ≡ some d
    → find_command id (cs ++ c ∷ []) ≡ some d
unfolding find_command
find_command-append id [] c d h = cc h
find_command-append id (x ∷ cs) c d h = ground (arith, find_command-append id cs c d)

Has-append :
    (id : String) (state : CmdState) (cs : List Command) (c : Command)
    → Has id state cs
    → Has id state (cs ++ c ∷ [])
Has-append id state cs c (d, found, is) = (d, find_command-append id cs c d found, is)

pub Has-same :
    (id : String) (state : CmdState) {cs ds : List Command}
    → ds ≡ cs
    → Has id state cs
    → Has id state ds
Has-same id state same has = subst (Has id state) (sym same) has

insert_both-Has :
    (id : String) (state : CmdState) (e : Env) (r : Request) (later : ℕ)
    → Has id state e.commands
    → Has id state (insert_both e r later).0.commands
unfolding insert_both
insert_both-Has id state e r later has =
    elim (Option-cases (find_command r.command_id e.commands)) [
      | inr (c, found) ↦ rw found has
      | inl fresh ↦ elim (Bool-cases (in_queue r.command_id e.queue)) [
        | inl dup ↦ rw (fresh, dup) (Has-append id state e.commands (new_command r later) has)
        | inr free ↦ rw (fresh, free) (Has-append id state e.commands (new_command r later) has)
      ]
    ]

pub enqueue-Has :
    (id : String) (state : CmdState) (e : Env) (r : Request) (now later : ℕ)
    → Has id state e.commands
    → Has id state (enqueue e r now later).0.commands
unfolding enqueue
enqueue-Has id state e r now later has = elim (Option-cases (find_dupe r now e.commands)) [
  | inr (c, found) ↦ rw (found, enqueue) has
  | inl fresh ↦
      rw (fresh, enqueue)
        (elim (Bool-cases (leb r.max_queue (queue_depth e))) [
          | inl full ↦ rw full has
          | inr room ↦ rw room (insert_both-Has id state e r later has)
        ])
]

-- An entry of a tidy queue has no settled row.
pub IsLive-at :
    (cs : List Command) (qs : List QueueRow) (q : QueueRow)
    → LiveEntries cs qs
    → In q qs
    → IsLive (find_command q.command_id cs)
IsLive-at cs [] q l i = elim i [ ]
IsLive-at cs (r ∷ qs) q (live, more) (inl same) =
    subst (λ (x : QueueRow). IsLive (find_command x.command_id cs)) same live
IsLive-at cs (r ∷ qs) q (live, more) (inr i) = IsLive-at cs qs q more i

not_both : (state : CmdState) → IsSettled state → IsUnsettled state → ⊥
not_both exited s u = u
not_both CmdState.killed s u = u
not_both CmdState.queued s u = s
not_both CmdState.running s u = s
not_both CmdState.lost s u = s

pub settled_apart :
    (id j : String) (state : CmdState) (cs : List Command)
    → IsSettled state
    → Has id state cs
    → IsLive (find_command j cs)
    → id ≢ j
settled_apart id j state cs settled (c, found, is) live same =
    let at : IsLive (some c) =
      subst IsLive found (subst (λ i. IsLive (find_command i cs)) (sym same) live) in
    not_both state settled (subst IsUnsettled is at)

pub claim_next-Has :
    (id : String) (state : CmdState) (e : Env) (worker : String) (now : ℕ)
    → IsSettled state
    → IsTidy e
    → Has id state e.commands
    → Has id state (claim_next e worker now).0.commands
unfolding claim_next start
claim_next-Has id state e worker now settled t (c, found, is) =
    elim (Option-cases (next_row e.queue now)) [
      | inl nothing ↦ rw (nothing, claim_next) (c, found, is)
      | inr (q, this) ↦
          let (_, stands, _) = subst (IsNext e.queue now) this (next_row-IsNext e.queue now) in
          let apart =
            settled_apart id q.command_id state e.commands settled (c, found, is)
              (IsLive-at e.commands e.queue q t.live stands) in
          rw (this, claim_next)
            (
              c,
              find_command-update_ne q.command_id id (start now) e.commands (λ d h. h) apart
                  ∙ found,
              is,
            )
    ]

lose_settled : (now : ℕ) (c : Command) → IsSettled c.state → (lose now c).state ≡ c.state
unfolding lose is_live
lose_settled now c s = still c.state refl s
  where
    still : (state : CmdState) → c.state ≡ state → IsSettled state → (lose now c).state ≡ c.state
    still exited e s = rw e
    still CmdState.killed e s = rw e
    still CmdState.queued e s = absurd s
    still CmdState.running e s = absurd s
    still CmdState.lost e s = absurd s

pub control_poll-Has :
    (id : String) (state : CmdState) (e : Env) (p : Poll) (now gap_at later : ℕ)
    → IsSettled state
    → Has id state e.commands
    → Has id state (control_poll e p now gap_at later).0.commands
unfolding control_poll
control_poll-Has id state e p now gap_at later settled (c, found, is) =
    by_name (names_gap id p.running) (report_row gap_at id p.running e.commands)
  where
    by_name :
        (b : Bool)
        → find_command id (report_gaps gap_at p.running e.commands) ≡ (
            if b
            then Option.map (lose gap_at) (find_command id e.commands)
            else find_command id e.commands)
        → Has id state (report_gaps gap_at p.running e.commands)
    by_name false row = (c, row ∙ found, is)
    by_name true row = (
      lose gap_at c,
      row ∙ ap (Option.map (lose gap_at)) found,
      lose_settled gap_at c (subst IsSettled (sym is) settled) ∙ is,
    )

pub ingest_chunk-Has :
    (id : String) (state : CmdState) (unknown : String → Text) (e : Env) (body : Chunk)
    (now later : ℕ)
    → IsSettled state
    → Has id state e.commands
    → Has id state (ingest_chunk unknown e body now later).commands
ingest_chunk-Has id state unknown e body now later settled (c, found, is) =
    let (d, there, step) = ingest_chunk-Kept unknown e body now later id c found in
    (d, there, step.state_kept (subst IsSettled (sym is) settled) ∙ is)
