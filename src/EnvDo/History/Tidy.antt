-- ===== src/EnvDo/History/Tidy.antt =====
-- broker/src/env-do.ts: what holds of the tables between any two methods.

use gha_mcp_host.Prelude.{ℕ, ◌≡◌, sym, subst, String, arith}
use gha_mcp_host.EnvDo.{Env}
use gha_mcp_host.EnvDo.Lifecycle.{
  enroll, enroll_in, enroll_provisioning, fail_with, admit, auth_agent, auth_in, lease_check, Claim,
}
use gha_mcp_host.EnvDo.History.Rows.{RowsOnce, EntriesOnce, InOrder, LiveEntries, LiveEntries-map}
use gha_mcp_host.EnvDo.History.Live.{LiveKept}

pub record IsTidy (e : Env) : Type 0 where
  pub rows_once : RowsOnce e.commands
  pub entries_once : EntriesOnce e.queue
  pub in_order : InOrder 0 e.next_seq e.queue
  pub live : LiveEntries e.commands e.queue

-- A step that leaves the tables of commands and of the queue.
abbrev pub SameTables : Env → Env → Type 0
SameTables e e' = (e'.commands ≡ e.commands) × (e'.queue ≡ e.queue) × (e'.next_seq ≡ e.next_seq)

pub SameTables-IsTidy : (e e' : Env) → SameTables e e' → IsTidy e → IsTidy e'
SameTables-IsTidy e e' (c, q, s) t = record {
  rows_once = subst RowsOnce (sym c) t.rows_once;
  entries_once = subst EntriesOnce (sym q) t.entries_once;
  in_order =
      subst (λ n. InOrder 0 n e'.queue) (sym s) (subst (InOrder 0 e.next_seq) (sym q) t.in_order);
  live =
      subst (λ cs. LiveEntries cs e'.queue) (sym c) (subst (LiveEntries e.commands) (sym q) t.live);
}

pub enroll_same :
    (e : Env) (c : Claim) (token : String) (now later : ℕ)
    → SameTables e (enroll e c token now later).0
unfolding enroll enroll_in enroll_provisioning fail_with admit
enroll_same e c token now later = ground arith

pub auth_same : (e : Env) (token : String) (now : ℕ) → SameTables e (auth_agent e token now).0
unfolding auth_agent auth_in lease_check
auth_same e token now = ground arith

-- The table of commands changed and the queue not.
pub rows_changed :
    (e e' : Env)
    → (e'.queue ≡ e.queue) × (e'.next_seq ≡ e.next_seq)
    → RowsOnce e'.commands
    → LiveKept e.commands e'.commands
    → IsTidy e
    → IsTidy e'
rows_changed e e' (q, s) once kept t = record {
  rows_once = once;
  entries_once = subst EntriesOnce (sym q) t.entries_once;
  in_order =
      subst (λ n. InOrder 0 n e'.queue) (sym s) (subst (InOrder 0 e.next_seq) (sym q) t.in_order);
  live =
      subst (LiveEntries e'.commands) (sym q)
        (LiveEntries-map e.commands e'.commands e.queue kept t.live);
}
