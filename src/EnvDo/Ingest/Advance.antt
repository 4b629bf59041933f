-- ===== src/EnvDo/Ingest/Advance.antt =====
-- ingestChunk of broker/src/env-do.ts: a row before and after a chunk.

use gha_mcp_host.Prelude.{
  ℕ, ℤ, ◌≤◌, ◌≡◌, refl, Bool, true, false, String, Option, none, some, arith, get_or_else, or_else,
  is_some, if◌then◌else◌, ◌⊎◌, inl, inr, ◌+◌, ◌-◌, ◌<◌, min, length, drop, ltb, ltb→lt, Bool-cases,
  ap,
}
use gha_mcp_host.Text.{Text}
use gha_mcp_host.Ring.{Ring, tail_of, tail_max}
use gha_mcp_host.KillReason.Laws.{rank, rank-le-pick}
use gha_mcp_host.EnvSchema.{
  CmdState, queued, running, exited, killed, lost, is_terminal, Num, finite, not_finite, num_or,
  Command,
}
use gha_mcp_host.EnvDo.Ingest.{Chunk, settled, state_after, tail_after, written_after, merge_row}

abbrev pub IsSettled : CmdState → Type 0
IsSettled exited = Unit {0}
IsSettled killed = Unit {0}
IsSettled _ = ⊥

-- What a later row keeps of an earlier one.
pub record Advances (prev next : Command) : Type 0 where
  pub same_id : next.command_id ≡ prev.command_id
  pub state_kept : IsSettled prev.state → next.state ≡ prev.state
  pub total : prev.total_bytes ≤ next.total_bytes
  pub written : get_or_else prev.bytes_written 0 ≤ get_or_else next.bytes_written 0
  pub discarded : prev.head_discarded_bytes ≤ next.head_discarded_bytes
  pub capped : prev.output_capped ≡ true → next.output_capped ≡ true
  pub exit_known : is_some prev.exit_code ≡ true → is_some next.exit_code ≡ true
  pub ended_kept : is_some prev.ended_at ≡ true → next.ended_at ≡ prev.ended_at
  pub reason_rank : rank prev.killed_reason ≤ rank next.killed_reason
  pub tail_known : is_some prev.tail_b64 ≡ true → is_some next.tail_b64 ≡ true

abbrev pub TailKept : Command → Command → Type 0
TailKept prev next = (next.tail_b64 ≡ prev.tail_b64) × (next.tail_start ≡ prev.tail_start)

-- The tail is the end of what the ring holds, with the offset of its first byte.
abbrev pub TailTaken : Ring → Command → Type 0
TailTaken r next =
    (next.tail_b64 ≡ some (drop (length r.bytes - tail_max) r.bytes))
    × (next.tail_start ≡ some (r.start + (length r.bytes - tail_max)))

-- Where the tail of `next` is from, with `ring` after the chunk.
abbrev pub TailFrom : Option Ring → Command → Command → Type 0
TailFrom none prev next = TailKept prev next
TailFrom (some r) prev next =
    ((is_terminal next.state ≡ true) × (0 < length r.bytes) × TailTaken r next)
    ⊎ (((is_terminal next.state ≡ false) ⊎ (length r.bytes ≡ 0)) × TailKept prev next)

settled_kept : (s t : CmdState) → IsSettled s → (if settled s then s else t) ≡ s
unfolding settled
settled_kept exited t h = refl
settled_kept killed t h = refl
settled_kept queued t h = absurd h
settled_kept running t h = absurd h
settled_kept lost t h = absurd h

written_after-le :
    (prev : Option ℕ) (z : Option ℤ) → get_or_else prev 0 ≤ get_or_else (written_after prev z) 0
unfolding written_after
written_after-le prev none = omega arith
written_after-le prev (some z) = omega arith

num_or_known : (v : Option Num) (d : Option ℤ) → is_some d ≡ true → is_some (num_or v d) ≡ true
num_or_known none d h = h
num_or_known (some (finite z)) d h = refl
num_or_known (some not_finite) d h = h

or_else_kept : (a b : Option ℕ) → is_some a ≡ true → or_else a b ≡ a
or_else_kept none b h = cc
or_else_kept (some x) b h = refl

tail_after_known :
    (terminal : Bool) (ring : Option Ring) (prev : Command)
    → is_some prev.tail_b64 ≡ true
    → is_some (tail_after terminal ring prev).0 ≡ true
unfolding tail_after
tail_after_known true (some r) prev h = ground arith
tail_after_known true none prev h = h
tail_after_known false ring prev h = h

monus_min : (n l : ℕ) → l - min n l ≡ l - n
monus_min n l = omega arith

tail_of-TailTaken :
    (r : Ring)
    → ((tail_of r tail_max).bytes ≡ drop (length r.bytes - tail_max) r.bytes)
      × ((tail_of r tail_max).start ≡ r.start + (length r.bytes - tail_max))
unfolding tail_of
tail_of-TailTaken r =
    let cut = monus_min tail_max (length r.bytes) in
    (ap (λ k. drop k r.bytes) cut, ap (λ k. r.start + k) cut)

merge_row-tail :
    (unknown : String → Text) (ring : Option Ring) (prev : Command) (body : Chunk) (now : ℕ)
    → TailFrom ring prev (merge_row unknown ring prev body now)
unfolding merge_row tail_after
merge_row-tail unknown none prev body now =
    elim (Bool-cases (is_terminal (state_after prev body))) [
      | inl ends ↦ rw (ends) (refl, refl)
      | inr runs ↦ rw (runs) (refl, refl)
    ]
merge_row-tail unknown (some r) prev body now =
    elim (Bool-cases (is_terminal (state_after prev body))) [
      | inr runs ↦ inr (inl runs, rw (runs) (refl, refl))
      | inl ends ↦ elim (Bool-cases (ltb 0 (length r.bytes))) [
        | inl full ↦ inl (
          ends,
          ltb→lt 0 (length r.bytes) full,
          rw (ends, full, tail_after)
              (ap some (tail_of-TailTaken r).0, ap some (tail_of-TailTaken r).1),
        )
        | inr empty ↦ inr (inr (ground arith), rw (ends, empty, tail_after) (refl, refl))
      ]
    ]

pub row-Advances :
    (unknown : String → Text) (ring : Option Ring) (prev : Command) (body : Chunk) (now : ℕ)
    → Advances prev (merge_row unknown ring prev body now)
unfolding merge_row state_after
row-Advances unknown ring prev body now = record {
  same_id = refl;
  state_kept = settled_kept prev.state body.state;
  total = omega arith;
  written = written_after-le prev.bytes_written (num_or body.bytes_written none);
  discarded = omega arith;
  capped = λ h. rw h;
  exit_known = num_or_known body.exit_code prev.exit_code;
  ended_kept = or_else_kept prev.ended_at _;
  reason_rank = rank-le-pick prev.killed_reason body.killed_reason;
  tail_known = tail_after_known (is_terminal (state_after prev body)) ring prev;
}

-- Whatever the chunk says, in whatever order chunks come: the id stays, a settled state stays, the
-- counters do not fall, and a known exit code, end time, cap and reason of higher rank are not lost.
-- The tail is replaced, by the last bytes of the ring and their offset, exactly at a terminal state
-- with a ring that holds bytes; at any other state, and with an empty ring or none, it stays.
pub merge_row-Advances :
    (unknown : String → Text) (ring : Option Ring) (prev : Command) (body : Chunk) (now : ℕ)
    → let next = merge_row unknown ring prev body now in
      Advances prev next × TailFrom ring prev next
merge_row-Advances unknown ring prev body now =
    (row-Advances unknown ring prev body now, merge_row-tail unknown ring prev body now)
