-- ===== src/EnvDo/History/Rows.antt =====
-- broker/src/env-do.ts: what an update, an insert and a delete keep of the tables.

use gha_mcp_host.Prelude.{
  ℕ, suc, ◌≤◌, ◌≡◌, ◌≢◌, inl, inr, refl, sym, ap, subst, ◌∙◌, true, false, String, List, [], ◌∷◌,
  ◌++◌, Option, none, some, arith, str_eq, eq_iff, Bool-cases, if◌then◌else◌,
}
use gha_mcp_host.EnvSchema.{CmdState, exited, killed, Command, QueueRow}
use gha_mcp_host.EnvDo.{find_command, update_command, in_queue}
use gha_mcp_host.EnvDo.Ingest.{dequeue}

-- Not exited and not killed: what may still be handed out.
abbrev pub IsUnsettled : CmdState → Type 0
IsUnsettled exited = ⊥
IsUnsettled killed = ⊥
IsUnsettled _ = Unit {0}

abbrev pub IsLive : Option Command → Type 0
IsLive none = ⊥
IsLive (some c) = IsUnsettled c.state

-- No two rows of one id.
abbrev pub RowsOnce : List Command → Type 0
RowsOnce [] = Unit {0}
RowsOnce (c ∷ cs) = (find_command c.command_id cs ≡ none) × RowsOnce cs

abbrev pub EntriesOnce : List QueueRow → Type 0
EntriesOnce [] = Unit {0}
EntriesOnce (q ∷ qs) = (in_queue q.command_id qs ≡ false) × EntriesOnce qs

-- The keys ascend from `from` on and are below `next`.
abbrev pub InOrder : ℕ → ℕ → List QueueRow → Type 0
InOrder from next [] = from ≤ next
InOrder from next (q ∷ qs) = (from ≤ q.seq) × InOrder (suc q.seq) next qs

-- Every entry has a row, and that row is unsettled.
abbrev pub LiveEntries : List Command → List QueueRow → Type 0
LiveEntries cs [] = Unit {0}
LiveEntries cs (q ∷ qs) = IsLive (find_command q.command_id cs) × LiveEntries cs qs

-- An update of the row of `id` that keeps its id.
abbrev pub KeepsId : String → (Command → Command) → Type 0
KeepsId id f = (c : Command) → str_eq c.command_id id ≡ true → (f c).command_id ≡ c.command_id

find_command-update_none :
    (j id : String) (f : Command → Command) (cs : List Command)
    → KeepsId id f
    → find_command j cs ≡ none
    → find_command j (update_command id f cs) ≡ none
unfolding find_command update_command
find_command-update_none j id f [] k h = refl
find_command-update_none j id f (c ∷ cs) k h =
    ground (arith, k c, find_command-update_none j id f cs k)

id-updated :
    (id : String) (f : Command → Command) (c : Command)
    → KeepsId id f
    → (if str_eq c.command_id id then f c else c).command_id ≡ c.command_id
id-updated id f c k = ground (arith, k c)

pub update_command-RowsOnce :
    (id : String) (f : Command → Command) (cs : List Command)
    → KeepsId id f
    → RowsOnce cs
    → RowsOnce (update_command id f cs)
unfolding update_command
update_command-RowsOnce id f [] k t = tt
update_command-RowsOnce id f (c ∷ cs) k (fresh, more) = (
  ap (λ j. find_command j (update_command id f cs)) (id-updated id f c k)
      ∙ find_command-update_none c.command_id id f cs k fresh,
  update_command-RowsOnce id f cs k more,
)

find_command-append_none :
    (j : String) (cs : List Command) (c : Command)
    → find_command j cs ≡ none
    → str_eq c.command_id j ≡ false
    → find_command j (cs ++ c ∷ []) ≡ none
unfolding find_command
find_command-append_none j [] c h n = rw n
find_command-append_none j (d ∷ cs) c h n = ground (arith, find_command-append_none j cs c)

-- A row of another id before the new one.
other_id :
    (c d : Command) (cs : List Command)
    → find_command c.command_id (d ∷ cs) ≡ none
    → (str_eq c.command_id d.command_id ≡ false) × (find_command c.command_id cs ≡ none)
unfolding find_command
other_id c d cs h =
    ground (arith, eq_iff c.command_id d.command_id, eq_iff d.command_id c.command_id)

pub append-RowsOnce :
    (cs : List Command) (c : Command)
    → find_command c.command_id cs ≡ none
    → RowsOnce cs
    → RowsOnce (cs ++ c ∷ [])
unfolding find_command
append-RowsOnce [] c h t = (refl, tt)
append-RowsOnce (d ∷ cs) c h (fresh, more) =
    let (ne, rest) = other_id c d cs h in
    (find_command-append_none d.command_id cs c fresh ne, append-RowsOnce cs c rest more)

-- A new row at the end hides none of the others.
pub find_command-append-IsLive :
    (j : String) (cs : List Command) (c : Command)
    → IsLive (find_command j cs)
    → IsLive (find_command j (cs ++ c ∷ []))
unfolding find_command
find_command-append-IsLive j [] c l = absurd l
find_command-append-IsLive j (d ∷ cs) c l = elim (Bool-cases (str_eq d.command_id j)) [
  | inl e ↦ rw e (rw e at l)
  | inr e ↦ rw e (find_command-append-IsLive j cs c (rw e at l))
]

pub find_command-append_new :
    (cs : List Command) (c : Command)
    → find_command c.command_id cs ≡ none
    → find_command c.command_id (cs ++ c ∷ []) ≡ some c
unfolding find_command
find_command-append_new [] c h = rw ((eq_iff c.command_id c.command_id).1 refl)
find_command-append_new (d ∷ cs) c h = ground (arith, find_command-append_new cs c)

in_queue-append :
    (j : String) (qs : List QueueRow) (q : QueueRow)
    → in_queue j qs ≡ false
    → str_eq q.command_id j ≡ false
    → in_queue j (qs ++ q ∷ []) ≡ false
unfolding in_queue
in_queue-append j [] q h n = rw n
in_queue-append j (r ∷ qs) q h n = ground (arith, in_queue-append j qs q)

other_entry :
    (q r : QueueRow) (qs : List QueueRow)
    → in_queue q.command_id (r ∷ qs) ≡ false
    → (str_eq q.command_id r.command_id ≡ false) × (in_queue q.command_id qs ≡ false)
unfolding in_queue
other_entry q r qs h =
    ground (arith, eq_iff q.command_id r.command_id, eq_iff r.command_id q.command_id)

pub append-EntriesOnce :
    (qs : List QueueRow) (q : QueueRow)
    → in_queue q.command_id qs ≡ false
    → EntriesOnce qs
    → EntriesOnce (qs ++ q ∷ [])
unfolding in_queue
append-EntriesOnce [] q h t = (refl, tt)
append-EntriesOnce (r ∷ qs) q h (fresh, more) =
    let (ne, rest) = other_entry q r qs h in
    (in_queue-append r.command_id qs q fresh ne, append-EntriesOnce qs q rest more)

pub append-InOrder :
    (from next : ℕ) (qs : List QueueRow) (q : QueueRow)
    → q.seq ≡ next
    → InOrder from next qs
    → InOrder from (suc next) (qs ++ q ∷ [])
append-InOrder from next [] q e o = (omega (arith, e, o), omega (arith, e))
append-InOrder from next (r ∷ qs) q e (le, more) = (le, append-InOrder (suc r.seq) next qs q e more)

pub LiveEntries-map :
    (cs ds : List Command) (qs : List QueueRow)
    → ((j : String) → IsLive (find_command j cs) → IsLive (find_command j ds))
    → LiveEntries cs qs
    → LiveEntries ds qs
LiveEntries-map cs ds [] k l = tt
LiveEntries-map cs ds (q ∷ qs) k (live, more) =
    (k q.command_id live, LiveEntries-map cs ds qs k more)

pub append-LiveEntries :
    (cs : List Command) (qs : List QueueRow) (q : QueueRow)
    → IsLive (find_command q.command_id cs)
    → LiveEntries cs qs
    → LiveEntries cs (qs ++ q ∷ [])
append-LiveEntries cs [] q h t = (h, tt)
append-LiveEntries cs (r ∷ qs) q h (live, more) = (live, append-LiveEntries cs qs q h more)

-- The delete of the entries of `id`.
in_queue-dequeue :
    (j id : String) (qs : List QueueRow)
    → in_queue j qs ≡ false
    → in_queue j (dequeue id qs) ≡ false
unfolding in_queue dequeue
in_queue-dequeue j id [] h = refl
in_queue-dequeue j id (q ∷ qs) h = ground (arith, in_queue-dequeue j id qs)

InOrder-from :
    (from low next : ℕ) (qs : List QueueRow)
    → low ≤ from
    → InOrder from next qs
    → InOrder low next qs
InOrder-from from low next [] h o = omega (arith, h, o)
InOrder-from from low next (q ∷ qs) h (le, more) = (omega (arith, h, le), more)

pub dequeue-EntriesOnce :
    (id : String) (qs : List QueueRow) → EntriesOnce qs → EntriesOnce (dequeue id qs)
unfolding dequeue
dequeue-EntriesOnce id [] t = tt
dequeue-EntriesOnce id (q ∷ qs) (fresh, more) = elim (Bool-cases (str_eq q.command_id id)) [
  | inl e ↦ rw e (dequeue-EntriesOnce id qs more)
  | inr e ↦ rw e (in_queue-dequeue q.command_id id qs fresh, dequeue-EntriesOnce id qs more)
]

pub dequeue-InOrder :
    (id : String) (from next : ℕ) (qs : List QueueRow)
    → InOrder from next qs
    → InOrder from next (dequeue id qs)
unfolding dequeue
dequeue-InOrder id from next [] o = o
dequeue-InOrder id from next (q ∷ qs) (le, more) = elim (Bool-cases (str_eq q.command_id id)) [
  | inl e ↦ rw e (
      dequeue-InOrder id from next qs
        (InOrder-from (suc q.seq) from next qs (omega (arith, le)) more))
  | inr e ↦ rw e (le, dequeue-InOrder id (suc q.seq) next qs more)
]

-- What is left is as live as before where only the row of `id` changed.
pub dequeue-LiveEntries :
    (id : String) (cs ds : List Command) (qs : List QueueRow)
    → ((j : String) → j ≢ id → find_command j ds ≡ find_command j cs)
    → LiveEntries cs qs
    → LiveEntries ds (dequeue id qs)
unfolding dequeue
dequeue-LiveEntries id cs ds [] k l = tt
dequeue-LiveEntries id cs ds (q ∷ qs) k (live, more) = elim (Bool-cases (str_eq q.command_id id)) [
  | inl e ↦ rw e (dequeue-LiveEntries id cs ds qs k more)
  | inr e ↦
      let same = k q.command_id (λ p. cc ((eq_iff q.command_id id).1 p, e)) in
      rw e (subst IsLive (sym same) live, dequeue-LiveEntries id cs ds qs k more)
]
