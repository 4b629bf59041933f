-- ===== src/EnvDo/History/Live.antt =====
-- broker/src/env-do.ts: which updates leave a command that may be handed out.
use mathlib.Core.Option
use gha_mcp_host.Prelude.{
  ℕ, suc, ◌≡◌, inl, inr, refl, sym, ap, subst, ◌∙◌, Bool, true, false, String, List, [], ◌∷◌,
  Option, none, some, arith, str_eq, eq_iff, Bool-cases, ◌==◌, get_or_else, if◌then◌else◌,
}
use gha_mcp_host.EnvSchema.{Command, QueueRow}
use gha_mcp_host.EnvDo.{find_command, update_command, in_queue}
use gha_mcp_host.EnvDo.Tables.{find_command-update_self, find_command-update_ne}
use gha_mcp_host.EnvDo.Queue.{mark_claimed, start}
use gha_mcp_host.EnvDo.Control.{Running, lose, is_live, report_gaps}
use gha_mcp_host.EnvDo.Control.SpawnGap.{report_row}
use gha_mcp_host.EnvDo.History.Rows.{
  IsUnsettled, IsLive, RowsOnce, EntriesOnce, InOrder, LiveEntries, KeepsId,
  update_command-RowsOnce,
}

-- Rows that may be handed out still may be.
abbrev pub LiveKept : List Command → List Command → Type 0
LiveKept cs ds = (j : String) → IsLive (find_command j cs) → IsLive (find_command j ds)

-- An update that turns the rows of its id, and only unsettled ones, into unsettled rows.
pub update_command-LiveKept :
    (id : String) (f : Command → Command) (cs : List Command)
    → KeepsId id f
    → (IsLive (find_command id cs) → IsLive (Option.map f (find_command id cs)))
    → LiveKept cs (update_command id f cs)
update_command-LiveKept id f cs k u j l =
    let keeps : (c : Command) → str_eq c.command_id id ≡ true → str_eq (f c).command_id id ≡ true =
      λ c h. ap (λ i. str_eq i id) (k c h) ∙ h in
    elim (Bool-cases (str_eq j id)) [
      | inl e ↦
          let same = sym ((eq_iff j id).0 e) in
          subst (λ i. IsLive (find_command i (update_command id f cs))) same
            (subst IsLive (sym (find_command-update_self id f cs keeps))
              (u (subst (λ i. IsLive (find_command i cs)) (sym same) l)))
      | inr e ↦
          subst IsLive
            (sym (find_command-update_ne id j f cs keeps (λ p. cc ((eq_iff j id).1 p, e)))) l
    ]

pub start-IsLive : (now : ℕ) (o : Option Command) → IsLive o → IsLive (Option.map (start now) o)
unfolding start
start-IsLive now none l = l
start-IsLive now (some c) l = tt

lose-IsUnsettled : (now : ℕ) (s : Command) → IsUnsettled s.state → IsUnsettled (lose now s).state
unfolding lose
lose-IsUnsettled now c l = elim (Bool-cases (is_live c.state)) [ inl e ↦ rw e tt | inr e ↦ rw e l ]

lose-IsLive : (now : ℕ) (o : Option Command) → IsLive o → IsLive (Option.map (lose now) o)
lose-IsLive now none l = l
lose-IsLive now (some c) l = lose-IsUnsettled now c l

pub report_gaps-LiveKept :
    (now : ℕ) (rs : List Running) (cs : List Command) → LiveKept cs (report_gaps now rs cs)
report_gaps-LiveKept now rs cs j l = subst IsLive (sym (report_row now j rs cs)) (either _ l)
  where
    either :
        (b : Bool)
        → IsLive (find_command j cs)
        → IsLive (if b then Option.map (lose now) (find_command j cs) else find_command j cs)
    either true h = lose-IsLive now (find_command j cs) h
    either false h = h

lose-KeepsId : (now : ℕ) (id : String) → KeepsId id (lose now)
unfolding lose
lose-KeepsId now id c h = ground arith

pub report_gaps-RowsOnce :
    (now : ℕ) (rs : List Running) (cs : List Command)
    → RowsOnce cs
    → RowsOnce (report_gaps now rs cs)
unfolding report_gaps
report_gaps-RowsOnce now [] cs o = o
report_gaps-RowsOnce now (r ∷ rs) cs o = report_gaps-RowsOnce now rs _ (after _)
  where
    after :
        (b : Bool)
        → RowsOnce (if b then update_command (get_or_else r.command_id "") (lose now) cs else cs)
    after true = update_command-RowsOnce _ (lose now) cs (lose-KeepsId now _) o
    after false = o

-- A claim marks an entry, and changes no id and no key.
in_queue-claimed :
    (j : String) (seq : ℕ) (worker : String) (now : ℕ) (qs : List QueueRow)
    → in_queue j (mark_claimed seq worker now qs) ≡ in_queue j qs
unfolding in_queue mark_claimed
in_queue-claimed j seq worker now [] = refl
in_queue-claimed j seq worker now (q ∷ qs) = ground (arith, in_queue-claimed j seq worker now qs)

pub mark_claimed-EntriesOnce :
    (seq : ℕ) (worker : String) (now : ℕ) (qs : List QueueRow)
    → EntriesOnce qs
    → EntriesOnce (mark_claimed seq worker now qs)
unfolding mark_claimed
mark_claimed-EntriesOnce seq worker now [] t = tt
mark_claimed-EntriesOnce seq worker now (q ∷ qs) (fresh, more) =
    let out = in_queue-claimed q.command_id seq worker now qs ∙ fresh in
    let rest = mark_claimed-EntriesOnce seq worker now qs more in
    elim (Bool-cases (q.seq == seq)) [ inl e ↦ rw e (out, rest) | inr e ↦ rw e (out, rest) ]

pub mark_claimed-InOrder :
    (seq : ℕ) (worker : String) (now from next : ℕ) (qs : List QueueRow)
    → InOrder from next qs
    → InOrder from next (mark_claimed seq worker now qs)
unfolding mark_claimed
mark_claimed-InOrder seq worker now from next [] o = o
mark_claimed-InOrder seq worker now from next (q ∷ qs) (le, more) =
    let rest = mark_claimed-InOrder seq worker now (suc q.seq) next qs more in
    elim (Bool-cases (q.seq == seq)) [ inl e ↦ rw e (le, rest) | inr e ↦ rw e (le, rest) ]

pub mark_claimed-LiveEntries :
    (cs : List Command) (seq : ℕ) (worker : String) (now : ℕ) (qs : List QueueRow)
    → LiveEntries cs qs
    → LiveEntries cs (mark_claimed seq worker now qs)
unfolding mark_claimed
mark_claimed-LiveEntries cs seq worker now [] t = tt
mark_claimed-LiveEntries cs seq worker now (q ∷ qs) (live, more) =
    let rest = mark_claimed-LiveEntries cs seq worker now qs more in
    elim (Bool-cases (q.seq == seq)) [ inl e ↦ rw e (live, rest) | inr e ↦ rw e (live, rest) ]
