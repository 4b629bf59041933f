-- ===== src/EnvDo/Queue/Claiming.antt =====
-- claimNext of broker/src/env-do.ts: who gets which row, and when.
use mathlib.Core.Option
use gha_mcp_host.Prelude.{
  ℕ, ◌+◌, ◌≤◌, ◌<◌, ◌≡◌, ◌≢◌, refl, sym, ap, subst, ◌∙◌, Bool, true, false, String, List, [], ◌∷◌,
  Option, none, some, arith, ltb, ◌==◌, if◌then◌else◌, keep, Bool-cases, inl, inr, ◌⊎◌,
}
use gha_mcp_host.EnvSchema.{QueueRow, Command, running}
use gha_mcp_host.EnvDo.{Env, find_command}
use gha_mcp_host.EnvDo.Tables.{find_command-update_self}
use gha_mcp_host.EnvDo.Queue.{
  claim_redeliver_ms, lapsed, claimable, least_seq, first_by_seq, next_row, mark_claimed,
  claim_next, start,
}

-- The row stands in the table.
abbrev pub In : QueueRow → List QueueRow → Type 0
In q [] = ⊥
In q (r ∷ rs) = (r ≡ q) ⊎ In q rs

-- Every row that passes the test has at least this seq.
abbrev pub NoneBefore : ℕ → (QueueRow → Bool) → List QueueRow → Type 0
NoneBefore n p [] = Unit {0}
NoneBefore n p (q ∷ qs) = ((p q ≡ false) ⊎ (n ≤ q.seq)) × NoneBefore n p qs

abbrev pub NoneClaimable : List QueueRow → ℕ → Type 0
NoneClaimable [] now = Unit {0}
NoneClaimable (q ∷ qs) now = (claimable q now ≡ false) × NoneClaimable qs now

none_left :
    (queue : List QueueRow) (now : ℕ)
    → keep (λ r. claimable r now) queue ≡ []
    → NoneClaimable queue now
none_left [] now e = tt
none_left (q ∷ qs) now e = elim (Bool-cases (claimable q now)) [
  | inl c ↦ let d : q ∷ keep (λ r. claimable r now) qs ≡ [] = rw c at e in cc d
  | inr c ↦ (c, none_left qs now (rw c at e))
]

abbrev AllFrom : ℕ → List QueueRow → Type 0
AllFrom n [] = Unit {0}
AllFrom n (q ∷ qs) = (n ≤ q.seq) × AllFrom n qs

least_seq_cases :
    (q r : QueueRow) (rs : List QueueRow)
    → ((r.seq < q.seq) × (least_seq q (r ∷ rs) ≡ least_seq r rs))
      ⊎ ((q.seq ≤ r.seq) × (least_seq q (r ∷ rs) ≡ least_seq q rs))
unfolding least_seq
least_seq_cases q r rs = elim (Bool-cases (ltb r.seq q.seq)) [
  | inl e ↦ inl (ground arith, ap (λ b. least_seq (if b then r else q) rs) e)
  | inr e ↦ inr (ground arith, ap (λ b. least_seq (if b then r else q) rs) e)
]

abbrev Leads : QueueRow → List QueueRow → QueueRow → Type 0
Leads q qs m = (m.seq ≤ q.seq) × AllFrom m.seq qs

least_seq_first : (q : QueueRow) (qs : List QueueRow) → Leads q qs (least_seq q qs)
unfolding least_seq
least_seq_first q [] = (omega arith, tt)
least_seq_first q (r ∷ rs) = elim (least_seq_cases q r rs) [
  | inl (lt, e) ↦
      let (a, b) = least_seq_first r rs in subst (Leads q (r ∷ rs)) (sym e) (omega arith, (a, b))
  | inr (le, e) ↦
      let (a, b) = least_seq_first q rs in subst (Leads q (r ∷ rs)) (sym e) (a, (omega arith, b))
]

least_seq-In : (q : QueueRow) (qs : List QueueRow) → In (least_seq q qs) (q ∷ qs)
unfolding least_seq
least_seq-In q [] = inl refl
least_seq-In q (r ∷ rs) = elim (least_seq_cases q r rs) [
  | inl (lt, e) ↦ subst (λ m. In m (q ∷ r ∷ rs)) (sym e) (inr (least_seq-In r rs))
  | inr (le, e) ↦
      subst (λ m. In m (q ∷ r ∷ rs)) (sym e)
        (elim (least_seq-In q rs) [ inl h ↦ inl h | inr h ↦ inr (inr h) ])
]

In-keep :
    (p : QueueRow → Bool) (q : QueueRow) (qs : List QueueRow)
    → In q (keep p qs)
    → (p q ≡ true) × In q qs
In-keep p q [] i = elim i [ ]
In-keep p q (r ∷ rs) i = elim (Bool-cases (p r)) [
  | inl e ↦
      let j : (r ≡ q) ⊎ In q (keep p rs) = rw e at i in
      elim j [
        | inl h ↦ (ap p (sym h) ∙ e, inl h)
        | inr h ↦ let (a, b) = In-keep p q rs h in (a, inr b)
      ]
  | inr e ↦ let (a, b) = In-keep p q rs (rw e at i) in (a, inr b)
]

NoneBefore-keep :
    (n : ℕ) (p : QueueRow → Bool) (qs : List QueueRow) → AllFrom n (keep p qs) → NoneBefore n p qs
NoneBefore-keep n p [] a = tt
NoneBefore-keep n p (q ∷ qs) a = elim (Bool-cases (p q)) [
  | inl e ↦
      let b : (n ≤ q.seq) × AllFrom n (keep p qs) = rw e at a in
      (inr b.0, NoneBefore-keep n p qs b.1)
  | inr e ↦ (inl e, NoneBefore-keep n p qs (rw e at a))
]

-- The row that is handed out is in the table and claimable, and no claimable row has a smaller seq.
abbrev pub IsNext : List QueueRow → ℕ → Option QueueRow → Type 0
IsNext queue now none = NoneClaimable queue now
IsNext queue now (some q) =
    (claimable q now ≡ true) × In q queue × NoneBefore q.seq (λ r. claimable r now) queue

first_by_seq-IsNext :
    (queue : List QueueRow) (now : ℕ) (qs : List QueueRow)
    → keep (λ r. claimable r now) queue ≡ qs
    → IsNext queue now (first_by_seq qs)
unfolding first_by_seq
first_by_seq-IsNext queue now [] e = none_left queue now e
first_by_seq-IsNext queue now (q ∷ qs) e =
    let m = least_seq q qs in
    let (passes, stands) =
      In-keep (λ r. claimable r now) m queue (subst (In m) (sym e) (least_seq-In q qs)) in
    let (le, rest) = least_seq_first q qs in
    (
      passes,
      stands,
      NoneBefore-keep m.seq (λ r. claimable r now) queue (subst (AllFrom m.seq) (sym e) (le, rest)),
    )

-- `next_row` picks by that rule, and finds nothing only where no row is claimable.
pub next_row-IsNext : (queue : List QueueRow) (now : ℕ) → IsNext queue now (next_row queue now)
unfolding next_row
next_row-IsNext queue now = first_by_seq-IsNext queue now (keep (λ r. claimable r now) queue) refl

-- A queue of one row that nobody has claimed.
pub next_row_single :
    (q : QueueRow) (now : ℕ) → q.claimed_by ≡ none → next_row (q ∷ []) now ≡ some q
unfolding next_row first_by_seq least_seq claimable
next_row_single q now h = rw h

just_claimed :
    (worker : String) (now at : ℕ) (q : QueueRow)
    → at ≤ now + claim_redeliver_ms
    → claimable (record q { claimed_by = some worker; claimed_at = some now }) at ≡ false
unfolding claimable lapsed
just_claimed worker now at q h = ground arith

claimed_out :
    (seq : ℕ) (worker : String) (now at : ℕ) (qs : List QueueRow) (q : QueueRow)
    → at ≤ now + claim_redeliver_ms
    → In q (mark_claimed seq worker now qs)
    → q.seq ≡ seq
    → claimable q at ≡ false
unfolding mark_claimed
claimed_out seq worker now at [] q h i e = elim i [ ]
claimed_out seq worker now at (r ∷ rs) q h i e = elim i [
  | inl same ↦ head_out same
  | inr more ↦ claimed_out seq worker now at rs q h more e
]
  where
    head_out :
        (if r.seq == seq then record r { claimed_by = some worker; claimed_at = some now } else r)
          ≡ q
        → claimable q at ≡ false
    head_out same = ground (arith, just_claimed worker now at r h)

queue-claim_next :
    (e : Env) (worker : String) (now : ℕ) (q : QueueRow)
    → next_row e.queue now ≡ some q
    → (claim_next e worker now).0.queue ≡ mark_claimed q.seq worker now e.queue
unfolding claim_next
queue-claim_next e worker now q f = rw (f, claim_next)

-- A row that has just been claimed is not handed out again before its redelivery time is over: until
-- then another claim gets another row or none.
pub claim_next_apart :
    (e : Env) (worker : String) (now at : ℕ) (first second : QueueRow)
    → next_row e.queue now ≡ some first
    → at ≤ now + claim_redeliver_ms
    → next_row (claim_next e worker now).0.queue at ≡ some second
    → second.seq ≢ first.seq
claim_next_apart e worker now at first second f h s same =
    let table = (claim_next e worker now).0.queue in
    let (claimed, stands, _) = subst (IsNext table at) s (next_row-IsNext table at) in
    let marked = subst (In second) (queue-claim_next e worker now first f) stands in
    let out = claimed_out first.seq worker now at e.queue second h marked same in cc (claimed, out)

pub state-start : (now : ℕ) (c : Command) → (start now c).state ≡ running
unfolding start
state-start now c = refl

-- A claim hands out the payload of the next row, and the row's command runs from then on.
pub claimed_row :
    (e : Env) (worker : String) (at : ℕ) (q : QueueRow)
    → next_row e.queue at ≡ some q
    → let (e', payload) = claim_next e worker at in
      (payload ≡ some q.payload)
      × (find_command q.command_id e'.commands
          ≡ Option.map (start at) (find_command q.command_id e.commands))
unfolding claim_next start
claimed_row e worker at q h =
    rw (h, claim_next)
      (refl, find_command-update_self q.command_id (start at) e.commands (λ c k. k))
