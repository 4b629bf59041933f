-- ===== src/EnvDo/Snapshot/Budget.antt =====
-- buildSnapshot of broker/src/env-snapshot.ts: which commands are listed.
use gha_mcp_host.Prelude.{
  ℕ, ◌+◌, ◌-◌, ◌≤◌, ◌<◌, ◌≡◌, ◌↔◌, get_or_else, refl, ap, Bool, true, false, List, [], ◌∷◌, ◌++◌,
  map, arith, ltb, leb, take, Bool-cases, inl, inr, Option, none, some, leb→le, ltb→lt,
}
use mathlib.Core.List.{Perm}
use mathlib.Core.List.Perm
use gha_mcp_host.EnvSchema.{
  EnvState, provisioning, ready, destroying, expired, failed, lost, Command,
}
use gha_mcp_host.EnvDo.{Env}
use gha_mcp_host.EnvDo.Snapshot.{
  Item, item_of, put_newest, newest_first, within_budget, build_snapshot, commands_scan_limit,
  commands_budget_bytes, state_at,
}

pub total_cost : (Item → ℕ) → List Item → ℕ
total_cost cost [] = 0
total_cost cost (i ∷ items) = cost i + total_cost cost items

-- What is listed is the beginning of `items`, within the budget; where it is not all, the next one
-- would not fit.
abbrev pub IsListed : (Item → ℕ) → ℕ → List Item → List Item → Bool → Type 0
IsListed cost budget items listed false = listed ≡ items
IsListed cost budget items listed true =
    (next : Item) × (rest : List Item) × (items ≡ listed ++ next ∷ rest)
    × (budget < total_cost cost listed + cost next)

within_budget-IsListed :
    (cost : Item → ℕ) (budget : ℕ) (items : List Item)
    → let (listed, truncated) = within_budget cost budget items in
      (total_cost cost listed ≤ budget) × IsListed cost budget items listed truncated
unfolding within_budget total_cost
within_budget-IsListed cost budget [] = (omega arith, refl)
within_budget-IsListed cost budget (i ∷ items) = elim (Bool-cases (ltb budget (cost i))) [
  | inl large ↦
      rw (large, within_budget)
        (omega arith, (i, items, refl, omega (arith, ltb→lt budget (cost i) large)))
  | inr fits ↦
      rw (fits, within_budget)
        (more i (within_budget cost (budget - cost i) items).0
          (within_budget cost (budget - cost i) items).1
          (within_budget-IsListed cost (budget - cost i) items) (ground arith))
]
  where
    more :
        (i : Item) (listed : List Item) (truncated : Bool)
        → (total_cost cost listed ≤ budget - cost i)
          × IsListed cost (budget - cost i) items listed truncated
        → cost i ≤ budget
        → (total_cost cost (i ∷ listed) ≤ budget)
          × IsListed cost budget (i ∷ items) (i ∷ listed) truncated
    more i listed false (small, all) h = (omega arith, ap (λ l. i ∷ l) all)
    more i listed true (small, (next, rest, split, over)) h =
        (omega arith, (next, rest, ap (λ l. i ∷ l) split, omega arith))

-- Every later row is no newer.
abbrev pub NoneAfter : ℕ → List Command → Type 0
NoneAfter t [] = Unit {0}
NoneAfter t (c ∷ cs) = (c.created_at ≤ t) × NoneAfter t cs

abbrev pub IsNewestFirst : List Command → Type 0
IsNewestFirst [] = Unit {0}
IsNewestFirst (c ∷ cs) = NoneAfter c.created_at cs × IsNewestFirst cs

NoneAfter-le : (s t : ℕ) (cs : List Command) → NoneAfter s cs → s ≤ t → NoneAfter t cs
NoneAfter-le s t [] n h = _
NoneAfter-le s t (c ∷ cs) n h = (omega (arith, n.0), NoneAfter-le s t cs n.1 h)

NoneAfter-put :
    (t : ℕ) (c : Command) (cs : List Command)
    → c.created_at ≤ t
    → NoneAfter t cs
    → NoneAfter t (put_newest c cs)
unfolding put_newest
NoneAfter-put t c [] h n = (h, _)
NoneAfter-put t c (d ∷ ds) h n = elim (Bool-cases (leb d.created_at c.created_at)) [
  | inl e ↦ rw e (h, n)
  | inr e ↦ rw (e, put_newest) (n.0, NoneAfter-put t c ds h n.1)
]

put_newest-IsNewestFirst :
    (c : Command) (cs : List Command) → IsNewestFirst cs → IsNewestFirst (put_newest c cs)
unfolding put_newest
put_newest-IsNewestFirst c [] s = (_, _)
put_newest-IsNewestFirst c (d ∷ ds) s = elim (Bool-cases (leb d.created_at c.created_at)) [
  | inl e ↦
      let le = leb→le d.created_at c.created_at e in
      rw e ((le, NoneAfter-le d.created_at c.created_at ds s.0 le), s)
  | inr e ↦
      rw (e, put_newest)
        (
          NoneAfter-put d.created_at c ds (not_newer d.created_at c.created_at e) s.0,
          put_newest-IsNewestFirst c ds s.1,
        )
]
  where
    not_newer : (m n : ℕ) → leb m n ≡ false → n ≤ m
    not_newer m n h = ground arith

newest_first-IsNewestFirst : (cs : List Command) → IsNewestFirst (newest_first cs)
unfolding newest_first
newest_first-IsNewestFirst [] = _
newest_first-IsNewestFirst (c ∷ cs) =
    put_newest-IsNewestFirst c (newest_first cs) (newest_first-IsNewestFirst cs)

put_newest-Perm : (c : Command) (cs : List Command) → Perm (put_newest c cs) (c ∷ cs)
unfolding put_newest
put_newest-Perm c [] = Perm.refl (c ∷ [])
put_newest-Perm c (d ∷ ds) = elim (Bool-cases (leb d.created_at c.created_at)) [
  | inl e ↦ rw e (Perm.refl (c ∷ d ∷ ds))
  | inr e ↦ rw (e, put_newest) (Perm.trans (Perm.cons d (put_newest-Perm c ds)) (Perm.swap c d ds))
]

newest_first-Perm : (cs : List Command) → Perm (newest_first cs) cs
unfolding newest_first
newest_first-Perm [] = Perm.refl []
newest_first-Perm (c ∷ cs) =
    Perm.trans (put_newest-Perm c (newest_first cs)) (Perm.cons c (newest_first-Perm cs))

state_at-ready :
    (s : Option EnvState) (ttl now : ℕ)
    → (state_at s ttl now ≡ ready) ↔ ((s ≡ some ready) × (now ≤ ttl))
unfolding state_at
state_at-ready none ttl now = ((λ h. cc h), (λ h. cc (h.0)))
state_at-ready (some ready) ttl now = ((λ h. ground arith), (λ h. ground arith))
state_at-ready (some expired) ttl now = ((λ h. cc h), (λ h. cc (h.0)))
state_at-ready (some provisioning) ttl now = ((λ h. cc h), (λ h. cc (h.0)))
state_at-ready (some destroying) ttl now = ((λ h. cc h), (λ h. cc (h.0)))
state_at-ready (some failed) ttl now = ((λ h. cc h), (λ h. cc (h.0)))
state_at-ready (some lost) ttl now = ((λ h. cc h), (λ h. cc (h.0)))

-- The rows that a snapshot may list: the newest, 60 at most.
abbrev pub candidates : Env → List Item
candidates e = map item_of (take commands_scan_limit (newest_first e.commands))

-- A snapshot reads as ready exactly where the environment is stored as ready and its lease is not
-- over. It sorts the environment's rows newest first, each row once and no other, and lists the
-- beginning of that order, at most 60, within the budget; where
-- it says that the list is cut, the next row would not have fitted, and where not, none is left out of
-- those 60.
pub build_snapshot_lem :
    (cost : Item → ℕ) (e : Env) (verbose : Bool) (now : ℕ)
    → let s = (build_snapshot cost e verbose now).0 in
      ((s.state ≡ ready)
        ↔ ((e.meta.state ≡ some ready) × (now ≤ get_or_else e.meta.ttl_expires_at 0)))
      × (total_cost cost s.commands ≤ commands_budget_bytes)
      × IsListed cost commands_budget_bytes (candidates e) s.commands s.commands_truncated
      × IsNewestFirst (newest_first e.commands)
      × Perm (newest_first e.commands) e.commands
unfolding build_snapshot
build_snapshot_lem cost e verbose now =
    let (small, listed) = within_budget-IsListed cost commands_budget_bytes (candidates e) in
    (
      state_at-ready e.meta.state (get_or_else e.meta.ttl_expires_at 0) now,
      small,
      listed,
      newest_first-IsNewestFirst e.commands,
      newest_first-Perm e.commands,
    )
