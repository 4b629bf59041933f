-- ===== src/KillReason/Laws.antt =====
-- pickKilledReason of broker/src/kill-reason.ts, once and over sequences of reports.
use gha_mcp_host.Prelude.{
  ℕ, ◌≡◌, ◌≤◌, refl, ap, ◌∙◌, String, List, [], ◌∷◌, Option, none, some, max, arith, inl, inr, ltb,
  str_eq, eq_iff, if◌then◌else◌, Bool-cases,
}
use mathlib.Core.Option
use gha_mcp_host.KillReason.{
  KilledReason, enospc, output_cap, timeout, inactivity, user, spawn_gap, name, priority, known,
  is_killed_reason, outrank, pick_known, pick_parsed, pick_killed_reason,
}

-- Every documented reason is read back from its own name.
pub is_killed_reason-name : (r : KilledReason) → is_killed_reason (name r) ≡ some r
unfolding is_killed_reason
is_killed_reason-name enospc = refl
is_killed_reason-name output_cap = refl
is_killed_reason-name timeout = refl
is_killed_reason-name inactivity = refl
is_killed_reason-name user = refl
is_killed_reason-name spawn_gap = refl

pub rank : Option KilledReason → ℕ
rank none = 0
rank (some r) = priority r

priority-outrank : (a b : KilledReason) → priority (outrank a b) ≡ max (priority a) (priority b)
unfolding outrank
priority-outrank a b = ground arith

is_killed_reason_nil : is_killed_reason "" ≡ none
unfolding is_killed_reason
is_killed_reason_nil = refl

rank-pick_known :
    (c : Option KilledReason) (r : KilledReason)
    → rank (pick_known c r).reason ≡ max (rank c) (priority r)
unfolding pick_known rank
rank-pick_known none r = omega arith
rank-pick_known (some c) r = priority-outrank c r

rank-pick_parsed :
    (c : Option KilledReason) (v : String) (i : Option KilledReason)
    → rank (pick_parsed c v i).reason ≡ max (rank c) (rank i)
unfolding pick_parsed rank
rank-pick_parsed c v none = omega arith
rank-pick_parsed c v (some r) = rank-pick_known c r

-- A merge has the higher one of the two ranks.
rank-pick :
    (existing incoming : Option String)
    → rank (pick_killed_reason existing incoming).reason
      ≡ max (rank (known existing)) (rank (known incoming))
unfolding pick_killed_reason rank
rank-pick e none = omega arith
rank-pick e (some v) = elim (Bool-cases (str_eq v "")) [
  | inl empty ↦
      let nothing : is_killed_reason v ≡ none =
        ap is_killed_reason ((eq_iff v "").0 empty) ∙ is_killed_reason_nil in
      rw (empty, nothing) (omega arith)
  | inr given ↦ rw given (rank-pick_parsed (known e) v (is_killed_reason v))
]

pick_parsed-ltb :
    (c : Option KilledReason) (v : String) (i : Option KilledReason)
    → (pick_parsed c v i).reason ≡ (if ltb (rank c) (rank i) then i else c)
unfolding pick_parsed pick_known outrank rank priority
pick_parsed-ltb c v none = ground arith
pick_parsed-ltb none v (some r) = ground arith
pick_parsed-ltb (some c) v (some r) = ground arith

-- The incoming reason replaces the stored one exactly if its rank is strictly higher: a tie keeps
-- what was recorded first, and an unknown or empty report changes nothing.
pub pick_killed_reason_lem :
    (existing incoming : Option String)
    → (pick_killed_reason existing incoming).reason ≡ (
        if ltb (rank (known existing)) (rank (known incoming))
        then known incoming
        else known existing)
unfolding pick_killed_reason rank
pick_killed_reason_lem e none = ground arith
pick_killed_reason_lem e (some v) = elim (Bool-cases (str_eq v "")) [
  | inl empty ↦
      let nothing : is_killed_reason v ≡ none =
        ap is_killed_reason ((eq_iff v "").0 empty) ∙ is_killed_reason_nil in
      rw (empty, nothing) (ground arith)
  | inr given ↦ rw given (pick_parsed-ltb (known e) v (is_killed_reason v))
]

-- The stored column after a list of reports, each merged into what the one before left.
abbrev pub settle : Option KilledReason → List (Option String) → Option KilledReason
settle stored [] = stored
settle stored (v ∷ vs) = settle (pick_killed_reason (Option.map name stored) v).reason vs

abbrev pub highest : List (Option String) → ℕ
highest [] = 0
highest (v ∷ vs) = max (rank (known v)) (highest vs)

known-name : (stored : Option KilledReason) → known (Option.map name stored) ≡ stored
known-name none = refl
known-name (some r) = is_killed_reason-name r

-- A merge into a stored reason never lowers its rank.
pub rank-le-pick :
    (stored : Option KilledReason) (v : Option String)
    → rank stored ≤ rank (pick_killed_reason (Option.map name stored) v).reason
rank-le-pick stored v =
    omega (arith, rank-pick (Option.map name stored) v, ap rank (known-name stored))

-- However many reports arrive and in whatever order, what stays recorded has the highest rank
-- among what was stored and every known reason reported.
pub rank-settle :
    (stored : Option KilledReason) (reports : List (Option String))
    → rank (settle stored reports) ≡ max (rank stored) (highest reports)
rank-settle stored [] = omega arith
rank-settle stored (v ∷ vs) = omega (
  arith,
  rank-settle (pick_killed_reason (Option.map name stored) v).reason vs,
  rank-pick (Option.map name stored) v,
  ap rank (known-name stored),
)

enospc_rank : rank (some enospc) ≡ 60
unfolding rank priority
enospc_rank = refl

-- Only ENOSPC has the top rank.
top_rank : (o : Option KilledReason) → 60 ≤ rank o → o ≡ some enospc
unfolding rank priority
top_rank o h = ground arith

pub data Reported (v : Option String) : List (Option String) → Type 0 where
  now : (vs : List (Option String)) → Reported v (v ∷ vs)
  later : (w : Option String) {vs : List (Option String)} → Reported v vs → Reported v (w ∷ vs)

Reported-le-highest :
    {v : Option String} {vs : List (Option String)} → Reported v vs → rank (known v) ≤ highest vs
Reported-le-highest (now vs) = omega arith
Reported-le-highest (later w r) = omega (arith, Reported-le-highest r)

-- A full disk explains everything else: once ENOSPC is reported, it is what stays recorded.
settle-enospc :
    (stored : Option KilledReason) (reports : List (Option String))
    → Reported (some "enospc") reports
    → settle stored reports ≡ some enospc
settle-enospc stored reports r =
    let top : rank (known (some "enospc")) ≡ 60 = rank_enospc in
    top_rank (settle stored reports)
      (omega (arith, rank-settle stored reports, Reported-le-highest r, top))
  where
    rank_enospc : rank (known (some "enospc")) ≡ 60
    rank_enospc = ap rank (is_killed_reason-name enospc) ∙ enospc_rank
