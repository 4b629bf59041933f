-- ===== src/Diff.antt =====
-- broker/src/diff.ts: the line diff of a write, down to the edit script that its hunks show.
-- The text of the hunks (renderHunks) is not modelled.
pub mod Faithful
mod Tests
use gha_mcp_host.Prelude.{
  ℕ, zero, suc, ◌+◌, ◌-◌, ◌*◌, max, Bool, true, false, List, [], ◌∷◌, ◌++◌, map, Option, none, some,
  ltb, leb, if◌then◌else◌, length, take, drop, slice, get_or, text_eq,
}
use gha_mcp_host.Text.{Text, split_at}

abbrev pub diff_max_cells : ℕ
diff_max_cells = 1_000_000

-- An operation of an edit script: the tags " ", "-" and "+".
pub data Op : Type 0 where
  context minus plus : Text → Op

drop_last_empty : List Text → List Text
drop_last_empty [] = []
drop_last_empty ([] ∷ []) = []
drop_last_empty (l ∷ ls) = l ∷ drop_last_empty ls

pub split_lines : Text → List Text
unfolding drop_last_empty
split_lines [] = []
split_lines (c ∷ cs) = let (l, ls) = split_at 10 (c ∷ cs) in drop_last_empty (l ∷ ls)

abbrev head_or_zero : List ℕ → ℕ
head_or_zero xs = get_or xs 0 0

-- Row i of the table, from row i + 1: one entry for each suffix of `b`.
fill : Text → List Text → List ℕ → List ℕ
fill a [] below = 0 ∷ []
fill a (b ∷ bs) below =
    let rest = fill a bs (drop 1 below) in
    (if text_eq a b then get_or below 1 0 + 1 else max (get_or below 0 0) (get_or rest 0 0)) ∷ rest

-- The table, row 0 first: `dp[i][j]` is the entry j of row i.
pub table : List Text → List Text → List (List ℕ)
unfolding fill
table [] bs = (map (λ _. 0) bs ++ 0 ∷ []) ∷ []
table (a ∷ as') bs = let below = table as' bs in fill a bs (get_or below 0 []) ∷ below

-- The walk from (i, j), with the rows from i and the columns from j on.
pub walk : List Text → List Text → List (List ℕ) → List Op
walk [] bs dp = map plus bs
walk (a ∷ as') [] dp = map minus (a ∷ as')
walk (a ∷ as') (b ∷ bs) dp =
    let kept = walk as' bs (map (drop 1) (drop 1 dp)) in
    let without_a = walk as' (b ∷ bs) (drop 1 dp) in
    let with_b = walk (a ∷ as') bs (map (drop 1) dp) in
    if text_eq a b
    then context a ∷ kept
    else if leb (get_or (get_or dp 0 []) 1 0) (get_or (get_or dp 1 []) 0 0)
    then minus a ∷ without_a
    else plus b ∷ with_b

pub lcs_ops : List Text → List Text → Option (List Op)
lcs_ops a b = if ltb diff_max_cells (length a * length b) then none else some (walk a b (table a b))

-- How many lines the two begin with in common.
pub common_head : List Text → List Text → ℕ
common_head [] bs = 0
common_head (a ∷ as') [] = 0
common_head (a ∷ as') (b ∷ bs) =
    let more = common_head as' bs in if text_eq a b then suc more else 0

abbrev pub from_back : List Text → List Text
from_back [] = []
from_back (l ∷ ls) = from_back ls ++ l ∷ []

-- `head` and `tail`: the tail is counted from the back, in what the head leaves.
pub common_tail : ℕ → List Text → List Text → ℕ
unfolding common_head
common_tail head a b = common_head (from_back (drop head a)) (from_back (drop head b))

pub record EditScript : Type 0 where
  pub added : ℕ
  pub removed : ℕ
  -- `full`, or none where the middle is too large
  pub full : Option (List Op)

pub count_added : List Op → ℕ
count_added [] = 0
count_added (plus l ∷ ops) = suc (count_added ops)
count_added (_ ∷ ops) = count_added ops

pub count_removed : List Op → ℕ
count_removed [] = 0
count_removed (minus l ∷ ops) = suc (count_removed ops)
count_removed (_ ∷ ops) = count_removed ops

-- `unifiedDiff` on the lines of two texts that differ.
pub script : List Text → List Text → EditScript
unfolding common_tail
script a b =
    let head = common_head a b in
    let tail = common_tail head a b in
    let mid_a = slice a head (length a - tail) in
    let mid_b = slice b head (length b - tail) in
    elim (lcs_ops mid_a mid_b) [
      | none ↦ record { added = length mid_b; removed = length mid_a; full = none }
      | some ops ↦ record {
        added = count_added ops;
        removed = count_removed ops;
        full = some (map context (take head a) ++ (ops ++ map context (drop (length a - tail) a)));
      }
    ]
