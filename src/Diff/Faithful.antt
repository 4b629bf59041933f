-- ===== src/Diff/Faithful.antt =====
-- The edit script of broker/src/diff.ts against the two texts that it is made of.
use gha_mcp_host.Prelude.{
  ℕ, zero, suc, ◌+◌, ◌-◌, ◌*◌, ◌≤◌, ◌<◌, ◌≡◌, refl, sym, ap, ap₂, ◌∙◌, List, [], ◌∷◌, ◌++◌, map,
  Option, none, some, arith, ltb, leb, ltb→lt, length, take, drop, slice, get_or, text_eq,
  length-append, length-take, length-drop, take-append-drop, drop-drop, drop_eq, drop_all,
  Bool-cases, inl, inr,
}
use gha_mcp_host.Text.{Text, text_eq-same}
use gha_mcp_host.Diff.{
  Op, diff_max_cells, context, minus, plus, table, walk, lcs_ops, common_head, from_back,
  common_tail, count_added, count_removed, script,
}

-- The lines that a reader of the script sees of the old text, and of the new one.
pub old_lines : List Op → List Text
old_lines [] = []
old_lines (context l ∷ ops) = l ∷ old_lines ops
old_lines (minus l ∷ ops) = l ∷ old_lines ops
old_lines (plus l ∷ ops) = old_lines ops

pub new_lines : List Op → List Text
new_lines [] = []
new_lines (context l ∷ ops) = l ∷ new_lines ops
new_lines (minus l ∷ ops) = new_lines ops
new_lines (plus l ∷ ops) = l ∷ new_lines ops

Edits : List Op → List Text → List Text → Type 0
Edits ops a b = (old_lines ops ≡ a) × (new_lines ops ≡ b)

all_plus : (bs : List Text) → (old_lines (map plus bs) ≡ []) × (new_lines (map plus bs) ≡ bs)
unfolding old_lines new_lines
all_plus [] = (refl, refl)
all_plus (b ∷ bs) = let (o, n) = all_plus bs in (o, ap (λ ls. b ∷ ls) n)

all_minus : (bs : List Text) → (old_lines (map minus bs) ≡ bs) × (new_lines (map minus bs) ≡ [])
unfolding old_lines new_lines
all_minus [] = (refl, refl)
all_minus (b ∷ bs) = let (o, n) = all_minus bs in (ap (λ ls. b ∷ ls) o, n)

all_context :
    (bs : List Text) → (old_lines (map context bs) ≡ bs) × (new_lines (map context bs) ≡ bs)
unfolding old_lines new_lines
all_context [] = (refl, refl)
all_context (b ∷ bs) = let (o, n) = all_context bs in (ap (λ ls. b ∷ ls) o, ap (λ ls. b ∷ ls) n)

-- Whatever the table says, the walk is an edit script from the one list to the other.
walk-Edits :
    (a b : List Text) (dp : List (List ℕ))
    → (old_lines (walk a b dp) ≡ a) × (new_lines (walk a b dp) ≡ b)
unfolding walk old_lines new_lines
walk-Edits [] b dp = all_plus b
walk-Edits (x ∷ xs) [] dp = all_minus (x ∷ xs)
walk-Edits (x ∷ xs) (y ∷ ys) dp = elim (Bool-cases (text_eq x y)) [
  | inl e ↦
      let (o, n) = walk-Edits xs ys (map (drop 1) (drop 1 dp)) in
      rw (e, walk) (ap (λ ls. x ∷ ls) o, ap₂ (λ l ls. l ∷ ls) (text_eq-same x y e) n)
  | inr e ↦ elim (Bool-cases (leb (get_or (get_or dp 0 []) 1 0) (get_or (get_or dp 1 []) 0 0))) [
    | inl f ↦
        let (o, n) = walk-Edits xs (y ∷ ys) (drop 1 dp) in rw (e, f, walk) (ap (λ ls. x ∷ ls) o, n)
    | inr f ↦
        let (o, n) = walk-Edits (x ∷ xs) ys (map (drop 1) dp) in
        rw (e, f, walk) (o, ap (λ ls. y ∷ ls) n)
  ]
]

old_lines-append : (p q : List Op) → old_lines (p ++ q) ≡ old_lines p ++ old_lines q
unfolding old_lines
old_lines-append [] q = refl
old_lines-append (context l ∷ p) q = ap (λ ls. l ∷ ls) (old_lines-append p q)
old_lines-append (minus l ∷ p) q = ap (λ ls. l ∷ ls) (old_lines-append p q)
old_lines-append (plus l ∷ p) q = old_lines-append p q

new_lines-append : (p q : List Op) → new_lines (p ++ q) ≡ new_lines p ++ new_lines q
unfolding new_lines
new_lines-append [] q = refl
new_lines-append (context l ∷ p) q = ap (λ ls. l ∷ ls) (new_lines-append p q)
new_lines-append (minus l ∷ p) q = new_lines-append p q
new_lines-append (plus l ∷ p) q = ap (λ ls. l ∷ ls) (new_lines-append p q)

-- The counts: every line that is not context is counted once.
counts :
    (ops : List Op)
    → (count_removed ops + length (new_lines ops) ≡ count_added ops + length (old_lines ops))
unfolding count_removed count_added old_lines new_lines
counts [] = refl
counts (context l ∷ ops) = omega (arith, counts ops)
counts (minus l ∷ ops) = omega (arith, counts ops)
counts (plus l ∷ ops) = omega (arith, counts ops)

take-common_head : (a b : List Text) → take (common_head a b) a ≡ take (common_head a b) b
unfolding common_head
take-common_head [] [] = refl
take-common_head [] (y ∷ ys) = refl
take-common_head (x ∷ xs) [] = refl
take-common_head (x ∷ xs) (y ∷ ys) = elim (Bool-cases (text_eq x y)) [
  | inl e ↦ rw (e, common_head) (ap₂ (λ l ls. l ∷ ls) (text_eq-same x y e) (take-common_head xs ys))
  | inr e ↦ rw (e, common_head)
]

common_head-le : (a b : List Text) → (common_head a b ≤ length a) × (common_head a b ≤ length b)
unfolding common_head
common_head-le [] b = (omega arith, omega arith)
common_head-le (x ∷ xs) [] = (omega arith, omega arith)
common_head-le (x ∷ xs) (y ∷ ys) = ground (arith, common_head-le xs ys)

length-from_back : (xs : List Text) → length (from_back xs) ≡ length xs
length-from_back [] = refl
length-from_back (x ∷ xs) =
    omega (arith, length-append (from_back xs) (x ∷ []), length-from_back xs)

drop-append_le : (n : ℕ) (xs ys : List Text) → n ≤ length xs → drop n (xs ++ ys) ≡ drop n xs ++ ys
drop-append_le zero xs ys h = refl
drop-append_le (suc n) [] ys h = absurd (omega arith)
drop-append_le (suc n) (x ∷ xs) ys h = drop-append_le n xs ys (omega arith)

-- The last `n` of a list are the first `n` of it from the back.
last_of_back :
    (n : ℕ) (xs : List Text) → drop (length xs - n) (from_back xs) ≡ from_back (take n xs)
last_of_back zero xs = drop_all (length xs - 0) (from_back xs) (omega (arith, length-from_back xs))
last_of_back (suc n) [] = drop_all (length {A = Text} [] - suc n) [] (omega arith)
last_of_back (suc n) (x ∷ xs) =
    drop_eq {m = length (x ∷ xs) - suc n} {n = length xs - n} (from_back (x ∷ xs)) (omega arith)
    ∙ drop-append_le (length xs - n) (from_back xs) (x ∷ []) (omega (arith, length-from_back xs))
    ∙ ap (λ ls. ls ++ x ∷ []) (last_of_back n xs)

from_back-append : (xs : List Text) (y : Text) → from_back (xs ++ y ∷ []) ≡ y ∷ from_back xs
from_back-append [] y = refl
from_back-append (x ∷ xs) y = ap (λ ls. ls ++ x ∷ []) (from_back-append xs y)

from_back-from_back : (xs : List Text) → from_back (from_back xs) ≡ xs
from_back-from_back [] = refl
from_back-from_back (x ∷ xs) =
    from_back-append (from_back xs) x ∙ ap (λ ls. x ∷ ls) (from_back-from_back xs)

last_lines : (n : ℕ) (xs : List Text) → drop (length xs - n) xs ≡ from_back (take n (from_back xs))
last_lines n xs =
    ap (drop (length xs - n)) (sym (from_back-from_back xs))
    ∙ drop_eq (from_back (from_back xs)) (omega (arith, length-from_back xs))
    ∙ last_of_back n (from_back xs)

-- What a list ends in, counted from the back of what the head leaves.
tail_from_back :
    (h t : ℕ) (xs : List Text)
    → t + h ≤ length xs
    → drop (length xs - t) xs ≡ from_back (take t (from_back (drop h xs)))
tail_from_back h t xs fits =
    drop_eq {m = length xs - t} {n = h + (length (drop h xs) - t)} xs
      (omega (arith, length-drop h xs))
    ∙ sym (drop-drop (length (drop h xs) - t) h xs)
    ∙ last_lines t (drop h xs)

-- A list is its head, its middle and its tail.
three_parts : (h e : ℕ) (xs : List Text) → h ≤ e → take h xs ++ (slice xs h e ++ drop e xs) ≡ xs
three_parts h e xs le =
    ap (λ ls. take h xs ++ (slice xs h e ++ ls))
      (drop_eq {m = e} {n = h + (e - h)} xs (omega arith) ∙ sym (drop-drop (e - h) h xs))
    ∙ ap (λ ls. take h xs ++ ls) (take-append-drop (e - h) (drop h xs))
    ∙ take-append-drop h xs

module _ (a b : List Text) where
  abbrev head_count : ℕ
  head_count = common_head a b

  abbrev tail_count : ℕ
  tail_count = common_tail head_count a b

  abbrev mid_a : List Text
  mid_a = slice a head_count (length a - tail_count)

  abbrev mid_b : List Text
  mid_b = slice b head_count (length b - tail_count)

  tail_fits : (tail_count + head_count ≤ length a) × (tail_count + head_count ≤ length b)
  unfolding common_tail
  tail_fits =
      let back_a = from_back (drop head_count a) in
      let back_b = from_back (drop head_count b) in
      (
        omega (
          arith,
          (common_head-le a b).0,
          (common_head-le back_a back_b).0,
          length-from_back (drop head_count a),
          length-drop head_count a,
        ),
        omega (
          arith,
          (common_head-le a b).1,
          (common_head-le back_a back_b).1,
          length-from_back (drop head_count b),
          length-drop head_count b,
        ),
      )

  -- The two lists end in the same lines.
  same_tail : drop (length a - tail_count) a ≡ drop (length b - tail_count) b
  unfolding common_tail
  same_tail =
      tail_from_back head_count tail_count a tail_fits.0
      ∙ ap from_back
          (take-common_head (from_back (drop head_count a)) (from_back (drop head_count b)))
      ∙ sym (tail_from_back head_count tail_count b tail_fits.1)

  abbrev whole : List Op → List Op
  whole ops =
      map context (take head_count a) ++ (ops ++ map context (drop (length a - tail_count) a))

  whole-Edits :
      (ops : List Op)
      → old_lines ops ≡ mid_a
      → new_lines ops ≡ mid_b
      → (old_lines (whole ops) ≡ a) × (new_lines (whole ops) ≡ b)
  whole-Edits ops o n =
      let ends = map context (drop (length a - tail_count) a) in
      (
        old_lines-append (map context (take head_count a)) (ops ++ ends)
            ∙ ap₂ ◌++◌ (all_context (take head_count a)).0 (
                old_lines-append ops ends
                ∙ ap₂ ◌++◌ o (all_context (drop (length a - tail_count) a)).0)
            ∙ three_parts head_count (length a - tail_count) a (omega (arith, tail_fits)),
        new_lines-append (map context (take head_count a)) (ops ++ ends)
            ∙ ap₂ ◌++◌ ((all_context (take head_count a)).1 ∙ take-common_head a b) (
                new_lines-append ops ends
                ∙ ap₂ ◌++◌ n ((all_context (drop (length a - tail_count) a)).1 ∙ same_tail))
            ∙ three_parts head_count (length b - tail_count) b (omega (arith, tail_fits)),
      )

  length-mid :
      (length mid_a + tail_count + head_count ≡ length a)
      × (length mid_b + tail_count + head_count ≡ length b)
  length-mid = (
    omega (
      arith,
      tail_fits,
      length-take (length a - tail_count - head_count) (drop head_count a),
      length-drop head_count a,
    ),
    omega (
      arith,
      tail_fits,
      length-take (length b - tail_count - head_count) (drop head_count b),
      length-drop head_count b,
    ),
  )

-- A script that is given leads from the old lines to the new ones.
abbrev pub IsEdit : List Text → List Text → Option (List Op) → Type 0
IsEdit a b none = diff_max_cells < length a * length b
IsEdit a b (some ops) = (old_lines ops ≡ a) × (new_lines ops ≡ b)

-- The lines that a reader of the script sees of the old text are the old lines, those of the new text
-- the new lines. A script is missing only where the table would have too many cells, and in either
-- case the counts of added and removed lines account for the difference in length.
pub script-IsEdit :
    (a b : List Text)
    → let s = script a b in IsEdit a b s.full × (s.removed + length b ≡ s.added + length a)
unfolding script lcs_ops
script-IsEdit a b =
    elim (Bool-cases (ltb diff_max_cells (length (mid_a a b) * length (mid_b a b)))) [
      | inl large ↦
          rw (large, script)
            (
              too_large (ltb→lt diff_max_cells (length (mid_a a b) * length (mid_b a b)) large),
              omega (arith, length-mid a b),
            )
      | inr fits ↦
          let ops = walk (mid_a a b) (mid_b a b) (table (mid_a a b) (mid_b a b)) in
          let (o, n) = walk-Edits (mid_a a b) (mid_b a b) (table (mid_a a b) (mid_b a b)) in
          rw (fits, script)
            (
              whole-Edits a b ops o n,
              omega (arith, counts ops, ap length o, ap length n, length-mid a b),
            )
    ]
  where
    too_large :
        diff_max_cells < length (mid_a a b) * length (mid_b a b)
        → diff_max_cells < length a * length b
    too_large h = grind (arith, length-mid a b)
