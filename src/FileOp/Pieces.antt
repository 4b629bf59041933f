-- ===== src/FileOp/Pieces.antt =====
-- lib/fileop.mjs: countOccurrences and replaceAllLiteral against `split` and `join`.
use mathlib.Core.Option
use gha_mcp_host.Prelude.{
  ℕ, suc, zero, ◌+◌, ◌-◌, ◌<◌, ◌≡◌, refl, sym, ap, ap₂, ==_iff, ◌&&◌, subst, ◌∙◌, arith, true,
  false, List, [], ◌∷◌, ◌++◌, Option, none, some, ◌==◌, length, take, drop, slice, append_assoc,
  append-nil, Bool-cases, Option-cases, inl, inr, get_or_else, take_eq, drop-drop, length-drop,
  take-append-drop,
}
use gha_mcp_host.Text.{Text, join, join_rest, join_cons, join_rest_nil, join_rest_cons}
use gha_mcp_host.Job.{starts_with}
use gha_mcp_host.FileOp.{
  pieces, split, find, index_of, count_from, count_occurrences, replace_from, replace_all_literal,
}

pieces_skip : (sep : Text) (skip : ℕ) (s : Text) → pieces sep skip s ≡ pieces sep 0 (drop skip s)
unfolding pieces
pieces_skip sep zero s = refl
pieces_skip sep (suc skip) [] = refl
pieces_skip sep (suc skip) (c ∷ cs) = pieces_skip sep skip cs

pred_suc : (n : ℕ) → suc n - 1 ≡ n
pred_suc n = omega arith

find_miss :
    (needle : Text) (c : ℕ) (cs : Text)
    → find needle (c ∷ cs) ≡ none
    → (starts_with needle (c ∷ cs) ≡ false) × (find needle cs ≡ none)
unfolding find
find_miss needle c cs h = ground arith

starts_with-append : (p s : Text) → starts_with p s ≡ true → p ++ drop (length p) s ≡ s
unfolding starts_with
starts_with-append [] s h = refl
starts_with-append (c ∷ p) [] h = cc h
starts_with-append (c ∷ p) (x ∷ s) h = elim (Bool-cases (c == x)) [
  | inl e ↦
      ap₂ (λ y ys. y ∷ ys) ((==_iff c x).0 e)
        (starts_with-append p s (sym (ap (λ b. b && starts_with p s) e) ∙ h))
  | inr e ↦ cc (sym (ap (λ b. b && starts_with p s) e) ∙ h)
]

-- The separator is not empty.
module _ (d : ℕ) (ds : Text) where
  abbrev sep : Text
  sep = d ∷ ds

  pub pieces_hit :
      (c : ℕ) (cs : Text)
      → starts_with sep (c ∷ cs) ≡ true
      → pieces sep 0 (c ∷ cs)
        ≡ (let p = pieces sep 0 (drop (length sep) (c ∷ cs)) in ([], p.0 ∷ p.1))
  unfolding pieces
  pieces_hit c cs h = rw h (
      ap (λ (p : Text × List Text). ([], p.0 ∷ p.1))
        (ap (λ n. pieces sep n cs) (pred_suc (length ds)) ∙ pieces_skip sep (length ds) cs))

  pub pieces_miss :
      (c : ℕ) (cs : Text)
      → starts_with sep (c ∷ cs) ≡ false
      → pieces sep 0 (c ∷ cs) ≡ (c ∷ (pieces sep 0 cs).0, (pieces sep 0 cs).1)
  unfolding pieces
  pieces_miss c cs h = rw h

  not_found : (s : Text) → find sep s ≡ none → pieces sep 0 s ≡ (s, [])
  unfolding pieces
  not_found [] h = refl
  not_found (c ∷ cs) h =
      let (miss, more) = find_miss sep c cs h in
      pieces_miss c cs miss ∙ ap (λ (p : Text × List Text). (c ∷ p.0, p.1)) (not_found cs more)

  -- An occurrence ends a piece.
  abbrev Found : ℕ → Text → Type 0
  Found i s =
      (i < length s)
      × (let p = pieces sep 0 (drop (length sep) (drop i s)) in
          pieces sep 0 s ≡ (take i s, p.0 ∷ p.1))
      × (sep ++ drop (length sep) (drop i s) ≡ drop i s)

  found_later :
      (c : ℕ) (cs : Text) (i : ℕ) (o : Option ℕ)
      → ((j : ℕ) → o ≡ some j → Found j cs)
      → Option.map suc o ≡ some i
      → starts_with sep (c ∷ cs) ≡ false
      → Found i (c ∷ cs)
  found_later c cs i none f g e = cc g
  found_later c cs i (some j) f g e =
      let (lt, at, there) = f j refl in
      subst (λ k. Found k (c ∷ cs)) (ap (λ o. get_or_else o i) g)
        (
          omega (arith, lt),
          pieces_miss c cs e ∙ ap (λ (p : Text × List Text). (c ∷ p.0, p.1)) at,
          there,
        )

  found : (s : Text) (i : ℕ) → find sep s ≡ some i → Found i s
  unfolding find starts_with
  found [] i h = cc h
  found (c ∷ cs) i h = elim (Bool-cases (starts_with sep (c ∷ cs))) [
    | inl e ↦
        let zero_at : some 0 ≡ some i = rw e at h in
        subst (λ k. Found k (c ∷ cs)) (ap (λ o. get_or_else o i) zero_at)
          (omega arith, pieces_hit c cs e, starts_with-append sep (c ∷ cs) e)
    | inr e ↦ found_later c cs i (find sep cs) (λ j f. found cs j f) (rw e at h) e
  ]

  next_place :
      (hay : Text) (at i : ℕ)
      → drop (at + i + length sep) hay ≡ drop (length sep) (drop i (drop at hay))
  next_place hay at i =
      sym (ap (drop (length sep)) (drop-drop i at hay) ∙ drop-drop (length sep) (at + i) hay)

  -- What is counted, and what is written, from a place on.
  counted :
      (fuel : ℕ) (hay : Text) (at : ℕ)
      → length hay - at < fuel
      → count_from fuel hay sep at ≡ length (pieces sep 0 (drop at hay)).1
  unfolding count_from index_of
  counted zero hay at h = absurd (omega arith)
  counted (suc fuel) hay at h = elim (Option-cases (find sep (drop at hay))) [
    | inl gone ↦
        rw (gone, count_from)
          (ap (λ (p : Text × List Text). length p.1) (sym (not_found (drop at hay) gone)))
    | inr (i, here) ↦
        let (lt, ps, _) = found (drop at hay) i here in
        let next = counted fuel hay (at + i + length sep) (omega (arith, lt, length-drop at hay)) in
        let same = next_place hay at i in
        rw (here, count_from, ps) (omega (arith, next, ap (λ t. length (pieces sep 0 t).1) same))
  ]

  abbrev pub glue : Text → Text × List Text → Text
  glue repl (p, ps) = p ++ join_rest repl ps

  slice_found : (hay : Text) (at i : ℕ) → slice hay at (at + i) ≡ take i (drop at hay)
  slice_found hay at i = take_eq (drop at hay) (omega arith)

  replaced :
      (fuel : ℕ) (hay repl out : Text) (at : ℕ)
      → length hay - at < fuel
      → replace_from fuel hay sep repl out at ≡ out ++ glue repl (pieces sep 0 (drop at hay))
  unfolding replace_from index_of
  replaced zero hay repl out at h = absurd (omega arith)
  replaced (suc fuel) hay repl out at h = elim (Option-cases (find sep (drop at hay))) [
    | inl gone ↦
        rw (gone, replace_from, not_found (drop at hay) gone, join_rest_nil repl)
          (ap (λ t. out ++ t) (sym (append-nil (drop at hay))))
    | inr (i, here) ↦
        let (lt, ps, _) = found (drop at hay) i here in
        let rest = pieces sep 0 (drop (length sep) (drop i (drop at hay))) in
        let before = take i (drop at hay) in
        let next =
          replaced fuel hay repl (out ++ (before ++ repl)) (at + i + length sep)
            (omega (arith, lt, length-drop at hay))
          ∙ ap (λ t. (out ++ (before ++ repl)) ++ glue repl (pieces sep 0 t))
              (next_place hay at i) in
        rw (here, replace_from, ps, slice_found hay at i)
          (next
            ∙ append_assoc out (before ++ repl) (glue repl rest)
            ∙ ap (λ t. out ++ t)
                (append_assoc before repl (glue repl rest)
                  ∙ ap (λ t. before ++ t) (sym (join_rest_cons repl rest.0 rest.1))))
  ]

  glued : (fuel : ℕ) (s : Text) → length s < fuel → glue sep (pieces sep 0 s) ≡ s
  glued zero s h = absurd (omega arith)
  glued (suc fuel) s h = elim (Option-cases (find sep s)) [
    | inl gone ↦
        ap (glue sep) (not_found s gone) ∙ ap (λ t. s ++ t) (join_rest_nil sep) ∙ append-nil s
    | inr (i, here) ↦
        let (lt, ps, there) = found s i here in
        let later = drop (length sep) (drop i s) in
        let rest = pieces sep 0 later in
        let ih =
          glued fuel later
            (omega (arith, lt, length-drop (length sep) (drop i s), length-drop i s)) in
        ap (glue sep) ps
        ∙ ap (λ t. take i s ++ t) (join_rest_cons sep rest.0 rest.1 ∙ ap (λ t. sep ++ t) ih ∙ there)
        ∙ take-append-drop i s
  ]

  -- The loops of countOccurrences and replaceAllLiteral end within the turns given to them, and do what
  -- splitting at the pattern does, for a pattern that is not empty: the count is one less than the
  -- number of pieces, the result is the pieces joined with the new text, and the old text is the same
  -- pieces joined with the pattern.
  pub replace-split :
      (hay repl : Text)
      → (count_occurrences hay sep ≡ length (split sep hay) - 1)
        × (replace_all_literal hay sep repl ≡ join repl (split sep hay))
        × (join sep (split sep hay) ≡ hay)
  unfolding count_occurrences replace_all_literal split
  replace-split hay repl =
      let (p, ps) = pieces sep 0 hay in
      (
        omega (arith, counted (suc (length hay)) hay 0 (omega arith)),
        replaced (suc (length hay)) hay repl [] 0 (omega arith) ∙ sym (join_cons repl p ps),
        join_cons sep p ps ∙ glued (suc (length hay)) hay (omega arith),
      )
