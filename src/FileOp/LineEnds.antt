-- ===== src/FileOp/LineEnds.antt =====
-- lib/fileop.mjs: detectEol, toLf and fromLf.
use gha_mcp_host.Prelude.{
  ℕ, suc, ◌+◌, ◌-◌, ◌≤◌, ◌<◌, ◌≡◌, refl, sym, ap, ap₂, get_or, ◌≢◌, ◌↔◌, subst, ◌∙◌, arith, true,
  false, ◌&&◌, List, [], ◌∷◌, ◌++◌, ◌==◌, if◌then◌else◌, length, length-append, Bool-cases, inl,
  inr, ==_iff,
}
use gha_mcp_host.Text.{Text, join_cons, join_rest, join_rest_cons}
use gha_mcp_host.Job.{starts_with}
use gha_mcp_host.FileOp.{
  pieces, split, crlf_text, lf_text, Eol, lf, crlf, mixed, detect_eol, to_lf, from_lf,
}
use gha_mcp_host.FileOp.Pieces.{pieces_hit, pieces_miss, replace-split}

abbrev by_pair : Text → Text × List Text
by_pair s = pieces crlf_text 0 s

abbrev by_line : Text → Text × List Text
by_line s = pieces lf_text 0 s

abbrev glue : Text → Text × List Text → Text
glue sep (p, ps) = p ++ join_rest sep ps

-- "\r\n" first, "\n" first, or another code unit first.
abbrev IsPair : ℕ → Text → Type 0
IsPair c cs = (c ≡ 13) × ((ds : Text) × (cs ≡ 10 ∷ ds))

IsPair-view : (c : ℕ) (cs : Text) → starts_with crlf_text (c ∷ cs) ≡ true → IsPair c cs
unfolding starts_with
IsPair-view c [] h = elim (Bool-cases (13 == c)) [
  | inl e ↦ let bad : false ≡ true = rw e at h in cc bad
  | inr e ↦ let bad : false ≡ true = rw e at h in cc bad
]
IsPair-view c (x ∷ ds) h =
    let (first, second) = both_codes c x h in (first, (ds, ap (λ y. y ∷ ds) second))
  where
    both_codes : (c x : ℕ) → (13 == c && (10 == x && true)) ≡ true → (c ≡ 13) × (x ≡ 10)
    both_codes c x h = (ground arith, ground arith)

pair_first : (ds : Text) → by_pair (13 ∷ 10 ∷ ds) ≡ ([], (by_pair ds).0 ∷ (by_pair ds).1)
unfolding starts_with
pair_first ds = pieces_hit 13 (10 ∷ []) 13 (10 ∷ ds) refl

line_first : (ds : Text) → by_line (10 ∷ ds) ≡ ([], (by_line ds).0 ∷ (by_line ds).1)
unfolding starts_with
line_first ds = pieces_hit 10 [] 10 ds refl

other_first :
    (c : ℕ) (ds : Text)
    → (c == 10) ≡ false
    → by_line (c ∷ ds) ≡ (c ∷ (by_line ds).0, (by_line ds).1)
unfolding starts_with
other_first c ds h = pieces_miss 10 [] c ds (ground arith)

glue_first : (sep : Text) (p : Text × List Text) → glue sep ([], p.0 ∷ p.1) ≡ sep ++ glue sep p
glue_first sep p = join_rest_cons sep p.0 p.1

-- As many line feeds as pairs: each feed ends a pair.
abbrev Restored : Text → Type 0
Restored s =
    let pairs = by_pair s in
    (length pairs.1 ≤ length (by_line s).1)
    × (length pairs.1 ≡ length (by_line s).1 → glue crlf_text (by_line (glue lf_text pairs)) ≡ s)

-- A pair in front.
pair_Restored : (ds : Text) → Restored ds → Restored (13 ∷ 10 ∷ ds)
pair_Restored ds (le, back) =
    let lines =
      other_first 13 (10 ∷ ds) refl
      ∙ ap (λ (p : Text × List Text). (13 ∷ p.0, p.1)) (line_first ds) in
    let count = ap (λ (p : Text × List Text). length p.1) lines in
    let pairs = ap (λ (p : Text × List Text). length p.1) (pair_first ds) in
    let inner = glue lf_text (by_pair ds) in
    (
      omega (arith, le, count, pairs),
      λ same.
          ap (λ p. glue crlf_text (by_line (glue lf_text p))) (pair_first ds)
          ∙ ap (λ t. glue crlf_text (by_line t)) (glue_first lf_text (by_pair ds))
          ∙ ap (glue crlf_text) (line_first inner)
          ∙ glue_first crlf_text (by_line inner)
          ∙ ap (λ t. 13 ∷ 10 ∷ t) (back (omega (arith, same, count, pairs))),
    )

-- A line feed that ends no pair.
feed_Restored :
    (ds : Text)
    → by_pair (10 ∷ ds) ≡ (10 ∷ (by_pair ds).0, (by_pair ds).1)
    → Restored ds
    → Restored (10 ∷ ds)
feed_Restored ds alone (le, back) =
    let count = ap (λ (p : Text × List Text). length p.1) (line_first ds) in
    let pairs = ap (λ (p : Text × List Text). length p.1) alone in
    (omega (arith, le, count, pairs), λ same. absurd (omega (arith, le, same, count, pairs)))

-- Another code unit.
other_Restored :
    (c : ℕ) (ds : Text)
    → (c == 10) ≡ false
    → by_pair (c ∷ ds) ≡ (c ∷ (by_pair ds).0, (by_pair ds).1)
    → Restored ds
    → Restored (c ∷ ds)
other_Restored c ds plain alone (le, back) =
    let count = ap (λ (p : Text × List Text). length p.1) (other_first c ds plain) in
    let pairs = ap (λ (p : Text × List Text). length p.1) alone in
    let inner = glue lf_text (by_pair ds) in
    (
      omega (arith, le, count, pairs),
      λ same.
          ap (λ p. glue crlf_text (by_line (glue lf_text p))) alone
          ∙ ap (glue crlf_text) (other_first c inner plain)
          ∙ ap (λ t. c ∷ t) (back (omega (arith, same, count, pairs))),
    )

alone_Restored :
    (c : ℕ) (ds : Text) → starts_with crlf_text (c ∷ ds) ≡ false → Restored ds → Restored (c ∷ ds)
alone_Restored c ds h r = elim (Bool-cases (c == 10)) [
  | inl feed ↦
      let is = (==_iff c 10).0 feed in
      subst (λ x. Restored (x ∷ ds)) (sym is)
        (feed_Restored ds
          (subst (λ x. by_pair (x ∷ ds) ≡ (x ∷ (by_pair ds).0, (by_pair ds).1)) is
            (pieces_miss 13 (10 ∷ []) c ds h))
          r)
  | inr plain ↦ other_Restored c ds plain (pieces_miss 13 (10 ∷ []) c ds h) r
]

restored : (s : Text) → Restored s
unfolding pieces join_rest
restored [] = (omega arith, λ same. refl)
restored (c ∷ []) = elim (Bool-cases (starts_with crlf_text (c ∷ []))) [
  | inl e ↦ let (_, (ds, bad)) = IsPair-view c [] e in cc bad
  | inr e ↦ alone_Restored c [] e (restored [])
]
restored (c ∷ x ∷ ds) = elim (Bool-cases (starts_with crlf_text (c ∷ x ∷ ds))) [
  | inl e ↦
      let (first, (es, second)) = IsPair-view c (x ∷ ds) e in
      subst Restored (sym (ap₂ (λ y ys. y ∷ ys) first (second_rest second)))
        (pair_Restored ds (restored ds))
  | inr e ↦ alone_Restored c (x ∷ ds) e (restored (x ∷ ds))
]
  where
    second_rest : {es : Text} → x ∷ ds ≡ 10 ∷ es → x ∷ ds ≡ 10 ∷ ds
    second_rest e = ap (λ y. y ∷ ds) (ap (λ (t : Text). get_or t 0 x) e)

rest_lengths :
    (ps : List Text) → length (join_rest lf_text ps) + length ps ≡ length (join_rest crlf_text ps)
unfolding join_rest
rest_lengths [] = omega arith
rest_lengths (q ∷ qs) = omega (
  arith,
  rest_lengths qs,
  length-append q (join_rest lf_text qs),
  length-append q (join_rest crlf_text qs),
)

glue_lengths :
    (p : Text) (ps : List Text)
    → length (glue lf_text (p, ps)) + length ps ≡ length (glue crlf_text (p, ps))
glue_lengths p ps = omega (
  arith,
  rest_lengths ps,
  length-append p (join_rest lf_text ps),
  length-append p (join_rest crlf_text ps),
)

whole : (body : Text) → glue crlf_text (by_pair body) ≡ body
unfolding split
whole body =
    let (_, _, same) = replace-split 13 (10 ∷ []) body [] in
    sym (join_cons crlf_text (by_pair body).0 (by_pair body).1) ∙ same

to_lf_eq : (body : Text) → to_lf body ≡ glue lf_text (by_pair body)
unfolding to_lf split
to_lf_eq body = join_cons lf_text (by_pair body).0 (by_pair body).1

from_crlf_eq : (s : Text) → from_lf s crlf ≡ glue crlf_text (by_line s)
unfolding from_lf split
from_crlf_eq s = join_cons crlf_text (by_line s).0 (by_line s).1

-- What each verdict says of the numbers of pairs and of line feeds.
abbrev Counted : ℕ → ℕ → Eol → Type 0
Counted m n lf = m ≡ 0
Counted m n crlf = m ≡ n
Counted m n mixed = 0 < m

by_counts :
    (m n : ℕ)
    → Counted m n (if suc m - 1 == 0 then lf else if suc m - 1 == suc n - 1 then crlf else mixed)
by_counts m n = elim (Bool-cases (suc m - 1 == 0)) [
  | inl e ↦ rw e (omega (arith, (==_iff (suc m - 1) 0).0 e))
  | inr e ↦ elim (Bool-cases (suc m - 1 == suc n - 1)) [
    | inl f ↦ rw (e, f) (omega (arith, (==_iff (suc m - 1) (suc n - 1)).0 f))
    | inr f ↦ rw (e, f) (ground arith)
  ]
]

abbrev Verdict : Text → Eol → Type 0
Verdict body e = Counted (length (by_pair body).1) (length (by_line body).1) e

detect_eol-Verdict : (body : Text) → Verdict body (detect_eol body)
unfolding detect_eol split
detect_eol-Verdict body = by_counts (length (by_pair body).1) (length (by_line body).1)

no_pairs :
    (p : Text) (ps : List Text) → length ps ≡ 0 → glue lf_text (p, ps) ≡ glue crlf_text (p, ps)
unfolding join_rest
no_pairs p [] h = refl
no_pairs p (q ∷ qs) h = absurd (omega (arith, h))

lossless : (body : Text) (e : Eol) → Verdict body e → e ≢ mixed → from_lf (to_lf body) e ≡ body
unfolding from_lf
lossless body lf v n = to_lf_eq body ∙ no_pairs (by_pair body).0 (by_pair body).1 v ∙ whole body
lossless body crlf v n =
    ap (λ t. from_lf t crlf) (to_lf_eq body)
    ∙ from_crlf_eq (glue lf_text (by_pair body))
    ∙ (restored body).1 v
lossless body mixed v n = absurd (n refl)

lossy : (body : Text) → Verdict body mixed → to_lf body ≢ body
lossy body v same =
    let (p, ps) = by_pair body in
    let short = ap length (sym (to_lf_eq body) ∙ same ∙ sym (whole body)) in
    absurd (omega (arith, glue_lengths (by_pair body).0 (by_pair body).1, short, v))

mixed_lossy : (body : Text) (e : Eol) → Verdict body e → e ≡ mixed → from_lf (to_lf body) e ≢ body
unfolding from_lf
mixed_lossy body lf v m = cc m
mixed_lossy body crlf v m = cc m
mixed_lossy body mixed v m = lossy body v

-- Going to line feeds and back gives the text again exactly where its line ends are not mixed.
pub from_lf-to_lf :
    (body : Text) → (from_lf (to_lf body) (detect_eol body) ≡ body) ↔ (detect_eol body ≢ mixed)
from_lf-to_lf body = (
  λ same m. mixed_lossy body (detect_eol body) (detect_eol-Verdict body) m same,
  lossless body (detect_eol body) (detect_eol-Verdict body),
)

-- A text that is not empty does not become empty.
pub length-to_lf : (s : Text) → 0 < length s → 0 < length (to_lf s)
length-to_lf [] long = absurd (omega (arith, long))
length-to_lf (c ∷ cs) long = elim (Bool-cases (starts_with crlf_text (c ∷ cs))) [
  | inl e ↦
      let at = pieces_hit 13 (10 ∷ []) c cs e in
      let first = to_lf_eq (c ∷ cs) ∙ ap (glue lf_text) at ∙ glue_first lf_text _ in
      omega (arith, ap length first)
  | inr e ↦
      let at = pieces_miss 13 (10 ∷ []) c cs e in
      let first = to_lf_eq (c ∷ cs) ∙ ap (glue lf_text) at in omega (arith, ap length first)
]
