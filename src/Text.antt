-- ===== src/Text.antt =====
-- JavaScript strings as lists of UTF-16 code units, and the string operations that the broker uses.
use Prim.Native.Char.{code}
use gha_mcp_host.Prelude.{
  ap₂, ◌∙◌, text_eq, ==_iff, ap, ℕ, ◌≡◌, refl, sym, String, List, [], ◌∷◌, ◌++◌, Bool, true, false,
  ◌||◌, ◌&&◌, arith, ◌==◌, leb, if◌then◌else◌, append_assoc, Bool-cases, inl, inr,
}

abbrev pub Text : Type 0
Text = List ℕ

-- The code units of a literal (each of the broker's literals that is measured is ASCII).
abbrev pub codes : String → Text
codes String.[] = []
codes (String.◌∷◌ c s) = code c ∷ codes s

-- `s.split(c)` at one code unit: the piece before the first `c`, and the others.
pub split_at : ℕ → Text → Text × List Text
split_at c [] = ([], [])
split_at c (x ∷ xs) =
    let (piece, pieces) = split_at c xs in
    if x == c then ([], piece ∷ pieces) else (x ∷ piece, pieces)

unfoldable pub join_rest : Text → List Text → Text
join_rest sep [] = []
join_rest sep (p ∷ ps) = sep ++ (p ++ join_rest sep ps)

-- `pieces.join(sep)`
unfoldable pub join : Text → List Text → Text
unfolding join_rest
join sep [] = []
join sep (p ∷ ps) = p ++ join_rest sep ps

-- `s.split(c).join(r)`
pub replace_char : ℕ → Text → Text → Text
unfolding split_at join_rest
replace_char c r s = let (p, ps) = split_at c s in p ++ join_rest r ps

pub join_cons : (sep p : Text) (ps : List Text) → join sep (p ∷ ps) ≡ p ++ join_rest sep ps
unfolding join
join_cons sep p ps = refl

pub join_rest_cons :
    (sep p : Text) (ps : List Text) → join_rest sep (p ∷ ps) ≡ sep ++ (p ++ join_rest sep ps)
unfolding join_rest
join_rest_cons sep p ps = refl

pub join_rest_nil : (sep : Text) → join_rest sep [] ≡ []
unfolding join_rest
join_rest_nil sep = refl

pub replace_char_nil : (c : ℕ) (r : Text) → replace_char c r [] ≡ []
unfolding replace_char
replace_char_nil c r = refl

-- Each `c` becomes `r`, all else stays.
pub replace_char_cons :
    (c : ℕ) (r : Text) (x : ℕ) (s : Text)
    → replace_char c r (x ∷ s)
      ≡ (if x == c then r ++ replace_char c r s else x ∷ replace_char c r s)
unfolding replace_char
replace_char_cons c r x s = ground arith

pub replace_char-append :
    (c : ℕ) (r s t : Text) → replace_char c r (s ++ t) ≡ replace_char c r s ++ replace_char c r t
replace_char-append c r [] t = rw (replace_char_nil c r)
replace_char-append c r (x ∷ s) t = elim (Bool-cases (x == c)) [
  | inl e ↦
      rw
        (
          replace_char_cons c r x (s ++ t),
          replace_char_cons c r x s,
          e,
          replace_char-append c r s t,
        )
        (sym (append_assoc r (replace_char c r s) (replace_char c r t)))
  | inr e ↦
      rw (
        replace_char_cons c r x (s ++ t),
        replace_char_cons c r x s,
        e,
        replace_char-append c r s t,
      )
]

-- The white space that `trim` takes off.
pub is_space : ℕ → Bool
is_space c =
    (leb 9 c && leb c 13)
    || c == 32
    || c == 160
    || c == 0x1680
    || (leb 0x2000 c && leb c 0x200a)
    || c == 0x2028
    || c == 0x2029
    || c == 0x202f
    || c == 0x205f
    || c == 0x3000
    || c == 0xfeff

-- `s.trim()` is not empty.
pub has_ink : Text → Bool
has_ink [] = false
has_ink (x ∷ xs) = if is_space x then has_ink xs else true

pub includes : ℕ → Text → Bool
includes c [] = false
includes c (x ∷ xs) = x == c || includes c xs

abbrev drop_spaces : Text → Text
drop_spaces [] = []
drop_spaces (x ∷ xs) = let rest = drop_spaces xs in if is_space x then rest else x ∷ xs

abbrev drop_trailing : Text → Text
drop_trailing [] = []
drop_trailing (x ∷ xs) = elim (drop_trailing xs) [
  | [] ↦ if is_space x then [] else x ∷ []
  | y ∷ ys ↦ x ∷ y ∷ ys
]

-- `s.trim()`
unfoldable pub trim : Text → Text
trim s = drop_trailing (drop_spaces s)

pub text_eq-same : (v w : Text) → text_eq v w ≡ true → v ≡ w
text_eq-same [] [] h = refl
text_eq-same [] (y ∷ ys) h = cc h
text_eq-same (x ∷ xs) [] h = cc h
text_eq-same (x ∷ xs) (y ∷ ys) h = elim (Bool-cases (x == y)) [
  | inl e ↦
      ap₂ (λ c cs. c ∷ cs) ((==_iff x y).0 e)
        (text_eq-same xs ys (sym (ap (λ b. b && text_eq xs ys) e) ∙ h))
  | inr e ↦ cc h
]

pub text_eq_refl : (v : Text) → text_eq v v ≡ true
text_eq_refl [] = refl
text_eq_refl (x ∷ xs) = ap₂ (λ a b. a && b) ((==_iff x x).1 refl) (text_eq_refl xs)
