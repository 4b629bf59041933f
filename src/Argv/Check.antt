-- ===== src/Argv/Check.antt =====
-- The checks of broker/src/argv.ts: what checkArgv accepts, and how long describeArgv gets.
use gha_mcp_host.Prelude.{
  ℕ, ◌+◌, ◌≤◌, ◌≡◌, ◌↔◌, List, [], ◌∷◌, Bool, true, false, none, arith, ltb, length, take,
  length-append, length-take, Bool-cases, inl, inr,
}
use gha_mcp_host.Text.{Text, codes, join, has_ink, includes}
use gha_mcp_host.Argv.{
  argv_max_items, argv_max_chars, check_elements, check_argv, shorten, describe_argv,
}

abbrev pub total_chars : List Text → ℕ
total_chars [] = 0
total_chars (a ∷ argv) = length a + total_chars argv

abbrev pub NoNul : List Text → Type 0
NoNul [] = Unit {0}
NoNul (a ∷ argv) = (includes 0 a ≡ false) × NoNul argv

abbrev pub first_has_ink : List Text → Bool
first_has_ink [] = false
first_has_ink (a ∷ argv) = has_ink a

-- An array that can be rendered: a program, at most so many elements and characters, and no NUL.
pub record IsCommand (argv : List Text) : Type 0 where
  pub program : first_has_ink argv ≡ true
  pub items : length argv ≤ argv_max_items
  pub no_nul : NoNul argv
  pub chars : total_chars argv ≤ argv_max_chars

elements_accepted :
    (chars : ℕ) (argv : List Text)
    → check_elements chars argv ≡ none
    → NoNul argv × (chars + total_chars argv ≤ argv_max_chars)
unfolding check_elements
elements_accepted chars [] h = ground arith
elements_accepted chars (a ∷ argv) h = ground (arith, elements_accepted (chars + length a) argv)

accepts_elements :
    (chars : ℕ) (argv : List Text)
    → NoNul argv
    → chars + total_chars argv ≤ argv_max_chars
    → check_elements chars argv ≡ none
unfolding check_elements
accepts_elements chars [] n h = ground arith
accepts_elements chars (a ∷ argv) n h = ground (arith, accepts_elements (chars + length a) argv n.1)

accepted : (argv : List Text) → check_argv argv ≡ none → IsCommand argv
unfolding check_argv
accepted [] h = cc
accepted (a ∷ argv) h = ground (arith, elements_accepted 0 (a ∷ argv))

accepts : (argv : List Text) → IsCommand argv → check_argv argv ≡ none
unfolding check_argv
accepts [] c = cc (c.program)
accepts (a ∷ argv) c = ground (arith, accepts_elements 0 (a ∷ argv) c.no_nul)

-- `check_argv` reports no error on exactly the arrays that can be rendered.
pub check_argv_iff : (argv : List Text) → (check_argv argv ≡ none) ↔ IsCommand argv
check_argv_iff argv = (accepted argv, accepts argv)

length-shorten : (text : Text) → length (shorten text) ≤ 64
unfolding shorten
length-shorten text = elim (Bool-cases (ltb 64 (length text))) [
  | inl long ↦
      rw long (omega (arith, length-append (take 61 text) (codes "..."), length-take 61 text))
  | inr short ↦ rw short (ground arith)
]

-- A description has at most 64 characters.
length-describe_argv : (argv : List Text) → length (describe_argv argv) ≤ 64
unfolding describe_argv
length-describe_argv argv = length-shorten (join (codes " ") argv)
