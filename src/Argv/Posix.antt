-- ===== src/Argv/Posix.antt =====
-- renderArgv of broker/src/argv.ts against the quoting rules of the POSIX shell (XCU 2.2).
use mathlib.Core.Option
use gha_mcp_host.Prelude.{
  ℕ, ◌≡◌, refl, ap, ◌∙◌, sym, List, [], ◌∷◌, ◌++◌, map, false, Option, none, some, ◌==◌,
  if◌then◌else◌, append_assoc, append-nil, Bool-cases, inl, inr, ==_iff, ◌≢◌,
}
use gha_mcp_host.Config.{Platform, linux, macos, windows}
use gha_mcp_host.Text.{
  Text, codes, join, join_rest, replace_char, replace_char_nil, replace_char_cons,
}
use gha_mcp_host.Argv.{quote, posix_quote, render_argv}

-- Where a reader of a command line stands: between words, in a word outside quotes, inside single
-- quotes, or just behind a backslash. The last three carry the word so far.
pub data Mode : Type 0 where
  blank : Mode
  word quoted escaped : Text → Mode

-- The words that the shell makes of a line in which quotes hold every character that it would
-- otherwise interpret. Outside quotes only blanks, quotes and backslashes are read: on any other
-- character the answer is `none`, since the shell might split, glob or expand there.
pub sh_read : Mode → Text → Option (List Text)
sh_read blank [] = some []
sh_read (word w) [] = some (w ∷ [])
sh_read (quoted w) [] = none
sh_read (escaped w) [] = none
sh_read blank (c ∷ cs) =
    let next = sh_read blank cs in
    let in_quotes = sh_read (quoted []) cs in
    let behind = sh_read (escaped []) cs in
    if c == 32 then next else if c == quote then in_quotes else if c == 92 then behind else none
sh_read (word w) (c ∷ cs) =
    let next = Option.map (λ ws. w ∷ ws) (sh_read blank cs) in
    let in_quotes = sh_read (quoted w) cs in
    let behind = sh_read (escaped w) cs in
    if c == 32 then next else if c == quote then in_quotes else if c == 92 then behind else none
sh_read (quoted w) (c ∷ cs) =
    let closed = sh_read (word w) cs in
    let more = sh_read (quoted (w ++ c ∷ [])) cs in if c == quote then closed else more
sh_read (escaped w) (c ∷ cs) =
    let literal = sh_read (word (w ++ c ∷ [])) cs in if c == 10 then none else literal

pub sh_words : Text → Option (List Text)
unfolding sh_read
sh_words line = sh_read blank line

abbrev escape : Text
escape = codes "'\\''"

read_quote :
    (w rest : Text) → sh_read (quoted w) (escape ++ rest) ≡ sh_read (quoted (w ++ quote ∷ [])) rest
unfolding sh_read
read_quote w rest = refl

read_plain :
    (w : Text) (x : ℕ) (rest : Text)
    → (x == quote) ≡ false
    → sh_read (quoted w) (x ∷ rest) ≡ sh_read (quoted (w ++ x ∷ [])) rest
unfolding sh_read
read_plain w x rest h = rw h

-- Inside quotes, the escaped form of `s` reads as `s`.
read_escaped :
    (s rest w : Text)
    → sh_read (quoted w) (replace_char quote escape s ++ rest) ≡ sh_read (quoted (w ++ s)) rest
read_escaped [] rest w = rw (replace_char_nil quote escape, append-nil w)
read_escaped (x ∷ s) rest w = elim (Bool-cases (x == quote)) [
  | inl e ↦
      rw
        (
          replace_char_cons quote escape x s,
          e,
          append_assoc escape (replace_char quote escape s) rest,
        )
        (read_quote w (replace_char quote escape s ++ rest)
          ∙ read_escaped s rest (w ++ quote ∷ [])
          ∙ ap (λ v. sh_read (quoted v) rest)
              (append_assoc w (quote ∷ []) s ∙ ap (λ y. w ++ y ∷ s) (sym ((==_iff x quote).0 e))))
  | inr ne ↦
      rw (replace_char_cons quote escape x s, ne)
        (read_plain w x (replace_char quote escape s ++ rest) ne
          ∙ read_escaped s rest (w ++ x ∷ [])
          ∙ ap (λ v. sh_read (quoted v) rest) (append_assoc w (x ∷ []) s))
]

read_open : (rest : Text) → sh_read blank (quote ∷ rest) ≡ sh_read (quoted []) rest
unfolding sh_read
read_open rest = refl

read_close : (w rest : Text) → sh_read (quoted w) (quote ∷ rest) ≡ sh_read (word w) rest
unfolding sh_read
read_close w rest = refl

-- One quoted element, read from between words, leaves the reader in that word.
read_element : (s rest : Text) → sh_read blank (posix_quote s ++ rest) ≡ sh_read (word s) rest
unfolding posix_quote
read_element s rest =
    read_open ((replace_char quote escape s ++ (quote ∷ [])) ++ rest)
    ∙ ap (sh_read (quoted [])) (append_assoc (replace_char quote escape s) (quote ∷ []) rest)
    ∙ read_escaped s (quote ∷ rest) []
    ∙ read_close s rest

read_rest :
    (w : Text) (argv : List Text)
    → sh_read (word w) (join_rest (codes " ") (map posix_quote argv)) ≡ some (w ∷ argv)
unfolding sh_read join_rest
read_rest w [] = refl
read_rest w (s ∷ argv) =
    ap (Option.map (λ ws. w ∷ ws))
      (read_element s (join_rest (codes " ") (map posix_quote argv)) ∙ read_rest s argv)

posix_line :
    (argv : List Text) → sh_read blank (join (codes " ") (map posix_quote argv)) ≡ some argv
unfolding join sh_read
posix_line [] = refl
posix_line (s ∷ argv) =
    read_element s (join_rest (codes " ") (map posix_quote argv)) ∙ read_rest s argv

-- On Linux and macOS a shell makes of the rendered line exactly the array that was rendered, quotes,
-- blanks, newlines and empty elements included, and meets no character that it could interpret.
pub sh_words-render_argv :
    (p : Platform) (argv : List Text) → p ≢ windows → sh_words (render_argv p argv) ≡ some argv
unfolding sh_words render_argv join
sh_words-render_argv windows argv h = absurd (h refl)
sh_words-render_argv linux argv h = posix_line argv
sh_words-render_argv macos argv h = posix_line argv
