-- ===== src/Argv/Pwsh.antt =====
-- renderArgv of broker/src/argv.ts against PowerShell's rules for verbatim strings.
use mathlib.Core.Option
use gha_mcp_host.Prelude.{
  ℕ, ◌≡◌, refl, ap, ◌∙◌, sym, List, [], ◌∷◌, ◌++◌, map, Bool, true, false, ◌||◌, Option, none, some,
  arith, ◌==◌, leb, ◌&&◌, if◌then◌else◌, append_assoc, append-nil, Bool-cases, inl, inr, ==_iff,
}
use gha_mcp_host.Config.{windows}
use gha_mcp_host.Text.{
  Text, codes, join, join_rest, replace_char, replace_char_nil, replace_char_cons,
  replace_char-append,
}
use gha_mcp_host.Argv.{quote, pwsh_quote, render_argv}

-- The characters that PowerShell's lexical grammar calls single quotes: U+0027 and the four
-- typographic ones, U+2018 to U+201B. Each of them ends a verbatim string.
unfoldable pub is_quote : ℕ → Bool
is_quote c = c == quote || (leb 0x2018 c && leb c 0x201b)

-- Between words, inside a verbatim string, or behind a quote that ends it unless another follows.
pub data Mode : Type 0 where
  blank : Mode
  verbatim ended : Text → Mode

-- The arguments that PowerShell makes of verbatim strings with blanks between them. Outside the
-- quotes nothing but blanks is read: any other character there is `none`.
pub ps_read : Mode → Text → Option (List Text)
unfolding is_quote
ps_read blank [] = some []
ps_read (verbatim w) [] = none
ps_read (ended w) [] = some (w ∷ [])
ps_read blank (c ∷ cs) =
    let next = ps_read blank cs in
    let in_quotes = ps_read (verbatim []) cs in
    if c == 32 then next else if is_quote c then in_quotes else none
ps_read (verbatim w) (c ∷ cs) =
    let closed = ps_read (ended w) cs in
    let more = ps_read (verbatim (w ++ c ∷ [])) cs in if is_quote c then closed else more
ps_read (ended w) (c ∷ cs) =
    let doubled = ps_read (verbatim (w ++ c ∷ [])) cs in
    let next = Option.map (λ ws. w ∷ ws) (ps_read blank cs) in
    if is_quote c then doubled else if c == 32 then next else none

-- A line that begins with the call operator and a blank.
pub ps_words : Text → Option (List Text)
unfolding ps_read
ps_words [] = none
ps_words (c ∷ cs) = if c == 38 then ps_read blank cs else none

abbrev pub NoSmartQuote : Text → Type 0
NoSmartQuote [] = Unit {0}
NoSmartQuote (c ∷ cs) = ((leb 0x2018 c && leb c 0x201b) ≡ false) × NoSmartQuote cs

abbrev pub NoSmartQuotes : List Text → Type 0
NoSmartQuotes [] = Unit {0}
NoSmartQuotes (a ∷ argv) = NoSmartQuote a × NoSmartQuotes argv

abbrev doubling : Text
doubling = codes "''"

read_quote :
    (w rest : Text)
    → ps_read (verbatim w) (doubling ++ rest) ≡ ps_read (verbatim (w ++ quote ∷ [])) rest
unfolding ps_read
read_quote w rest = refl

read_plain :
    (w : Text) (x : ℕ) (rest : Text)
    → is_quote x ≡ false
    → ps_read (verbatim w) (x ∷ rest) ≡ ps_read (verbatim (w ++ x ∷ [])) rest
unfolding ps_read
read_plain w x rest h = rw h

is_quote_plain :
    (x : ℕ) → (x == quote) ≡ false → (leb 0x2018 x && leb x 0x201b) ≡ false → is_quote x ≡ false
unfolding is_quote
is_quote_plain x h k = rw (h, k)

read_doubled :
    (s rest w : Text)
    → NoSmartQuote s
    → ps_read (verbatim w) (replace_char quote doubling s ++ rest)
      ≡ ps_read (verbatim (w ++ s)) rest
read_doubled [] rest w n = rw (replace_char_nil quote doubling, append-nil w)
read_doubled (x ∷ s) rest w n = elim (Bool-cases (x == quote)) [
  | inl e ↦
      rw
        (
          replace_char_cons quote doubling x s,
          e,
          append_assoc doubling (replace_char quote doubling s) rest,
        )
        (read_quote w (replace_char quote doubling s ++ rest)
          ∙ read_doubled s rest (w ++ quote ∷ []) n.1
          ∙ ap (λ v. ps_read (verbatim v) rest)
              (append_assoc w (quote ∷ []) s ∙ ap (λ y. w ++ y ∷ s) (sym ((==_iff x quote).0 e))))
  | inr ne ↦
      rw (replace_char_cons quote doubling x s, ne)
        (read_plain w x (replace_char quote doubling s ++ rest) (is_quote_plain x ne n.0)
          ∙ read_doubled s rest (w ++ x ∷ []) n.1
          ∙ ap (λ v. ps_read (verbatim v) rest) (append_assoc w (x ∷ []) s))
]

read_open : (rest : Text) → ps_read blank (quote ∷ rest) ≡ ps_read (verbatim []) rest
unfolding ps_read
read_open rest = refl

read_close : (w rest : Text) → ps_read (verbatim w) (quote ∷ rest) ≡ ps_read (ended w) rest
unfolding ps_read
read_close w rest = refl

read_element :
    (s rest : Text) → NoSmartQuote s → ps_read blank (pwsh_quote s ++ rest) ≡ ps_read (ended s) rest
unfolding pwsh_quote
read_element s rest n =
    read_open ((replace_char quote doubling s ++ (quote ∷ [])) ++ rest)
    ∙ ap (ps_read (verbatim [])) (append_assoc (replace_char quote doubling s) (quote ∷ []) rest)
    ∙ read_doubled s (quote ∷ rest) [] n
    ∙ read_close s rest

read_rest :
    (w : Text) (argv : List Text)
    → NoSmartQuotes argv
    → ps_read (ended w) (join_rest (codes " ") (map pwsh_quote argv)) ≡ some (w ∷ argv)
unfolding ps_read join_rest
read_rest w [] n = refl
read_rest w (s ∷ argv) n =
    ap (Option.map (λ ws. w ∷ ws))
      (read_element s (join_rest (codes " ") (map pwsh_quote argv)) n.0 ∙ read_rest s argv n.1)

ps_line :
    (argv : List Text)
    → NoSmartQuotes argv
    → ps_read blank (join (codes " ") (map pwsh_quote argv)) ≡ some argv
unfolding join ps_read
ps_line [] n = refl
ps_line (s ∷ argv) n =
    read_element s (join_rest (codes " ") (map pwsh_quote argv)) n.0 ∙ read_rest s argv n.1

ps_words_call : (line : Text) → ps_words (codes "& " ++ line) ≡ ps_read blank line
unfolding ps_words ps_read
ps_words_call line = refl

-- On Windows the rendered line is a call whose arguments PowerShell reads back as the array that was
-- rendered, if no element holds one of U+2018 to U+201B.
pub ps_words-render_argv :
    (argv : List Text) → NoSmartQuotes argv → ps_words (render_argv windows argv) ≡ some argv
unfolding render_argv
ps_words-render_argv argv n =
    ps_words_call (join (codes " ") (map pwsh_quote argv)) ∙ ps_line argv n

read_smart :
    (w rest : Text) (q c : ℕ)
    → is_quote q ≡ true
    → is_quote c ≡ false
    → (c == 32) ≡ false
    → ps_read (verbatim w) (q ∷ c ∷ rest) ≡ none
unfolding ps_read
read_smart w rest q c h k b = rw (h, k, b)

replace_smart :
    (q c : ℕ) (post : Text)
    → (leb 0x2018 q && leb q 0x201b) ≡ true
    → is_quote c ≡ false
    → (is_quote q ≡ true)
      × (replace_char quote doubling (q ∷ c ∷ post) ≡ q ∷ c ∷ replace_char quote doubling post)
unfolding is_quote
replace_smart q c post smart plain =
    ground (
      arith,
      replace_char_cons quote doubling q (c ∷ post),
      replace_char_cons quote doubling c post,
    )

read_smart_element :
    (pre post rest : Text) (q c : ℕ)
    → NoSmartQuote pre
    → (leb 0x2018 q && leb q 0x201b) ≡ true
    → is_quote c ≡ false
    → (c == 32) ≡ false
    → ps_read blank (pwsh_quote (pre ++ q ∷ c ∷ post) ++ rest) ≡ none
unfolding pwsh_quote
read_smart_element pre post rest q c n smart plain ink =
    let (quoted, same) = replace_smart q c post smart plain in
    let after = replace_char quote doubling post ++ (quote ∷ rest) in
    read_open ((replace_char quote doubling (pre ++ q ∷ c ∷ post) ++ (quote ∷ [])) ++ rest)
    ∙ ap (ps_read (verbatim [])) (
        append_assoc (replace_char quote doubling (pre ++ q ∷ c ∷ post)) (quote ∷ []) rest
        ∙ ap (λ t. t ++ (quote ∷ rest))
            (replace_char-append quote doubling pre (q ∷ c ∷ post)
              ∙ ap (λ t. replace_char quote doubling pre ++ t) same)
        ∙ append_assoc (replace_char quote doubling pre) (q ∷ c ∷ replace_char quote doubling post)
            (quote ∷ rest))
    ∙ read_doubled pre (q ∷ c ∷ after) [] n
    ∙ read_smart pre after q c quoted plain ink

-- Without that condition quoting is not lossless: an argument that holds such a character followed
-- by anything but a quote or a blank is cut there, and what follows stands outside the quotes.
pub ps_words_smart_quote :
    (pre post : Text) (q c : ℕ)
    → NoSmartQuote pre
    → (leb 0x2018 q && leb q 0x201b) ≡ true
    → is_quote c ≡ false
    → (c == 32) ≡ false
    → ps_words (render_argv windows ((pre ++ q ∷ c ∷ post) ∷ [])) ≡ none
unfolding render_argv join join_rest
ps_words_smart_quote pre post q c n smart plain ink =
    ps_words_call (join (codes " ") (pwsh_quote (pre ++ q ∷ c ∷ post) ∷ []))
    ∙ read_smart_element pre post [] q c n smart plain ink
