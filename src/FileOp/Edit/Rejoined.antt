-- ===== src/FileOp/Edit/Rejoined.antt =====
-- lib/fileop.mjs, opEdit: the text that an edit writes, and what it is for an edit to be written.
use gha_mcp_host.Prelude.{
  ℕ, suc, ◌-◌, ◌<◌, ◌≡◌, ◌≢◌, inl, inr, sym, ap, ◌∙◌, arith, false, List, [], ◌∷◌, ◌++◌, none, some,
  ◌==◌, length, get_or_else, text_eq, Bool-cases, Option-cases,
}
use gha_mcp_host.Text.{Text, join, text_eq-same}
use gha_mcp_host.FileOp.{
  split, split_bom, detect_eol, to_lf, from_lf, count_occurrences, replace_all_literal,
}
use gha_mcp_host.FileOp.Pieces.{replace-split}
use gha_mcp_host.FileOp.Host.{Host, Stat, Try, value, rename, decode_strict}
use gha_mcp_host.FileOp.Replies.{Job, Reply, failed, noop, is_stale}
use gha_mcp_host.FileOp.Write.{commit}
use gha_mcp_host.FileOp.Write.Guarded.{given_of, abs_of}
use gha_mcp_host.FileOp.Edit.{with_edit, edited_text, expected_of}

-- No file is changed: the answer is a failure, or that there is nothing to change.
abbrev pub IsRefusal : Try Reply → Type 0
IsRefusal (value (failed f)) = Unit {0}
IsRefusal (value (noop n)) = Unit {0}
IsRefusal _ = ⊥

-- The text with the pieces between the occurrences of the old text joined by the new one: on line feeds,
-- and with the byte order mark and the line ends that the file has.
abbrev pub rejoined : Text → Text → Text → Text
rejoined text old_str new_str =
    let (bom, body) = split_bom text in
    bom ++ from_lf (join (to_lf new_str) (split (to_lf old_str) (to_lf body))) (detect_eol body)

replaced_as :
    (hay needle repl : Text)
    → 0 < length needle
    → replace_all_literal hay needle repl ≡ join repl (split needle hay)
replaced_as hay [] repl long = absurd (omega (arith, long))
replaced_as hay (d ∷ ds) repl long = (replace-split d ds hay repl).1

pub counted_as :
    (hay needle : Text)
    → 0 < length needle
    → count_occurrences hay needle ≡ length (split needle hay) - 1
counted_as hay [] long = absurd (omega (arith, long))
counted_as hay (d ∷ ds) long = (replace-split d ds hay []).0

pub count_exact :
    (found pieces expected : ℕ)
    → found ≡ pieces - 1
    → found ≡ expected
    → (found == 0) ≡ false
    → pieces ≡ suc expected
count_exact found pieces expected a b h = ground arith

pub not_zero : (n : ℕ) → 0 < n → (n == 0) ≡ false
not_zero n h = ground arith

pub edited_text_lem :
    (text old_str new_str : Text)
    → 0 < length (to_lf old_str)
    → edited_text text old_str new_str ≡ rejoined text old_str new_str
unfolding edited_text
edited_text_lem text old_str new_str long =
    let (bom, body) = split_bom text in
    ap (λ t. bom ++ from_lf t (detect_eol body))
      (replaced_as (to_lf body) (to_lf old_str) (to_lf new_str) long)

-- What an edit of a file with these bytes writes, and when.
pub record Replaces (H : Host) (turns : ℕ) (s : H.State) (a : Job) (now : ℕ) (content : List ℕ)
    (result : H.State × Try Reply) : Type 0 where
  pub text : Text
  pub st : Stat
  pub is_text : H.utf8_encode text ≡ content
  pub current : is_stale a.base_sha (H.sha256 content) ≡ false
  pub count :
      length (split (to_lf (get_or_else a.old_str [])) (to_lf (split_bom text).1))
      ≡ suc (expected_of a.expected_replacements)
  pub new_text : to_lf (get_or_else a.old_str []) ≢ to_lf (get_or_else a.new_str [])
  pub written : result ≡ (
      let bytes =
        H.utf8_encode (rejoined text (get_or_else a.old_str []) (get_or_else a.new_str [])) in
      let (s', reply) = commit H turns s (abs_of H s a) (given_of a) bytes (some st) rename now in
      (s', with_edit (expected_of a.expected_replacements) (H.sha256 content) text reply))

-- The file is as it was, and the answer a failure or that nothing is to be changed.
abbrev pub Refuses : (H : Host) → H.State → H.State × Try Reply → Type 0
Refuses H s (s', reply) = (s' ≡ s) × IsRefusal reply

pub decoded :
    (H : Host) (raw : List ℕ) (text : Text)
    → decode_strict H raw ≡ some text
    → H.utf8_encode text ≡ raw
unfolding decode_strict
decoded H raw text e = elim (Option-cases (H.utf8_decode raw)) [
  | inl bad ↦ let no_text : none ≡ some text = rw (bad, decode_strict) at e in cc no_text
  | inr (t, good) ↦ elim (Bool-cases (text_eq (H.utf8_encode t) raw)) [
    | inr lossy ↦
        let no_text : none ≡ some text = rw (good, lossy, decode_strict) at e in cc no_text
    | inl same ↦
        let it : some t ≡ some text = rw (good, same, decode_strict) at e in
        ap (λ o. H.utf8_encode (get_or_else o t)) (sym it) ∙ text_eq-same (H.utf8_encode t) raw same
  ]
]
