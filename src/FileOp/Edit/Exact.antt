-- ===== src/FileOp/Edit/Exact.antt =====
-- lib/fileop.mjs, opEdit: which edits change a file, and into what.
use gha_mcp_host.Prelude.{
  ℕ, suc, ◌-◌, ◌<◌, ◌≤◌, ◌≡◌, ◌≢◌, ◌⊎◌, inl, inr, refl, sym, ap, ◌∙◌, arith, true, false, List, [],
  some, ltb, le→ltb, ◌==◌, length, get_or_else, text_eq, ==_iff, Bool-cases, Option-cases, take_all,
}
use gha_mcp_host.Text.{Text, text_eq-same, text_eq_refl}
use gha_mcp_host.FileOp.{
  split, old_str_max_bytes, read_max_bytes, split_bom, to_lf, count_occurrences,
}
use gha_mcp_host.FileOp.LineEnds.{length-to_lf}
use gha_mcp_host.FileOp.Host.{Host, Stat, Try, value, rename, decode_strict, read_window}
use gha_mcp_host.FileOp.Files.{read_window_lem}
use gha_mcp_host.FileOp.Replies.{Job, Reply, is_stale, errno_fail, not_a_file, changed_since}
use gha_mcp_host.FileOp.Write.{commit}
use gha_mcp_host.FileOp.Write.Guarded.{IsFile, given_of, abs_of}
use gha_mcp_host.FileOp.Edit.{with_edit, edited_text, expected_of, edit_text, edit_bytes, op_edit}
use gha_mcp_host.FileOp.Edit.Rejoined.{
  rejoined, counted_as, count_exact, not_zero, edited_text_lem, Replaces, Refuses, decoded,
}

module _ (H : Host) (turns : ℕ) (s : H.State) (a : Job) (now : ℕ) (content : List ℕ) where
  abbrev old_of : Text
  old_of = get_or_else a.old_str []

  abbrev new_of : Text
  new_of = get_or_else a.new_str []

  -- The commit, and the answer around it.
  abbrev write_text : Stat → Text → ℕ → Text → H.State × Try Reply
  write_text st text found new_text =
      let (s', reply) =
        commit H turns s (abs_of H s a) (given_of a) (H.utf8_encode new_text) (some st) rename
          now in
      (s', with_edit found (H.sha256 content) text reply)

  abbrev of_text : Stat → Text → H.State × Try Reply
  of_text st text =
      edit_text H turns s (abs_of H s a) (given_of a) st (H.sha256 content) text old_of new_of
        (expected_of a.expected_replacements) now

  abbrev found_in : Text → ℕ
  found_in text = count_occurrences (to_lf (split_bom text).1) (to_lf old_of)

  text_written :
      (st : Stat) (text : Text)
      → (found_in text == 0) ≡ false
      → (found_in text == expected_of a.expected_replacements) ≡ true
      → text_eq (to_lf old_of) (to_lf new_of) ≡ false
      → of_text st text ≡ write_text st text (found_in text) (edited_text text old_of new_of)
  unfolding edit_text
  text_written st text there exact change = rw (there, exact, change)

  text_exact :
      (st : Stat) (text : Text)
      → 0 < length old_of
      → H.utf8_encode text ≡ content
      → is_stale a.base_sha (H.sha256 content) ≡ false
      → Refuses H s (of_text st text) ⊎ Replaces H turns s a now content (of_text st text)
  unfolding edit_text
  text_exact st text long same current =
      let found = found_in text in
      let expected = expected_of a.expected_replacements in
      let long_lf = length-to_lf old_of long in
      elim (Bool-cases (found == 0)) [
        | inl missing ↦ inl (rw missing (refl, tt))
        | inr there ↦ elim (Bool-cases (found == expected)) [
          | inr other ↦ inl (rw (there, other) (refl, tt))
          | inl exact ↦ elim (Bool-cases (text_eq (to_lf old_of) (to_lf new_of))) [
            | inl nothing ↦ inl (rw (there, exact, nothing) (refl, tt))
            | inr change ↦
                let number = (==_iff found expected).0 exact in
                inr (record {
                  text = text;
                  st = st;
                  is_text = same;
                  current = current;
                  count =
                      count_exact found _ expected
                        (counted_as (to_lf (split_bom text).1) (to_lf old_of) long_lf) number there;
                  new_text = λ p.
                      cc (
                        sym (text_eq_refl (to_lf old_of)) ∙ ap (text_eq (to_lf old_of)) p ∙ change);
                  written =
                      text_written st text there exact change
                      ∙ ap (write_text st text found) (edited_text_lem text old_of new_of long_lf)
                      ∙ ap (λ n. write_text st text n (rejoined text old_of new_of)) number;
                })
          ]
        ]
      ]

  abbrev of_bytes : Stat → H.State × Try Reply
  of_bytes st = edit_bytes H turns s a (abs_of H s a) (given_of a) st content old_of new_of now

  bytes_exact :
      (st : Stat)
      → 0 < length old_of
      → Refuses H s (of_bytes st) ⊎ Replaces H turns s a now content (of_bytes st)
  unfolding edit_bytes changed_since
  bytes_exact st long = elim (Bool-cases (is_stale a.base_sha (H.sha256 content))) [
    | inl stale ↦ inl (rw stale (refl, tt))
    | inr current ↦ elim (Option-cases (decode_strict H content)) [
      | inl bad ↦ inl (rw (current, bad) (refl, tt))
      | inr (text, good) ↦
          rw (current, good) (text_exact st text long (decoded H content text good) current)
    ]
  ]

  abbrev of_edit : H.State × Try Reply
  of_edit = op_edit H turns s a now

  whole_file :
      (file : IsFile H s (abs_of H s a) content)
      → read_window H s (abs_of H s a) 0 file.st.size ≡ value content
  whole_file file =
      read_window_lem H s (abs_of H s a) content file.served 0 file.st.size
      ∙ ap value (take_all file.st.size content (omega (arith, file.size)))

  -- An edit of a file that is there, and no directory, either changes nothing and answers with a failure
  -- or that the two texts are the same, or it writes: then the file's bytes are those of a text, the
  -- digest that the job brings, if any, is that of these bytes, the old text occurs in the text exactly
  -- as many times as the job expects, on line feeds, and what is written is the text with the pieces
  -- between these occurrences joined by the new text, with its byte order mark and its line ends.
  pub op_edit-IsExact :
      IsFile H s (abs_of H s a) content
      → Refuses H s of_edit ⊎ Replaces H turns s a now content of_edit
  unfolding op_edit errno_fail not_a_file
  op_edit-IsExact file = elim (Bool-cases (length old_of == 0)) [
    | inl empty ↦ inl (rw empty (refl, tt))
    | inr some_old ↦ elim (Bool-cases (ltb old_str_max_bytes (length (H.utf8_encode old_of)))) [
      | inl wide ↦ inl (rw (some_old, wide) (refl, tt))
      | inr narrow ↦ elim (Bool-cases (ltb read_max_bytes file.st.size)) [
        | inl large ↦ inl (rw (some_old, narrow, file.looks, op_edit, file.plain, large) (refl, tt))
        | inr small ↦
            rw (some_old, narrow, file.looks, op_edit, file.plain, small, whole_file file)
              (bytes_exact file.st (ground arith))
      ]
    ]
  ]

  found_exactly :
      (found pieces expected : ℕ)
      → 0 < expected
      → found ≡ pieces - 1
      → pieces ≡ suc expected
      → ((found == 0) ≡ false) × ((found == expected) ≡ true) × (found ≡ expected)
  found_exactly found pieces expected h a b = ground arith

  expected_some : 0 < expected_of a.expected_replacements
  unfolding expected_of
  expected_some = omega arith

  -- An edit with an old text that is not empty and not too long, of a file that is there, no directory and
  -- not too large, is written if the file's bytes decode, the digest that the job brings, if any, is
  -- theirs, the old text occurs exactly as many times as the job expects, and the two texts differ.
  pub op_edit_applies :
      (file : IsFile H s (abs_of H s a) content) (text : Text)
      → decode_strict H content ≡ some text
      → 0 < length old_of
      → length (H.utf8_encode old_of) ≤ old_str_max_bytes
      → length content ≤ read_max_bytes
      → is_stale a.base_sha (H.sha256 content) ≡ false
      → length (split (to_lf old_of) (to_lf (split_bom text).1))
        ≡ suc (expected_of a.expected_replacements)
      → to_lf old_of ≢ to_lf new_of
      → of_edit
        ≡ write_text file.st text
            (expected_of a.expected_replacements)
            (rejoined text old_of new_of)
  unfolding op_edit edit_bytes commit
  op_edit_applies file text good long narrow small current count differ =
      let long_lf = length-to_lf old_of long in
      let (there, exact, number) =
        found_exactly (found_in text) _ (expected_of a.expected_replacements) expected_some
          (counted_as (to_lf (split_bom text).1) (to_lf old_of) long_lf) count in
      let change : text_eq (to_lf old_of) (to_lf new_of) ≡ false =
        elim (Bool-cases (text_eq (to_lf old_of) (to_lf new_of))) [
          | inl e ↦ absurd (differ (text_eq-same (to_lf old_of) (to_lf new_of) e))
          | inr e ↦ e
        ] in
      rw
        (
          not_zero (length old_of) long,
          le→ltb old_str_max_bytes (length (H.utf8_encode old_of)) narrow,
          file.looks,
          op_edit,
          file.plain,
          le→ltb read_max_bytes file.st.size (omega (arith, small, file.size)),
          whole_file file,
          current,
          good,
        )
        (text_written file.st text there exact change
          ∙ ap (write_text file.st text (found_in text))
              (edited_text_lem text old_of new_of long_lf)
          ∙ ap (λ n. write_text file.st text n (rejoined text old_of new_of)) number)
