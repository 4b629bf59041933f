-- ===== src/FileOp/Files.antt =====
-- lib/fileop.mjs: the reads of a file whose content stays the same meanwhile.
use gha_mcp_host.Prelude.{
  ℕ, suc, zero, ◌+◌, ◌-◌, ◌<◌, ◌≤◌, ◌≡◌, refl, sym, ap, ◌∙◌, arith, false, List, [], ◌∷◌, ◌++◌,
  none, ltb, length, take_eq, length-drop, length-take, take-append-take, take_all, take-take,
  ltb→lt, drop-drop, take, drop, Bool-cases, inl, inr, ◌⊎◌, drop_eq, min,
}
use gha_mcp_host.Text.{Text}
use gha_mcp_host.FileOp.Host.{Host, value, read_loop, read_window, sha256_loop, sha256_file}

-- What readSync promises of a file of this content: a part of what stands there, at least a byte
-- where one stands there and one is asked for.
pub record ServedBy (H : Host) (s : H.State) (abs : Text) (content : List ℕ) : Type 0 where
  pub opens : H.open_read s abs ≡ none
  pub reads :
      (want at : ℕ)
      → (n : ℕ) × (H.read_sync s abs want at ≡ value (take n (drop at content)))
        × (n ≤ want)
        × (0 < want → at < length content → 0 < n)

take-min {ℓ} : {A : Type ℓ} (n : ℕ) (xs : List A) → take n xs ≡ take (min n (length xs)) xs
take-min n xs =
    ap (take n) (sym (take_all (length xs) xs (omega arith))) ∙ take-take n (length xs) xs

List-cases {ℓ} : {A : Type ℓ} (xs : List A) → (xs ≡ []) ⊎ ((y : A) × (ys : List A) × (xs ≡ y ∷ ys))
List-cases [] = inl refl
List-cases (x ∷ xs) = inr (x, xs, refl)

module _ (H : Host) (s : H.State) (abs : Text) (content : List ℕ)
    (ok : ServedBy H s abs content) where
  at_end :
      (n want at : ℕ)
      → (0 < want → at < length content → 0 < n)
      → min n (length content - at) ≡ 0
      → 0 < want
      → length content ≤ at
  at_end n want at gets z w = elim (Bool-cases (ltb at (length content))) [
    | inl e ↦
        absurd
          (omega (arith, z, gets w (ltb→lt at (length content) e), ltb→lt at (length content) e))
    | inr e ↦ ground arith
  ]

  -- A read that got something got a part of what stands there; one that got nothing is at the end.
  pub read_step :
      (want at : ℕ)
      → (n : ℕ) × (H.read_sync s abs want at ≡ value (take n (drop at content)))
        × (n ≤ want)
        × (n ≤ length content - at)
        × (n ≡ 0 → 0 < want → length content ≤ at)
  read_step want at =
      let (n, eq, le, gets) = ok.reads want at in
      let m = min n (length content - at) in
      (
        m,
        eq
            ∙ ap value (
                take-min n (drop at content)
                ∙ take_eq (drop at content) (omega (arith, length-drop at content))),
        omega (arith, le),
        omega arith,
        at_end n want at gets,
      )

  all_here : (l want k : ℕ) → ltb l want ≡ false → l ≡ k → k ≤ want → k ≡ want
  all_here l want k full size le = ground arith

  taken_none : (n at : ℕ) → n ≤ length content - at → take n (drop at content) ≡ [] → n ≡ 0
  taken_none n at there e =
      omega (arith, there, ap length e, length-take n (drop at content), length-drop at content)

  taken_some :
      {b : ℕ} {bs : List ℕ} (n at : ℕ)
      → n ≤ length content - at
      → take n (drop at content) ≡ b ∷ bs
      → 0 < n
  taken_some n at there e =
      omega (arith, there, ap length e, length-take n (drop at content), length-drop at content)

  chunk_next :
      (from k n l : ℕ)
      → l ≡ k
      → take k (drop from content) ++ take n (drop (from + l) content)
        ≡ take (k + n) (drop from content)
  chunk_next from k n l e =
      ap (λ t. take k (drop from content) ++ take n t)
        (drop_eq content (omega (arith, e)) ∙ sym (drop-drop k from content))
      ∙ take-append-take k n (drop from content)

  past_end :
      (from k want : ℕ) {l : ℕ}
      → l ≡ k
      → k ≤ want
      → length content ≤ from + l
      → take k (drop from content) ≡ take want (drop from content)
  past_end from k want e le over =
      take_all k (drop from content) (omega (arith, e, over, length-drop from content))
      ∙ sym
          (take_all want (drop from content) (omega (arith, e, le, over, length-drop from content)))

  -- From what the loop has to what it returns.
  read_loop_lem :
      (fuel from want k : ℕ)
      → want ≤ k + fuel
      → k ≤ want
      → k ≤ length content - from
      → read_loop H fuel s abs from want (take k (drop from content))
        ≡ value (take want (drop from content))
  unfolding read_loop
  read_loop_lem zero from want k enough le room =
      ap value (take_eq (drop from content) (omega (arith, enough, le)))
  read_loop_lem (suc fuel) from want k enough le room =
      let here = take k (drop from content) in
      let size : length here ≡ k =
        length-take k (drop from content) ∙ omega (arith, room, length-drop from content) in
      elim (Bool-cases (ltb (length here) want)) [
        | inr full ↦
            rw full
              (ap value (take_eq (drop from content) (all_here (length here) want k full size le)))
        | inl more ↦
            let at = from + length here in
            let (n, eq, asked, there, last) = read_step (want - length here) at in
            let chunk = take n (drop at content) in
            let joined = chunk_next from k n (length here) size in
            elim (List-cases chunk) [
              | inl nothing ↦
                  let over =
                    last (taken_none n at there nothing)
                      (omega (arith, ltb→lt (length here) want more)) in
                  rw (more, eq ∙ ap value nothing, read_loop)
                    (ap value (past_end from k want size le over))
              | inr (b, bs, some_bytes) ↦
                  let ih =
                    read_loop_lem fuel from want (k + n)
                      (omega (arith, enough, taken_some n at there some_bytes))
                      (omega (arith, asked, size, le)) (omega (arith, there, size, room)) in
                  rw (more, eq ∙ ap value some_bytes, read_loop)
                    (ap (λ t. read_loop H fuel s abs from want (here ++ t)) (sym some_bytes)
                      ∙ ap (read_loop H fuel s abs from want) joined
                      ∙ ih)
            ]
      ]

  -- A window of a file is what stands there, however short the reads come, up to the file's end.
  pub read_window_lem :
      (from want : ℕ) → read_window H s abs from want ≡ value (take want (drop from content))
  unfolding read_window
  read_window_lem from want =
      rw (ok.opens, read_window)
        (read_loop_lem want from want 0 (omega arith) (omega arith) (omega arith))

  sha256_loop_lem :
      (fuel k : ℕ)
      → k ≤ length content
      → length content - k < fuel
      → sha256_loop H fuel s abs (take k content) ≡ value (H.sha256 content)
  unfolding sha256_loop
  sha256_loop_lem zero k le enough = absurd (omega arith)
  sha256_loop_lem (suc fuel) k le enough =
      let here = take k content in
      let size : length here ≡ k = length-take k content ∙ omega (arith, le) in
      let at = length here in
      let (n, eq, asked, there, last) = read_step 65_536 at in
      elim (List-cases (take n (drop at content))) [
        | inl nothing ↦
            let over = last (taken_none n at there nothing) (omega arith) in
            rw (eq ∙ ap value nothing, sha256_loop)
              (ap (λ t. value (H.sha256 t)) (take_all k content (omega (arith, over, size))))
        | inr (b, bs, some_bytes) ↦
            let ih =
              sha256_loop_lem fuel (k + n) (omega (arith, there, size, le))
                (omega (arith, enough, size, there, taken_some n at there some_bytes)) in
            rw (eq ∙ ap value some_bytes, sha256_loop)
              (ap (λ t. sha256_loop H fuel s abs (here ++ t)) (sym some_bytes)
                ∙ ap (sha256_loop H fuel s abs) (
                    ap (λ t. here ++ take n t) (drop_eq content size)
                    ∙ take-append-take k n content)
                ∙ ih)
      ]

  -- The digest of a file is that of its bytes, if the reads may be one more than its bytes.
  pub sha256_file_lem :
      (turns : ℕ) → length content < turns → sha256_file H turns s abs ≡ value (H.sha256 content)
  unfolding sha256_file
  sha256_file_lem turns enough =
      rw (ok.opens, sha256_file) (sha256_loop_lem turns 0 (omega arith) (omega (arith, enough)))
