-- ===== src/Bytes/Resume.antt =====
-- Reading on from where safeCut of broker/src/bytes.ts cut, window after window.
use gha_mcp_host.Prelude.{
  ℕ, zero, suc, ◌≤◌, ◌<◌, ◌≡◌, refl, ap₂, ◌∙◌, Bool, inl, inr, List, [], ◌∷◌, ◌++◌, arith, length,
  take, drop, leb, min, length-take, length-drop, take-append-drop, take-take, take_eq,
}
use gha_mcp_host.Bytes.{safe_cut}
use gha_mcp_host.Bytes.Progress.{safe_cut_progress}

-- The windows that a reader of a finished output sees who asks for `size` bytes at a time and adds
-- what each window covers to its offset. The fuel is the number of reads.
pub read_on : ℕ → ℕ → List ℕ → List (List ℕ)
read_on zero size bytes = []
read_on (suc fuel) size [] = []
read_on (suc fuel) size (b ∷ bs) =
    let bytes = b ∷ bs in
    let c = safe_cut (take size bytes) (leb (length bytes) size) in
    take c.end (take size bytes) ∷ read_on fuel size (drop c.end bytes)

abbrev pub joined : List (List ℕ) → List ℕ
joined [] = []
joined (w ∷ ws) = w ++ joined ws

take_of_take : (m n : ℕ) (xs : List ℕ) → m ≤ n → take m (take n xs) ≡ take m xs
take_of_take m n xs h = take-take m n xs ∙ take_eq {m = min m n} {n = m} xs (omega arith)

window_cut :
    (size : ℕ) (b : ℕ) (bs : List ℕ) (eof : Bool)
    → 0 < size
    → let c = safe_cut (take size (b ∷ bs)) eof in (0 < c.end) × (c.end ≤ size)
window_cut zero b bs eof p = absurd (omega arith)
window_cut (suc n) b bs eof p =
    let (moved, adds) = safe_cut_progress (take (suc n) (b ∷ bs)) eof in
    (
      elim moved [ inl h ↦ h | inr none_left ↦ cc none_left ],
      omega (arith, adds, length-take (suc n) (b ∷ bs)),
    )

-- As many reads as there are bytes are enough, and together the windows are the whole output: no
-- byte is skipped, none is shown twice, and every read makes progress.
pub joined-read_on :
    (fuel size : ℕ) (bytes : List ℕ)
    → 0 < size
    → length bytes ≤ fuel
    → joined (read_on fuel size bytes) ≡ bytes
unfolding read_on
joined-read_on zero size [] p h = refl
joined-read_on zero size (b ∷ bs) p h = absurd (omega arith)
joined-read_on (suc fuel) size [] p h = refl
joined-read_on (suc fuel) size (b ∷ bs) p h =
    let bytes : List ℕ = b ∷ bs in
    let eof = leb (length bytes) size in
    let stop = (safe_cut (take size bytes) eof).end in
    let (moved, fits) = window_cut size b bs eof p in
    ap₂ ◌++◌ (take_of_take stop size bytes fits)
      (joined-read_on fuel size (drop stop bytes) p (omega (arith, length-drop stop bytes, moved)))
    ∙ take-append-drop stop bytes
