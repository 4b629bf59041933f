-- ===== src/Stream.antt =====
-- The abstract view of a command's output: the whole byte sequence that the runner wrote to its
-- out.raw, and what it means that a buffer agrees with it from an offset on.
use gha_mcp_host.Prelude.{
  ℕ, ◌+◌, ◌-◌, ◌≤◌, ◌≡◌, sym, ap, ap₂, ◌∙◌, List, ◌++◌, arith, length, take, drop, length-append,
  length-drop, length-take, take-append-take, drop-take, drop-drop, take-take, take_eq,
}

-- `bytes` is the part of `out_raw` that begins at offset `start`.
pub record Agrees (out_raw : List ℕ) (start : ℕ) (bytes : List ℕ) : Type 0 where
  pub within : start + length bytes ≤ length out_raw
  pub same : bytes ≡ take (length bytes) (drop start out_raw)

module _ {out_raw : List ℕ} {start : ℕ} {xs : List ℕ} (h : Agrees out_raw start xs) where
  abbrev from_start : List ℕ
  from_start = drop start out_raw

  pub Agrees-append :
      {ys : List ℕ} → Agrees out_raw (start + length xs) ys → Agrees out_raw start (xs ++ ys)
  Agrees-append {ys} k = record {
    within = omega (arith, length-append xs ys, h.within, k.within);
    same =
        ap₂ ◌++◌ h.same k.same
        ∙ ap (λ z. take (length xs) from_start ++ take (length ys) z)
            (sym (drop-drop (length xs) start out_raw))
        ∙ take-append-take (length xs) (length ys) from_start
        ∙ take_eq from_start (sym (length-append xs ys));
  }

  pub Agrees-drop : (n : ℕ) → n ≤ length xs → Agrees out_raw (start + n) (drop n xs)
  Agrees-drop n le = record {
    within = omega (arith, length-drop n xs, h.within);
    same =
        ap (drop n) h.same
        ∙ drop-take n (length xs) from_start
        ∙ ap (take (length xs - n)) (drop-drop n start out_raw)
        ∙ take_eq (drop (start + n) out_raw) (sym (length-drop n xs));
  }

  pub Agrees-take : (n : ℕ) → Agrees out_raw start (take n xs)
  Agrees-take n = record {
    within = omega (arith, length-take n xs, h.within);
    same =
        ap (take n) h.same
        ∙ take-take n (length xs) from_start
        ∙ take_eq from_start (sym (length-take n xs));
  }
