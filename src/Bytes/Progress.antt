-- ===== src/Bytes/Progress.antt =====
-- The bounds of the cuts that safeCut of broker/src/bytes.ts makes.
use gha_mcp_host.Prelude.{
  ℕ, zero, suc, ◌+◌, ◌-◌, ◌≤◌, ◌<◌, ◌≡◌, refl, List, [], ◌∷◌, Bool, true, false, Option, none, some,
  arith, length, get_or, ◌==◌, ◌⊎◌, inl, inr, Bool-cases,
}
use gha_mcp_host.Bytes.{
  ansi_lookback, utf8_max_tail, newline, esc_byte, last_index, last_index_within, walk_back,
  back_to_character, line_cut, character_cut, escape_cut, force, safe_cut,
}

-- An index that was found lies below `n`.
abbrev pub Under : ℕ → Option ℕ → Type 0
Under n none = Unit {0}
Under n (some i) = i < n

Under-mono : {m n : ℕ} (o : Option ℕ) → m ≤ n → Under m o → Under n o
Under-mono none h u = tt
Under-mono (some i) h u = omega arith

pub last_index-Under : (b n : ℕ) (bytes : List ℕ) → Under n (last_index b n bytes)
unfolding last_index
last_index-Under b zero bytes = tt
last_index-Under b (suc n) bytes = elim (Bool-cases (get_or bytes n 0 == b)) [
  | inl hit ↦ rw hit (omega arith)
  | inr miss ↦ rw miss (
      Under-mono {m = n} {n = suc n} (last_index b n bytes) (omega arith)
        (last_index-Under b n bytes))
]

pub last_index_within-Under :
    (b n end : ℕ) (bytes : List ℕ) → Under end (last_index_within b n end bytes)
unfolding last_index_within
last_index_within-Under b zero end bytes = tt
last_index_within-Under b (suc n) zero bytes = tt
last_index_within-Under b (suc n) (suc k) bytes = elim (Bool-cases (get_or bytes k 0 == b)) [
  | inl hit ↦ rw hit (omega arith)
  | inr miss ↦ rw miss (
      Under-mono {m = k} {n = suc k} (last_index_within b n k bytes) (omega arith)
        (last_index_within-Under b n k bytes))
]

walk_back-le : (n : ℕ) (bytes : List ℕ) (end : ℕ) → (walk_back n bytes end).0 ≤ end
unfolding walk_back
walk_back-le zero bytes end = omega arith
walk_back-le (suc n) bytes zero = omega arith
walk_back-le (suc n) bytes (suc e) = ground (arith, walk_back-le n bytes e)

back_to_character-le : (bytes : List ℕ) (end : ℕ) → back_to_character bytes end ≤ end
unfolding back_to_character
back_to_character-le bytes end = ground (arith, walk_back-le utf8_max_tail bytes end)

pub character_cut-le : (bytes : List ℕ) (end : ℕ) → character_cut bytes end ≤ end
unfolding character_cut
character_cut-le bytes end = ground (arith, back_to_character-le bytes end)

pub escape_cut-le : (bytes : List ℕ) (end : ℕ) (d : Bool) → (escape_cut bytes end d).0 ≤ end
unfolding escape_cut
escape_cut-le bytes end d =
    ground (arith, last_index_within-Under esc_byte (end - (end - ansi_lookback)) end bytes)

pub line_cut_bounds :
    (bytes : List ℕ) (eof : Bool)
    → 0 < length bytes
    → (0 < (line_cut bytes eof).0) × ((line_cut bytes eof).0 ≤ length bytes)
unfolding line_cut
line_cut_bounds bytes true h = omega arith
line_cut_bounds bytes false h = ground (arith, last_index-Under newline (length bytes) bytes)

-- Of a window that is not empty at least one byte is shown, none past its end, and what is not shown
-- is what is reported as held back. An empty window shows nothing.
pub safe_cut_progress :
    (bytes : List ℕ) (eof : Bool)
    → let c = safe_cut bytes eof in
      ((0 < c.end) ⊎ (bytes ≡ [])) × (c.end + c.held_back ≡ length bytes)
unfolding safe_cut force
safe_cut_progress [] eof = (inr refl, refl)
safe_cut_progress (b ∷ bs) eof =
    let bytes = b ∷ bs in
    let (floor_end, dropped) = line_cut bytes eof in
    ground (
      arith,
      line_cut_bounds bytes eof,
      character_cut-le bytes floor_end,
      escape_cut-le bytes (character_cut bytes floor_end) dropped,
    )
