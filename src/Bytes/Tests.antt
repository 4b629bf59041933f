-- ===== src/Bytes/Tests.antt =====
-- Cuts of concrete windows, and the theorems at such inputs.
use gha_mcp_host.Prelude.{
  ℕ, zero, suc, ◌≡◌, ◌≤◌, ◌<◌, refl, List, [], ◌∷◌, true, false, arith, get_or, ◌==◌,
}
use gha_mcp_host.Bytes.{
  safe_cut, line_cut, last_index, last_index_within, character_cut, back_to_character, walk_back,
  is_continuation, is_lead, escape_cut, escape_terminated, is_string_kind, csi_ends, force,
  esc_byte,
}
use gha_mcp_host.Bytes.Resume.{read_on, joined, joined-read_on}
use gha_mcp_host.Bytes.Utf8.{IsCharacters}
use gha_mcp_host.Bytes.Osc.{IsSplitString, EndsInCharacter}

-- "a\nb": the unfinished line is withheld.
line_runs :
    safe_cut (97 ∷ 10 ∷ 98 ∷ []) false
    ≡ record { end = 2; held_back = 1; partial_line_dropped = true; forced_split = false }
unfolding safe_cut line_cut last_index character_cut escape_cut last_index_within force
line_runs = refl

-- "a", then the first two bytes of the euro sign.
abbrev split_euro : List ℕ
split_euro = 97 ∷ 0xe2 ∷ 0x82 ∷ []

euro_runs : (safe_cut split_euro false).end ≡ 1
unfolding safe_cut line_cut last_index character_cut back_to_character walk_back is_continuation
    is_lead escape_cut last_index_within force
euro_runs = refl

-- A red "x" whose reset sequence is cut: ESC [ 3 1 m x ESC [
csi_runs : (safe_cut (0x1b ∷ 0x5b ∷ 0x33 ∷ 0x31 ∷ 0x6d ∷ 120 ∷ 0x1b ∷ 0x5b ∷ []) false).end ≡ 6
unfolding safe_cut line_cut last_index character_cut back_to_character walk_back is_continuation
    is_lead escape_cut escape_terminated is_string_kind csi_ends last_index_within force
csi_runs = refl

split_euro-IsCharacters : IsCharacters split_euro
unfolding is_continuation is_lead
split_euro-IsCharacters zero h = cc h
split_euro-IsCharacters (suc zero) h = cc h
split_euro-IsCharacters (suc (suc zero)) h = ground arith
split_euro-IsCharacters (suc (suc (suc k))) h = cc h

joined-read_on_example : joined (read_on 3 2 split_euro) ≡ split_euro
joined-read_on_example = joined-read_on 3 2 split_euro (omega arith) (omega arith)

-- ESC ] x ESC, before the backslash has arrived.
abbrev split_osc : List ℕ
split_osc = 0x1b ∷ 0x5d ∷ 120 ∷ 0x1b ∷ []

split_osc-IsSplitString : IsSplitString split_osc 3
unfolding is_string_kind
split_osc-IsSplitString = record {
  size = refl;
  room = omega arith;
  opens = refl;
  kind = refl;
  payload = λ k a b. ground (arith, two k a b);
  closes = refl;
}
  where
    two : (k : ℕ) → 2 ≤ k → k < 3 → k ≡ 2
    two k a b = omega arith

-- "abcé"
abbrev accented : List ℕ
accented = 97 ∷ 98 ∷ 99 ∷ 0xc3 ∷ 0xa9 ∷ []

accented-EndsInCharacter : EndsInCharacter accented 3
unfolding is_lead is_continuation
accented-EndsInCharacter = record {
  size = refl;
  room = omega arith;
  begins = refl;
  lead = refl;
  continues = refl;
  plain = plain_below;
}
  where
    plain_below : (k : ℕ) → k < 3 → (get_or accented k 0 == esc_byte) ≡ false
    plain_below zero h = refl
    plain_below (suc zero) h = refl
    plain_below (suc (suc zero)) h = refl
    plain_below (suc (suc (suc k))) h = absurd (omega arith)
