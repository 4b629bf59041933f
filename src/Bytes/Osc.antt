-- ===== src/Bytes/Osc.antt =====
-- safeCut of broker/src/bytes.ts at split string terminators and at the end of an output.
use gha_mcp_host.Prelude.{
  ℕ, zero, suc, ◌+◌, ◌-◌, ◌≤◌, ◌<◌, ◌≡◌, refl, ap, ◌∙◌, List, [], ◌∷◌, true, false, ◌&&◌, none,
  some, arith, length, get_or, leb, ◌==◌,
}
use gha_mcp_host.Bytes.{
  ansi_lookback, newline, esc_byte, last_index, last_index_within, is_continuation, is_lead,
  walk_back, back_to_character, line_cut, character_cut, escape_terminated, is_string_kind,
  string_ends, escape_cut, force, safe_cut,
}

-- A window of `suc last` bytes: a string sequence opens it, its payload has no terminator, no escape
-- and no newline, and the last byte is the ESC of its two-byte terminator.
pub record IsSplitString (bytes : List ℕ) (last : ℕ) : Type 0 where
  pub size : length bytes ≡ suc last
  pub room : 2 ≤ last
  pub opens : get_or bytes 0 0 ≡ esc_byte
  pub kind : is_string_kind (get_or bytes 1 0) ≡ true
  pub payload :
      (k : ℕ)
      → 2 ≤ k
      → k < last
      → ((get_or bytes k 0 == 0x07) ≡ false)
        × ((get_or bytes k 0 == esc_byte) ≡ false)
        × ((get_or bytes k 0 == newline) ≡ false)
  pub closes : get_or bytes last 0 ≡ esc_byte

string_ends_none :
    (n : ℕ) (bytes : List ℕ) (i limit : ℕ)
    → ((k : ℕ)
        → i ≤ k
        → k < i + n
        → ((get_or bytes k 0 == 0x07) ≡ false) × ((get_or bytes k 0 == esc_byte) ≡ false))
    → string_ends n bytes i limit ≡ false
unfolding string_ends
string_ends_none zero bytes i limit p = refl
string_ends_none (suc n) bytes i limit p =
    let (no_bel, no_esc) = p i (omega arith) (omega arith) in
    rw (no_bel, no_esc)
      (string_ends_none n bytes (i + 1) limit (λ k a b. p k (omega arith) (omega arith)))

last_index-none :
    (b n : ℕ) (bytes : List ℕ)
    → ((k : ℕ) → k < n → (get_or bytes k 0 == b) ≡ false)
    → last_index b n bytes ≡ none
unfolding last_index
last_index-none b zero bytes p = refl
last_index-none b (suc n) bytes p =
    rw (p n (omega arith)) (last_index-none b n bytes (λ k h. p k (omega arith)))

last_index_within_top :
    (b n end : ℕ) (bytes : List ℕ)
    → 0 < n
    → get_or bytes end 0 ≡ b
    → last_index_within b n (suc end) bytes ≡ some end
unfolding last_index_within
last_index_within_top b zero end bytes h e = absurd (omega arith)
last_index_within_top b (suc n) end bytes h e = ground arith

module _ {bytes : List ℕ} {last : ℕ} (w : IsSplitString bytes last) where
  no_newline : (k : ℕ) → k < suc last → (get_or bytes k 0 == newline) ≡ false
  unfolding is_string_kind
  no_newline zero h = ground (arith, w.opens)
  no_newline (suc zero) h = ground (arith, w.kind)
  no_newline (suc (suc k)) h = ground (arith, w.payload (suc (suc k)), w.closes)

  whole_line : line_cut bytes false ≡ (suc last, true)
  unfolding line_cut
  whole_line =
      let none_found : last_index newline (length bytes) bytes ≡ none =
        rw w.size (last_index-none newline (suc last) bytes no_newline) in
      rw (none_found, line_cut) (ap (λ k. (k, true)) w.size)

  whole_characters : character_cut bytes (suc last) ≡ suc last
  unfolding character_cut back_to_character walk_back is_continuation
  whole_characters = ground (arith, w.size, w.closes)

  before_terminator : escape_cut bytes (suc last) true ≡ (last, true)
  unfolding escape_cut escape_terminated
  before_terminator = ground (
    arith,
    last_index_within_top esc_byte (suc last - (suc last - ansi_lookback)) last bytes,
    w.closes,
  )

  still_open : escape_terminated bytes 0 last ≡ false
  unfolding escape_terminated
  still_open = ground (
    arith,
    w.kind,
    w.room,
    string_ends_none (last - 2) bytes 2 last
        (λ k a b. let (x, y, z) = w.payload k a (omega (arith, w.room, b)) in (x, y)),
  )

-- Such a window is cut right before the terminator: the unfinished string sequence is shown and the
-- cut is not called forced, although an escape sequence stands across it.
pub safe_cut_splits_string :
    {bytes : List ℕ} {last : ℕ}
    → IsSplitString bytes last
    → let c = safe_cut bytes false in
      (c.end ≡ last) × (c.forced_split ≡ false) × (escape_terminated bytes 0 c.end ≡ false)
unfolding safe_cut force
safe_cut_splits_string {bytes = []} w = absurd (omega (arith, w.size))
safe_cut_splits_string {bytes = b ∷ bs} w =
    ground (arith, whole_line w, whole_characters w, before_terminator w, still_open w, w.room)

-- A finished output whose last two bytes are a whole two-byte character, with no escape before it.
pub record EndsInCharacter (bytes : List ℕ) (n : ℕ) : Type 0 where
  pub size : length bytes ≡ suc (suc n)
  pub room : 0 < n
  pub begins : (leb 0xc2 (get_or bytes n 0) && leb (get_or bytes n 0) 0xdf) ≡ true
  pub lead : is_lead (get_or bytes n 0) ≡ true
  pub continues : is_continuation (get_or bytes (suc n) 0) ≡ true
  pub plain : (k : ℕ) → k < n → (get_or bytes k 0 == esc_byte) ≡ false

last_index_within-none :
    (b n end : ℕ) (bytes : List ℕ)
    → ((k : ℕ) → k < end → (get_or bytes k 0 == b) ≡ false)
    → last_index_within b n end bytes ≡ none
unfolding last_index_within
last_index_within-none b zero end bytes p = refl
last_index_within-none b (suc n) zero bytes p = refl
last_index_within-none b (suc n) (suc k) bytes p =
    rw (p k (omega arith)) (last_index_within-none b n k bytes (λ j h. p j (omega arith)))

lead_plain : (b : ℕ) → is_lead b ≡ true → (is_continuation b ≡ false) × ((b == newline) ≡ false)
unfolding is_lead is_continuation
lead_plain b h = ground arith

module _ {bytes : List ℕ} {n : ℕ} (w : EndsInCharacter bytes n) where
  held_character : character_cut bytes (suc (suc n)) ≡ n
  unfolding character_cut back_to_character walk_back
  held_character = ground (arith, w.size, w.continues, w.lead, lead_plain (get_or bytes n 0))

  no_escape : escape_cut bytes n false ≡ (n, false)
  unfolding escape_cut
  no_escape =
      rw (last_index_within-none esc_byte (n - (n - ansi_lookback)) n bytes w.plain, escape_cut)

-- That whole character is withheld all the same: the cut stands before it, and neither flag says so.
safe_cut_withholds_character :
    {bytes : List ℕ} {n : ℕ}
    → EndsInCharacter bytes n
    → let c = safe_cut bytes true in
      (c.end ≡ n) × (c.held_back ≡ 2) × (c.partial_line_dropped ≡ false) × (c.forced_split ≡ false)
unfolding safe_cut force line_cut
safe_cut_withholds_character {bytes = []} w = absurd (omega (arith, w.size))
safe_cut_withholds_character {bytes = b ∷ bs} {n} w =
    let whole : character_cut (b ∷ bs) (length (b ∷ bs)) ≡ n =
      ap (character_cut (b ∷ bs)) w.size ∙ held_character w in
    ground (arith, whole, no_escape w, w.size, w.room)
