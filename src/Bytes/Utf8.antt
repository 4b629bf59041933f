-- ===== src/Bytes/Utf8.antt =====
-- safeCut of broker/src/bytes.ts and the boundaries of UTF-8 characters.
use gha_mcp_host.Prelude.{
  ℕ, zero, suc, ◌-◌, ◌<◌, ◌≡◌, refl, ap, ◌∙◌, List, [], ◌∷◌, Bool, true, false, some, arith, length,
  get_or, ◌⊎◌, inl, inr, Option-cases,
}
use gha_mcp_host.Bytes.{
  ansi_lookback, newline, esc_byte, last_index, last_index_within, is_continuation, is_lead,
  walk_back, back_to_character, line_cut, character_cut, escape_cut, force, safe_cut,
}

abbrev pub cont : List ℕ → ℕ → Bool
cont bytes i = is_continuation (get_or bytes i 0)

abbrev pub lead : List ℕ → ℕ → Bool
lead bytes i = is_lead (get_or bytes i 0)

-- A lead byte at most three places before `i`, with continuation bytes between.
abbrev pub Preceded : List ℕ → ℕ → Type 0
Preceded bytes zero = ⊥
Preceded bytes (suc zero) = lead bytes zero ≡ true
Preceded bytes (suc (suc zero)) =
    (lead bytes (suc zero) ≡ true) ⊎ ((cont bytes (suc zero) ≡ true) × (lead bytes zero ≡ true))
Preceded bytes (suc (suc (suc j))) =
    (lead bytes (suc (suc j)) ≡ true)
    ⊎ ((cont bytes (suc (suc j)) ≡ true)
        × ((lead bytes (suc j) ≡ true) ⊎ ((cont bytes (suc j) ≡ true) × (lead bytes j ≡ true))))

-- What UTF-8 promises of a window that begins at a character: a continuation byte belongs to a
-- character of at most four bytes that begins in the window.
abbrev pub IsCharacters : List ℕ → Type 0
IsCharacters bytes = (i : ℕ) → cont bytes i ≡ true → Preceded bytes i

lead_not_cont : (b : ℕ) → is_lead b ≡ true → is_continuation b ≡ false
unfolding is_lead is_continuation
lead_not_cont b h = ground arith

newline_plain : (is_continuation newline ≡ false) × (is_lead newline ≡ false)
unfolding is_continuation is_lead
newline_plain = (refl, refl)

esc_plain : is_continuation esc_byte ≡ false
unfolding is_continuation
esc_plain = refl

-- The walk back from the end stands still or ends at a byte that begins a character.
back_ok :
    (bytes : List ℕ) (f : ℕ)
    → IsCharacters bytes
    → (back_to_character bytes f ≡ f) ⊎ (cont bytes (back_to_character bytes f) ≡ false)
unfolding back_to_character walk_back
back_ok bytes zero u = inl refl
back_ok bytes (suc zero) u = ground (arith, u zero)
back_ok bytes (suc (suc zero)) u =
    ground (arith, u zero, u (suc zero), lead_not_cont (get_or bytes zero 0))
back_ok bytes (suc (suc (suc zero))) u = ground (
  arith,
  u zero,
  u (suc zero),
  u (suc (suc zero)),
  lead_not_cont (get_or bytes zero 0),
  lead_not_cont (get_or bytes (suc zero) 0),
)
back_ok bytes (suc (suc (suc (suc j)))) u = ground (
  arith,
  u (suc j),
  u (suc (suc j)),
  u (suc (suc (suc j))),
  lead_not_cont (get_or bytes j 0),
  lead_not_cont (get_or bytes (suc j) 0),
  lead_not_cont (get_or bytes (suc (suc j)) 0),
)

-- Behind a newline no character is open.
newline_ok :
    (bytes : List ℕ) (nl : ℕ)
    → IsCharacters bytes
    → get_or bytes nl 0 ≡ newline
    → cont bytes (suc nl) ≡ false
newline_ok bytes zero u e =
    ground (arith, u (suc zero), newline_plain, ap is_continuation e, ap is_lead e)
newline_ok bytes (suc zero) u e =
    ground (arith, u (suc (suc zero)), newline_plain, ap is_continuation e, ap is_lead e)
newline_ok bytes (suc (suc k)) u e =
    ground (arith, u (suc (suc (suc k))), newline_plain, ap is_continuation e, ap is_lead e)

last_index_hit :
    (b n : ℕ) (bytes : List ℕ) (i : ℕ) → last_index b n bytes ≡ some i → get_or bytes i 0 ≡ b
unfolding last_index
last_index_hit b zero bytes i e = cc
last_index_hit b (suc n) bytes i e = ground (arith, last_index_hit b n bytes i)

last_index_within_hit :
    (b n end : ℕ) (bytes : List ℕ) (i : ℕ)
    → last_index_within b n end bytes ≡ some i
    → get_or bytes i 0 ≡ b
unfolding last_index_within
last_index_within_hit b zero end bytes i e = cc
last_index_within_hit b (suc n) zero bytes i e = cc
last_index_within_hit b (suc n) (suc k) bytes i e =
    ground (arith, last_index_within_hit b n k bytes i)

-- What a cut may stand at: the end of the window, or a byte that begins a character.
abbrev Fine : List ℕ → ℕ → Type 0
Fine bytes e = (e ≡ length bytes) ⊎ (cont bytes e ≡ false)

line_cut-Fine :
    (bytes : List ℕ) (eof : Bool)
    → let f = (line_cut bytes eof).0 in
      (f ≡ length bytes) ⊎ ((nl : ℕ) × (f ≡ suc nl) × (get_or bytes nl 0 ≡ newline))
unfolding line_cut
line_cut-Fine bytes true = inl refl
line_cut-Fine bytes false = elim (Option-cases (last_index newline (length bytes) bytes)) [
  | inl e ↦ rw (e, line_cut) (inl refl)
  | inr (nl, e) ↦
      rw (e, line_cut) (inr (nl, omega arith, last_index_hit newline (length bytes) bytes nl e))
]

character_cut-Fine :
    (bytes : List ℕ) (f : ℕ)
    → IsCharacters bytes
    → (f ≡ length bytes) ⊎ ((nl : ℕ) × (f ≡ suc nl) × (get_or bytes nl 0 ≡ newline))
    → Fine bytes (character_cut bytes f)
unfolding character_cut
character_cut-Fine bytes f u (inl e) = ground (arith, back_ok bytes f u)
character_cut-Fine bytes f u (inr (nl, e, hit)) =
    let before : f - 1 ≡ nl = omega arith in
    let last : get_or bytes (f - 1) 0 ≡ newline = ap (λ k. get_or bytes k 0) before ∙ hit in
    ground (arith, back_ok bytes f u, newline_ok bytes nl u hit, last)

escape_cut-Fine :
    (bytes : List ℕ) (end : ℕ) (d : Bool) → Fine bytes end → Fine bytes (escape_cut bytes end d).0
unfolding escape_cut
escape_cut-Fine bytes end d h =
    elim (Option-cases (last_index_within esc_byte (end - (end - ansi_lookback)) end bytes)) [
      | inl e ↦ rw (e, escape_cut) h
      | inr (i, e) ↦
          let hit = last_index_within_hit esc_byte (end - (end - ansi_lookback)) end bytes i e in
          rw (e, escape_cut) (ground (arith, h, esc_plain, ap is_continuation hit))
    ]

-- If the window begins at a character and the cut is not forced, the byte at which the cut stands
-- begins a character: the next window begins at one too, and this one shows no half of any.
pub safe_cut_whole_characters :
    (bytes : List ℕ) (eof : Bool)
    → IsCharacters bytes
    → (safe_cut bytes eof).forced_split ≡ false
    → (safe_cut bytes eof).end < length bytes
    → cont bytes (safe_cut bytes eof).end ≡ false
unfolding safe_cut force
safe_cut_whole_characters [] eof u n h = absurd (omega arith)
safe_cut_whole_characters (b ∷ bs) eof u n h =
    let bytes = b ∷ bs in
    let (floor_end, dropped) = line_cut bytes eof in
    ground (
      arith,
      escape_cut-Fine bytes (character_cut bytes floor_end) dropped
          (character_cut-Fine bytes floor_end u (line_cut-Fine bytes eof)),
    )
