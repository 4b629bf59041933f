-- ===== src/Bytes.antt =====
-- broker/src/bytes.ts: where a byte window may be cut. A byte is a number below 256, and `bytes[i]`
-- is read only inside the array.
pub mod Progress
pub mod Resume
pub mod Utf8
pub mod Osc
pub mod Render
mod Tests
use Prim.Native.Nat.{bit_and}
use gha_mcp_host.Prelude.{
  ℕ, zero, suc, ◌+◌, ◌-◌, min, Bool, true, false, not, ◌&&◌, ◌||◌, List, [], ◌∷◌, Option, none,
  some, ltb, leb, ◌==◌, if◌then◌else◌, length, get_or,
}

abbrev pub ansi_lookback : ℕ
ansi_lookback = 4096

abbrev pub utf8_max_tail : ℕ
utf8_max_tail = 3

abbrev pub esc_byte : ℕ
esc_byte = 0x1b

abbrev pub newline : ℕ
newline = 0x0a

pub record Cut : Type 0 where
  pub end : ℕ
  pub held_back : ℕ
  pub partial_line_dropped : Bool
  pub forced_split : Bool

-- OSC, DCS, SOS, PM, APC
pub is_string_kind : ℕ → Bool
is_string_kind kind = kind == 0x5d || kind == 0x50 || kind == 0x58 || kind == 0x5e || kind == 0x5f

-- The loop over a string sequence, with the rounds left and the index.
pub string_ends : ℕ → List ℕ → ℕ → ℕ → Bool
string_ends zero bytes i limit = false
string_ends (suc n) bytes i limit =
    let more = string_ends n bytes (i + 1) limit in
    if get_or bytes i 0 == 0x07
    then true
    else if get_or bytes i 0 == esc_byte
    then ltb (i + 1) limit && get_or bytes (i + 1) 0 == 0x5c
    else more

-- The loop over a control sequence.
pub csi_ends : ℕ → List ℕ → ℕ → Bool
csi_ends zero bytes i = false
csi_ends (suc n) bytes i =
    let more = csi_ends n bytes (i + 1) in
    let c = get_or bytes i 0 in
    if leb 0x40 c && leb c 0x7e
    then true
    else if not ((leb 0x30 c && leb c 0x3f) || (leb 0x20 c && leb c 0x2f))
    then true
    else more

pub escape_terminated : List ℕ → ℕ → ℕ → Bool
escape_terminated bytes esc limit =
    let kind = get_or bytes (esc + 1) 0 in
    if leb limit (esc + 1)
    then false
    else if is_string_kind kind
    then string_ends (limit - (esc + 2)) bytes (esc + 2) limit
    else if kind == 0x5b
    then csi_ends (limit - (esc + 2)) bytes (esc + 2)
    else true

-- The greatest index below `n` of a byte equal to `b`.
pub last_index : ℕ → ℕ → List ℕ → Option ℕ
last_index b zero bytes = none
last_index b (suc i) bytes =
    let before = last_index b i bytes in if get_or bytes i 0 == b then some i else before

-- The same, over the `n` indices below `end` only.
pub last_index_within : ℕ → ℕ → ℕ → List ℕ → Option ℕ
last_index_within b zero end bytes = none
last_index_within b (suc n) zero bytes = none
last_index_within b (suc n) (suc i) bytes =
    let before = last_index_within b n i bytes in if get_or bytes i 0 == b then some i else before

pub is_continuation : ℕ → Bool
is_continuation b = bit_and b 0xc0 == 0x80

pub is_lead : ℕ → Bool
is_lead b = bit_and b 0xc0 == 0xc0

-- The continuation-byte walk, with the steps left: where it stops, and after how many steps.
pub walk_back : ℕ → List ℕ → ℕ → ℕ × ℕ
walk_back zero bytes end = (end, 0)
walk_back (suc n) bytes zero = (0, 0)
walk_back (suc n) bytes (suc e) =
    let (stop, steps) = walk_back n bytes e in
    if is_continuation (get_or bytes e 0) then (stop, suc steps) else (suc e, 0)

-- `end` with an unfinished character at its end left out.
pub back_to_character : List ℕ → ℕ → ℕ
back_to_character bytes end =
    let (stop, steps) = walk_back utf8_max_tail bytes end in
    if ltb 0 steps && ltb 0 stop && is_lead (get_or bytes (stop - 1) 0) then stop - 1 else stop

-- The cut at the last newline: `end` and `partialLineDropped`.
pub line_cut : List ℕ → Bool → ℕ × Bool
line_cut bytes true = (length bytes, false)
line_cut bytes false = elim (last_index newline (length bytes) bytes) [
  | none ↦ (length bytes, true)
  | some nl ↦ (nl + 1, ltb (nl + 1) (length bytes))
]

pub character_cut : List ℕ → ℕ → ℕ
character_cut bytes end =
    if end == length bytes || not (get_or bytes (end - 1) 0 == newline)
    then back_to_character bytes end
    else end

-- The cut before an escape sequence that does not end in the window.
pub escape_cut : List ℕ → ℕ → Bool → ℕ × Bool
escape_cut bytes end dropped =
    elim (last_index_within esc_byte (end - (end - ansi_lookback)) end bytes) [
      | none ↦ (end, dropped)
      | some i ↦ if escape_terminated bytes i end then (end, dropped) else (i, true)
    ]

-- Liveness: a window of no bytes becomes the whole line.
pub force : List ℕ → ℕ → ℕ × Bool → Cut
force bytes floor_end (end, dropped) =
    let forced = if ltb 0 floor_end then floor_end else length bytes in
    if end == 0
    then record {
      end = forced;
      held_back = length bytes - forced;
      partial_line_dropped = dropped;
      forced_split = true;
    }
    else record {
      end = end;
      held_back = length bytes - end;
      partial_line_dropped = dropped;
      forced_split = false;
    }

pub safe_cut : List ℕ → Bool → Cut
safe_cut [] eof = record {
  end = 0;
  held_back = 0;
  partial_line_dropped = false;
  forced_split = false;
}
safe_cut (b ∷ bs) eof =
    let bytes = b ∷ bs in
    let (floor_end, dropped) = line_cut bytes eof in
    force bytes floor_end (escape_cut bytes (character_cut bytes floor_end) dropped)
