-- ===== src/Bytes/Render.antt =====
-- broker/src/bytes.ts: stripAnsi and renderWindow. The three expressions match at one place in one
-- way at most, since the character classes that follow one another are disjoint.
use mathlib.Core.Option
use gha_mcp_host.Prelude.{
  ℕ, zero, suc, ◌+◌, ◌≤◌, ◌≡◌, refl, ap, ◌∙◌, Bool, false, ◌&&◌, ◌||◌, List, [], ◌∷◌, Option, none,
  some, leb, ◌==◌, if◌then◌else◌, length, take, arith,
}
use gha_mcp_host.Text.{Text}
use gha_mcp_host.Bytes.{esc_byte, safe_cut}

-- What a match takes: how many characters from here on, 0 for no match.
abbrev Matcher : Type 0
Matcher = Text → ℕ

abbrev add_to : ℕ → Option ℕ → ℕ
add_to n none = 0
add_to n (some k) = n + k

-- The part behind `ESC ]`, its terminator included.
osc_rest : Text → Option ℕ
osc_rest [] = none
osc_rest (c ∷ []) = if c == 7 then some 1 else none
osc_rest (c ∷ d ∷ cs) =
    let more = Option.map suc (osc_rest (d ∷ cs)) in
    if c == 7 then some 1 else if c == esc_byte then (if d == 0x5c then some 2 else none) else more

-- RE_OSC
match_osc : Matcher
unfolding osc_rest
match_osc (c ∷ d ∷ cs) = if c == esc_byte && d == 0x5d then add_to 2 (osc_rest cs) else 0
match_osc _ = 0

is_param : ℕ → Bool
is_param c = (leb 0x30 c && leb c 0x39) || c == 0x3b || c == 0x3f

is_intermediate : ℕ → Bool
is_intermediate c = leb 0x20 c && leb c 0x2f

is_final : ℕ → Bool
is_final c = leb 0x40 c && leb c 0x7e

csi_intermediates : Text → Option ℕ
unfolding is_intermediate is_final
csi_intermediates [] = none
csi_intermediates (c ∷ cs) =
    let more = Option.map suc (csi_intermediates cs) in
    if is_intermediate c then more else if is_final c then some 1 else none

csi_params : Text → Option ℕ
unfolding csi_intermediates is_param
csi_params [] = none
csi_params (c ∷ cs) =
    let more = Option.map suc (csi_params cs) in
    if is_param c then more else csi_intermediates (c ∷ cs)

-- RE_CSI
match_csi : Matcher
unfolding csi_params
match_csi (c ∷ d ∷ cs) = if c == esc_byte && d == 0x5b then add_to 2 (csi_params cs) else 0
match_csi _ = 0

-- RE_ESC_SHORT
match_short : Matcher
match_short (c ∷ d ∷ cs) =
    if c == esc_byte && ((leb 0x40 d && leb d 0x5a) || (leb 0x5c d && leb d 0x5f)) then 2 else 0
match_short _ = 0

-- `s.replace(RE, "")`, with the characters of a match that are still to be passed over.
remove_all : Matcher → ℕ → Text → Text
remove_all m skip [] = []
remove_all m (suc skip) (c ∷ cs) = remove_all m skip cs
remove_all m zero (c ∷ cs) = elim (m (c ∷ cs)) [
  | zero ↦ c ∷ remove_all m zero cs
  | suc k ↦ remove_all m k cs
]

pub strip_ansi : Text → Text
unfolding remove_all match_osc match_csi match_short
strip_ansi s = remove_all match_short 0 (remove_all match_csi 0 (remove_all match_osc 0 s))

pub record RenderedWindow : Type 0 where
  pub text : Text
  pub raw_bytes : ℕ
  pub partial_line_dropped : Bool
  pub forced_split : Bool

-- `decode` is the platform's TextDecoder, `redact` the identity where the caller gives none.
unfoldable pub render_window : (List ℕ → Text) → (Text → Text) → List ℕ → Bool → RenderedWindow
render_window decode redact raw eof =
    let cut = safe_cut raw eof in
    record {
      text = redact (strip_ansi (decode (take cut.end raw)));
      raw_bytes = cut.end;
      partial_line_dropped = cut.partial_line_dropped;
      forced_split = cut.forced_split;
    }

-- No character of the text is an ESC.
abbrev pub NoEsc : Text → Type 0
NoEsc [] = Unit {0}
NoEsc (c ∷ cs) = ((c == esc_byte) ≡ false) × NoEsc cs

-- A matcher that begins at ESC only.
abbrev AtEsc : Matcher → Type 0
AtEsc m = (c : ℕ) (cs : Text) → (c == esc_byte) ≡ false → m (c ∷ cs) ≡ 0

remove_none : (m : Matcher) → AtEsc m → (s : Text) → NoEsc s → remove_all m 0 s ≡ s
unfolding remove_all
remove_none m a [] n = refl
remove_none m a (c ∷ cs) n =
    rw (a c cs n.0, remove_all) (ap (λ ds. c ∷ ds) (remove_none m a cs n.1))

match_osc-AtEsc : AtEsc match_osc
unfolding match_osc
match_osc-AtEsc c [] n = refl
match_osc-AtEsc c (d ∷ cs) n = rw n

match_csi-AtEsc : AtEsc match_csi
unfolding match_csi
match_csi-AtEsc c [] n = refl
match_csi-AtEsc c (d ∷ cs) n = rw n

match_short-AtEsc : AtEsc match_short
unfolding match_short
match_short-AtEsc c [] n = refl
match_short-AtEsc c (d ∷ cs) n = rw n

-- A text without ESC is left as it is.
pub strip_ansi_plain : (s : Text) → NoEsc s → strip_ansi s ≡ s
unfolding strip_ansi
strip_ansi_plain s n =
    ap (λ t. remove_all match_short 0 (remove_all match_csi 0 t))
      (remove_none match_osc match_osc-AtEsc s n)
    ∙ ap (remove_all match_short 0) (remove_none match_csi match_csi-AtEsc s n)
    ∙ remove_none match_short match_short-AtEsc s n

length-remove_all : (m : Matcher) (k : ℕ) (s : Text) → length (remove_all m k s) ≤ length s
unfolding remove_all
length-remove_all m k [] = omega arith
length-remove_all m (suc k) (c ∷ cs) = omega (arith, length-remove_all m k cs)
length-remove_all m zero (c ∷ cs) =
    go (m (c ∷ cs)) (length-remove_all m zero cs) (λ k. length-remove_all m k cs)
  where
    go :
        (n : ℕ)
        → length (remove_all m zero cs) ≤ length cs
        → ((k : ℕ) → length (remove_all m k cs) ≤ length cs)
        → length
            (elim n as (λ _. Text) [ zero ↦ c ∷ remove_all m zero cs | suc k ↦ remove_all m k cs ])
          ≤ suc (length cs)
    go zero h k = omega arith
    go (suc n) h k = omega (arith, k n)

-- Stripping makes no text longer.
pub length-strip_ansi : (s : Text) → length (strip_ansi s) ≤ length s
unfolding strip_ansi
length-strip_ansi s =
    let once = remove_all match_osc 0 s in
    let twice = remove_all match_csi 0 once in
    omega (
      arith,
      length-remove_all match_short 0 twice,
      length-remove_all match_csi 0 once,
      length-remove_all match_osc 0 s,
    )
