-- ===== src/FileOp.antt =====
-- lib/fileop.mjs of the runner: the file primitives read, write and edit. This file has their
-- operations on text.
pub mod Pieces
pub mod LineEnds
pub mod Host
pub mod Files
pub mod Replies
pub mod Read
pub mod Write
pub mod Edit
pub mod Dispatch
pub mod Memory
mod Tests
use mathlib.Core.Option
use gha_mcp_host.Prelude.{
  ℕ, suc, zero, ◌+◌, ◌-◌, ◌*◌, min, Bool, true, false, ◌&&◌, List, [], ◌∷◌, ◌++◌, Option, none,
  some, ◌==◌, if◌then◌else◌, length, take, drop, slice,
}
use gha_mcp_host.Text.{Text, codes, join}
use gha_mcp_host.Job.{starts_with}

abbrev pub read_default_bytes : ℕ
read_default_bytes = 64 * 1024

abbrev pub read_max_bytes : ℕ
read_max_bytes = 8 * 1024 * 1024

abbrev pub write_max_bytes : ℕ
write_max_bytes = 1024 * 1024

abbrev pub old_str_max_bytes : ℕ
old_str_max_bytes = 64 * 1024

abbrev pub line_limit_default : ℕ
line_limit_default = 2000

abbrev pub binary_scan_prefix_bytes : ℕ
binary_scan_prefix_bytes = 8000

abbrev pub rename_budget_ms : ℕ
rename_budget_ms = 10_000

abbrev pub result_ttl_ms : ℕ
result_ttl_ms = 110_000

-- 0o644
abbrev pub new_file_mode : ℕ
new_file_mode = 420

-- `s.split(sep)` at a separator that is not empty: the first piece, and the others. `skip` counts the
-- code units of a separator that are still to be passed.
unfoldable pub pieces : Text → ℕ → Text → Text × List Text
pieces sep skip [] = ([], [])
pieces sep (suc skip) (c ∷ cs) = pieces sep skip cs
pieces sep zero (c ∷ cs) =
    let (behind, others) = pieces sep (length sep - 1) cs in
    let (piece, rest) = pieces sep zero cs in
    if starts_with sep (c ∷ cs) then ([], behind ∷ others) else (c ∷ piece, rest)

unfoldable pub split : Text → Text → List Text
unfolding pieces
split sep s = let (piece, rest) = pieces sep 0 s in piece ∷ rest

-- "\r\n" and "\n"
abbrev pub crlf_text : Text
crlf_text = 13 ∷ 10 ∷ []

abbrev pub lf_text : Text
lf_text = 10 ∷ []

pub data Eol : Type 0 where
  lf crlf mixed : Eol

unfoldable pub detect_eol : Text → Eol
unfolding split
detect_eol body =
    let pairs = length (split crlf_text body) - 1 in
    let all = length (split lf_text body) - 1 in
    if pairs == 0 then lf else if pairs == all then crlf else mixed

unfoldable pub to_lf : Text → Text
unfolding split
to_lf s = join lf_text (split crlf_text s)

unfoldable pub from_lf : Text → Eol → Text
unfolding split
from_lf s crlf = join crlf_text (split lf_text s)
from_lf s lf = s
from_lf s mixed = s

abbrev pub bom_text : Text
bom_text = 0xfeff ∷ []

-- The byte order mark, if there is one, and the text behind it.
unfoldable pub split_bom : Text → Text × Text
split_bom [] = ([], [])
split_bom (c ∷ cs) = if c == 0xfeff then (bom_text, cs) else ([], c ∷ cs)

abbrev pub any_nul : List ℕ → Bool
any_nul [] = false
any_nul (b ∷ bs) = if b == 0 then true else any_nul bs

unfoldable pub has_nul_prefix : List ℕ → Bool
has_nul_prefix raw = any_nul (take (min (length raw) binary_scan_prefix_bytes) raw)

-- The place of the first occurrence.
unfoldable pub find : Text → Text → Option ℕ
find needle [] = if starts_with needle [] then some 0 else none
find needle (c ∷ cs) =
    let later = Option.map suc (find needle cs) in
    if starts_with needle (c ∷ cs) then some 0 else later

-- `hay.indexOf(needle, at)` with `at` inside of the text.
unfoldable pub index_of : Text → Text → ℕ → Option ℕ
unfolding find
index_of hay needle at = Option.map (λ i. at + i) (find needle (drop at hay))

-- The loop of `countOccurrences` from `at` on, in at most `fuel` turns.
unfoldable pub count_from : ℕ → Text → Text → ℕ → ℕ
count_from zero hay needle at = 0
count_from (suc fuel) hay needle at = elim (index_of hay needle at) [
  | none ↦ 0
  | some i ↦ 1 + count_from fuel hay needle (i + length needle)
]

-- Each turn passes an occurrence, which is not empty: there are no more turns than code units, and
-- one that finds none.
unfoldable pub count_occurrences : Text → Text → ℕ
unfolding count_from
count_occurrences hay needle = count_from (suc (length hay)) hay needle 0

unfoldable pub replace_from : ℕ → Text → Text → Text → Text → ℕ → Text
replace_from zero hay needle repl out at = out
replace_from (suc fuel) hay needle repl out at = elim (index_of hay needle at) [
  | none ↦ out ++ drop at hay
  | some i ↦ replace_from fuel hay needle repl (out ++ (slice hay at i ++ repl)) (i + length needle)
]

unfoldable pub replace_all_literal : Text → Text → Text → Text
unfolding replace_from
replace_all_literal hay needle repl = replace_from (suc (length hay)) hay needle repl [] 0
