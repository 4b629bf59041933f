-- ===== src/Argv.antt =====
-- broker/src/argv.ts: an argv array as one command line, quoted for the runner's shell.
pub mod Posix
pub mod Pwsh
pub mod Check
mod Tests
use gha_mcp_host.Prelude.{
  ℕ, ◌+◌, List, [], ◌∷◌, ◌++◌, map, Bool, true, false, Option, none, some, ltb, leb, if◌then◌else◌,
  length, take, not,
}
use gha_mcp_host.Config.{Platform, linux, macos, windows}
use gha_mcp_host.Text.{Text, codes, join, replace_char, has_ink, includes}

abbrev pub argv_max_items : ℕ
argv_max_items = 512

abbrev pub argv_max_chars : ℕ
argv_max_chars = 131_072

abbrev pub quote : ℕ
quote = 39

pub posix_quote : Text → Text
posix_quote s = quote ∷ (replace_char quote (codes "'\\''") s ++ (quote ∷ []))

pub pwsh_quote : Text → Text
pwsh_quote s = quote ∷ (replace_char quote (codes "''") s ++ (quote ∷ []))

pub render_argv : Platform → List Text → Text
unfolding posix_quote pwsh_quote
render_argv windows argv = codes "& " ++ join (codes " ") (map pwsh_quote argv)
render_argv linux argv = join (codes " ") (map posix_quote argv)
render_argv macos argv = join (codes " ") (map posix_quote argv)

shorten : Text → Text
shorten text = if ltb 64 (length text) then take 61 text ++ codes "..." else text

pub describe_argv : List Text → Text
describe_argv argv = shorten (join (codes " ") argv)

-- The messages of `checkArgv`.
pub data ArgvError : Type 0 where
  empty_command no_program nul_byte : ArgvError
  too_many_items too_many_chars : ℕ → ArgvError

-- The loop over the elements, with the characters counted so far.
check_elements : ℕ → List Text → Option ArgvError
check_elements chars [] = if ltb argv_max_chars chars then some (too_many_chars chars) else none
check_elements chars (a ∷ argv) =
    if includes 0 a then some nul_byte else check_elements (chars + length a) argv

pub check_argv : List Text → Option ArgvError
unfolding check_elements
check_argv [] = some empty_command
check_argv (a ∷ argv) =
    if ltb argv_max_items (length (a ∷ argv))
    then some (too_many_items (length (a ∷ argv)))
    else if not (has_ink a)
    then some no_program
    else check_elements 0 (a ∷ argv)
