-- ===== src/Argv/Tests.antt =====
-- Renderings of concrete arrays, and the theorems at such inputs.
use gha_mcp_host.Prelude.{◌≡◌, List, [], ◌∷◌, some, arith}
use gha_mcp_host.Config.{linux, windows}
use gha_mcp_host.Text.{Text, codes}
use gha_mcp_host.Argv.{render_argv}
use gha_mcp_host.Argv.Posix.{sh_words, sh_words-render_argv}
use gha_mcp_host.Argv.Pwsh.{ps_words, ps_words-render_argv}

abbrev argv : List Text
argv = codes "echo" ∷ codes "it's $HOME" ∷ [] ∷ []

sh_words-render_argv_example : sh_words (render_argv linux argv) ≡ some argv
sh_words-render_argv_example = sh_words-render_argv linux argv (λ e. cc)

ps_words-render_argv_example : ps_words (render_argv windows argv) ≡ some argv
ps_words-render_argv_example = ps_words-render_argv argv (ground arith)
