-- ===== src/Diff/Tests.antt =====
-- Diffs of concrete texts, and the theorem at such an input.
use gha_mcp_host.Prelude.{◌+◌, ◌≡◌, refl, List, [], ◌∷◌, some, length}
use gha_mcp_host.Text.{Text, codes}
use gha_mcp_host.Diff.{
  context, minus, plus, drop_last_empty, split_lines, fill, table, walk, lcs_ops, common_head,
  common_tail, count_added, count_removed, script,
}
use gha_mcp_host.Diff.Faithful.{IsEdit, script-IsEdit}

abbrev old_text : List Text
old_text = codes "a" ∷ codes "b" ∷ codes "c" ∷ []

abbrev new_text : List Text
new_text = codes "a" ∷ codes "x" ∷ codes "c" ∷ []

-- A trailing newline starts no line.
drop_last_empty_runs : drop_last_empty (codes "a" ∷ [] ∷ []) ≡ codes "a" ∷ []
unfolding drop_last_empty
drop_last_empty_runs = refl

split_lines_runs : split_lines [] ≡ []
unfolding split_lines
split_lines_runs = refl

-- The table holds the lengths of the longest common subsequences of the suffixes.
table_runs :
    table (codes "b" ∷ []) (codes "x" ∷ codes "b" ∷ []) ≡ (1 ∷ 1 ∷ 0 ∷ []) ∷ (0 ∷ 0 ∷ 0 ∷ []) ∷ []
unfolding table fill
table_runs = refl

script_runs :
    (script old_text new_text).full
    ≡ some (context (codes "a") ∷ minus (codes "b") ∷ plus (codes "x") ∷ context (codes "c") ∷ [])
unfolding script common_tail common_head lcs_ops walk table fill count_added count_removed
script_runs = refl

script-IsEdit_example :
    let s = script old_text new_text in
    IsEdit old_text new_text s.full × (s.removed + length new_text ≡ s.added + length old_text)
script-IsEdit_example = script-IsEdit old_text new_text
