-- ===== src/EnvDo/Warnings/Tests.antt =====
-- Concrete warnings, and the theorem at such an input.
use gha_mcp_host.Prelude.{◌≡◌, refl, [], ◌∷◌, none, some}
use gha_mcp_host.Text.{codes}
use gha_mcp_host.EnvDo.Warnings.{single, has, unique, merge_warnings}
use gha_mcp_host.EnvDo.Warnings.Bounds.{IsStorable, merge_warnings-IsStorable}

-- A known warning adds nothing.
nothing_new : unique [] (codes "a" ∷ codes "b" ∷ codes "a" ∷ []) ≡ codes "a" ∷ codes "b" ∷ []
unfolding has unique
nothing_new = refl

merge_warnings-IsStorable_example :
    IsStorable (merge_warnings (some (codes "a" ∷ [])) (single (codes "b")) (some (codes "a")) none)
merge_warnings-IsStorable_example =
    merge_warnings-IsStorable (some (codes "a" ∷ [])) (single (codes "b")) (some (codes "a")) none
