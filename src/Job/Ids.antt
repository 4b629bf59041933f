-- ===== src/Job/Ids.antt =====
-- newEnvId and platformOf of broker/src/tools-shared.ts.
use gha_mcp_host.Prelude.{ℕ, ◌≡◌, refl, List}
use gha_mcp_host.Config.{Platform, linux, macos, windows}
use gha_mcp_host.Job.{new_env_id, starts_with, platform_of}

-- The platform of an environment is read back from the id that it was given, whatever the random
-- bytes are.
pub platform_of-new_env_id : (p : Platform) (raw : List ℕ) → platform_of (new_env_id p raw) ≡ p
unfolding platform_of new_env_id starts_with
platform_of-new_env_id linux raw = refl
platform_of-new_env_id macos raw = refl
platform_of-new_env_id windows raw = refl
