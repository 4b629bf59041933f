-- ===== src/EnvTools/Tests.antt =====
-- Creations, waits and destructions of concrete environments, and the theorems at such inputs.
use gha_mcp_host.Prelude.{◌≡◌, refl, [], none, some}
use gha_mcp_host.Text.{Text, codes}
use gha_mcp_host.EnvSchema.{destroying}
use gha_mcp_host.Guard.{Guard}
use gha_mcp_host.EnvDo.Lifecycle.{extend}
use gha_mcp_host.EnvDo.Samples.{no_env, working}
use gha_mcp_host.Github.{missing, Response}
use gha_mcp_host.EnvTools.{CreateConfig, CreateArgs, Meets, env_create, env_destroy, env_extend}
use gha_mcp_host.EnvTools.Create.{IsCreated, env_create-IsCreated, Latches, env_create-Latches}
use gha_mcp_host.EnvTools.Destroy.{Says, env_destroy_lem}

abbrev cfg : CreateConfig
cfg = record { default_ttl_minutes = 60; max_ttl_minutes = 330; max_env_creates_per_hour = 10 }

abbrev args : CreateArgs
args = record { platform = "linux"; ttl_minutes = none; label = none }

abbrev same : Text → Text
same s = s

abbrev suspension : Response
suspension = record { status = 403; text = codes "suspended"; json = none; retry_after = missing }

abbrev meets : Meets
meets = record {
  env_id = "linux-0";
  response = some suspension;
  reason_of = λ f. "reason";
  message_of = λ f. "message";
  deleted_at = 5;
  granted_at = 6;
  created_at = 7;
  leased_at = 8;
  tripped_at = 9;
}

abbrev fresh : Guard
fresh = record { creates = []; tripped = none }

env_create-IsCreated_example :
    IsCreated same cfg meets fresh no_env (env_create same cfg args meets fresh no_env)
env_create-IsCreated_example = env_create-IsCreated same cfg args meets fresh no_env

env_create-Latches_example :
    let (g', e', answer) = env_create same cfg args meets fresh no_env in
    Latches same cfg args meets g' no_env answer
env_create-Latches_example = env_create-Latches same cfg args args meets meets fresh no_env no_env

env_destroy_lem_example :
    let (e', d) = env_destroy working (some suspension) in
    (e'.meta.state ≡ some destroying) × Says (some suspension) (some "7") d
env_destroy_lem_example = env_destroy_lem working (some suspension)

extend_runs : env_extend cfg working none 5 ≡ extend working 30 330 5
unfolding env_extend
extend_runs = refl
