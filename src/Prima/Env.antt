-- ===== src/Prima/Env.antt =====
-- `build_env`: the variables of a prima.cpp node.
pub mod Laws
use prima_pool_client.Base.{
  Text, ℕ, Bool, ◌==◌, not, [], ◌∷◌, codes, truthy, if◌then◌else◌, Result, ok, err, length,
}
use prima_pool_client.Base.Decimal.{str}
use prima_pool_client.Base.Dict.{Dict}
use prima_pool_client.Config.{ClientConfig}
use prima_pool_client.Models.{ClusterConfig}
use prima_pool_client.Ring.{ring_members, ring_neighbors}

unfoldable pub mode : Bool → Text
mode is_head = if is_head then codes "llama-server" else codes "llama-cli"

unfoldable pub compose_profiles : Text → Bool → Text
compose_profiles gpu_mem_flag is_head =
    if not (truthy gpu_mem_flag)
    then (if is_head then codes "server-cpu" else codes "cpu")
    else if is_head
    then codes "server"
    else codes "gpu"

unfoldable pub build_env : ClientConfig → ℕ → ℕ → Text → Text → Dict Text
unfolding mode compose_profiles
build_env config ring_position world master_ip next_ip =
    let is_head = ring_position == 0 in
    (codes "RANK", str ring_position)
    ∷ (codes "WORLD", str world)
    ∷ (codes "MASTER_IP", master_ip)
    ∷ (codes "NEXT_IP", next_ip)
    ∷ (codes "MODEL_FILE", config.model_file)
    ∷ (codes "MEM_LIMIT", config.mem_limit)
    ∷ (codes "GPU_MEM_FLAG", config.gpu_mem_flag)
    ∷ (codes "CTX_SIZE", str config.ctx_size)
    ∷ (codes "API_PORT", str config.api_port)
    ∷ (codes "BATCH_FLAGS", config.batch_flags)
    ∷ (codes "EXTRA_FLAGS", config.extra_flags)
    ∷ (codes "MODE", mode is_head)
    ∷ (codes "COMPOSE_PROFILES", compose_profiles config.gpu_mem_flag is_head)
    ∷ []

env_of : ClientConfig → ClusterConfig → ℕ → Result (Text × Text) → Result (Dict Text)
env_of config cluster ring_position (err e) = err e
env_of config cluster ring_position (ok (master_ip, next_ip)) =
    ok (build_env config ring_position (length (ring_members cluster)) master_ip next_ip)

-- The environment of a node of a cluster, as `launch` builds it.
unfoldable pub launch_env : ClientConfig → ClusterConfig → ℕ → Result (Dict Text)
unfolding env_of
launch_env config cluster ring_position =
    env_of config cluster ring_position (ring_neighbors cluster ring_position)
