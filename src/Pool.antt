-- ===== src/Pool.antt =====
-- What the agent calls at the control plane and of its key pairs: the typed operations of
-- `PoolClient` (src/prima_pool_client/rest.py) and the two functions of
-- src/prima_pool_client/wireguard.py, over an unknown state `W` of the machine and the network.
use prima_pool_client.Base.{Text, ℕ, Bool, Option, Exec}
use prima_pool_client.Base.Dict.{Dict}
use prima_pool_client.Models.{Worker, WorkerState, ClusterConfig, ClusterStatusResponse}

-- The body of a registration (`payload` of `_ensure_registered`).
pub record Payload : Type 0 where
  pub model : Text
  pub gguf_sha256 : Text
  pub memory_allocated_mb : ℕ
  pub wg_pubkey : Text
  pub host : Text
  pub port : ℕ
  pub behind_nat : Bool
  pub nat_type : Text
  pub cpu : Option Text
  pub os_name : Text

pub record Pool (W : Type 0) : Type 0 where
  pub register_worker : Payload → Exec W Worker
  pub get_worker_state : Text → Exec W WorkerState
  pub heartbeat : Text → Exec W Worker
  pub get_cluster_config : Text → Exec W ClusterConfig
  pub report_ready : Text → Option (Dict ℕ) → Exec W ClusterStatusResponse
  pub close : W → W

-- `generate_keypair` and `derive_public_key`, which has no value where the text is no private key,
-- and raises there.
pub record Keys (W : Type 0) : Type 0 where
  pub generate_keypair : W → (Text × Text) × W
  pub derive_public_key : Text → Option Text
