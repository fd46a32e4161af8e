-- ===== src/Config.antt =====
-- The client's configuration: src/prima_pool_client/config.py.
pub mod Load
use prima_pool_client.Base.{Text, ℕ, List}

-- The fields of `ClientConfig` that the modelled code reads. Durations are in milliseconds.
pub record ClientConfig : Type 0 where
  pub pool_url : Text
  pub api_key : Text
  pub model : Text
  pub memory_allocated_mb : ℕ
  pub wg_private_key : Text
  pub wg_listen_port : ℕ
  pub wg_interface : Text
  pub wg_conf_dir : Text
  pub wg_endpoint_host : Text
  pub wg_relay_check_s : ℕ
  pub prima_mode : Text
  pub prima_dir : Text
  pub model_file : Text
  pub model_path : Text
  pub mem_limit : Text
  pub gpu_mem_flag : Text
  pub ctx_size : ℕ
  pub api_port : ℕ
  pub batch_flags : Text
  pub extra_flags : Text
  pub prima_ready_timeout_s : ℕ
  pub heartbeat_interval_s : ℕ
  pub ws_reconnect_backoff_s : List ℕ
  pub state_path : Text
