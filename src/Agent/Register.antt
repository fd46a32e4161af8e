-- ===== src/Agent/Register.antt =====
-- `_ensure_registered`, with `_advertised_endpoint_host`, `_compute_gguf_hash` and
-- `_detect_hardware`.
pub mod Laws
use prima_pool_client.Base.{
  Text, ℕ, ◌+◌, leb, ◌&&◌, Bool, true, false, not, Option, none, some, List, [], ◌∷◌, ◌++◌, codes,
  truthy, or_text, text_eq, if◌then◌else◌, Error, Result, ok, err, runtime_error, value_error, Exec,
  ◌>>=◌, ◌>>◌, pure, raise,
}
use prima_pool_client.Agent.State.{
  Agent, AgentState, self, on_world, set_state, attempt, save_state,
}
use prima_pool_client.Models.{Worker, WorkerState, status_value}
use prima_pool_client.Pool.{Pool, Payload, Keys}
use prima_pool_client.Prima.Hash.{Hasher, compute_gguf_sha256}
use prima_pool_client.Prima.Launcher.{resolve_model_path}
use prima_pool_client.System.{Os}

-- A value that a test takes for true: not `None` and not empty.
unfoldable pub present : Option Text → Option Text
present none = none
present (some []) = none
present (some (c ∷ s)) = some (c ∷ s)

-- The state without its registration.
unfoldable pub forget_worker : AgentState → AgentState
forget_worker s = record s {
  worker_id = none;
  cluster_id = none;
  assigned_ip = none;
  ring_position = none;
  status = codes "registered";
  endpoint_host = [];
}

-- The state with a registration under an advertised host.
unfoldable pub adopt_worker : Worker → Text → AgentState → AgentState
unfolding status_value
adopt_worker w host s = record s {
  worker_id = some w.worker_id;
  account_id = some w.account_id;
  status = status_value w.status;
  online = w.online;
  model = w.model;
  endpoint_host = host;
}

abbrev pub no_model_file : Text → Error
no_model_file path =
    runtime_error (codes "model file not found at " ++ (path ++ codes "; cannot compute GGUF hash"))

-- Blocks of 1 << 20 bytes.
abbrev pub chunk_size : ℕ
chunk_size = 1_048_576

-- `str.lower()` of an ASCII text.
unfoldable pub lower : Text → Text
lower [] = []
lower (c ∷ s) = (if leb 65 c && leb c 90 then c + 32 else c) ∷ lower s

module _ {W : Type 0} (os : Os W) (pool : Pool W) (keys : Keys W) (hasher : Hasher)
    (dumps : AgentState → Text) where
  -- `_detect_host`
  unfoldable pub detect_host : W → Text
  detect_host w = elim (os.host_address w) [ none ↦ codes "127.0.0.1" | some a ↦ a ]

  -- `_advertised_endpoint_host`
  unfoldable pub advertised_endpoint_host : Agent W → Text
  unfolding detect_host or_text
  advertised_endpoint_host m = or_text m.config.wg_endpoint_host (detect_host m.prima.world)

  -- The loop has enough fuel, so the first clause is never reached.
  unfoldable pub hashed : Option Text → Exec (Agent W) Text
  hashed none = raise (value_error (codes "the digest is not finished"))
  hashed (some h) = pure h

  -- `_compute_gguf_hash`
  unfoldable pub compute_gguf_hash : Exec (Agent W) Text
  unfolding hashed
  compute_gguf_hash = do
    m ← self
    let path = resolve_model_path os m.config
    if not (os.exists path m.prima.world) then raise (no_model_file path) else do
      content ← on_world (os.read_bytes path)
      hashed (compute_gguf_sha256 hasher chunk_size content)

  unfoldable pub fresh_keys : Exec (Agent W) Unit
  fresh_keys = do
    pair ← on_world (λ w. let (p, w') = keys.generate_keypair w in (ok p, w'))
    set_state (λ s. record s { wg_private_key = pair.0; wg_public_key = pair.1 })

  unfoldable pub derived_key : Option Text → Exec (Agent W) Unit
  derived_key none = raise (value_error (codes "not a private key"))
  derived_key (some public) = set_state (λ s. record s { wg_public_key = public })

  -- A key pair is generated if there is none; else the public key is derived anew.
  unfoldable pub ensure_keys : Exec (Agent W) Unit
  unfolding truthy fresh_keys derived_key
  ensure_keys = do
    m ← self
    if not (truthy m.state.wg_private_key)
        then fresh_keys
        else derived_key (keys.derive_public_key m.state.wg_private_key)

  unfoldable pub payload_of : Agent W → Text → Payload
  unfolding lower
  payload_of m gguf_sha256 = record {
    model = m.config.model;
    gguf_sha256 = gguf_sha256;
    memory_allocated_mb = m.config.memory_allocated_mb;
    wg_pubkey = m.state.wg_public_key;
    host = advertised_endpoint_host m;
    port = m.config.wg_listen_port;
    behind_nat = false;
    nat_type = codes "unknown";
    cpu = present (os.processor m.prima.world);
    os_name = lower (os.system_name m.prima.world);
  }

  unfoldable pub send_registration : Text → Exec (Agent W) Worker
  unfolding payload_of
  send_registration gguf_sha256 = do
    m ← self
    on_world (pool.register_worker (payload_of m gguf_sha256))

  unfoldable pub adopt : Worker → Exec (Agent W) Unit
  adopt w = do m ← self; set_state (adopt_worker w (advertised_endpoint_host m))

  -- The part of `_ensure_registered` from the keys on.
  unfoldable pub register : Exec (Agent W) Unit
  unfolding ensure_keys compute_gguf_hash send_registration adopt adopt_worker save_state
  register = do
    ensure_keys
    gguf_sha256 ← compute_gguf_hash
    worker ← send_registration gguf_sha256
    adopt worker
    save_state os dumps

  unfoldable pub after_check : Result WorkerState → Exec (Agent W) Unit
  after_check (ok st) = pure tt
  after_check (err e) = do set_state forget_worker; register

  -- With a worker identity: it is kept if the advertised host is the registered one and the pool
  -- still knows the worker.
  unfoldable pub check_worker : Text → Exec (Agent W) Unit
  unfolding after_check
  check_worker worker_id = do
    m ← self
    if not (text_eq m.state.endpoint_host (advertised_endpoint_host m))
        then (do set_state forget_worker; register)
        else (do
          checked ← attempt (on_world (pool.get_worker_state worker_id))
          after_check checked)

  unfoldable pub ensure_worker : Option Text → Exec (Agent W) Unit
  unfolding check_worker
  ensure_worker none = register
  ensure_worker (some worker_id) = check_worker worker_id

  unfoldable pub ensure_registered : Exec (Agent W) Unit
  unfolding ensure_worker forget_worker present
  ensure_registered = do m ← self; ensure_worker (present m.state.worker_id)
