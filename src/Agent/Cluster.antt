-- ===== src/Agent/Cluster.antt =====
-- `_bring_up_cluster`, `_find_ring_position`, `_render_wg_conf` and `_report_ready`.
pub mod Ends
pub mod Outcome
pub mod Position
pub mod Tasks
use prima_pool_client.Base.{
  Text, ℕ, suc, ◌==◌, Bool, false, ◌&&◌, ◌||◌, Option, none, some, List, [], ◌∷◌, codes, truthy,
  text_eq, if◌then◌else◌, Result, ok, err, Exec, ◌>>=◌, ◌>>◌, pure, modify,
}
use prima_pool_client.Base.Dict.{Dict}
use prima_pool_client.Agent.State.{
  Agent, AgentState, RelayTask, StdoutTask, self, on_world, on_prima, set_state, attempt,
  save_state,
}
use prima_pool_client.Models.{PeerConfig, ClusterConfig}
use prima_pool_client.Pool.{Pool}
use prima_pool_client.Prima.Launcher
use prima_pool_client.Ring.{ring_members, host_of}
use prima_pool_client.System.{Os}
use prima_pool_client.WireGuard.Conf.{render_wg_conf, has_relay}
use prima_pool_client.WireGuard.Manager

-- Whether one of a peer's addresses is ours; no address equals a missing one.
unfoldable pub owns_ip : Option Text → List Text → Bool
unfolding host_of
owns_ip none ips = false
owns_ip (some ip) [] = false
owns_ip (some ip) (allowed ∷ ips) = text_eq (host_of allowed) ip || owns_ip (some ip) ips

-- The first member from index `i` on that owns the address, or 0.
unfoldable pub position_from : Option Text → ℕ → List PeerConfig → ℕ
unfolding owns_ip
position_from ip i [] = 0
position_from ip i (p ∷ ps) =
    let rest = position_from ip (suc i) ps in if owns_ip ip p.allowed_ips then i else rest

-- `_find_ring_position`
unfoldable pub find_ring_position : Option Text → ClusterConfig → ℕ
unfolding position_from
find_ring_position assigned_ip config = position_from assigned_ip 0 (ring_members config)

-- The persisted position, or else the one found in the configuration.
unfoldable pub ring_position_of : AgentState → ClusterConfig → ℕ
ring_position_of s config = elim s.ring_position [
  | some i ↦ i
  | none ↦ find_ring_position s.assigned_ip config
]

-- `if config.relay.enabled and config.relay.pubkey and config.relay.endpoint`
unfoldable pub relay_usable : ClusterConfig → Bool
unfolding has_relay
relay_usable config = has_relay config.relay && truthy config.relay.endpoint

-- A task is started if there is none, or it has ended.
unfoldable pub next_relay_task : ClusterConfig → Option RelayTask → Option RelayTask
unfolding relay_usable
next_relay_task config old =
    if relay_usable config
    then elim old [
      | none ↦ some (record { config = config; relayed_ips = []; is_done = false })
      | some task ↦
          if task.is_done
          then some (record { config = config; relayed_ips = []; is_done = false })
          else some task
    ]
    else old

unfoldable pub next_stdout_task : ClusterConfig → Text → Option StdoutTask → Option StdoutTask
next_stdout_task config cluster_id none =
    some (record { config = config; cluster_id = cluster_id; is_done = false })
next_stdout_task config cluster_id (some task) =
    if task.is_done
    then some (record { config = config; cluster_id = cluster_id; is_done = false })
    else some task

-- The state of a worker that waits for a cluster.
unfoldable pub leave_cluster : AgentState → AgentState
leave_cluster s = record s {
  cluster_id = none;
  assigned_ip = none;
  ring_position = none;
  status = codes "waitlisted";
}

module _ {W : Type 0} (os : Os W) (pool : Pool W) (dumps : AgentState → Text) where
  -- `_report_ready`: a failure is only logged.
  unfoldable pub report_ready : Text → Option (Dict ℕ) → Exec (Agent W) Unit
  report_ready cluster_id layer_windows = do
    status ← attempt (on_world (pool.report_ready cluster_id layer_windows))
    pure tt

  unfoldable pub wg_up : ClusterConfig → Exec (Agent W) Unit
  wg_up config = do
    m ← self
    on_world (
        Manager.up os m.config m.wg
          (render_wg_conf config m.state.wg_private_key m.config.wg_listen_port))

  unfoldable pub wg_down : Exec (Agent W) Unit
  wg_down = do m ← self; on_world (Manager.down os m.config m.wg)

  unfoldable pub wg_is_up : Exec (Agent W) Bool
  wg_is_up = do m ← self; on_world (Manager.is_up os m.config m.wg)

  unfoldable pub launch_node : ClusterConfig → ℕ → Exec (Agent W) ℕ
  launch_node config ring_position = do
    m ← self
    on_prima (Launcher.launch os m.config config ring_position)

  -- The process is there: the head waits for its output, any other position is ready.
  unfoldable pub node_started : ClusterConfig → Text → ℕ → ℕ → Exec (Agent W) Unit
  unfolding report_ready next_stdout_task
  node_started config cluster_id ring_position pid = do
    modify (λ m. record m { prima_proc = some pid })
    if ring_position == 0
        then modify
            (λ m. record m { stdout_task = next_stdout_task config cluster_id m.stdout_task })
        else report_ready cluster_id none

  -- The launch failed: the tunnel goes down and the worker waits again.
  unfoldable pub launch_failed : Exec (Agent W) Unit
  unfolding wg_down leave_cluster save_state
  launch_failed = do
    wg_down
    modify (λ m. record m { cluster_config = none; state = leave_cluster m.state })
    save_state os dumps

  unfoldable pub after_launch : ClusterConfig → Text → ℕ → Result ℕ → Exec (Agent W) Unit
  unfolding node_started launch_failed
  after_launch config cluster_id ring_position (ok pid) =
      node_started config cluster_id ring_position pid
  after_launch config cluster_id ring_position (err e) = launch_failed

  unfoldable pub tunnel_ready : ClusterConfig → Exec (Agent W) Unit
  unfolding next_relay_task
  tunnel_ready config = modify (λ m. record m {
    cluster_config = some config;
    relay_task = next_relay_task config m.relay_task;
  })

  unfoldable pub with_config : Text → Result ClusterConfig → Exec (Agent W) Unit
  unfolding wg_up tunnel_ready launch_node after_launch ring_position_of
  with_config cluster_id (err e) = pure tt
  with_config cluster_id (ok config) = do
    m ← self
    let ring_position = ring_position_of m.state config
    set_state (λ s. record s { ring_position = some ring_position })
    wg_up config
    tunnel_ready config
    launched ← attempt (launch_node config ring_position)
    after_launch config cluster_id ring_position launched

  unfoldable pub bring_up_cluster : Text → Exec (Agent W) Unit
  unfolding with_config
  bring_up_cluster cluster_id = do
    config ← attempt (on_world (pool.get_cluster_config cluster_id))
    with_config cluster_id config
