-- ===== src/Agent/Keeps/Parts.antt =====
-- The methods that only call the machine, the control plane and the launcher, save the state or
-- set the tasks, the process and the cadence keep each predicate that does not read these.
use prima_pool_client.Base.{Text, ℕ, Bool, Option, none, some, List, [], ◌∷◌, Exec, ◌>>=◌, modify}
use prima_pool_client.Base.Dict.{Dict}
use prima_pool_client.Agent.Cluster.{
  node_started, launch_node, report_ready, wg_up, wg_down, wg_is_up,
}
use prima_pool_client.Agent.Frames.{
  set_cadence, beat_worker, beat, stop_process, stop_prima, cancel_tasks, frame_cluster,
  heartbeat_once,
}
use prima_pool_client.Agent.Keeps.{Keeps, keeps_rules}
use prima_pool_client.Agent.Relay.{
  route, route_changed, check_peers, relay_round, run_task, turn_of, relay_turn,
}
use prima_pool_client.Agent.State.{
  RelayTask, StdoutTask, Agent, AgentState, self, on_world, on_prima, save_state, set_state,
}
use prima_pool_client.Config.{ClientConfig}
use prima_pool_client.Models.{ClusterConfig}
use prima_pool_client.Pool.{Pool}
use prima_pool_client.Prima.Launcher.{Launcher}
use prima_pool_client.System.{Os}

-- What such a predicate does not read.
pub record Blind {W : Type 0} (P : Agent W → Type 0) : Type 0 where
  pub to_prima : (m : Agent W) (l : Launcher W) → P m → P (record m { prima = l })
  pub to_stamp :
      (m : Agent W) (t : ℕ) → P m → P (record m { state = record m.state { updated_at = t } })
  pub to_status :
      (m : Agent W) (online : Bool) (status : Text)
      → P m
      → P (record m { state = record m.state { online = online; status = status } })
  pub to_process : (m : Agent W) (pid : Option ℕ) → P m → P (record m { prima_proc = pid })
  pub to_relay : (m : Agent W) (task : Option RelayTask) → P m → P (record m { relay_task = task })
  pub to_stdout :
      (m : Agent W) (task : Option StdoutTask) → P m → P (record m { stdout_task = task })
  pub to_config : (m : Agent W) (config : ClientConfig) → P m → P (record m { config = config })

module _ {W : Type 0} {P : Agent W → Type 0} where
  pub Keeps-self-bind :
      {A : Type 0} (f : Agent W → Exec (Agent W) A)
      → ((n : Agent W) → Keeps P (f n))
      → Keeps P (◌>>=◌ self f)
  Keeps-self-bind f h = record { at = λ m k. (h m).at m k }

  pub Keeps-modify : (f : Agent W → Agent W) → ((m : Agent W) → P m → P (f m)) → Keeps P (modify f)
  Keeps-modify f h = record { at = h }

  pub Keeps-on_world : {A : Type 0} (call : Exec W A) → Blind P → Keeps P (on_world call)
  Keeps-on_world call b = record { at = λ m h. b.to_prima m _ h }

  pub Keeps-on_prima : {A : Type 0} (call : Exec (Launcher W) A) → Blind P → Keeps P (on_prima call)
  Keeps-on_prima call b = record { at = λ m h. b.to_prima m _ h }

  pub Keeps-modify_status :
      (online : Bool) (status : Text)
      → Blind P
      → Keeps P (set_state (λ s. record s { online = online; status = status }))
  Keeps-modify_status online status b = record { at = λ m h. b.to_status m online status h }

  Keeps-modify_stamp : (t : ℕ) → Blind P → Keeps P (set_state (λ s. record s { updated_at = t }))
  Keeps-modify_stamp t b = record { at = λ m h. b.to_stamp m t h }

pub ruleset part_rules = (keeps_rules, Keeps-self-bind, Keeps-on_world, Keeps-on_prima)

module _ {W : Type 0} {P : Agent W → Type 0} (b : Blind P) (os : Os W) (pool : Pool W)
    (dumps : AgentState → Text) where
  pub Keeps-save_state : Keeps P (save_state os dumps)
  unfolding save_state
  Keeps-save_state = search (part_rules, Keeps-modify_stamp)

  pub Keeps-report_ready :
      (cluster_id : Text) (layer_windows : Option (Dict ℕ))
      → Keeps P (report_ready os pool dumps cluster_id layer_windows)
  unfolding report_ready
  Keeps-report_ready cluster_id layer_windows = search part_rules

  pub Keeps-wg_down : Keeps P (wg_down os pool dumps)
  unfolding wg_down
  Keeps-wg_down = search part_rules

  pub Keeps-wg_up : (config : ClusterConfig) → Keeps P (wg_up os pool dumps config)
  unfolding wg_up
  Keeps-wg_up config = search part_rules

  pub Keeps-wg_is_up : Keeps P (wg_is_up os pool dumps)
  unfolding wg_is_up
  Keeps-wg_is_up = search part_rules

  pub Keeps-launch_node :
      (config : ClusterConfig) (i : ℕ) → Keeps P (launch_node os pool dumps config i)
  unfolding launch_node
  Keeps-launch_node config i = search part_rules

  pub Keeps-node_started :
      (config : ClusterConfig) (cluster_id : Text) (i pid : ℕ)
      → Keeps P (node_started os pool dumps config cluster_id i pid)
  unfolding node_started
  Keeps-node_started config cluster_id i pid =
      search (part_rules, Keeps-report_ready, Keeps-modify, b.to_process, b.to_stdout)

  Keeps-stop_process : (o : Option ℕ) → Keeps P (stop_process os pool dumps o)
  unfolding stop_process
  Keeps-stop_process none = search part_rules
  Keeps-stop_process (some pid) = search (part_rules, Keeps-modify, b.to_process)

  pub Keeps-stop_prima : Keeps P (stop_prima os pool dumps)
  unfolding stop_prima
  Keeps-stop_prima = search (part_rules, Keeps-stop_process)

  pub Keeps-cancel_tasks : Keeps P (cancel_tasks os pool dumps)
  unfolding cancel_tasks
  Keeps-cancel_tasks = record { at = λ m h. b.to_stdout _ none (b.to_relay m none h) }

  pub Keeps-set_cadence : (o : Option ℕ) → Keeps P (set_cadence os pool dumps o)
  unfolding set_cadence
  Keeps-set_cadence none = search part_rules
  Keeps-set_cadence (some s) = record { at = λ m h. b.to_config m _ h }

  pub Keeps-frame_cluster : (o : Option Text) → Keeps P (frame_cluster os pool dumps o)
  unfolding frame_cluster
  Keeps-frame_cluster none = search part_rules
  Keeps-frame_cluster (some cluster_id) = search part_rules

  Keeps-beat_worker : (o : Option Text) → Keeps P (beat_worker os pool dumps o)
  unfolding beat_worker beat
  Keeps-beat_worker none = search part_rules
  Keeps-beat_worker (some worker_id) =
      search (part_rules, Keeps-save_state, Keeps-modify_status) depth 7

  pub Keeps-heartbeat_once : Keeps P (heartbeat_once os pool dumps)
  unfolding heartbeat_once
  Keeps-heartbeat_once = search (part_rules, Keeps-beat_worker)

  Keeps-route :
      (config : ClusterConfig) (ips : List Text) → Keeps P (route os pool dumps config ips)
  unfolding route
  Keeps-route config [] = search part_rules
  Keeps-route config (ip ∷ ips) = search part_rules

  Keeps-relay_round :
      (config : ClusterConfig) (ips : List Text) → Keeps P (relay_round os pool dumps config ips)
  unfolding relay_round check_peers route_changed
  Keeps-relay_round config ips = search (part_rules, Keeps-wg_is_up, Keeps-route) depth 9

  Keeps-turn_of :
      (o : Option RelayTask) (stopped : Bool) → Keeps P (turn_of os pool dumps o stopped)
  unfolding turn_of run_task
  Keeps-turn_of none stopped = search part_rules
  Keeps-turn_of (some task) stopped =
      search (part_rules, Keeps-relay_round, Keeps-modify, b.to_relay) depth 9

  pub Keeps-relay_turn : Keeps P (relay_turn os pool dumps)
  unfolding relay_turn
  Keeps-relay_turn = search (part_rules, Keeps-turn_of)
