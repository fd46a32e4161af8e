-- ===== src/Agent/Frames.antt =====
-- Frames of the WebSocket channel, the recovery at the start, heartbeats and the stop: `_on_frame`,
-- `_handle_assigned`, `_handle_dissolved`, `_recover_state`, `_heartbeat_once`, `stop`.
pub mod Ended
pub mod Laws
use prima_pool_client.Base.{
  Text, ℕ, Bool, true, false, not, Option, none, some, List, [], ◌∷◌, codes, text_eq, if◌then◌else◌,
  Result, ok, err, key_error, Exec, ◌>>=◌, ◌>>◌, pure, raise, modify, lift,
}
use prima_pool_client.Agent.Cluster.{bring_up_cluster, leave_cluster, wg_down, wg_is_up}
use prima_pool_client.Agent.Register.{present}
use prima_pool_client.Agent.State.{
  Agent, AgentState, self, on_world, on_prima, set_state, attempt, save_state,
}
use prima_pool_client.Models.{Worker, WorkerState, ClusterAssignment, status_value}
use prima_pool_client.Pool.{Pool}
use prima_pool_client.Prima.Launcher
use prima_pool_client.System.{Os}

-- A frame whose fields have their documented types, or are missing.
pub record Frame : Type 0 where
  pub type : Option Text
  pub heartbeat_s : Option ℕ
  pub cluster_id : Option Text
  pub assigned_ip : Option Text
  pub ring_position : Option ℕ
  pub config_url : Option Text

-- What `_handle_assigned` takes from a frame.
unfoldable pub assigned_state : Frame → Text → AgentState → AgentState
assigned_state frame cluster_id s = record s {
  cluster_id = some cluster_id;
  assigned_ip = frame.assigned_ip;
  ring_position = frame.ring_position;
  config_url = frame.config_url;
  status = codes "assigned";
}

-- What `_recover_state` takes from the control plane.
unfoldable pub recovered_status : WorkerState → AgentState → AgentState
unfolding status_value
recovered_status st s = record s { status = status_value st.status; online = st.online }

unfoldable pub recovered_cluster : ClusterAssignment → AgentState → AgentState
recovered_cluster c s = record s {
  cluster_id = some c.cluster_id;
  assigned_ip = some c.assigned_ip;
  config_url = some c.config_url;
}

unfoldable pub no_cluster : AgentState → AgentState
no_cluster s = record s { cluster_id = none; assigned_ip = none }

module _ {W : Type 0} where
  abbrev pub without_tasks : Agent W → Agent W
  without_tasks m = record m { relay_task = none; stdout_task = none }

  abbrev pub without_config : Agent W → Agent W
  without_config m = record m { cluster_config = none }

  abbrev pub as_stopped : Agent W → Agent W
  as_stopped m = record m { stopped = true }

  abbrev pub closed : Pool W → Agent W → Agent W
  closed pool m = record m { prima = record m.prima { world = pool.close m.prima.world } }

module _ {W : Type 0} (os : Os W) (pool : Pool W) (dumps : AgentState → Text) where
  -- `frame["cluster_id"]`
  unfoldable pub frame_cluster : Option Text → Exec (Agent W) Text
  frame_cluster none = raise (key_error (codes "cluster_id"))
  frame_cluster (some cluster_id) = pure cluster_id

  unfoldable pub handle_assigned : Frame → Exec (Agent W) Unit
  unfolding frame_cluster assigned_state save_state
  handle_assigned frame = do
    cluster_id ← frame_cluster frame.cluster_id
    set_state (assigned_state frame cluster_id)
    save_state os dumps
    bring_up_cluster os pool dumps cluster_id

  -- `if self._prima_proc: self.prima.stop(); self._prima_proc = None`
  unfoldable pub stop_process : Option ℕ → Exec (Agent W) Unit
  stop_process none = pure tt
  stop_process (some pid) = do
    m ← self
    on_prima (Launcher.stop os m.config)
    modify (λ n. record n { prima_proc = none })

  unfoldable pub stop_prima : Exec (Agent W) Unit
  unfolding stop_process
  stop_prima = do m ← self; stop_process m.prima_proc

  -- Both tasks are cancelled and forgotten.
  unfoldable pub cancel_tasks : Exec (Agent W) Unit
  cancel_tasks = modify without_tasks

  unfoldable pub handle_dissolved : Exec (Agent W) Unit
  unfolding cancel_tasks stop_prima leave_cluster wg_down save_state
  handle_dissolved = do
    cancel_tasks
    modify without_config
    wg_down os pool dumps
    stop_prima
    set_state leave_cluster
    save_state os dumps

  -- `if "heartbeat_s" in cadence`; the interval is in milliseconds.
  unfoldable pub set_cadence : Option ℕ → Exec (Agent W) Unit
  set_cadence none = pure tt
  set_cadence (some s) =
      modify (λ m. record m { config = record m.config { heartbeat_interval_s = s } })

  unfoldable pub on_type : Text → Frame → Exec (Agent W) Unit
  unfolding set_cadence
  on_type type frame =
      if text_eq type (codes "hello")
      then set_cadence frame.heartbeat_s
      else if text_eq type (codes "cluster_assigned")
      then handle_assigned frame
      else if text_eq type (codes "cluster_dissolved")
      then handle_dissolved
      else pure tt

  -- A missing type is none of those that are handled.
  unfoldable pub dispatch : Option Text → Frame → Exec (Agent W) Unit
  unfolding on_type
  dispatch none frame = pure tt
  dispatch (some type) frame = on_type type frame

  unfoldable pub on_frame : Frame → Exec (Agent W) Unit
  unfolding dispatch
  on_frame frame = dispatch frame.type frame

  unfoldable pub bring_up_unless : Text → Bool → Exec (Agent W) Unit
  bring_up_unless cluster_id up =
      if not up then bring_up_cluster os pool dumps cluster_id else pure tt

  unfoldable pub recover_cluster : Option ClusterAssignment → Exec (Agent W) Unit
  unfolding recovered_cluster no_cluster bring_up_unless
  recover_cluster none = set_state no_cluster
  recover_cluster (some c) = do
    set_state (recovered_cluster c)
    up ← wg_is_up os pool dumps
    bring_up_unless c.cluster_id up

  unfoldable pub recover_from : Result WorkerState → Exec (Agent W) Unit
  unfolding recovered_status recover_cluster save_state
  recover_from (err e) = pure tt
  recover_from (ok st) = do
    set_state (recovered_status st)
    recover_cluster st.cluster
    save_state os dumps

  unfoldable pub recover_worker : Option Text → Exec (Agent W) Unit
  unfolding recover_from
  recover_worker none = pure tt
  recover_worker (some worker_id) = do
    st ← attempt (on_world (pool.get_worker_state worker_id))
    recover_from st

  unfoldable pub recover_state : Exec (Agent W) Unit
  unfolding recover_worker present
  recover_state = do m ← self; recover_worker (present m.state.worker_id)

  unfoldable pub beat : Text → Exec (Agent W) Unit
  unfolding status_value save_state
  beat worker_id = do
    worker ← on_world (pool.heartbeat worker_id)
    set_state (λ s. record s { online = worker.online; status = status_value worker.status })
    save_state os dumps

  -- Every error of a heartbeat is only logged.
  unfoldable pub beat_worker : Option Text → Exec (Agent W) Unit
  unfolding beat
  beat_worker none = pure tt
  beat_worker (some worker_id) = do outcome ← attempt (beat worker_id); pure tt

  unfoldable pub heartbeat_once : Exec (Agent W) Unit
  unfolding beat_worker present
  heartbeat_once = do m ← self; beat_worker (present m.state.worker_id)

  -- `stop`: the WebSocket client is told to stop too.
  unfoldable pub stop : Exec (Agent W) Unit
  unfolding cancel_tasks stop_prima wg_down
  stop = do modify as_stopped; cancel_tasks; wg_down os pool dumps; stop_prima; modify (closed pool)
