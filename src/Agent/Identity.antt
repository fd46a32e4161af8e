-- ===== src/Agent/Identity.antt =====
-- No frame, heartbeat, relay turn or recovery changes who the worker is.
use prima_pool_client.Base.{
  Text, ℕ, ◌≡◌, refl, Option, none, some, Result, ok, err, List, [], ◌∷◌, Bool, true, false,
}
use prima_pool_client.Agent.Cluster.{
  bring_up_cluster, with_config, after_launch, launch_failed, tunnel_ready, leave_cluster,
}
use prima_pool_client.Agent.Events.{
  Event, frame_received, heartbeat_due, relay_due, stdout_ended, handle, run_events,
}
use prima_pool_client.Agent.Frames.{
  Frame, on_frame, dispatch, on_type, handle_assigned, handle_dissolved, recover_state,
  recover_worker, recover_from, recover_cluster, bring_up_unless,
}
use prima_pool_client.Agent.Keeps.{Keeps}
use prima_pool_client.Agent.Keeps.Parts.{
  Blind, part_rules, Keeps-modify, Keeps-save_state, Keeps-wg_down, Keeps-wg_up, Keeps-wg_is_up,
  Keeps-launch_node, Keeps-node_started, Keeps-stop_prima, Keeps-set_cadence, Keeps-frame_cluster,
  Keeps-heartbeat_once, Keeps-relay_turn,
}
use prima_pool_client.Agent.State.{Agent, AgentState}
use prima_pool_client.Models.{ClusterConfig, ClusterAssignment, WorkerState}
use prima_pool_client.Pool.{Pool}
use prima_pool_client.System.{Os}

-- Worker and account, key pair, and the host that was registered.
abbrev pub IsSameWorker : AgentState → AgentState → Type 0
IsSameWorker s t =
    (s.worker_id ≡ t.worker_id)
    × (s.account_id ≡ t.account_id)
    × (s.wg_private_key ≡ t.wg_private_key)
    × (s.wg_public_key ≡ t.wg_public_key)
    × (s.endpoint_host ≡ t.endpoint_host)

module _ {W : Type 0} (s : AgentState) where
  abbrev Same : Agent W → Type 0
  Same m = IsSameWorker m.state s

  Same-Blind : Blind Same
  Same-Blind = record {
    to_prima = λ m l h. h;
    to_stamp = λ m t h. h;
    to_status = λ m online status h. h;
    to_process = λ m pid h. h;
    to_relay = λ m task h. h;
    to_stdout = λ m task h. h;
    to_config = λ m config h. h;
  }

  ruleset same_rules =
      (part_rules, Same-Blind, Keeps-modify, Keeps-save_state, Keeps-wg_down, Keeps-wg_is_up)

  module _ (os : Os W) (pool : Pool W) (dumps : AgentState → Text) where
    Same-launch_failed : Keeps Same (launch_failed os pool dumps)
    unfolding launch_failed leave_cluster
    Same-launch_failed = search same_rules

    Same-after_launch :
        (config : ClusterConfig) (cluster_id : Text) (i : ℕ) (r : Result ℕ)
        → Keeps Same (after_launch os pool dumps config cluster_id i r)
    unfolding after_launch
    Same-after_launch config cluster_id i (ok pid) =
        Keeps-node_started Same-Blind os pool dumps config cluster_id i pid
    Same-after_launch config cluster_id i (err e) = Same-launch_failed

    Same-with_config :
        (cluster_id : Text) (r : Result ClusterConfig)
        → Keeps Same (with_config os pool dumps cluster_id r)
    unfolding with_config tunnel_ready
    Same-with_config cluster_id (err e) = search same_rules
    Same-with_config cluster_id (ok config) =
        search (same_rules, Keeps-wg_up, Keeps-launch_node, Same-after_launch) depth 9

    Same-bring_up_cluster :
        (cluster_id : Text) → Keeps Same (bring_up_cluster os pool dumps cluster_id)
    unfolding bring_up_cluster
    Same-bring_up_cluster cluster_id = search (same_rules, Same-with_config)

    Same-handle_assigned : (frame : Frame) → Keeps Same (handle_assigned os pool dumps frame)
    unfolding handle_assigned
    Same-handle_assigned frame = search (same_rules, Keeps-frame_cluster, Same-bring_up_cluster)

    Same-handle_dissolved : Keeps Same (handle_dissolved os pool dumps)
    unfolding handle_dissolved leave_cluster
    Same-handle_dissolved = search (same_rules, Keeps-stop_prima) depth 9

    Same-dispatch : (o : Option Text) (frame : Frame) → Keeps Same (dispatch os pool dumps o frame)
    unfolding dispatch on_type
    Same-dispatch none frame = search same_rules
    Same-dispatch (some type) frame =
        search (same_rules, Keeps-set_cadence, Same-handle_assigned, Same-handle_dissolved)

    Same-handle : (e : Event) → Keeps Same (handle os pool dumps e)
    unfolding handle on_frame
    Same-handle (frame_received frame) = Same-dispatch frame.type frame
    Same-handle heartbeat_due = Keeps-heartbeat_once Same-Blind os pool dumps
    Same-handle relay_due = Keeps-relay_turn Same-Blind os pool dumps
    Same-handle stdout_ended = record { at = λ m h. h }

    Same-run_events :
        (events : List Event) (m : Agent W) → Same m → Same (run_events os pool dumps events m)
    unfolding run_events
    Same-run_events [] m h = h
    Same-run_events (e ∷ events) m h = Same-run_events events _ ((Same-handle e).at m h)

    Same-bring_up_unless :
        (cluster_id : Text) (up : Bool) → Keeps Same (bring_up_unless os pool dumps cluster_id up)
    unfolding bring_up_unless
    Same-bring_up_unless cluster_id true = search same_rules
    Same-bring_up_unless cluster_id false = Same-bring_up_cluster cluster_id

    Same-recover_cluster :
        (o : Option ClusterAssignment) → Keeps Same (recover_cluster os pool dumps o)
    unfolding recover_cluster
    Same-recover_cluster none = search same_rules
    Same-recover_cluster (some c) = search (same_rules, Same-bring_up_unless)

    Same-recover_from : (r : Result WorkerState) → Keeps Same (recover_from os pool dumps r)
    unfolding recover_from
    Same-recover_from (err e) = search same_rules
    Same-recover_from (ok st) = search (same_rules, Same-recover_cluster)

    Same-recover_worker : (o : Option Text) → Keeps Same (recover_worker os pool dumps o)
    unfolding recover_worker
    Same-recover_worker none = search same_rules
    Same-recover_worker (some worker_id) = search (same_rules, Same-recover_from)

    pub Same-recover_state : Keeps Same (recover_state os pool dumps)
    unfolding recover_state
    Same-recover_state = search (same_rules, Same-recover_worker)

-- Whatever frames come, whenever heartbeats and turns of the relay monitor are due and whenever the
-- task that watches the output ends, whether
-- their handlers return or raise, the worker, its account, its key pair and its registered host
-- stay what they were.
pub run_events-IsSameWorker :
    {W : Type 0} (os : Os W) (pool : Pool W) (dumps : AgentState → Text) (events : List Event)
    (m : Agent W)
    → IsSameWorker (run_events os pool dumps events m).state m.state
run_events-IsSameWorker os pool dumps events m =
    Same-run_events m.state os pool dumps events m (refl, refl, refl, refl, refl)
