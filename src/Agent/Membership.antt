-- ===== src/Agent/Membership.antt =====
-- The worker's membership: what it holds of a cluster, it holds as a member of one.
use prima_pool_client.Base.{
  Text, ℕ, ◌≡◌, refl, ◌⊎◌, inl, inr, Option, none, some, Result, ok, err, List, [], ◌∷◌, ◌>>=◌,
  ◌>>◌,
}
use prima_pool_client.Agent.Cluster.{
  bring_up_cluster, with_config, after_launch, launch_failed, tunnel_ready, leave_cluster,
  ring_position_of, wg_up, launch_node, wg_down,
}
use prima_pool_client.Agent.Events.{
  Event, frame_received, heartbeat_due, relay_due, stdout_ended, handle, run_events,
}
use prima_pool_client.Agent.Frames.{
  Frame, on_frame, dispatch, on_type, handle_assigned, handle_dissolved, cancel_tasks,
  assigned_state, without_config, without_tasks, stop_prima,
}
use prima_pool_client.Agent.Keeps.Leads.{Leads, Leads-bind, Leads-then, Leads-Keeps}
use prima_pool_client.Agent.Keeps.{Keeps, Keeps-bind, Keeps-attempt}
use prima_pool_client.Agent.Keeps.Parts.{
  Blind, part_rules, Keeps-save_state, Keeps-wg_down, Keeps-wg_up, Keeps-on_world,
  Keeps-launch_node, Keeps-node_started, Keeps-frame_cluster, Keeps-stop_prima, Keeps-set_cadence,
  Keeps-heartbeat_once, Keeps-relay_turn,
}
use prima_pool_client.Agent.State.{Agent, AgentState, set_state, save_state, attempt}
use prima_pool_client.Models.{ClusterConfig}
use prima_pool_client.Pool.{Pool}
use prima_pool_client.System.{Os}

module _ {W : Type 0} where
  -- A member of a cluster, and a worker that waits: no address, no position, no configuration.
  abbrev pub Belongs : Agent W → Type 0
  Belongs m = (cluster_id : Text) × (m.state.cluster_id ≡ some cluster_id)

  abbrev pub Waits : Agent W → Type 0
  Waits m =
      (m.state.cluster_id ≡ none)
      × (m.state.assigned_ip ≡ none)
      × (m.state.ring_position ≡ none)
      × (m.cluster_config ≡ none)

  abbrev pub IsMembership : Agent W → Type 0
  IsMembership m = Belongs m ⊎ Waits m

  -- A worker whose configuration is gone already.
  abbrev Leaving : Agent W → Type 0
  Leaving m = IsMembership m × (m.cluster_config ≡ none)

  Belongs-Blind : Blind Belongs
  Belongs-Blind = record {
    to_prima = λ m l h. h;
    to_stamp = λ m t h. h;
    to_status = λ m online status h. h;
    to_process = λ m pid h. h;
    to_relay = λ m task h. h;
    to_stdout = λ m task h. h;
    to_config = λ m config h. h;
  }

  IsMembership-Blind : Blind IsMembership
  IsMembership-Blind = record {
    to_prima = λ m l h. h;
    to_stamp = λ m t h. h;
    to_status = λ m online status h. h;
    to_process = λ m pid h. h;
    to_relay = λ m task h. h;
    to_stdout = λ m task h. h;
    to_config = λ m config h. h;
  }

  Leaving-Blind : Blind Leaving
  Leaving-Blind = record {
    to_prima = λ m l h. h;
    to_stamp = λ m t h. h;
    to_status = λ m online status h. h;
    to_process = λ m pid h. h;
    to_relay = λ m task h. h;
    to_stdout = λ m task h. h;
    to_config = λ m config h. h;
  }

  module _ (os : Os W) (pool : Pool W) (dumps : AgentState → Text) where
    Leads-launch_failed : Leads Belongs IsMembership (launch_failed os pool dumps)
    unfolding launch_failed leave_cluster
    Leads-launch_failed =
        Leads-then (λ m h. inl h) _ _ (Keeps-wg_down Belongs-Blind os pool dumps)
          (record {
            at = λ m h.
                (Keeps-save_state IsMembership-Blind os pool dumps).at _
                  (inr (refl, refl, refl, refl));
          })

    Leads-after_launch :
        (config : ClusterConfig) (cluster_id : Text) (i : ℕ) (r : Result ℕ)
        → Leads Belongs IsMembership (after_launch os pool dumps config cluster_id i r)
    unfolding after_launch
    Leads-after_launch config cluster_id i (ok pid) =
        Leads-Keeps (λ m h. inl h) _
          (Keeps-node_started Belongs-Blind os pool dumps config cluster_id i pid)
    Leads-after_launch config cluster_id i (err e) = Leads-launch_failed

    Belongs-positioned :
        (i : ℕ) → Keeps Belongs (set_state {W = W} (λ s. record s { ring_position = some i }))
    Belongs-positioned i = record { at = λ m h. h }

    Belongs-tunnel_ready :
        (config : ClusterConfig) → Keeps Belongs (tunnel_ready os pool dumps config)
    unfolding tunnel_ready
    Belongs-tunnel_ready config = record { at = λ m h. h }

    -- The configuration with a position.
    Leads-positioned :
        (cluster_id : Text) (config : ClusterConfig) (i : ℕ)
        → Leads Belongs IsMembership (do
          set_state (λ s. record s { ring_position = some i })
          wg_up os pool dumps config
          tunnel_ready os pool dumps config
          launched ← attempt (launch_node os pool dumps config i)
          after_launch os pool dumps config cluster_id i launched)
    Leads-positioned cluster_id config i =
        Leads-then (λ m h. inl h) _ _ (Belongs-positioned i)
          (Leads-then (λ m h. inl h) _ _ (Keeps-wg_up Belongs-Blind os pool dumps config)
            (Leads-then (λ m h. inl h) _ _ (Belongs-tunnel_ready config)
              (Leads-bind (λ m h. inl h) _ _
                (Keeps-attempt _ (Keeps-launch_node Belongs-Blind os pool dumps config i))
                (Leads-after_launch config cluster_id i))))

    Leads-with_config :
        (cluster_id : Text) (r : Result ClusterConfig)
        → Leads Belongs IsMembership (with_config os pool dumps cluster_id r)
    unfolding with_config
    Leads-with_config cluster_id (err e) = record { at = λ m h. inl h }
    Leads-with_config cluster_id (ok config) = record {
      at = λ m. (Leads-positioned cluster_id config (ring_position_of m.state config)).at m;
    }

    Leads-bring_up_cluster :
        (cluster_id : Text) → Leads Belongs IsMembership (bring_up_cluster os pool dumps cluster_id)
    unfolding bring_up_cluster
    Leads-bring_up_cluster cluster_id =
        Leads-bind (λ m h. inl h) _ _ (Keeps-attempt _ (Keeps-on_world _ Belongs-Blind))
          (Leads-with_config cluster_id)

    -- An assignment makes a member first.
    Leads-assigned :
        (frame : Frame) (cluster_id : Text)
        → Keeps IsMembership (
            ◌>>◌
              (set_state (assigned_state frame cluster_id))
              (◌>>◌ (save_state os dumps) (bring_up_cluster os pool dumps cluster_id)))
    unfolding assigned_state
    Leads-assigned frame cluster_id = record {
      at = λ m h.
          (Leads-then (λ n k. inl k) _ _ (Keeps-save_state Belongs-Blind os pool dumps)
              (Leads-bring_up_cluster cluster_id)).at
            _ (cluster_id, refl);
    }

    IsMembership-handle_assigned :
        (frame : Frame) → Keeps IsMembership (handle_assigned os pool dumps frame)
    unfolding handle_assigned
    IsMembership-handle_assigned frame =
        Keeps-bind _ _ (Keeps-frame_cluster IsMembership-Blind os pool dumps frame.cluster_id)
          (Leads-assigned frame)

    -- The configuration goes first, and the membership after the tunnel and the process.
    Leads-left : Leads Leaving IsMembership (do
      wg_down os pool dumps
      stop_prima os pool dumps
      set_state leave_cluster
      save_state os dumps)
    unfolding leave_cluster
    Leads-left =
        Leads-then (λ n k. k.0) _ _ (Keeps-wg_down Leaving-Blind os pool dumps)
          (Leads-then (λ n k. k.0) _ _ (Keeps-stop_prima Leaving-Blind os pool dumps)
            (record {
              at = λ m h.
                  (Keeps-save_state IsMembership-Blind os pool dumps).at _
                    (inr (refl, refl, refl, h.1));
            }))

    without_config-Leaving : (m : Agent W) → IsMembership m → Leaving (without_config m)
    without_config-Leaving m (inl h) = (inl h, refl)
    without_config-Leaving m (inr (id, ip, i, c)) = (inr (id, ip, i, refl), refl)

    IsMembership-handle_dissolved : Keeps IsMembership (handle_dissolved os pool dumps)
    unfolding handle_dissolved cancel_tasks
    IsMembership-handle_dissolved = record {
      at = λ m h.
          Leads-left.at (without_config (without_tasks m))
            (without_config-Leaving (without_tasks m) h);
    }

    IsMembership-dispatch :
        (o : Option Text) (frame : Frame) → Keeps IsMembership (dispatch os pool dumps o frame)
    unfolding dispatch on_type
    IsMembership-dispatch none frame = search part_rules
    IsMembership-dispatch (some type) frame = search (
      part_rules, IsMembership-Blind, Keeps-set_cadence, IsMembership-handle_assigned,
      IsMembership-handle_dissolved,
    )

    IsMembership-handle : (e : Event) → Keeps IsMembership (handle os pool dumps e)
    unfolding handle on_frame
    IsMembership-handle (frame_received frame) = IsMembership-dispatch frame.type frame
    IsMembership-handle heartbeat_due = Keeps-heartbeat_once IsMembership-Blind os pool dumps
    IsMembership-handle relay_due = Keeps-relay_turn IsMembership-Blind os pool dumps
    IsMembership-handle stdout_ended = record { at = λ m h. h }

    -- Whatever events come, whether their handlers return or raise: a worker that is a member of
    -- a cluster, or has no address, no ring position and no configuration, is so again after them.
    pub run_events-IsMembership :
        (events : List Event) (m : Agent W)
        → IsMembership m
        → IsMembership (run_events os pool dumps events m)
    unfolding run_events
    run_events-IsMembership [] m h = h
    run_events-IsMembership (e ∷ events) m h =
        run_events-IsMembership events _ ((IsMembership-handle e).at m h)
