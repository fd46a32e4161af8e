-- ===== src/Agent/Cluster/Ends.antt =====
-- How `_bring_up_cluster` can end: without the configuration, without the tunnel, without the node,
-- or with it.
use prima_pool_client.Base.{Text, ℕ, ◌≡◌, ◌⊎◌, false, none, some, codes, Error, Result, ok, err}
use prima_pool_client.Agent.Cluster.Tasks.{IsPosition, IsOngoing, IsWatched}
use prima_pool_client.Agent.State.{Agent}
use prima_pool_client.Models.{ClusterConfig}
use prima_pool_client.Pool.{Pool}
use prima_pool_client.Prima.Launcher
use prima_pool_client.Prima.Launcher.{Launcher}
use prima_pool_client.System.{Os}
use prima_pool_client.WireGuard.Conf.{render_wg_conf}
use prima_pool_client.WireGuard.Manager

-- The agent with another machine, and at a position.
abbrev pub moved : {W : Type 0} → Agent W → W → Agent W
moved m w = record m { prima = record m.prima { world = w } }

abbrev pub placed : {W : Type 0} → Agent W → ℕ → Agent W
placed m i = record m { state = record m.state { ring_position = some i } }

-- The results of the calls that follow one another: the configuration, the tunnel and the node.
module _ {W : Type 0} (os : Os W) (pool : Pool W) (m : Agent W) (cluster_id : Text) where
  abbrev pub fetched : Result ClusterConfig × W
  fetched = pool.get_cluster_config cluster_id m.prima.world

  abbrev pub tunnel : ClusterConfig → Result (Unit {0}) × W
  tunnel config =
      Manager.up os m.config m.wg
        (render_wg_conf config m.state.wg_private_key m.config.wg_listen_port) fetched.1

  abbrev pub node : ClusterConfig → ℕ → Result ℕ × Launcher W
  node config i =
      Launcher.launch os m.config config i (record m.prima { world = (tunnel config).1 })

module _ {W : Type 0} (os : Os W) (pool : Pool W) (m : Agent W) (cluster_id : Text)
    (r : Result (Unit {0})) (n : Agent W) where
  -- The configuration was not given: only the machine has changed.
  abbrev pub Unfetched : Type 0
  Unfetched =
      ((e : Error) × ((fetched os pool m cluster_id).0 ≡ err e))
      × (r ≡ ok tt)
      × (n ≡ moved m (fetched os pool m cluster_id).1)

  -- The tunnel did not come up: its error is passed on, and but for the machine only the position
  -- has changed.
  abbrev pub NoTunnel : ClusterConfig → ℕ → Type 0
  NoTunnel config i =
      let up = tunnel os pool m cluster_id config in
      ((e : Error) × (up.0 ≡ err e) × (r ≡ err e)) × (n ≡ placed (moved m up.1) i)

  -- The tunnel came up, but the node did not start: the worker waits for a cluster again.
  abbrev pub NoNode : ClusterConfig → ℕ → Type 0
  NoNode config i =
      ((tunnel os pool m cluster_id config).0 ≡ ok tt)
      × ((e : Error) × ((node os pool m cluster_id config i).0 ≡ err e))
      × (r ≡ ok tt)
      × (n.state.cluster_id ≡ none)
      × (n.state.assigned_ip ≡ none)
      × (n.state.ring_position ≡ none)
      × (n.state.status ≡ codes "waitlisted")
      × (n.cluster_config ≡ none)
      × (n.prima_proc ≡ m.prima_proc)

  -- Whether readiness is reported at once or the output is watched first.
  abbrev pub Reports : ClusterConfig → ℕ → Launcher W → Type 0
  Reports config i l =
      ((i ≡ 0)
        × (n.prima ≡ l)
        × IsOngoing (λ t. t.is_done)
            (record { config = config; cluster_id = cluster_id; is_done = false }) m.stdout_task
            n.stdout_task)
      ⊎ ((¬ (i ≡ 0))
          × (n.prima ≡ record l { world = (pool.report_ready cluster_id none l.world).1 })
          × (n.stdout_task ≡ m.stdout_task))

  -- The tunnel is up and the node runs at the position.
  abbrev pub Running : ClusterConfig → ℕ → Type 0
  Running config i =
      let launched = node os pool m cluster_id config i in
      ((tunnel os pool m cluster_id config).0 ≡ ok tt)
      × ((pid : ℕ) × (launched.0 ≡ ok pid) × (n.prima_proc ≡ some pid))
      × (r ≡ ok tt)
      × (n.state ≡ record m.state { ring_position = some i })
      × (n.cluster_config ≡ some config)
      × IsWatched config m.relay_task n.relay_task
      × Reports config i launched.1

  abbrev pub Outcome : Type 0
  Outcome =
      Unfetched
      ⊎ ((config : ClusterConfig) × (i : ℕ) × ((fetched os pool m cluster_id).0 ≡ ok config)
          × IsPosition m.state config i
          × (NoTunnel config i ⊎ (NoNode config i ⊎ Running config i)))
