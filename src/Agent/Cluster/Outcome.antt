-- ===== src/Agent/Cluster/Outcome.antt =====
-- That `_bring_up_cluster` ends in one of its outcomes.
use prima_pool_client.Base.{
  Text, ℕ, ◌==◌, ◌≡◌, refl, ◌⊎◌, inl, inr, Bool-cases, Option, none, some, codes, Result, ok, err,
  Result-cases, arith,
}
use prima_pool_client.Agent.Cluster.{
  bring_up_cluster, with_config, ring_position_of, next_relay_task, next_stdout_task, tunnel_ready,
  launch_node, after_launch, node_started, launch_failed, leave_cluster, report_ready, wg_up,
}
use prima_pool_client.Agent.Cluster.Ends.{
  moved, placed, fetched, tunnel, node, NoTunnel, NoNode, Running, Outcome,
}
use prima_pool_client.Agent.Cluster.Tasks.{
  ring_position_of-IsPosition, next_stdout_task-IsOngoing, next_relay_task-IsWatched,
}
use prima_pool_client.Agent.Returns.{
  Works, Returns, Returns-then, Returns-modify, Returns-wg_down, Returns-save_state,
}
use prima_pool_client.Agent.State.{Agent, AgentState}
use prima_pool_client.Models.{ClusterConfig}
use prima_pool_client.Pool.{Pool}
use prima_pool_client.Prima.Launcher.{Launcher}
use prima_pool_client.System.{Os}

module _ {W : Type 0} (os : Os W) (pool : Pool W) (dumps : AgentState → Text) (works : Works os)
    (cluster_id : Text) where
  abbrev IsLeft : Option ℕ → Agent W → Type 0
  IsLeft pid n =
      (n.state.cluster_id ≡ none)
      × (n.state.assigned_ip ≡ none)
      × (n.state.ring_position ≡ none)
      × (n.state.status ≡ codes "waitlisted")
      × (n.cluster_config ≡ none)
      × (n.prima_proc ≡ pid)

  Returns-launch_failed :
      (pid : Option ℕ)
      → Returns (λ n. n.prima_proc ≡ pid) (launch_failed os pool dumps) (IsLeft pid)
  unfolding launch_failed leave_cluster
  Returns-launch_failed pid =
      Returns-then {R = λ n. n.prima_proc ≡ pid} _ _
        (Returns-wg_down os works pool dumps (λ n l h. h))
        (Returns-then {R = IsLeft pid} _ _
          (Returns-modify (λ n. record n { cluster_config = none; state = leave_cluster n.state })
            λ n h. (refl, refl, refl, refl, refl, h))
          (Returns-save_state os works pool dumps (λ n l h. h) (λ n t h. h)))

  -- The agent when the node is launched.
  abbrev launching : Agent W → ClusterConfig → ℕ → Launcher W → Agent W
  launching m config i l = record (placed m i) {
    prima = l;
    cluster_config = some config;
    relay_task = next_relay_task config m.relay_task;
  }

  -- A method that ends with the node running or not.
  abbrev Ends : Agent W → ClusterConfig → ℕ → (Result (Unit {0}) × Agent W) → Type 0
  Ends m config i call =
      (r : Result (Unit {0})) × (n : Agent W) × (call ≡ (r, n))
      × (NoNode os pool m cluster_id r n config i ⊎ Running os pool m cluster_id r n config i)

  node_started-Ends :
      (m : Agent W) (config : ClusterConfig) (i pid : ℕ)
      → (tunnel os pool m cluster_id config).0 ≡ ok tt
      → (node os pool m cluster_id config i).0 ≡ ok pid
      → Ends m config i (
          node_started os pool dumps config cluster_id i pid
            (launching m config i (node os pool m cluster_id config i).1))
  unfolding node_started report_ready
  node_started-Ends m config i pid up started =
      let n = launching m config i (node os pool m cluster_id config i).1 in
      let watched = next_relay_task-IsWatched config m.relay_task in
      elim (Bool-cases (i == 0)) [
        | inl head ↦ (
          ok tt,
          record n {
            prima_proc = some pid;
            stdout_task = next_stdout_task config cluster_id m.stdout_task;
          },
          simp head,
          inr (
            up,
            (pid, started, refl),
            refl,
            refl,
            refl,
            watched,
            inl (ground arith, refl, next_stdout_task-IsOngoing config cluster_id m.stdout_task),
          ),
        )
        | inr worker ↦
            let call = pool.report_ready cluster_id none n.prima.world in
            (
              ok tt,
              record n { prima_proc = some pid; prima = record n.prima { world = call.1 } },
              simp worker,
              inr (
                up,
                (pid, started, refl),
                refl,
                refl,
                refl,
                watched,
                inr (ground arith, refl, refl),
              ),
            )
      ]

  after_launch-Ends :
      (m : Agent W) (config : ClusterConfig) (i : ℕ) (launched : Result ℕ)
      → (tunnel os pool m cluster_id config).0 ≡ ok tt
      → (node os pool m cluster_id config i).0 ≡ launched
      → Ends m config i (
          after_launch os pool dumps config cluster_id i launched
            (launching m config i (node os pool m cluster_id config i).1))
  unfolding after_launch
  after_launch-Ends m config i (ok pid) up started = node_started-Ends m config i pid up started
  after_launch-Ends m config i (err e) up failed =
      let n = launching m config i (node os pool m cluster_id config i).1 in
      let (_, o, done, (a, b, c, d, f, g)) = (Returns-launch_failed m.prima_proc).at n refl in
      (ok tt, o, done, inl (up, (e, failed), refl, a, b, c, d, f, g))

  -- `_bring_up_cluster` behind the fetched configuration.
  WithConfig : Agent W → ClusterConfig → ℕ → (Result (Unit {0}) × Agent W) → Type 0
  WithConfig m config i call =
      (r : Result (Unit {0})) × (n : Agent W) × (call ≡ (r, n))
      × (NoTunnel os pool m cluster_id r n config i
          ⊎ (NoNode os pool m cluster_id r n config i ⊎ Running os pool m cluster_id r n config i))

  with_config-Ends :
      (m : Agent W) (config : ClusterConfig)
      → WithConfig m config (ring_position_of m.state config) (
          with_config os pool dumps cluster_id
            (ok config)
            (moved m (fetched os pool m cluster_id).1))
  unfolding WithConfig with_config wg_up tunnel_ready launch_node
  with_config-Ends m config =
      let i = ring_position_of m.state config in
      let up = tunnel os pool m cluster_id config in
      elim (Result-cases up.0) [
        | inr (e, failed) ↦
            (err e, placed (moved m up.1) i, simp failed, inl ((e, failed, refl), refl))
        | inl (_, raised) ↦
            let (r, o, done, outcome) =
              after_launch-Ends m config i (node os pool m cluster_id config i).0 raised refl in
            (r, o, simp raised done, inr outcome)
      ]

  -- Where programs can be started and the state file written, bringing up a cluster ends in one of
  -- four ways, whatever the agent's state. If the configuration is not given it returns and only
  -- the machine has changed. If the tunnel does not come up it raises that error, and but for the
  -- machine only the position, the persisted one or else the one in the configuration, has changed.
  -- If the node cannot be launched at that position it returns and the worker waits for a cluster
  -- again. Else the launched process is the agent's, the configuration is kept, and a usable relay
  -- has its task. At position 0 a task watches the output, and elsewhere readiness is reported.
  pub bring_up_cluster-Outcome :
      (m : Agent W)
      → (r : Result (Unit {0})) × (n : Agent W) × (bring_up_cluster os pool dumps cluster_id m
          ≡ (r, n))
        × Outcome os pool m cluster_id r n
  unfolding bring_up_cluster with_config WithConfig
  bring_up_cluster-Outcome m =
      let call = fetched os pool m cluster_id in
      elim (Result-cases call.0) [
        | inr (e, failed) ↦ (ok tt, moved m call.1, simp failed, inl ((e, failed), refl, refl))
        | inl (config, given) ↦
            let (r, n, done, outcome) = with_config-Ends m config in
            (
              r,
              n,
              simp given done,
              inr (
                config,
                ring_position_of m.state config,
                given,
                ring_position_of-IsPosition m.state config,
                outcome,
              ),
            )
      ]
