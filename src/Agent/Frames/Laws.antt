-- ===== src/Agent/Frames/Laws.antt =====
-- What a dissolved cluster and a stop leave behind (`_handle_dissolved`, `stop`).
use prima_pool_client.Base.{Text, ℕ, ◌≡◌, refl, true, Option, none, some, ok, codes}
use prima_pool_client.Agent.Cluster.{leave_cluster}
use prima_pool_client.Agent.Frames.{
  without_tasks, without_config, as_stopped, closed, handle_dissolved, stop, stop_prima,
  stop_process, cancel_tasks,
}
use prima_pool_client.Agent.Returns.{
  Works, Returns, Returns-then, Returns-modify, Returns-wg_down, Returns-save_state, stop_returns,
  SkipsPrima,
}
use prima_pool_client.Agent.State.{Agent, AgentState}
use prima_pool_client.Pool.{Pool}
use prima_pool_client.System.{Os}

-- Nothing of a cluster is left in the object but, perhaps, the process.
abbrev pub IsDetached : {W : Type 0} → Agent W → Type 0
IsDetached m = (m.relay_task ≡ none) × (m.stdout_task ≡ none) × (m.cluster_config ≡ none)

-- The worker waits for a cluster, and the object has no task, no configuration and no process.
abbrev pub IsWaiting : {W : Type 0} → Agent W → Type 0
IsWaiting m =
    (m.state.cluster_id ≡ none)
    × (m.state.assigned_ip ≡ none)
    × (m.state.ring_position ≡ none)
    × (m.state.status ≡ codes "waitlisted")
    × (m.relay_task ≡ none)
    × (m.stdout_task ≡ none)
    × (m.cluster_config ≡ none)
    × (m.prima_proc ≡ none)

module _ {W : Type 0} (os : Os W) (pool : Pool W) (dumps : AgentState → Text)
    (works : Works os) where
  -- After `stop_prima` there is no process, and the rest is as before.
  Returns-stop_prima :
      (P : Agent W → Type 0)
      → SkipsPrima P
      → ((m : Agent W) → P m → P (record m { prima_proc = none }))
      → Returns P (stop_prima os pool dumps) (λ m. (m.prima_proc ≡ none) × P m)
  unfolding stop_prima
  Returns-stop_prima P skips drops = record { at = λ m h. by_process m m.prima_proc refl h }
    where
      by_process :
          (m : Agent W) (o : Option ℕ)
          → m.prima_proc ≡ o
          → P m
          → (a : Unit {0}) × (n : Agent W) × (stop_process os pool dumps o m ≡ (ok a, n))
            × ((n.prima_proc ≡ none) × P n)
      by_process m none e h = (tt, m, refl, (e, h))
      by_process m (some pid) e h =
          let (l, done) = stop_returns os works m.config m.prima in
          (
            tt,
            record m { prima = l; prima_proc = none },
            simp done,
            (refl, drops (record m { prima = l }) (skips m l h)),
          )

  detach_then_stop : Returns (λ m. Unit {0}) (handle_dissolved os pool dumps) IsWaiting
  unfolding handle_dissolved cancel_tasks leave_cluster
  detach_then_stop =
      Returns-then {R = λ m. (m.relay_task ≡ none) × (m.stdout_task ≡ none)} _ _
        (Returns-modify without_tasks λ m h. (refl, refl))
        (Returns-then {R = IsDetached} _ _ (Returns-modify without_config λ m h. (h.0, h.1, refl)) (
          Returns-then {R = IsDetached} _ _ (Returns-wg_down os works pool dumps (λ m l h. h)) (
            Returns-then _ _ (Returns-stop_prima IsDetached (λ m l h. h) (λ m h. h)) (
              Returns-then {R = IsWaiting} _ _
                (Returns-modify (λ m. record m { state = leave_cluster m.state })
                  λ m h. (refl, refl, refl, refl, h.1.0, h.1.1, h.1.2, h.0))
                (Returns-save_state os works pool dumps (λ m l h. h) (λ m t h. h))))))

  -- The handler of a dissolved cluster returns from every state, with the object detached.
  pub handle_dissolved-IsDetached :
      (m : Agent W) → (n : Agent W) × (handle_dissolved os pool dumps m ≡ (ok tt, n)) × IsWaiting n
  handle_dissolved-IsDetached m = let (a, n, e, h) = detach_then_stop.at m tt in (n, e, h)

  stop_detaches :
      (s : AgentState)
      → Returns
          (λ m. m.state ≡ s)
          (stop os pool dumps)
          (λ m.
            (m.prima_proc ≡ none)
            × ((m.state ≡ s) × (m.stopped ≡ true) × (m.relay_task ≡ none) × (m.stdout_task ≡ none)))
  unfolding stop cancel_tasks
  stop_detaches s =
      Returns-then {R = λ m. (m.state ≡ s) × (m.stopped ≡ true)} _ _
        (Returns-modify as_stopped λ m h. (h, refl))
        (Returns-then
          {R = λ m.
            (m.state ≡ s) × (m.stopped ≡ true) × (m.relay_task ≡ none) × (m.stdout_task ≡ none)}
          _ _ (Returns-modify without_tasks λ m h. (h.0, h.1, refl, refl))
          (Returns-then _ _ (Returns-wg_down os works pool dumps (λ m l h. h)) (
            Returns-then _ _ (Returns-stop_prima _ (λ m l h. h) (λ m h. h))
              (Returns-modify (closed pool) λ m h. h))))

  -- `stop` returns from every state, with the object detached and the persisted state as it was.
  pub stop-IsStopped :
      (m : Agent W)
      → (n : Agent W) × (stop os pool dumps m ≡ (ok tt, n))
        × ((n.prima_proc ≡ none)
            × ((n.state ≡ m.state)
                × (n.stopped ≡ true)
                × (n.relay_task ≡ none)
                × (n.stdout_task ≡ none)))
  stop-IsStopped m = let (a, n, e, h) = (stop_detaches m.state).at m refl in (n, e, h)
