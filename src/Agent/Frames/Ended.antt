-- ===== src/Agent/Frames/Ended.antt =====
-- That a dissolved cluster and a stop end the node (`_handle_dissolved`, `stop`).
use prima_pool_client.Base.{
  Text, ℕ, ◌≡◌, refl, sym, ap, ◌∙◌, ◌⊎◌, inl, inr, true, Option, none, some, Result, ok,
}
use prima_pool_client.Agent.Cluster.{leave_cluster, wg_down}
use prima_pool_client.Agent.Frames.{
  without_tasks, without_config, as_stopped, closed, handle_dissolved, stop, stop_prima,
  stop_process, cancel_tasks,
}
use prima_pool_client.Agent.Frames.Laws.{IsWaiting, handle_dissolved-IsDetached, stop-IsStopped}
use prima_pool_client.Agent.Returns.{
  Works, Returns, Returns-then, Returns-modify, Returns-self, Returns-on_world_keeps, down-AlwaysOk,
}
use prima_pool_client.Agent.State.{Agent, AgentState, save_state, stamp, write_state, state_file}
use prima_pool_client.Config.{ClientConfig}
use prima_pool_client.Pool.{Pool}
use prima_pool_client.Prima.Launcher.Ending.{Ending, ProcessOver, NodeGone, stop-NodeGone}
use prima_pool_client.System.{Os}

module _ {W : Type 0} (os : Os W) (pool : Pool W) (dumps : AgentState → Text)
    (IsOver : ℕ → W → Type 0) (IsDown : Text → W → Type 0) where
  -- The node of the first agent, if it had one, is gone in the second.
  abbrev pub IsGone : Agent W → Agent W → Type 0
  IsGone m n = (m.prima_proc ≡ none) ⊎ NodeGone os IsOver IsDown m.config m.prima.proc n.prima

module _ {W : Type 0} (os : Os W) (pool : Pool W) (dumps : AgentState → Text) (works : Works os)
    (IsOver : ℕ → W → Type 0) (IsDown : Text → W → Type 0) (ending : Ending os pool IsOver IsDown)
    (config : ClientConfig) (held proc : Option ℕ) where
  -- Before the node is stopped, and behind.
  abbrev Has : Agent W → Type 0
  Has n = (n.config ≡ config) × (n.prima_proc ≡ held) × (n.prima.proc ≡ proc)

  abbrev Gone : Agent W → Type 0
  Gone n = (held ≡ none) ⊎ NodeGone os IsOver IsDown config proc n.prima

  Returns-wg_down-Has : Returns Has (wg_down os pool dumps) Has
  unfolding wg_down
  Returns-wg_down-Has =
      Returns-self _
        λ m. Returns-on_world_keeps _ (down-AlwaysOk os works m.config m.wg) (λ n a w e h. h)

  stop_process-Gone :
      (m : Agent W) (o : Option ℕ)
      → m.prima_proc ≡ o
      → Has m
      → (a : Unit {0}) × (n : Agent W) × (stop_process os pool dumps o m ≡ (ok a, n)) × Gone n
  unfolding stop_process
  stop_process-Gone m none e (c, h, p) = (tt, m, refl, inl (sym h ∙ e))
  stop_process-Gone m (some pid) e (c, h, p) =
      let (l, done, gone) = stop-NodeGone os pool IsOver IsDown ending works m.config m.prima in
      (tt, record m { prima = l; prima_proc = none }, simp done, inr (rw (sym c, sym p) gone))

  Returns-stop_prima-Gone : Returns Has (stop_prima os pool dumps) Gone
  unfolding stop_prima
  Returns-stop_prima-Gone = record { at = λ m h. stop_process-Gone m m.prima_proc refl h }

  ProcessOver-keeps :
      (o : Option ℕ) (w w' : W)
      → ((pid : ℕ) → IsOver pid w → IsOver pid w')
      → ProcessOver os IsOver IsDown o w
      → ProcessOver os IsOver IsDown o w'
  ProcessOver-keeps none w w' over h = tt
  ProcessOver-keeps (some pid) w w' over h = over pid h

  -- A call that undoes neither.
  Gone-keeps :
      (n : Agent W) (w : W)
      → ((pid : ℕ) → IsOver pid n.prima.world → IsOver pid w)
      → ((dir : Text) → IsDown dir n.prima.world → IsDown dir w)
      → Gone n
      → Gone (record n { prima = record n.prima { world = w } })
  Gone-keeps n w over down (inl gone) = inl gone
  Gone-keeps n w over down (inr (inl (docker, is_down))) = inr (inl (docker, down _ is_down))
  Gone-keeps n w over down (inr (inr (same, uncaptured, is_over))) =
      inr (inr (same, uncaptured, ProcessOver-keeps proc n.prima.world w over is_over))

  Returns-save_state-Gone : Returns Gone (save_state os dumps) Gone
  unfolding save_state stamp write_state state_file
  Returns-save_state-Gone = Returns-self _ λ m.
      Returns-then _ _
        (Returns-on_world_keeps _ (works.makes (os.parent (state_file os dumps m.config)))
          (λ n a w e h.
            Gone-keeps n w (λ pid. ending.over_mkdir pid _ n.prima.world w e)
              (λ dir. ending.down_mkdir dir _ n.prima.world w e) h))
        (Returns-then {R = Gone} _ _
          (Returns-self _ λ n.
            Returns-modify
              (λ o. record o { state = record o.state { updated_at = os.now n.prima.world } })
              (λ o h. h))
          (Returns-self _ λ n.
            Returns-on_world_keeps _ (works.writes (state_file os dumps n.config) (dumps n.state))
              (λ o a w e h.
                Gone-keeps o w (λ pid. ending.over_write_text pid _ _ o.prima.world w e)
                  (λ dir. ending.down_write_text dir _ _ o.prima.world w e) h)))

  Returns-handle_dissolved-Gone : Returns Has (handle_dissolved os pool dumps) Gone
  unfolding handle_dissolved cancel_tasks leave_cluster
  Returns-handle_dissolved-Gone =
      Returns-then {R = Has} _ _ (Returns-modify without_tasks λ m h. h) (
        Returns-then {R = Has} _ _ (Returns-modify without_config λ m h. h) (
          Returns-then {R = Has} _ _ Returns-wg_down-Has (
            Returns-then {R = Gone} _ _ Returns-stop_prima-Gone (
              Returns-then {R = Gone} _ _
                (Returns-modify (λ m. record m { state = leave_cluster m.state }) λ m h. h)
                Returns-save_state-Gone))))

  Returns-stop-Gone : Returns Has (stop os pool dumps) Gone
  unfolding stop cancel_tasks
  Returns-stop-Gone = Returns-then {R = Has} _ _ (Returns-modify as_stopped λ m h. h) (
      Returns-then {R = Has} _ _ (Returns-modify without_tasks λ m h. h) (
        Returns-then {R = Has} _ _ Returns-wg_down-Has (
          Returns-then {R = Gone} _ _ Returns-stop_prima-Gone (
            Returns-modify (closed pool) λ m h.
              Gone-keeps m (pool.close m.prima.world)
                (λ pid. ending.over_pool_close pid m.prima.world)
                (λ dir. ending.down_pool_close dir m.prima.world) h))))

module _ {W : Type 0} (os : Os W) (pool : Pool W) (dumps : AgentState → Text) (works : Works os)
    (IsOver : ℕ → W → Type 0) (IsDown : Text → W → Type 0)
    (ending : Ending os pool IsOver IsDown) where
  same_agent :
      (call : Result (Unit {0}) × Agent W) {a : Unit {0}} {n o : Agent W}
      → call ≡ (ok tt, n)
      → call ≡ (ok a, o)
      → o ≡ n
  same_agent call e f = ap (λ q. q.1) (sym f ∙ e)

  -- Where programs can be started and the state file written, and for any meaning of a process
  -- being over and a project taken down that has the laws of Ending, the handler of a dissolved
  -- cluster returns from every state. The worker then waits: its state has no cluster, address or
  -- ring position and the status waitlisted (its config_url is kept), and the agent refers to no
  -- task, configuration or process. If it had a process, the node is gone: in docker mode its
  -- project was taken down, and else the launcher's process is over and its output is captured no
  -- more.
  pub handle_dissolved-IsWaiting :
      (m : Agent W)
      → (n : Agent W) × (handle_dissolved os pool dumps m ≡ (ok tt, n))
        × IsWaiting n
        × IsGone os pool dumps IsOver IsDown m n
  handle_dissolved-IsWaiting m =
      let (n, e, waiting) = handle_dissolved-IsDetached os pool dumps works m in
      let (a, o, f, gone) =
        (Returns-handle_dissolved-Gone os pool dumps works IsOver IsDown ending m.config
            m.prima_proc m.prima.proc).at
          m (refl, refl, refl) in
      (n, e, waiting, rw (sym (same_agent (handle_dissolved os pool dumps m) e f)) gone)

  -- Where programs can be started, and for any meaning of a process being over and a project taken
  -- down that has the laws of Ending, `stop` returns from every state: the agent is marked as
  -- stopped and refers to no task and no process, and the state, the worker's registration in it,
  -- is as it was. If the agent had a process, the node is gone: in docker mode its project was
  -- taken down, and else the launcher's process is over and its output is captured no more.
  pub stop-keeps_state :
      (m : Agent W)
      → (n : Agent W) × (stop os pool dumps m ≡ (ok tt, n))
        × ((n.prima_proc ≡ none)
            × ((n.state ≡ m.state)
                × (n.stopped ≡ true)
                × (n.relay_task ≡ none)
                × (n.stdout_task ≡ none)))
        × IsGone os pool dumps IsOver IsDown m n
  stop-keeps_state m =
      let (n, e, stopped) = stop-IsStopped os pool dumps works m in
      let (a, o, f, gone) =
        (Returns-stop-Gone os pool dumps works IsOver IsDown ending m.config m.prima_proc
            m.prima.proc).at
          m (refl, refl, refl) in
      (n, e, stopped, rw (sym (same_agent (stop os pool dumps m) e f)) gone)
