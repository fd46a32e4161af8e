-- ===== src/Agent/Run/Laws.antt =====
-- Sessions of a registered worker, and the address of its channel.
use prima_pool_client.Base.{
  Text, ◌≡◌, refl, ◌∙◌, true, false, Option, none, some, List, ◌∷◌, ◌++◌, codes, truthy,
  contains_text, replace_text, replace_text-absent, strip_prefix, Result, ok, err, Error, continue,
  raise,
}
use prima_pool_client.Agent.Events.{Event, heartbeat_due, run_events}
use prima_pool_client.Agent.Frames.{recover_state, stop}
use prima_pool_client.Agent.Frames.Laws.{stop-IsStopped}
use prima_pool_client.Agent.Identity.{IsSameWorker, Same-recover_state, run_events-IsSameWorker}
use prima_pool_client.Agent.Register.{present, ensure_registered}
use prima_pool_client.Agent.Register.Laws.{Accepts, ensure_registered-IsRegistered}
use prima_pool_client.Agent.Returns.{Works}
use prima_pool_client.Agent.Run.{ws_url, open_channel, with_channel, start, stop_after, session}
use prima_pool_client.Agent.State.{Agent, AgentState}
use prima_pool_client.Pool.{Pool, Keys}
use prima_pool_client.Prima.Hash.{Hasher}
use prima_pool_client.System.{Os}

-- The channel of a control plane at an `http` or an `https` address is at the `ws` or the `wss`
-- address, where neither scheme occurs in the rest of it.
pub ws_url-schemes :
    (rest worker_id : Text)
    → contains_text (codes "http://") rest ≡ false
    → contains_text (codes "https://") rest ≡ false
    → (ws_url (codes "http://" ++ rest) worker_id
        ≡ codes "ws://" ++ (rest ++ (codes "/v1/workers/" ++ (worker_id ++ codes "/events"))))
      × (ws_url (codes "https://" ++ rest) worker_id
          ≡ codes "wss://" ++ (rest ++ (codes "/v1/workers/" ++ (worker_id ++ codes "/events"))))
unfolding ws_url replace_text strip_prefix
ws_url-schemes rest worker_id plain secure = (
  rw (replace_text-absent (codes "http://") (codes "ws://") rest plain)
      (rw (replace_text-absent (codes "https://") (codes "wss://") rest secure) refl),
  rw (replace_text-absent (codes "http://") (codes "ws://") rest plain)
      (rw (replace_text-absent (codes "https://") (codes "wss://") rest secure) refl),
)

IsSameWorker-trans : (s t u : AgentState) → IsSameWorker s t → IsSameWorker t u → IsSameWorker s u
IsSameWorker-trans s t u (a, b, c, d, e) (a', b', c', d', e') =
    (a ∙ a', b ∙ b', c ∙ c', d ∙ d', e ∙ e')

module _ {W : Type 0} where
  -- No process and no task, and the agent is stopped.
  abbrev pub IsStopped : Agent W → Type 0
  IsStopped m =
      (m.prima_proc ≡ none) × (m.stopped ≡ true) × (m.relay_task ≡ none) × (m.stdout_task ≡ none)

module _ {W : Type 0} (os : Os W) (pool : Pool W) (dumps : AgentState → Text) where
  abbrev Ends : AgentState → Agent W → Type 0
  Ends s m = IsSameWorker m.state s × IsStopped m

  same_state : (s t : AgentState) → s ≡ t → IsSameWorker s t
  same_state s t e = rw e (refl, refl, refl, refl, refl)

  stop-Ends : Works os → (m : Agent W) → Ends m.state (stop os pool dumps m).1
  stop-Ends works m =
      let (n, e, (gone, (kept, stopped, relay, stdout))) = stop-IsStopped os pool dumps works m in
      rw e (same_state n.state m.state kept, (gone, stopped, relay, stdout))

  raised-Ends :
      Works os
      → (e : Error) (m : Agent W)
      → Ends m.state (continue (λ _. raise {A = Unit {0}} e) (stop os pool dumps m)).1
  raised-Ends works e m =
      let (n, done, (gone, (kept, stopped, relay, stdout))) =
        stop-IsStopped os pool dumps works m in
      rw done (same_state n.state m.state kept, (gone, stopped, relay, stdout))

module _ {W : Type 0} (os : Os W) (pool : Pool W) (keys : Keys W) (hasher : Hasher)
    (dumps : AgentState → Text) where
  stop_after-Ends :
      Works os
      → (events : List Event) (r : Result (Unit {0})) (m : Agent W)
      → Ends os pool dumps m.state (stop_after os pool keys hasher dumps events r m).1
  unfolding stop_after
  stop_after-Ends works events (err e) m = raised-Ends os pool dumps works e m
  stop_after-Ends works events (ok _) m =
      let after = run_events os pool dumps (heartbeat_due ∷ events) m in
      let (same, stopped) = stop-Ends os pool dumps works after in
      (
        IsSameWorker-trans (stop os pool dumps after).1.state after.state m.state same
            (run_events-IsSameWorker os pool dumps (heartbeat_due ∷ events) m),
        stopped,
      )

  opened-IsSameWorker :
      (o : Option Text) (m : Agent W)
      → IsSameWorker
          (continue (λ _. recover_state os pool dumps) (open_channel o m)).1.state
          m.state
  unfolding open_channel
  opened-IsSameWorker none m =
      (Same-recover_state m.state os pool dumps).at m (refl, refl, refl, refl, refl)
  opened-IsSameWorker (some id) m =
      (Same-recover_state m.state os pool dumps).at (with_channel m) (refl, refl, refl, refl, refl)

  start-IsSameWorker :
      (m n : Agent W)
      → ensure_registered os pool keys hasher dumps m ≡ (ok tt, n)
      → IsSameWorker (start os pool keys hasher dumps m).1.state n.state
  unfolding start
  start-IsSameWorker m n done = rw done (opened-IsSameWorker (present n.state.worker_id) n)

  -- Where programs can be started, the state file written, the model file read and the pool accepts
  -- every registration, a session of an agent with a configured host and a valid key ends stopped,
  -- with no process and no task, and registered under that host with the key that it had: whatever
  -- the recovery does, whether it raises, whatever frames come and whatever their handlers raise.
  pub session-IsRegistered :
      (events : List Event) (m : Agent W) {public : Text}
      → Accepts os pool m.config
      → truthy m.config.wg_endpoint_host ≡ true
      → truthy m.state.wg_private_key ≡ true
      → keys.derive_public_key m.state.wg_private_key ≡ some public
      → (n : Agent W) × ((session os pool keys hasher dumps events m).1 ≡ n)
        × ((n.state.wg_private_key ≡ m.state.wg_private_key)
            × ((id : Text) × (n.state.worker_id ≡ some id))
            × (n.state.endpoint_host ≡ m.config.wg_endpoint_host))
        × IsStopped n
  unfolding session
  session-IsRegistered events m accepts configured has_key derives =
      let (n0, done, (key, (id, has_id), host)) =
        ensure_registered-IsRegistered os pool keys hasher dumps m accepts configured has_key
          derives in
      let begun = (start os pool keys hasher dumps m).1 in
      let (same, stopped) =
        stop_after-Ends accepts.works events (start os pool keys hasher dumps m).0 begun in
      let (worker, account, private, public, endpoint) =
        IsSameWorker-trans (session os pool keys hasher dumps events m).1.state begun.state n0.state
          same (start-IsSameWorker m n0 done) in
      (_, refl, (private ∙ key, (id, worker ∙ has_id), endpoint ∙ host), stopped)
