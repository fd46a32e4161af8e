-- ===== src/Agent/FirstStart.antt =====
-- The first session of a worker, which has neither an identity nor a key.
use prima_pool_client.Base.{
  Text, ◌≡◌, sym, ap, ◌∙◌, true, none, some, List, [], truthy, Result, Exec, ◌>>=◌, ◌>>◌, continue,
}
use prima_pool_client.Agent.Events.{Event}
use prima_pool_client.Agent.Frames.{recover_state}
use prima_pool_client.Agent.Register.{
  ensure_registered, ensure_worker, register, present, ensure_keys, compute_gguf_hash,
  send_registration, adopt,
}
use prima_pool_client.Agent.Register.Laws.{Accepts}
use prima_pool_client.Agent.Run.{start, session, stop_after, open_channel}
use prima_pool_client.Agent.Run.Laws.{IsStopped, session-IsRegistered}
use prima_pool_client.Agent.State.{Agent, AgentState, self, save_state}
use prima_pool_client.Pool.{Pool}
use prima_pool_client.Prima.Hash.{Hasher}
use prima_pool_client.System.{Os}
use prima_pool_client.WireGuard.Keys.{Curve, derive_public_key, keys}
use prima_pool_client.WireGuard.Keys.Laws.{with_pair, ensure_keys-with_pair}

module _ {W : Type 0} (os : Os W) (pool : Pool W) (curve : Curve W) (hasher : Hasher)
    (dumps : AgentState → Text) where
  abbrev registered : Agent W → Result (Unit {0}) × Agent W
  registered = ensure_registered os pool (keys curve) hasher dumps

  -- What follows the keys in `register`.
  abbrev with_keys : Unit {0} → Exec (Agent W) Unit
  with_keys _ = do
    gguf_sha256 ← compute_gguf_hash os pool (keys curve) hasher dumps
    worker ← send_registration os pool (keys curve) hasher dumps gguf_sha256
    adopt os pool (keys curve) hasher dumps worker
    save_state os dumps

  -- Two agents without an identity, whose keys `ensure_keys` makes alike, are registered alike.
  ensure_registered-alike :
      (m n : Agent W)
      → ensure_keys os pool (keys curve) hasher dumps m
        ≡ ensure_keys os pool (keys curve) hasher dumps n
      → m.state.worker_id ≡ none
      → n.state.worker_id ≡ none
      → registered m ≡ registered n
  unfolding ensure_registered ensure_worker register present
  ensure_registered-alike m n same new_m new_n =
      ap (λ o. ensure_worker os pool (keys curve) hasher dumps (present o) m) new_m
      ∙ ap (continue with_keys) same
      ∙ sym (ap (λ o. ensure_worker os pool (keys curve) hasher dumps (present o) n) new_n)

  abbrev after_registration : Unit {0} → Exec (Agent W) Unit
  after_registration _ = do
    m ← self
    open_channel (present m.state.worker_id)
    recover_state os pool dumps

  -- And so they have the same session.
  session-alike :
      (events : List Event) (m n : Agent W)
      → registered m ≡ registered n
      → session os pool (keys curve) hasher dumps events m
        ≡ session os pool (keys curve) hasher dumps events n
  unfolding session start
  session-alike events m n same =
      ap
        (λ q.
          let (r, o) = continue after_registration q in
          stop_after os pool (keys curve) hasher dumps events r o)
        same

  -- Where programs can be started, the state file written, the model file read and the pool accepts
  -- every registration, the first session of an agent with a configured host, which has neither an
  -- identity nor a key, ends stopped, with no process and no task, and registered under that host
  -- with a valid key of its own: whatever the recovery does, whatever frames come and whatever
  -- their handlers raise.
  pub session-first :
      (events : List Event) (m : Agent W)
      → Accepts os pool m.config
      → truthy m.config.wg_endpoint_host ≡ true
      → m.state.wg_private_key ≡ []
      → m.state.worker_id ≡ none
      → (n : Agent W) × ((session os pool (keys curve) hasher dumps events m).1 ≡ n)
        × ((truthy n.state.wg_private_key ≡ true)
            × ((public : Text) × (derive_public_key curve n.state.wg_private_key ≡ some public))
            × ((id : Text) × (n.state.worker_id ≡ some id))
            × (n.state.endpoint_host ≡ m.config.wg_endpoint_host))
        × IsStopped n
  unfolding keys
  session-first events m accepts configured no_key new =
      let (private, w) = curve.generate m.prima.world in
      let m' = with_pair curve os pool hasher dumps private w m in
      let (made, has_key, derived, kept) =
        ensure_keys-with_pair curve os pool hasher dumps m no_key in
      let (n, ended, (key, id, host), stopped) =
        session-IsRegistered os pool (keys curve) hasher dumps events m' accepts configured has_key
          derived in
      (
        n,
        ap (λ q. q.1)
              (session-alike events m m' (ensure_registered-alike m m' (made ∙ sym kept) new new))
            ∙ ended,
        (ap truthy key ∙ has_key, (_, ap (derive_public_key curve) key ∙ derived), id, host),
        stopped,
      )
