-- ===== src/Agent/Restart.antt =====
-- A restart behind a registration.
use prima_pool_client.Base.{
  Text, ℕ, ◌≡◌, refl, sym, ap, ◌∙◌, true, some, ◌∷◌, truthy, text_eq, text_eq_refl,
  or_text_of_truthy, Result, ok, continue-eq-ok,
}
use prima_pool_client.Agent.Persist.{load_state, Stores, saved, save_state-saved}
use prima_pool_client.Agent.Register.{
  ensure_registered, ensure_worker, check_worker, after_check, register, present,
  advertised_endpoint_host, adopt, adopt_worker, ensure_keys, compute_gguf_hash, send_registration,
}
use prima_pool_client.Agent.Returns.{Works}
use prima_pool_client.Agent.Run.{new_agent, with_state}
use prima_pool_client.Agent.State.{Agent, AgentState, save_state}
use prima_pool_client.Models.{WorkerState}
use prima_pool_client.Pool.{Pool, Keys}
use prima_pool_client.Prima.Hash.{Hasher}
use prima_pool_client.System.{Os}

module _ {W : Type 0} (os : Os W) (pool : Pool W) (keys : Keys W) (hasher : Hasher)
    (dumps : AgentState → Text) (loads : Text → Result AgentState) where
  host_of_config :
      (m : Agent W)
      → truthy m.config.wg_endpoint_host ≡ true
      → advertised_endpoint_host os pool keys hasher dumps m ≡ m.config.wg_endpoint_host
  unfolding advertised_endpoint_host
  host_of_config m configured = or_text_of_truthy m.config.wg_endpoint_host _ configured

  -- A registered agent whose pool knows its worker only asks for it.
  ensure_registered-known :
      (m : Agent W) {c : ℕ} {s : Text} {st : WorkerState} {w : W}
      → m.state.worker_id ≡ some (c ∷ s)
      → m.state.endpoint_host ≡ advertised_endpoint_host os pool keys hasher dumps m
      → pool.get_worker_state (c ∷ s) m.prima.world ≡ (ok st, w)
      → ensure_registered os pool keys hasher dumps m
        ≡ (ok tt, record m { prima = record m.prima { world = w } })
  unfolding ensure_registered ensure_worker check_worker after_check present
  ensure_registered-known m {c} {s} known there asked =
      let advertised = advertised_endpoint_host os pool keys hasher dumps m in
      let same : text_eq m.state.endpoint_host advertised ≡ true =
        ap (λ t. text_eq t advertised) there ∙ text_eq_refl advertised in
      ap (λ o. ensure_worker os pool keys hasher dumps (present o) m) known ∙ simp (same, asked)

  -- The save that ends a registration, of a state with the advertised host.
  register-eq-ok :
      (m n : Agent W)
      → register os pool keys hasher dumps m ≡ (ok tt, n)
      → (o : Agent W) × (save_state os dumps o ≡ (ok tt, n))
        × (o.state.endpoint_host ≡ advertised_endpoint_host os pool keys hasher dumps o)
  unfolding register adopt adopt_worker advertised_endpoint_host
  register-eq-ok m n h =
      let (_, e1, h1) = continue-eq-ok _ (ensure_keys os pool keys hasher dumps m).0 _ h in
      let (hash, e2, h2) =
        continue-eq-ok _
          (compute_gguf_hash os pool keys hasher dumps
            (ensure_keys os pool keys hasher dumps m).1).0
          _ h1 in
      let (worker, e3, h3) =
        continue-eq-ok _
          (send_registration os pool keys hasher dumps hash
            (compute_gguf_hash os pool keys hasher dumps
              (ensure_keys os pool keys hasher dumps m).1).1).0
          _ h2 in
      (_, h3, refl)

  -- What a saved state is for the next agent.
  Restarts : Agent W → Type 0
  Restarts n =
      (load_state os dumps loads n.config n.prima.world ≡ ok n.state)
      × (truthy n.config.wg_endpoint_host ≡ true
          → n.state.endpoint_host ≡ n.config.wg_endpoint_host)

  saved-Restarts :
      (o : Agent W) (t : ℕ) (w : W)
      → load_state os dumps loads o.config w ≡ ok (saved os dumps loads o t w).state
      → o.state.endpoint_host ≡ advertised_endpoint_host os pool keys hasher dumps o
      → Restarts (saved os dumps loads o t w)
  unfolding Restarts
  saved-Restarts o t w loaded host = (loaded, λ configured. host ∙ host_of_config o configured)

  -- Where the state file can be written, what is written is read, and the state is printed so that
  -- it can be read back: behind a registration that returned, an agent that starts anew with the same
  -- configuration, which has a host, has the state of the one that was registered, and while the
  -- pool knows the worker `_ensure_registered` registers it no second time: it asks for the worker
  -- once and changes nothing.
  pub register-once :
      (m n : Agent W) {c : ℕ} {s : Text} {st : WorkerState} {w : W}
      → Works os
      → Stores os dumps loads
      → loads (dumps n.state) ≡ ok n.state
      → register os pool keys hasher dumps m ≡ (ok tt, n)
      → truthy n.config.wg_endpoint_host ≡ true
      → n.state.worker_id ≡ some (c ∷ s)
      → pool.get_worker_state (c ∷ s) n.prima.world ≡ (ok st, w)
      → (a : Agent W) × (new_agent os dumps loads n.config n.prima.world ≡ ok a)
        × (a.state ≡ n.state)
        × (ensure_registered os pool keys hasher dumps a
            ≡ (ok tt, record a { prima = record a.prima { world = w } }))
  unfolding new_agent with_state Restarts
  register-once m n works stores prints returned configured known asked =
      let (o, done, host) = register-eq-ok m n returned in
      let (t, w0, kept, load) = save_state-saved os dumps loads o works stores in
      let same : saved os dumps loads o t w0 ≡ n = ap (λ q. q.1) (sym kept ∙ done) in
      let reads : loads (dumps (saved os dumps loads o t w0).state)
          ≡ ok (saved os dumps loads o t w0).state =
        ap (λ a. loads (dumps a.state)) same ∙ prints ∙ sym (ap (λ a. ok a.state) same) in
      let (found, hosted) : Restarts n = rw (sym same) (saved-Restarts o t w0 (load reads) host) in
      let a = with_state os dumps loads n.config n.prima.world n.state in
      (
        a,
        rw (found, new_agent) refl,
        refl,
        ensure_registered-known a known (hosted configured ∙ sym (host_of_config a configured))
            asked,
      )
