-- ===== src/Agent/Register/Laws.antt =====
-- A worker with a key pair is registered under the configured host, and keeps its key.
use prima_pool_client.Base.{
  Text, ◌≡◌, refl, ◌∙◌, ap, true, Option, none, some, [], ◌∷◌, truthy, or_text_of_truthy, text_eq,
  text_eq_iff, Bool-cases, Result-cases, inl, inr, ok, ◌>>◌, arith,
}
use prima_pool_client.Agent.Register.{
  present, forget_worker, adopt_worker, advertised_endpoint_host, compute_gguf_hash, chunk_size,
  ensure_keys, send_registration, payload_of, adopt, register, after_check, check_worker,
  ensure_worker, ensure_registered,
}
use prima_pool_client.Agent.Returns.{
  AlwaysOk, Works, Returns, Returns-bind, Returns-then, Returns-self, Returns-modify,
  Returns-on_world, Returns-save_state,
}
use prima_pool_client.Agent.State.{Agent, AgentState, set_state}
use prima_pool_client.Config.{ClientConfig}
use prima_pool_client.Models.{Worker}
use prima_pool_client.Pool.{Pool, Payload, Keys}
use prima_pool_client.Prima.Hash.{Hasher, compute_gguf_sha256-whole}
use prima_pool_client.Prima.Launcher.{resolve_model_path}
use prima_pool_client.System.{Os}

-- What a registration relies on: the state file can be written, the model file is there and can be
-- read, and the pool accepts every registration.
pub record Accepts {W : Type 0} (os : Os W) (pool : Pool W) (config : ClientConfig) : Type 0 where
  pub works : Works os
  pub has_model : (w : W) → os.exists (resolve_model_path os config) w ≡ true
  pub reads : AlwaysOk (os.read_bytes (resolve_model_path os config))
  pub registers : (payload : Payload) → AlwaysOk (pool.register_worker payload)

module _ {W : Type 0} (os : Os W) (pool : Pool W) (keys : Keys W) (hasher : Hasher)
    (dumps : AgentState → Text) (config : ClientConfig) (key public : Text)
    (accepts : Accepts os pool config) (configured : truthy config.wg_endpoint_host ≡ true)
    (has_key : truthy key ≡ true) (derives : keys.derive_public_key key ≡ some public) where
  abbrev Has : Agent W → Type 0
  Has m = (m.config ≡ config) × (m.state.wg_private_key ≡ key)

  -- Registered under the configured host, with the key that was there.
  abbrev IsRegistered : Agent W → Type 0
  IsRegistered m =
      (m.state.wg_private_key ≡ key)
      × ((id : Text) × (m.state.worker_id ≡ some id))
      × (m.state.endpoint_host ≡ config.wg_endpoint_host)

  advertised_configured :
      (m : Agent W)
      → m.config ≡ config
      → advertised_endpoint_host os pool keys hasher dumps m ≡ config.wg_endpoint_host
  unfolding advertised_endpoint_host
  advertised_configured m e =
      or_text_of_truthy m.config.wg_endpoint_host _
        (ap (λ c. truthy c.wg_endpoint_host) e ∙ configured)
      ∙ ap (λ c. c.wg_endpoint_host) e

  Returns-ensure_keys : Returns Has (ensure_keys os pool keys hasher dumps) Has
  unfolding ensure_keys
  Returns-ensure_keys = record {
    at = λ m (ec, ek). (
      tt,
      record m { state = record m.state { wg_public_key = public } },
      simp (ek, has_key, derives),
      (ec, ek),
    );
  }

  Returns-compute_gguf_hash : Returns Has (compute_gguf_hash os pool keys hasher dumps) Has
  unfolding compute_gguf_hash
  Returns-compute_gguf_hash = record {
    at = λ m (ec, ek).
        let (content, w, e) = accepts.reads m.prima.world in
        let whole = compute_gguf_sha256-whole hasher chunk_size content (omega arith) in
        (
          hasher.hexdigest (hasher.update hasher.init content),
          record m { prima = record m.prima { world = w } },
          simp (ec, accepts.has_model, e, whole),
          (ec, ek),
        );
  }

  Returns-adopt : (w : Worker) → Returns Has (adopt os pool keys hasher dumps w) IsRegistered
  unfolding adopt adopt_worker
  Returns-adopt w = record {
    at = λ m (ec, ek). (
      tt,
      record m {
        state = adopt_worker w (advertised_endpoint_host os pool keys hasher dumps m) m.state;
      },
      refl,
      (ek, (w.worker_id, refl), advertised_configured m ec),
    );
  }

  Returns-register : Returns Has (register os pool keys hasher dumps) IsRegistered
  unfolding register send_registration
  Returns-register = Returns-then _ _ Returns-ensure_keys (
      Returns-bind _ _ Returns-compute_gguf_hash λ sha.
        Returns-bind {R = Has} _ _
          (Returns-self _ λ m.
            Returns-on_world (pool.register_worker (payload_of os pool keys hasher dumps m sha))
              (accepts.registers _) (λ n l h. h))
          λ w.
            Returns-then _ _ (Returns-adopt w)
              (Returns-save_state os accepts.works pool dumps (λ m l h. h) (λ m t h. h)))

  abbrev forgotten : Agent W → Agent W
  forgotten m = record m { state = forget_worker m.state }

  Returns-forget :
      Returns Has (do set_state forget_worker; register os pool keys hasher dumps) IsRegistered
  unfolding forget_worker
  Returns-forget = Returns-then {R = Has} _ _ (Returns-modify forgotten λ m h. h) Returns-register

  Returns-check_worker :
      (id : Text) (m : Agent W)
      → Has m
      → m.state.worker_id ≡ some id
      → (a : Unit {0}) × (n : Agent W) × (check_worker os pool keys hasher dumps id m ≡ (ok a, n))
        × IsRegistered n
  unfolding check_worker after_check
  Returns-check_worker id m h known =
      elim (Bool-cases
        (text_eq m.state.endpoint_host (advertised_endpoint_host os pool keys hasher dumps m))) [
          | inr moved ↦ let (a, n, e, r) = Returns-forget.at m h in (a, n, simp moved e, r)
          | inl same ↦
              let host = (text_eq_iff _ _).0 same ∙ advertised_configured m h.0 in
              let call = pool.get_worker_state id m.prima.world in
              let n : Agent W = record m { prima = record m.prima { world = call.1 } } in
              elim (Result-cases call.0) [
                | inl (st, known_there) ↦
                    (tt, n, simp (same, known_there), (h.1, (id, known), host))
                | inr (x, lost) ↦
                    let (a, o, e, r) = Returns-forget.at n h in (a, o, simp (same, lost) e, r)
              ]
        ]

  present-eq-some : (o : Option Text) (id : Text) → present o ≡ some id → o ≡ some id
  unfolding present
  present-eq-some none id e = e
  present-eq-some (some []) id e = cc
  present-eq-some (some (c ∷ s)) id e = e

  Returns-ensure_worker :
      (o : Option Text) (m : Agent W)
      → Has m
      → (present m.state.worker_id ≡ o)
      → (a : Unit {0}) × (n : Agent W) × (ensure_worker os pool keys hasher dumps o m ≡ (ok a, n))
        × IsRegistered n
  unfolding ensure_worker
  Returns-ensure_worker none m h e = Returns-register.at m h
  Returns-ensure_worker (some id) m h e =
      Returns-check_worker id m h (present-eq-some m.state.worker_id id e)

pub ensure_registered-IsRegistered :
    {W : Type 0} (os : Os W) (pool : Pool W) (keys : Keys W) (hasher : Hasher)
    (dumps : AgentState → Text) (m : Agent W) {public : Text}
    → Accepts os pool m.config
    → truthy m.config.wg_endpoint_host ≡ true
    → truthy m.state.wg_private_key ≡ true
    → keys.derive_public_key m.state.wg_private_key ≡ some public
    → (n : Agent W) × (ensure_registered os pool keys hasher dumps m ≡ (ok tt, n))
      × ((n.state.wg_private_key ≡ m.state.wg_private_key)
          × ((id : Text) × (n.state.worker_id ≡ some id))
          × (n.state.endpoint_host ≡ m.config.wg_endpoint_host))
unfolding ensure_registered
ensure_registered-IsRegistered os pool keys hasher dumps m {public} accepts configured has_key
      derives =
    let (a, n, e, r) =
      Returns-ensure_worker os pool keys hasher dumps m.config m.state.wg_private_key public accepts
        configured has_key derives (present m.state.worker_id) m (refl, refl) refl in
    (n, e, r)
