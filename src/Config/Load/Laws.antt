-- ===== src/Config/Load/Laws.antt =====
-- What the environment and the file decide of a loaded configuration.
use prima_pool_client.Base.{
  Text, ℕ, zero, suc, ◌≡◌, refl, sym, ap, ◌∙◌, true, inl, inr, Option, none, some, if◌then◌else◌,
  List, [], ◌∷◌, codes, truthy, Result, ok, err, Error, get_elem?, Result-cases, continue-eq-ok,
  value_error,
}
use prima_pool_client.Base.Dict.{Dict, lookup}
use prima_pool_client.Config.{ClientConfig}
use prima_pool_client.Config.Load.{
  Readers, Toml, env_str, env_int, int_of, override, load, file_of, from_file,
}
use prima_pool_client.System.{Os}

-- The variables of the texts and of the integers, with their fields.
abbrev pub text_settings : List (Text × (ClientConfig → Text))
text_settings =
    (codes "PRIMA_POOL_URL", λ c. c.pool_url)
    ∷ (codes "PRIMA_POOL_API_KEY", λ c. c.api_key)
    ∷ (codes "PRIMA_POOL_MODEL", λ c. c.model)
    ∷ (codes "PRIMA_POOL_WG_PRIVATE_KEY", λ c. c.wg_private_key)
    ∷ (codes "PRIMA_POOL_WG_INTERFACE", λ c. c.wg_interface)
    ∷ (codes "PRIMA_POOL_WG_CONF_DIR", λ c. c.wg_conf_dir)
    ∷ (codes "PRIMA_POOL_WG_ENDPOINT_HOST", λ c. c.wg_endpoint_host)
    ∷ (codes "PRIMA_POOL_PRIMA_MODE", λ c. c.prima_mode)
    ∷ (codes "PRIMA_POOL_PRIMA_DIR", λ c. c.prima_dir)
    ∷ (codes "PRIMA_POOL_MODEL_FILE", λ c. c.model_file)
    ∷ (codes "PRIMA_POOL_MODEL_PATH", λ c. c.model_path)
    ∷ (codes "PRIMA_POOL_MEM_LIMIT", λ c. c.mem_limit)
    ∷ (codes "PRIMA_POOL_GPU_MEM_FLAG", λ c. c.gpu_mem_flag)
    ∷ (codes "PRIMA_POOL_BATCH_FLAGS", λ c. c.batch_flags)
    ∷ (codes "PRIMA_POOL_EXTRA_FLAGS", λ c. c.extra_flags)
    ∷ (codes "PRIMA_POOL_STATE_PATH", λ c. c.state_path)
    ∷ []

abbrev pub int_settings : List (Text × (ClientConfig → ℕ))
int_settings =
    (codes "PRIMA_POOL_MEMORY_MB", λ c. c.memory_allocated_mb)
    ∷ (codes "PRIMA_POOL_WG_LISTEN_PORT", λ c. c.wg_listen_port)
    ∷ (codes "PRIMA_POOL_WG_RELAY_CHECK_S", λ c. c.wg_relay_check_s)
    ∷ (codes "PRIMA_POOL_CTX_SIZE", λ c. c.ctx_size)
    ∷ (codes "PRIMA_POOL_API_PORT", λ c. c.api_port)
    ∷ []

-- `P` of every member.
abbrev pub Every {ℓ} : {A : Type ℓ} → (A → Type 0) → List A → Type 0
Every P [] = Unit
Every P (a ∷ rest) = P a × Every P rest

Every-get {ℓ} :
    {A : Type ℓ} (P : A → Type 0) (members : List A) (i : ℕ) {a : A}
    → Every P members
    → get_elem? members i ≡ some a
    → P a
Every-get P [] i e h = cc
Every-get P (b ∷ members) zero {a = a} (p, e) h = let same : b ≡ a = cc in rw (sym same) p
Every-get P (b ∷ members) (suc i) (p, e) h = Every-get P members i e h

ok-not-err : {A : Type 0} {C : Type 0} (r : Result A) {a : A} {e : Error} → r ≡ ok a → r ≡ err e → C
ok-not-err (ok a) h k = cc
ok-not-err (err e) h k = cc

env_int-err :
    (environ : Dict Text) (name : Text) (default : ℕ) (raw : Text) {e : Error}
    → lookup name environ ≡ some raw
    → truthy raw ≡ true
    → int_of raw ≡ err e
    → env_int environ name default ≡ err e
unfolding env_int
env_int-err environ name default raw set nonempty bad =
    ap (λ o. elim o [ none ↦ ok default | some r ↦ if truthy r then int_of r else ok default ]) set
    ∙ (ap (λ b. if b then int_of raw else ok default) nonempty ∙ bad)

-- Each field is what its variable makes of the file's value, which is kept where there is no
-- variable.
abbrev pub IsOverridden : Readers → Dict Text → ClientConfig → ClientConfig → Type 0
IsOverridden readers environ cfg c =
    Every (λ s. s.1 c ≡ env_str environ s.0 (s.1 cfg)) text_settings
    × Every (λ s. env_int environ s.0 (s.1 cfg) ≡ ok (s.1 c)) int_settings
    × (readers.float (
          env_str environ (codes "PRIMA_POOL_PRIMA_READY_TIMEOUT_S")
            (readers.str cfg.prima_ready_timeout_s))
        ≡ ok c.prima_ready_timeout_s)
    × (c.heartbeat_interval_s ≡ cfg.heartbeat_interval_s)
    × (c.ws_reconnect_backoff_s ≡ cfg.ws_reconnect_backoff_s)

pure-eq-ok :
    {A S : Type 0} {a b : A} {s t : S}
    → ◌≡◌ {A = Result A × S} (ok a, s) (ok b, t)
    → (a ≡ b) × (s ≡ t)
pure-eq-ok h = (cc, cc)

module _ {W : Type 0} (os : Os W) (readers : Readers) where
  override-eq-ok :
      (environ : Dict Text) (cfg : ClientConfig) (w : W) {c : ClientConfig} {w' : W}
      → override os readers environ cfg w ≡ (ok c, w')
      → IsOverridden readers environ cfg c × (w ≡ w')
  unfolding override
  override-eq-ok environ cfg w h =
      let (memory, h1, k1) = continue-eq-ok _ _ w h in
      let (port, h2, k2) = continue-eq-ok _ _ w k1 in
      let (check, h3, k3) = continue-eq-ok _ _ w k2 in
      let (ctx, h4, k4) = continue-eq-ok _ _ w k3 in
      let (api, h5, k5) = continue-eq-ok _ _ w k4 in
      let (timeout, h6, k6) = continue-eq-ok _ _ w k5 in
      let (same, moved) = pure-eq-ok k6 in
      (
        rw (sym same) (
          (
            refl,
            (
              refl,
              (
                refl,
                (
                  refl,
                  (
                    refl,
                    (
                      refl,
                      (
                        refl,
                        (refl, (refl, (refl, (refl, (refl, (refl, (refl, (refl, (refl, tt))))))))),
                      ),
                    ),
                  ),
                ),
              ),
            ),
          ),
          (h1, (h2, (h3, (h4, (h5, tt))))),
          h6,
          refl,
          refl,
        ),
        moved,
      )

  -- A configuration that is loaded is the file's, or the defaults where there is none, with the
  -- texts and integers whose variables are set taken from the environment instead; the cadence of
  -- the heartbeat and of the reconnections is the file's always.
  pub load-IsOverridden :
      (path : Option Text) (w : W) {c : ClientConfig} {w' : W}
      → load os readers path w ≡ (ok c, w')
      → (file : Toml) × (file_of os readers path w ≡ (ok file, w'))
        × IsOverridden readers (os.environ w') (from_file file) c
  unfolding load
  load-IsOverridden path w h =
      let (file, read, k) = continue-eq-ok _ (file_of os readers path w).0 _ h in
      let (overridden, moved) = override-eq-ok (os.environ (file_of os readers path w).1) _ _ k in
      rw (sym moved) (file, cc, overridden)

  -- Where the variable of an integer is set to a text that is no number, nothing is loaded.
  pub load_refused :
      (path : Option Text) (w : W) (i : ℕ) (name : Text) (get : ClientConfig → ℕ) (raw msg : Text)
      {file : Toml} {w' : W}
      → file_of os readers path w ≡ (ok file, w')
      → get_elem? int_settings i ≡ some (name, get)
      → lookup name (os.environ w') ≡ some raw
      → truthy raw ≡ true
      → int_of raw ≡ err (value_error msg)
      → (e : Error) × ((load os readers path w).0 ≡ err e)
  load_refused path w i name get raw msg {w' = w'} read there set nonempty bad =
      elim (Result-cases (load os readers path w).0) [
        | inr raised ↦ raised
        | inl (c, returned) ↦
            let (file', read', overridden) = load-IsOverridden path w {c = c} cc in
            let same : (load os readers path w).1 ≡ w' = ap (λ r. r.1) (sym read' ∙ read) in
            ok-not-err _
              (Every-get
                (λ s.
                  env_int (os.environ (load os readers path w).1) s.0 (s.1 (from_file file'))
                  ≡ ok (s.1 c))
                int_settings i overridden.1 there)
              (env_int-err _ name _ raw (ap (λ v. lookup name (os.environ v)) same ∙ set) nonempty
                bad)
      ]
