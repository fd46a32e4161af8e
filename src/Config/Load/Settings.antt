-- ===== src/Config/Load/Settings.antt =====
-- The settings of a configuration with their variables, keys and defaults, and where a value of one
-- can come from.
use prima_pool_client.Base.{Text, ℕ, ◌≡◌, ◌⊎◌, true, none, some, List, [], ◌∷◌, codes, truthy, ok}
use prima_pool_client.Base.Dict.{Dict, lookup}
use prima_pool_client.Config.{ClientConfig}
use prima_pool_client.Config.Load.{Readers, Toml, int_of}
use prima_pool_client.Config.Load.Laws.{Every}

-- A setting: its variable, its key in the file, its default and its field.
abbrev pub Setting : Type 0 → Type 0
Setting A = Text × (Text × (A × (ClientConfig → A)))

abbrev pub text_table : List (Setting Text)
text_table =
    (codes "PRIMA_POOL_URL", (codes "pool_url", (codes "http://127.0.0.1:8000", λ c. c.pool_url)))
    ∷ (codes "PRIMA_POOL_API_KEY", (codes "api_key", ([], λ c. c.api_key)))
    ∷ (codes "PRIMA_POOL_MODEL", (codes "model", (codes "demo-model", λ c. c.model)))
    ∷ (codes "PRIMA_POOL_WG_PRIVATE_KEY", (codes "wg_private_key", ([], λ c. c.wg_private_key)))
    ∷ (
      codes "PRIMA_POOL_WG_INTERFACE",
      (codes "wg_interface", (codes "prima-pool", λ c. c.wg_interface)),
    )
    ∷ (
      codes "PRIMA_POOL_WG_CONF_DIR",
      (codes "wg_conf_dir", (codes "/etc/wireguard", λ c. c.wg_conf_dir)),
    )
    ∷ (
      codes "PRIMA_POOL_WG_ENDPOINT_HOST",
      (codes "wg_endpoint_host", ([], λ c. c.wg_endpoint_host)),
    )
    ∷ (
      codes "PRIMA_POOL_PRIMA_MODE",
      (codes "prima_mode", (codes "same-container", λ c. c.prima_mode)),
    )
    ∷ (codes "PRIMA_POOL_PRIMA_DIR", (codes "prima_dir", (codes "~/prima", λ c. c.prima_dir)))
    ∷ (codes "PRIMA_POOL_MODEL_FILE", (codes "model_file", (codes "model.gguf", λ c. c.model_file)))
    ∷ (codes "PRIMA_POOL_MODEL_PATH", (codes "model_path", ([], λ c. c.model_path)))
    ∷ (codes "PRIMA_POOL_MEM_LIMIT", (codes "mem_limit", (codes "8g", λ c. c.mem_limit)))
    ∷ (codes "PRIMA_POOL_GPU_MEM_FLAG", (codes "gpu_mem_flag", ([], λ c. c.gpu_mem_flag)))
    ∷ (codes "PRIMA_POOL_BATCH_FLAGS", (codes "batch_flags", ([], λ c. c.batch_flags)))
    ∷ (codes "PRIMA_POOL_EXTRA_FLAGS", (codes "extra_flags", ([], λ c. c.extra_flags)))
    ∷ (
      codes "PRIMA_POOL_STATE_PATH",
      (
        codes "state_path",
        (codes "~/.local/state/prima-pool/client-state.json", λ c. c.state_path),
      ),
    )
    ∷ []

abbrev pub int_table : List (Setting ℕ)
int_table =
    (
      codes "PRIMA_POOL_MEMORY_MB",
      (codes "memory_allocated_mb", (4096, λ c. c.memory_allocated_mb)),
    )
    ∷ (codes "PRIMA_POOL_WG_LISTEN_PORT", (codes "wg_listen_port", (51820, λ c. c.wg_listen_port)))
    ∷ (
      codes "PRIMA_POOL_WG_RELAY_CHECK_S",
      (codes "wg_relay_check_s", (10, λ c. c.wg_relay_check_s)),
    )
    ∷ (codes "PRIMA_POOL_CTX_SIZE", (codes "ctx_size", (4096, λ c. c.ctx_size)))
    ∷ (codes "PRIMA_POOL_API_PORT", (codes "api_port", (8080, λ c. c.api_port)))
    ∷ []

-- The file's value of a key, or the default where the file has none.
abbrev pub FromFile : {A : Type 0} → Text → A → Dict A → A → Type 0
FromFile key default file v =
    (lookup key file ≡ some v) ⊎ ((lookup key file ≡ none) × (v ≡ default))

-- A text is its variable's value, an empty one too, and without the variable the file's.
abbrev pub IsText : Dict Text → Dict Text → ClientConfig → Setting Text → Type 0
IsText environ file c (name, (key, (default, get))) =
    (lookup name environ ≡ some (get c))
    ⊎ ((lookup name environ ≡ none) × FromFile key default file (get c))

-- An integer is its variable's value, and the file's without the variable or with an empty one.
abbrev pub IsInt : Dict Text → Dict ℕ → ClientConfig → Setting ℕ → Type 0
IsInt environ file c (name, (key, (default, get))) =
    ((raw : Text) × (lookup name environ ≡ some raw)
      × (truthy raw ≡ true)
      × (int_of raw ≡ ok (get c)))
    ⊎ (((lookup name environ ≡ none) ⊎ (lookup name environ ≡ some []))
        × FromFile key default file (get c))

-- The time until readiness is its variable's value as a `float`, and the file's without it.
abbrev pub IsTimeout : Readers → Dict Text → Dict ℕ → ClientConfig → Type 0
IsTimeout readers environ file c =
    ((raw : Text) × (lookup (codes "PRIMA_POOL_PRIMA_READY_TIMEOUT_S") environ ≡ some raw)
      × (readers.float raw ≡ ok c.prima_ready_timeout_s))
    ⊎ ((lookup (codes "PRIMA_POOL_PRIMA_READY_TIMEOUT_S") environ ≡ none)
        × FromFile (codes "prima_ready_timeout_s") 600_000 file c.prima_ready_timeout_s)

abbrev pub IsLoaded : Readers → Dict Text → Toml → ClientConfig → Type 0
IsLoaded readers environ file c =
    Every (IsText environ file.texts c) text_table
    × Every (IsInt environ file.integers c) int_table
    × IsTimeout readers environ file.durations c
    × FromFile (codes "heartbeat_interval_s") 10_000 file.durations c.heartbeat_interval_s
    × FromFile (codes "ws_reconnect_backoff_s") (1 ∷ 30 ∷ []) file.lists c.ws_reconnect_backoff_s

-- The variable of an integer is not set, empty or a number.
abbrev pub IsNumber : Dict Text → Setting ℕ → Type 0
IsNumber environ (name, _) =
    (lookup name environ ≡ none)
    ⊎ ((lookup name environ ≡ some [])
        ⊎ ((raw : Text) × (n : ℕ) × (lookup name environ ≡ some raw)
            × (truthy raw ≡ true)
            × (int_of raw ≡ ok n)))

-- The variable of the time until readiness is not set or a number.
abbrev pub IsDuration : Readers → Dict Text → Type 0
IsDuration readers environ =
    (lookup (codes "PRIMA_POOL_PRIMA_READY_TIMEOUT_S") environ ≡ none)
    ⊎ ((raw : Text) × (t : ℕ) × (lookup (codes "PRIMA_POOL_PRIMA_READY_TIMEOUT_S") environ
          ≡ some raw)
        × (readers.float raw ≡ ok t))
