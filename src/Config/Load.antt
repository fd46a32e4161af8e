-- ===== src/Config/Load.antt =====
-- `ClientConfig.load` of src/prima_pool_client/config.py: the file, and the environment over it.
pub mod Laws
pub mod Precedence
pub mod Settings
pub mod Texts
use prima_pool_client.Base.{
  Text, ℕ, ◌==◌, Bool, true, false, ◌||◌, ◌&&◌, Option, none, some, List, [], ◌∷◌, codes, truthy,
  split_words, if◌then◌else◌, Result, ok, err, value_error, other_error, Exec, ◌>>=◌, pure, lift,
}
use prima_pool_client.Base.Decimal
use prima_pool_client.Base.Dict.{Dict, lookup}
use prima_pool_client.Config.{ClientConfig}
use prima_pool_client.System.{Os}

-- A configuration file whose values have the types of the fields, by their types: texts, integers,
-- durations in milliseconds, and lists of integers.
pub record Toml : Type 0 where
  pub texts : Dict Text
  pub integers : Dict ℕ
  pub durations : Dict ℕ
  pub lists : Dict (List ℕ)

-- The `tomllib` package, if there is one, and `float` of a text and `str` of a `float`, both of
-- milliseconds.
pub record Readers : Type 0 where
  pub toml : Option (List ℕ → Result Toml)
  pub float : Text → Result ℕ
  pub str : ℕ → Text

-- The value of a key, or the default of its field.
unfoldable pub value_or : {A : Type 0} → Text → A → Dict A → A
value_or key default d = elim (lookup key d) [ none ↦ default | some v ↦ v ]

-- `os.environ.get(name, default)`
unfoldable pub env_str : Dict Text → Text → Text → Text
unfolding value_or
env_str environ name default = value_or name default environ

-- Decimal digits with single underscores between them.
abbrev digit_groups : Bool → Text → Option Text
digit_groups after_digit [] = if after_digit then some [] else none
digit_groups after_digit (c ∷ s) =
    let digits = digit_groups true s in
    let next = digit_groups false s in
    if Decimal.is_digit c
    then elim digits [ none ↦ none | some rest ↦ some (c ∷ rest) ]
    else if c == b'_' && after_digit
    then next
    else none

-- `ValueError` of `int(raw)`.
abbrev pub invalid_int : {A : Type 0} → Result A
invalid_int = err (value_error (codes "invalid literal for int() with base 10"))

abbrev digits_value : Option Text → Result ℕ
digits_value none = invalid_int
digits_value (some digits) = ok (Decimal.int digits)

-- No setting is a negative number: the model has no value for one.
abbrev negative_value : Option Text → Result ℕ
negative_value none = invalid_int
negative_value (some digits) = err (other_error (codes "negative"))

unfoldable pub int_of_word : Text → Result ℕ
int_of_word [] = invalid_int
int_of_word (c ∷ s) =
    if c == b'-'
    then negative_value (digit_groups false s)
    else if c == b'+'
    then digits_value (digit_groups false s)
    else digits_value (digit_groups false (c ∷ s))

-- `int(raw)` of ASCII digits, with white space around them.
unfoldable pub int_of_words : List Text → Result ℕ
unfolding int_of_word
int_of_words (word ∷ []) = int_of_word word
int_of_words _ = invalid_int

unfoldable pub int_of : Text → Result ℕ
unfolding int_of_words
int_of raw = int_of_words (split_words raw)

-- `_env_int`: an empty value is none.
unfoldable pub env_int : Dict Text → Text → ℕ → Result ℕ
unfolding int_of
env_int environ name default = elim (lookup name environ) [
  | none ↦ ok default
  | some raw ↦ if truthy raw then int_of raw else ok default
]

-- `cls(**…)`: the file's values of known fields over the defaults.
unfoldable pub from_file : Toml → ClientConfig
unfolding value_or
from_file file = record {
  pool_url = value_or (codes "pool_url") (codes "http://127.0.0.1:8000") file.texts;
  api_key = value_or (codes "api_key") [] file.texts;
  model = value_or (codes "model") (codes "demo-model") file.texts;
  memory_allocated_mb = value_or (codes "memory_allocated_mb") 4096 file.integers;
  wg_private_key = value_or (codes "wg_private_key") [] file.texts;
  wg_listen_port = value_or (codes "wg_listen_port") 51820 file.integers;
  wg_interface = value_or (codes "wg_interface") (codes "prima-pool") file.texts;
  wg_conf_dir = value_or (codes "wg_conf_dir") (codes "/etc/wireguard") file.texts;
  wg_endpoint_host = value_or (codes "wg_endpoint_host") [] file.texts;
  wg_relay_check_s = value_or (codes "wg_relay_check_s") 10 file.integers;
  prima_mode = value_or (codes "prima_mode") (codes "same-container") file.texts;
  prima_dir = value_or (codes "prima_dir") (codes "~/prima") file.texts;
  model_file = value_or (codes "model_file") (codes "model.gguf") file.texts;
  model_path = value_or (codes "model_path") [] file.texts;
  mem_limit = value_or (codes "mem_limit") (codes "8g") file.texts;
  gpu_mem_flag = value_or (codes "gpu_mem_flag") [] file.texts;
  ctx_size = value_or (codes "ctx_size") 4096 file.integers;
  api_port = value_or (codes "api_port") 8080 file.integers;
  batch_flags = value_or (codes "batch_flags") [] file.texts;
  extra_flags = value_or (codes "extra_flags") [] file.texts;
  prima_ready_timeout_s = value_or (codes "prima_ready_timeout_s") 600000 file.durations;
  heartbeat_interval_s = value_or (codes "heartbeat_interval_s") 10000 file.durations;
  ws_reconnect_backoff_s = value_or (codes "ws_reconnect_backoff_s") (1 ∷ 30 ∷ []) file.lists;
  state_path =
      value_or (codes "state_path") (codes "~/.local/state/prima-pool/client-state.json")
        file.texts;
}

abbrev pub empty_file : Toml
empty_file = record { texts = []; integers = []; durations = []; lists = [] }

-- The texts of the environment and these numbers over `cfg`.
abbrev pub with_settings : Dict Text → ClientConfig → ℕ → ℕ → ℕ → ℕ → ℕ → ℕ → ClientConfig
with_settings environ cfg memory_allocated_mb wg_listen_port wg_relay_check_s ctx_size api_port
      prima_ready_timeout_s =
    record cfg {
      pool_url = env_str environ (codes "PRIMA_POOL_URL") cfg.pool_url;
      api_key = env_str environ (codes "PRIMA_POOL_API_KEY") cfg.api_key;
      model = env_str environ (codes "PRIMA_POOL_MODEL") cfg.model;
      memory_allocated_mb = memory_allocated_mb;
      wg_private_key = env_str environ (codes "PRIMA_POOL_WG_PRIVATE_KEY") cfg.wg_private_key;
      wg_listen_port = wg_listen_port;
      wg_interface = env_str environ (codes "PRIMA_POOL_WG_INTERFACE") cfg.wg_interface;
      wg_conf_dir = env_str environ (codes "PRIMA_POOL_WG_CONF_DIR") cfg.wg_conf_dir;
      wg_endpoint_host = env_str environ (codes "PRIMA_POOL_WG_ENDPOINT_HOST") cfg.wg_endpoint_host;
      wg_relay_check_s = wg_relay_check_s;
      prima_mode = env_str environ (codes "PRIMA_POOL_PRIMA_MODE") cfg.prima_mode;
      prima_dir = env_str environ (codes "PRIMA_POOL_PRIMA_DIR") cfg.prima_dir;
      model_file = env_str environ (codes "PRIMA_POOL_MODEL_FILE") cfg.model_file;
      model_path = env_str environ (codes "PRIMA_POOL_MODEL_PATH") cfg.model_path;
      mem_limit = env_str environ (codes "PRIMA_POOL_MEM_LIMIT") cfg.mem_limit;
      gpu_mem_flag = env_str environ (codes "PRIMA_POOL_GPU_MEM_FLAG") cfg.gpu_mem_flag;
      ctx_size = ctx_size;
      api_port = api_port;
      batch_flags = env_str environ (codes "PRIMA_POOL_BATCH_FLAGS") cfg.batch_flags;
      extra_flags = env_str environ (codes "PRIMA_POOL_EXTRA_FLAGS") cfg.extra_flags;
      prima_ready_timeout_s = prima_ready_timeout_s;
      state_path = env_str environ (codes "PRIMA_POOL_STATE_PATH") cfg.state_path;
    }

module _ {W : Type 0} (os : Os W) (readers : Readers) where
  -- `tomllib.load` of the opened file.
  unfoldable pub read_file : Text → (List ℕ → Result Toml) → Exec W Toml
  read_file path parse = do content ← os.read_bytes path; lift (parse content)

  unfoldable pub file_at : Option (List ℕ → Result Toml) → Text → Exec W Toml
  unfolding read_file
  file_at none path w = (ok empty_file, w)
  file_at (some parse) path w =
      if os.exists path w then read_file path parse w else (ok empty_file, w)

  unfoldable pub file_of : Option Text → Exec W Toml
  unfolding file_at
  file_of none = pure empty_file
  file_of (some path) =
      if truthy path then file_at readers.toml (os.expanduser path) else pure empty_file

  -- The settings of the environment over `cfg`, the integers in the source's order.
  unfoldable pub override : Dict Text → ClientConfig → Exec W ClientConfig
  unfolding env_str env_int
  override environ cfg = do
    memory_allocated_mb ←
        lift (env_int environ (codes "PRIMA_POOL_MEMORY_MB") cfg.memory_allocated_mb)
    wg_listen_port ← lift (env_int environ (codes "PRIMA_POOL_WG_LISTEN_PORT") cfg.wg_listen_port)
    wg_relay_check_s ←
        lift (env_int environ (codes "PRIMA_POOL_WG_RELAY_CHECK_S") cfg.wg_relay_check_s)
    ctx_size ← lift (env_int environ (codes "PRIMA_POOL_CTX_SIZE") cfg.ctx_size)
    api_port ← lift (env_int environ (codes "PRIMA_POOL_API_PORT") cfg.api_port)
    prima_ready_timeout_s ← lift (
        readers.float (
          env_str environ (codes "PRIMA_POOL_PRIMA_READY_TIMEOUT_S")
            (readers.str cfg.prima_ready_timeout_s)))
    pure (
        with_settings environ cfg memory_allocated_mb wg_listen_port wg_relay_check_s ctx_size
          api_port prima_ready_timeout_s)

  -- `ClientConfig.load`
  unfoldable pub load : Option Text → Exec W ClientConfig
  unfolding file_of from_file override
  load path = do file ← file_of path; λ w. override (os.environ w) (from_file file) w
