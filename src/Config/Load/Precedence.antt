-- ===== src/Config/Load/Precedence.antt =====
-- That each setting of a loaded configuration comes from the environment, the file or its default.
use prima_pool_client.Base.{
  Text, ℕ, ◌≡◌, refl, ap, ◌∙◌, ◌⊎◌, inl, inr, true, Option, none, some, [], ◌∷◌, codes, truthy, ok,
  continue,
}
use prima_pool_client.Base.Dict.{Dict, lookup}
use prima_pool_client.Config.{ClientConfig}
use prima_pool_client.Config.Load.{
  with_settings, Readers, Toml, value_or, env_str, env_int, int_of, override, load, file_of,
  from_file,
}
use prima_pool_client.Config.Load.Laws.{Every}
use prima_pool_client.Config.Load.Settings.{int_table, FromFile, IsLoaded, IsNumber, IsDuration}
use prima_pool_client.Config.Load.Texts.{value_or-FromFile, env_value, env_set, texts-IsText}
use prima_pool_client.System.{Os}

-- What an integer's variable and key give.
IntGiven : Dict Text → Text → Text → ℕ → Dict ℕ → ℕ → Type 0
IntGiven environ name key default d n =
    (env_int environ name (value_or key default d) ≡ ok n)
    × (((raw : Text) × (lookup name environ ≡ some raw) × (truthy raw ≡ true) × (int_of raw ≡ ok n))
        ⊎ (((lookup name environ ≡ none) ⊎ (lookup name environ ≡ some []))
            × FromFile key default d n))

int_or_file :
    (environ : Dict Text) (name key : Text) (default : ℕ) (d : Dict ℕ)
    → (lookup name environ ≡ none)
      ⊎ ((lookup name environ ≡ some [])
          ⊎ ((raw : Text) × (n : ℕ) × (lookup name environ ≡ some raw)
              × (truthy raw ≡ true)
              × (int_of raw ≡ ok n)))
    → (n : ℕ) × IntGiven environ name key default d n
unfolding IntGiven env_int truthy
int_or_file environ name key default d (inl unset) = (
  value_or key default d,
  (rw (env_int, unset) refl, inr (inl unset, value_or-FromFile key default d)),
)
int_or_file environ name key default d (inr (inl empty)) = (
  value_or key default d,
  (rw (env_int, empty) refl, inr (inr empty, value_or-FromFile key default d)),
)
int_or_file environ name key default d (inr (inr (raw, n, set, nonempty, number))) =
    (n, (rw (env_int, set, nonempty) number, inl (raw, set, nonempty, number)))

module _ (readers : Readers) (reads : (t : ℕ) → readers.float (readers.str t) ≡ ok t) where
  -- The time until readiness.
  TimeoutGiven : Dict Text → Dict ℕ → ℕ → Type 0
  TimeoutGiven environ d t =
      (readers.float (
          env_str environ (codes "PRIMA_POOL_PRIMA_READY_TIMEOUT_S")
            (readers.str (value_or (codes "prima_ready_timeout_s") 600_000 d)))
        ≡ ok t)
      × (((raw : Text) × (lookup (codes "PRIMA_POOL_PRIMA_READY_TIMEOUT_S") environ ≡ some raw)
            × (readers.float raw ≡ ok t))
          ⊎ ((lookup (codes "PRIMA_POOL_PRIMA_READY_TIMEOUT_S") environ ≡ none)
              × FromFile (codes "prima_ready_timeout_s") 600_000 d t))

  timeout_or_file :
      (environ : Dict Text) (d : Dict ℕ)
      → IsDuration readers environ
      → (t : ℕ) × TimeoutGiven environ d t
  unfolding TimeoutGiven
  timeout_or_file environ d (inl unset) =
      let t = value_or (codes "prima_ready_timeout_s") 600_000 d in
      (
        t,
        (
          ap readers.float (env_value environ _ (readers.str t) unset) ∙ reads t,
          inr (unset, value_or-FromFile (codes "prima_ready_timeout_s") 600_000 d),
        ),
      )
  timeout_or_file environ d (inr (raw, t, set, number)) =
      let own = readers.str (value_or (codes "prima_ready_timeout_s") 600_000 d) in
      (t, (ap readers.float (env_set environ _ own raw set) ∙ number, inl (raw, set, number)))

module _ {W : Type 0} (os : Os W) (readers : Readers)
    (reads : (t : ℕ) → readers.float (readers.str t) ≡ ok t) where
  override-IsLoaded :
      (environ : Dict Text) (file : Toml) (w : W)
      → Every (IsNumber environ) int_table
      → IsDuration readers environ
      → (c : ClientConfig) × (override os readers environ (from_file file) w ≡ (ok c, w))
        × IsLoaded readers environ file c
  unfolding override from_file IntGiven TimeoutGiven
  override-IsLoaded environ file w (i1, (i2, (i3, (i4, (i5, _))))) duration =
      let (n1, (h1, k1)) =
        int_or_file environ (codes "PRIMA_POOL_MEMORY_MB") (codes "memory_allocated_mb") 4096
          file.integers i1 in
      let (n2, (h2, k2)) =
        int_or_file environ (codes "PRIMA_POOL_WG_LISTEN_PORT") (codes "wg_listen_port") 51820
          file.integers i2 in
      let (n3, (h3, k3)) =
        int_or_file environ (codes "PRIMA_POOL_WG_RELAY_CHECK_S") (codes "wg_relay_check_s") 10
          file.integers i3 in
      let (n4, (h4, k4)) =
        int_or_file environ (codes "PRIMA_POOL_CTX_SIZE") (codes "ctx_size") 4096 file.integers
          i4 in
      let (n5, (h5, k5)) =
        int_or_file environ (codes "PRIMA_POOL_API_PORT") (codes "api_port") 8080 file.integers
          i5 in
      let (t, (h6, k6)) = timeout_or_file readers reads environ file.durations duration in
      (
        with_settings environ (from_file file) n1 n2 n3 n4 n5 t,
        simp (h1, h2, h3, h4, h5, h6),
        (
          texts-IsText environ file n1 n2 n3 n4 n5 t,
          (k1, (k2, (k3, (k4, (k5, tt))))),
          k6,
          value_or-FromFile (codes "heartbeat_interval_s") 10_000 file.durations,
          value_or-FromFile (codes "ws_reconnect_backoff_s") (1 ∷ 30 ∷ []) file.lists,
        ),
      )

  -- Where the file is read, or there is none, `float` reads what `str` writes, and the variables of
  -- numbers are not set or numbers, those of integers empty perhaps, a configuration is loaded. Each
  -- text and the time until readiness is the value of its variable if that is set, each integer if
  -- it is set and not empty, and without it the file's value of its key, or else its default. The
  -- cadence of the heartbeat and of the reconnections is the file's, or its default.
  pub load_returns :
      (path : Option Text) (w : W) {file : Toml} {w' : W}
      → file_of os readers path w ≡ (ok file, w')
      → Every (IsNumber (os.environ w')) int_table
      → IsDuration readers (os.environ w')
      → (c : ClientConfig) × (load os readers path w ≡ (ok c, w'))
        × IsLoaded readers (os.environ w') file c
  unfolding load
  load_returns path w {file = file} {w' = w'} read numbers duration =
      let (c, done, loaded) = override-IsLoaded (os.environ w') file w' numbers duration in
      (
        c,
        ap (continue (λ f v. override os readers (os.environ v) (from_file f) v)) read ∙ done,
        loaded,
      )
