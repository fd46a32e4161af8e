-- ===== src/Config/Load/Texts.antt =====
-- That each text of a loaded configuration comes from the environment, the file or its default.
use prima_pool_client.Base.{
  Text, ℕ, ◌≡◌, refl, sym, ap, ◌∙◌, ◌⊎◌, inl, inr, Option-cases, none, some, [], codes,
}
use prima_pool_client.Base.Dict.{Dict, lookup}
use prima_pool_client.Config.Load.{with_settings, Toml, value_or, env_str, from_file}
use prima_pool_client.Config.Load.Laws.{Every}
use prima_pool_client.Config.Load.Settings.{text_table, IsText, FromFile}

pub value_or-FromFile :
    {A : Type 0} (key : Text) (default : A) (d : Dict A)
    → FromFile key default d (value_or key default d)
unfolding value_or
value_or-FromFile key default d = elim (Option-cases (lookup key d)) [
  | inl missing ↦ inr (missing, rw (value_or, missing) refl)
  | inr (v, there) ↦ inl (there ∙ ap some (rw (value_or, there) refl))
]

pub env_value :
    (environ : Dict Text) (name own : Text)
    → lookup name environ ≡ none
    → env_str environ name own ≡ own
unfolding env_str value_or
env_value environ name own unset = rw (env_str, value_or, unset) refl

pub env_set :
    (environ : Dict Text) (name own raw : Text)
    → lookup name environ ≡ some raw
    → env_str environ name own ≡ raw
unfolding env_str value_or
env_set environ name own raw set = rw (env_str, value_or, set) refl

text_or_file :
    (environ : Dict Text) (name key default : Text) (d : Dict Text)
    → let v = env_str environ name (value_or key default d) in
      (lookup name environ ≡ some v) ⊎ ((lookup name environ ≡ none) × FromFile key default d v)
unfolding env_str
text_or_file environ name key default d = elim (Option-cases (lookup name environ)) [
  | inr (v, set) ↦ inl (set ∙ ap some (sym (env_set environ name _ v set)))
  | inl unset ↦ inr (
    unset,
    rw (env_value environ name (value_or key default d) unset) (value_or-FromFile key default d),
  )
]

pub texts-IsText :
    (environ : Dict Text) (file : Toml)
    (memory_allocated_mb wg_listen_port wg_relay_check_s ctx_size api_port timeout : ℕ)
    → Every
        (IsText environ file.texts (
          with_settings environ
            (from_file file)
            memory_allocated_mb
            wg_listen_port
            wg_relay_check_s
            ctx_size
            api_port
            timeout))
        text_table
unfolding from_file
texts-IsText environ file memory_allocated_mb wg_listen_port wg_relay_check_s ctx_size api_port
      timeout =
    (
      text_or_file environ (codes "PRIMA_POOL_URL") (codes "pool_url")
          (codes "http://127.0.0.1:8000") file.texts,
      (
        text_or_file environ (codes "PRIMA_POOL_API_KEY") (codes "api_key") ([]) file.texts,
        (
          text_or_file environ (codes "PRIMA_POOL_MODEL") (codes "model") (codes "demo-model")
              file.texts,
          (
            text_or_file environ (codes "PRIMA_POOL_WG_PRIVATE_KEY") (codes "wg_private_key") ([])
                file.texts,
            (
              text_or_file environ (codes "PRIMA_POOL_WG_INTERFACE") (codes "wg_interface")
                  (codes "prima-pool") file.texts,
              (
                text_or_file environ (codes "PRIMA_POOL_WG_CONF_DIR") (codes "wg_conf_dir")
                    (codes "/etc/wireguard") file.texts,
                (
                  text_or_file environ (codes "PRIMA_POOL_WG_ENDPOINT_HOST")
                      (codes "wg_endpoint_host") ([]) file.texts,
                  (
                    text_or_file environ (codes "PRIMA_POOL_PRIMA_MODE") (codes "prima_mode")
                        (codes "same-container") file.texts,
                    (
                      text_or_file environ (codes "PRIMA_POOL_PRIMA_DIR") (codes "prima_dir")
                          (codes "~/prima") file.texts,
                      (
                        text_or_file environ (codes "PRIMA_POOL_MODEL_FILE") (codes "model_file")
                            (codes "model.gguf") file.texts,
                        (
                          text_or_file environ (codes "PRIMA_POOL_MODEL_PATH") (codes "model_path")
                              ([]) file.texts,
                          (
                            text_or_file environ (codes "PRIMA_POOL_MEM_LIMIT") (codes "mem_limit")
                                (codes "8g") file.texts,
                            (
                              text_or_file environ (codes "PRIMA_POOL_GPU_MEM_FLAG")
                                  (codes "gpu_mem_flag") ([]) file.texts,
                              (
                                text_or_file environ (codes "PRIMA_POOL_BATCH_FLAGS")
                                    (codes "batch_flags") ([]) file.texts,
                                (
                                  text_or_file environ (codes "PRIMA_POOL_EXTRA_FLAGS")
                                      (codes "extra_flags") ([]) file.texts,
                                  (
                                    text_or_file environ (codes "PRIMA_POOL_STATE_PATH")
                                        (codes "state_path")
                                        (codes "~/.local/state/prima-pool/client-state.json")
                                        file.texts,
                                    tt,
                                  ),
                                ),
                              ),
                            ),
                          ),
                        ),
                      ),
                    ),
                  ),
                ),
              ),
            ),
          ),
        ),
      ),
    )
