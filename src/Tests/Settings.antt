-- ===== src/Tests/Settings.antt =====
-- Loading a configuration, commands and sessions, at concrete data.
use prima_pool_client.Base.{
  Text, ℕ, ◌+◌, ap, inr, ◌≡◌, refl, inl, none, some, [], ◌∷◌, codes, truthy, text_eq, is_space,
  split_words, Error, ok, err,
}
use prima_pool_client.Base.Decimal
use prima_pool_client.Base.Dict.{Dict, lookup}
use prima_pool_client.Agent.Events.{heartbeat_due, relay_due, run_events}
use prima_pool_client.Agent.Membership.{IsMembership, run_events-IsMembership}
use prima_pool_client.Agent.Run.{session}
use prima_pool_client.Agent.Run.Laws.{IsStopped, session-IsRegistered}
use prima_pool_client.Agent.State.{Agent}
use prima_pool_client.Config.{ClientConfig}
use prima_pool_client.Config.Load.{
  Toml, Readers, load, file_of, file_at, read_file, from_file, override, env_int, env_str, value_or,
  int_of, int_of_words, int_of_word,
}
use prima_pool_client.Config.Load.Laws.{load_refused}
use prima_pool_client.Config.Load.Precedence.{load_returns}
use prima_pool_client.Config.Load.Settings.{IsLoaded}
use prima_pool_client.System.{Os}
use prima_pool_client.Tests.Fixtures.{
  machine, machine-Works, config, agent, pool, keys, hasher, dumps,
}
use prima_pool_client.WireGuard.Handshakes.{parse_handshakes}
use prima_pool_client.WireGuard.Handshakes.Laws.{parse_handshakes-shown, shown}

abbrev with_environ : Dict Text → Os ℕ
with_environ environ = record machine { environ = λ w. environ }

-- A key that is no field is ignored.
abbrev file : Toml
file = record {
  texts =
      (codes "api_key", codes "sk-worker-test")
      ∷ (codes "colour", codes "red")
      ∷ (codes "wg_endpoint_host", codes "203.0.113.99")
      ∷ (codes "prima_dir", codes "/prima")
      ∷ (codes "state_path", codes "/state.json")
      ∷ [];
  integers = (codes "ctx_size", 2048) ∷ [];
  durations = [];
  lists = [];
}

abbrev readers : Readers
readers = record {
  toml = some (λ content. ok file);
  float = λ t. ok (Decimal.int t);
  str = Decimal.str;
}

abbrev environ : Dict Text
environ =
    (codes "PRIMA_POOL_MODEL", codes "other-model")
    ∷ (codes "PRIMA_POOL_MEMORY_MB", codes " 8_192 ")
    ∷ (codes "PRIMA_POOL_CTX_SIZE", [])
    ∷ []

abbrev loaded : ClientConfig
loaded = record config { model = codes "other-model"; memory_allocated_mb = 8192; ctx_size = 2048 }

load_returns_example :
    (c : ClientConfig) × (load (with_environ environ) readers (some (codes "/client.toml")) 0
      ≡ (ok c, 1))
    × IsLoaded readers environ file c
unfolding file_of file_at read_file int_of int_of_words int_of_word truthy lookup split_words
    Decimal.int Decimal.is_digit is_space text_eq
load_returns_example =
    load_returns (with_environ environ) readers (λ t. ap ok (Decimal.int-str t))
      (some (codes "/client.toml")) 0 {file = file} refl
      (
        inr (inr (codes " 8_192 ", 8192, refl, refl, refl)),
        (inl refl, (inl refl, (inr (inl refl), (inl refl, tt)))),
      )
      (inl refl)

-- What is loaded there.
load_environ : load (with_environ environ) readers (some (codes "/client.toml")) 0 ≡ (ok loaded, 1)
unfolding load file_of file_at read_file from_file override env_int env_str value_or int_of
    int_of_words int_of_word truthy lookup split_words Decimal.int Decimal.str Decimal.is_digit
    is_space text_eq
load_environ = refl

abbrev bad_environ : Dict Text
bad_environ = (codes "PRIMA_POOL_CTX_SIZE", codes "4k") ∷ []

load_refused_example : (e : Error) × ((load (with_environ bad_environ) readers none 0).0 ≡ err e)
unfolding file_of int_of int_of_words int_of_word truthy lookup split_words Decimal.is_digit
    is_space text_eq
load_refused_example =
    load_refused (with_environ bad_environ) readers none 0 3 (codes "PRIMA_POOL_CTX_SIZE")
      (λ c. c.ctx_size) (codes "4k") _ refl refl refl refl refl

run_events-IsMembership_example :
    IsMembership (run_events machine pool dumps (heartbeat_due ∷ relay_due ∷ []) agent)
run_events-IsMembership_example =
    run_events-IsMembership machine pool dumps (heartbeat_due ∷ relay_due ∷ []) agent
      (inl (codes "clu_1", refl))

session-IsRegistered_example :
    (n : Agent ℕ) × ((session machine pool keys hasher dumps (relay_due ∷ []) agent).1 ≡ n)
    × ((n.state.wg_private_key ≡ codes "priv")
        × ((id : Text) × (n.state.worker_id ≡ some id))
        × (n.state.endpoint_host ≡ codes "203.0.113.99"))
    × IsStopped n
unfolding truthy
session-IsRegistered_example =
    session-IsRegistered machine pool keys hasher dumps (relay_due ∷ []) agent
      (record {
        works = machine-Works;
        has_model = λ w. refl;
        reads = λ w. (codes "GGUF", w + 1, refl);
        registers = λ payload w. (_, w + 1, refl);
      })
      refl refl refl

abbrev peers : Dict ℕ
peers = (codes "pubA=", 1700000000) ∷ (codes "pubB=", 0) ∷ []

parse_handshakes-shown_example : parse_handshakes (shown peers) ≡ peers
unfolding lookup is_space text_eq
parse_handshakes-shown_example = parse_handshakes-shown peers (refl, refl, (refl, refl, tt))
