-- ===== src/Tests/Commands.antt =====
-- The commands at concrete data.
use prima_pool_client.Base.{
  length, Option, Text, ℕ, zero, suc, ◌+◌, ◌≡◌, refl, inr, true, none, some, [], ◌∷◌, codes, truthy,
  text_eq, Result, ok, err, other_error, List, Bool, false, arith, ◌==◌,
}
use prima_pool_client.Base.Dict.{lookup}
use prima_pool_client.Base.Json.{Fields, str, obj, fields_of}
use prima_pool_client.Agent.Events.{heartbeat_due}
use prima_pool_client.Agent.Register.{ensure_keys}
use prima_pool_client.Agent.FirstStart.{session-first}
use prima_pool_client.Agent.Run.{session}
use prima_pool_client.Agent.Run.Laws.{IsStopped}
use prima_pool_client.Agent.State.{Agent, AgentState, fresh_state}
use prima_pool_client.Cli.{Console, BootstrapArgs, RunArgs, sign_up, run}
use prima_pool_client.Cli.Laws.{shown, sign_up-shown, RunOutcome, Under, run-Outcome}
use prima_pool_client.Config.{ClientConfig}
use prima_pool_client.Config.Load.{
  Readers, load, file_of, from_file, empty_file, override, env_int, env_str, value_or,
}
use prima_pool_client.Rest.{
  Response, Http, Schemas, Client, request, answer, json_of, register_account, login, create_key,
}
use prima_pool_client.Tests.Fixtures.{
  machine-Works, machine, agent, pool, keys, hasher, dumps, worker, cluster,
}
use prima_pool_client.WireGuard.Base64.Laws.{AreBytes}
use prima_pool_client.WireGuard.Keys
use prima_pool_client.WireGuard.Keys.{Curve, derive_public_key}
use prima_pool_client.WireGuard.Keys.Laws.{ensure_keys-again}

abbrev console : Console ℕ
console = record {
  input = λ prompt w. (ok (codes " alice "), w + 1);
  getpass = λ prompt w. (ok (codes "secret"), w + 1);
  print = λ t w. w + 1;
  print_error = λ t w. w + 1;
  print_help = λ w. w + 1;
  show = λ e. codes "error";
}

abbrev answers : Fields
answers = fields_of (
    (codes "account_id", str (codes "acc_1"))
    ∷ (codes "session_token", str (codes "tok"))
    ∷ (codes "api_key", str (codes "sk-worker-1"))
    ∷ [])

abbrev served : Response
served = record { status_code = 200; has_content = true; text = []; json = some (obj answers) }

abbrev conflict : Response
conflict = record { status_code = 409; has_content = true; text = codes "taken"; json = none }

-- The first request is the registration of a name that is taken.
abbrev taken : ℕ → Response
taken zero = conflict
taken (suc w) = served

abbrev http : Http ℕ
http = record { request = λ r w. (ok (taken w), w + 1); close = λ w. w }

abbrev bootstrap_args : BootstrapArgs
bootstrap_args = record {
  pool_url = codes "http://pool";
  username = some (codes "alice");
  password = some (codes "secret");
  name = codes "worker";
}

abbrev client : Client
client = record { base_url = codes "http://pool"; api_key = [] }

sign_up-shown_example :
    sign_up console http bootstrap_args client (codes "alice") (codes "secret") 0
    ≡ (ok 0, shown console http (codes "acc_1") (codes "sk-worker-1") 4)
unfolding lookup text_eq register_account login create_key request answer json_of
sign_up-shown_example =
    sign_up-shown console http bootstrap_args client (codes "alice") (codes "secret") 0 2 3 4
      answers answers answers (codes "acc_1") (codes "tok") (codes "sk-worker-1")
      (inr (_, 1, refl, refl)) refl refl refl refl refl

abbrev schemas : Schemas
schemas = record {
  worker = λ fields. ok worker;
  worker_state = λ fields. err (other_error []);
  cluster_config = λ fields. ok cluster;
  cluster_status = λ fields. err (other_error []);
}

abbrev readers : Readers
readers = record { toml = none; float = λ t. ok 600_000; str = λ n. [] }

abbrev loads : Text → Result AgentState
loads t = ok (fresh_state 0)

abbrev defaults : ClientConfig
defaults = from_file empty_file

abbrev run_args : RunArgs
run_args = record { config = none; pool_url = some (codes "http://pool"); api_key = none }

run-Outcome_example :
    (config : ClientConfig) × Under run_args defaults config
    × RunOutcome console http schemas machine readers keys hasher dumps loads
        (heartbeat_due ∷ [])
        config
        0
        (run console http schemas machine readers keys hasher dumps loads
          (heartbeat_due ∷ [])
          run_args
          0)
unfolding load file_of from_file override env_int env_str value_or lookup truthy text_eq
run-Outcome_example =
    run-Outcome console http schemas machine readers keys hasher dumps loads (heartbeat_due ∷ [])
      run_args 0 {cfg = defaults} refl

-- Two keys of 32 bytes.
abbrev zeros : ℕ → List ℕ
zeros zero = []
zeros (suc n) = 0 ∷ zeros n

abbrev key_bytes : Bool → List ℕ
key_bytes true = 1 ∷ zeros 31
key_bytes false = 2 ∷ zeros 31

abbrev key_of : List ℕ → Option Bool
key_of [] = none
key_of (b ∷ bytes) = some (b == 1)

zeros-AreBytes : (n : ℕ) → AreBytes (zeros n)
zeros-AreBytes zero = tt
zeros-AreBytes (suc n) = (omega arith, zeros-AreBytes n)

key_bytes-AreBytes : (key : Bool) → AreBytes (key_bytes key)
key_bytes-AreBytes true = (omega arith, zeros-AreBytes 31)
key_bytes-AreBytes false = (omega arith, zeros-AreBytes 31)

length-key_bytes : (key : Bool) → length (key_bytes key) ≡ 32
length-key_bytes true = refl
length-key_bytes false = refl

key_of-key_bytes : (key : Bool) → key_of (key_bytes key) ≡ some key
key_of-key_bytes true = refl
key_of-key_bytes false = refl

abbrev curve : Curve ℕ
curve = record {
  PrivateKey = Bool;
  generate = λ w. (true, w + 1);
  private_bytes = key_bytes;
  public_bytes = λ key. 255 ∷ key_bytes key;
  from_private_bytes = key_of;
  private_bytes-AreBytes = key_bytes-AreBytes;
  length-private_bytes = length-key_bytes;
  from_private_bytes-private_bytes = key_of-key_bytes;
}

abbrev without_key : Agent ℕ
without_key = record agent { state = record agent.state { wg_private_key = [] } }

ensure_keys-again_example :
    (n : Agent ℕ) × (ensure_keys machine pool (Keys.keys curve) hasher dumps without_key
      ≡ (ok tt, n))
    × (truthy n.state.wg_private_key ≡ true)
    × (derive_public_key curve n.state.wg_private_key ≡ some n.state.wg_public_key)
    × (ensure_keys machine pool (Keys.keys curve) hasher dumps n ≡ (ok tt, n))
ensure_keys-again_example = ensure_keys-again curve machine pool hasher dumps without_key refl

abbrev new_worker : Agent ℕ
new_worker = record agent { state = fresh_state 0 }

session-first_example :
    (n : Agent ℕ) × ((session machine pool
        (Keys.keys curve)
        hasher
        dumps
        (heartbeat_due ∷ [])
        new_worker).1
      ≡ n)
    × ((truthy n.state.wg_private_key ≡ true)
        × ((public : Text) × (derive_public_key curve n.state.wg_private_key ≡ some public))
        × ((id : Text) × (n.state.worker_id ≡ some id))
        × (n.state.endpoint_host ≡ codes "203.0.113.99"))
    × IsStopped n
unfolding truthy
session-first_example =
    session-first machine pool curve hasher dumps (heartbeat_due ∷ []) new_worker
      (record {
        works = machine-Works;
        has_model = λ w. refl;
        reads = λ w. (codes "GGUF", w + 1, refl);
        registers = λ payload w. (_, w + 1, refl);
      })
      refl refl refl
