-- ===== src/Cli.antt =====
-- src/prima_pool_client/cli.py: the commands of the program.
pub mod Laws
use prima_pool_client.Base.{
  Text, ℕ, not, Option, none, some, List, [], ◌++◌, codes, truthy, or_text, strip, if◌then◌else◌,
  Error, Result, ok, err, key_error, type_error, other_error, Exec, ◌>>=◌, ◌>>◌, pure, raise, lift,
  modify,
}
use prima_pool_client.Base.Dict.{lookup}
use prima_pool_client.Base.Json.{Json, Fields, obj, str, entries}
use prima_pool_client.Agent.Events.{Event}
use prima_pool_client.Agent.Register.{present}
use prima_pool_client.Agent.Run.{new_agent, session}
use prima_pool_client.Agent.State.{Agent, AgentState}
use prima_pool_client.Config.{ClientConfig}
use prima_pool_client.Config.Load.{Readers, load}
use prima_pool_client.Pool.{Keys}
use prima_pool_client.Prima.Hash.{Hasher}
use prima_pool_client.Rest.{
  Http, Schemas, Client, new_client, pool_client, register_account, login, create_key,
}
use prima_pool_client.System.{Os}

-- The terminal: `input`, `getpass.getpass`, `print` to its two streams, the parser's help, and the
-- text of an error.
pub record Console (W : Type 0) : Type 0 where
  pub input : Text → Exec W Text
  pub getpass : Text → Exec W Text
  pub print : Text → W → W
  pub print_error : Text → W → W
  pub print_help : W → W
  pub show : Error → Text

-- The parsed arguments of the commands.
pub record BootstrapArgs : Type 0 where
  pub pool_url : Text
  pub username : Option Text
  pub password : Option Text
  pub name : Text

pub record RunArgs : Type 0 where
  pub config : Option Text
  pub pool_url : Option Text
  pub api_key : Option Text

pub data Command : Type 0 where
  bootstrap_command : BootstrapArgs → Command
  run_command : RunArgs → Command
  genkey_command no_command : Command

-- `answer[key]`, whose values the control plane documents as texts.
abbrev as_text : Text → Option Json → Result Text
as_text key none = err (key_error key)
as_text key (some (str t)) = ok t
as_text key (some v) = err (other_error (codes "not a text"))

unfoldable pub item : Option Json → Text → Result Text
item (some (obj fields)) key = as_text key (lookup key (entries fields))
item _ key = err (type_error (codes "not subscriptable"))

module _ {W : Type 0} where
  -- `try`: the error, if there is one, as a value.
  abbrev pub caught : {A : Type 0} → Exec W A → Exec W (Result A)
  caught call w = let (r, w') = call w in (ok r, w')

  -- `given or ask()`
  unfoldable pub or_ask : Option Text → Exec W Text → Exec W Text
  unfolding present
  or_ask given ask = elim (present given) [ none ↦ ask | some t ↦ pure t ]

module _ {W : Type 0} (console : Console W) (http : Http W) where
  -- The session of the account, its key, and what is shown of them.
  unfoldable pub show_key : BootstrapArgs → Client → Text → Text → Option Json → Exec W ℕ
  unfolding item
  show_key args client username password account = do
    session ← login http client username password
    account_id ← lift (item account (codes "account_id"))
    session_token ← lift (item session (codes "session_token"))
    key ← create_key http client account_id args.name (codes "worker") session_token
    modify (console.print (codes "account_id: " ++ account_id))
    api_key ← lift (item key (codes "api_key"))
    modify (console.print (codes "worker key: " ++ api_key))
    modify (console.print (codes "Save this key — it is shown only once."))
    modify http.close
    pure 0

  -- The first error is the one that is shown.
  unfoldable pub after_login :
      BootstrapArgs → Client → Text → Text → Error → Result (Option Json) → Exec W ℕ
  unfolding show_key
  after_login args client username password refused (ok account) =
      show_key args client username password account
  after_login args client username password refused (err _) = do
    modify (console.print_error (codes "error: " ++ console.show refused))
    pure 1

  -- The account may be there already.
  unfoldable pub after_register :
      BootstrapArgs → Client → Text → Text → Result (Option Json) → Exec W ℕ
  unfolding show_key after_login
  after_register args client username password (ok account) =
      show_key args client username password account
  after_register args client username password (err refused) = do
    logged_in ← caught (login http client username password)
    after_login args client username password refused logged_in

  unfoldable pub sign_up : BootstrapArgs → Client → Text → Text → Exec W ℕ
  unfolding after_register
  sign_up args client username password = do
    registered ← caught (register_account http client username password)
    after_register args client username password registered

  -- `_bootstrap`
  unfoldable pub bootstrap : BootstrapArgs → Exec W ℕ
  unfolding or_ask sign_up
  bootstrap args = do
    username ←
        or_ask args.username (do typed ← console.input (codes "Username: "); pure (strip typed))
    password ← or_ask args.password (console.getpass (codes "Password: "))
    sign_up args (new_client args.pool_url []) username password

-- The arguments over the configuration.
unfoldable pub with_args : RunArgs → ClientConfig → ClientConfig
unfolding present
with_args args cfg = record cfg {
  pool_url = elim (present args.pool_url) [ none ↦ cfg.pool_url | some t ↦ t ];
  api_key = elim (present args.api_key) [ none ↦ cfg.api_key | some t ↦ t ];
}

abbrev pub no_key_message : Text
no_key_message =
    codes "error: no API key. Run 'prima-pool-client bootstrap' first, or set PRIMA_POOL_API_KEY."

-- `return 0`, unless it raised.
abbrev pub exit_code : Result (Unit {0}) → Result ℕ
exit_code (ok _) = ok 0
exit_code (err e) = err e

module _ {W : Type 0} (console : Console W) (http : Http W) (schemas : Schemas) (os : Os W)
    (readers : Readers) (keys : Keys W) (hasher : Hasher) (dumps : AgentState → Text)
    (loads : Text → Result AgentState) where
  -- The session of an agent, with what is left of its machine.
  unfoldable pub run_agent : ClientConfig → List Event → Result (Agent W) → Exec W ℕ
  run_agent config events (err e) w = (err e, w)
  run_agent config events (ok agent) w =
      let (r, n) =
        session os (pool_client http (new_client config.pool_url config.api_key) schemas) keys
          hasher dumps events agent in
      (exit_code r, n.prima.world)

  unfoldable pub run_with : List Event → ClientConfig → Exec W ℕ
  unfolding run_agent
  run_with events config w =
      if not (truthy config.api_key)
      then (ok 1, console.print_error no_key_message w)
      else run_agent config events (new_agent os dumps loads config w) w

  -- `_run`, with the events of the agent until it is interrupted.
  unfoldable pub run : List Event → RunArgs → Exec W ℕ
  unfolding with_args run_with
  run events args = do config ← load os readers args.config; run_with events (with_args args config)

  -- `_genkey`
  unfoldable pub genkey : Exec W ℕ
  genkey w =
      let ((private, public), w') = keys.generate_keypair w in
      (
        ok 0,
        console.print (codes "public:  " ++ public)
            (console.print (codes "private: " ++ private) w'),
      )

  -- `main` of the parsed arguments.
  unfoldable pub main : List Event → Command → Exec W ℕ
  unfolding run genkey
  main events (bootstrap_command args) w = bootstrap console http args w
  main events (run_command args) w = run events args w
  main events genkey_command w = genkey w
  main events no_command w = (ok 1, console.print_help w)
