-- ===== src/Cli/Laws.antt =====
-- What the commands end with: the key that is shown, and the exit code of a run.
use prima_pool_client.Base.{
  Text, ℕ, ◌≡◌, refl, ap, ◌∙◌, ◌⊎◌, inl, inr, true, Option, none, some, List, [], ◌∷◌, ◌++◌, codes,
  truthy, Error, Result, ok, err, if◌then◌else◌, not,
}
use prima_pool_client.Base.Dict.{lookup}
use prima_pool_client.Base.Json.{Json, Fields, obj, str, entries}
use prima_pool_client.Agent.Events.{Event}
use prima_pool_client.Agent.Register.{present}
use prima_pool_client.Agent.Run.{new_agent, session}
use prima_pool_client.Agent.State.{Agent, AgentState}
use prima_pool_client.Cli.{
  Console, BootstrapArgs, RunArgs, item, show_key, after_login, after_register, sign_up, with_args,
  no_key_message, exit_code, run, run_with, run_agent,
}
use prima_pool_client.Config.{ClientConfig}
use prima_pool_client.Config.Load.{Readers, load}
use prima_pool_client.Pool.{Keys}
use prima_pool_client.Prima.Hash.{Hasher}
use prima_pool_client.Rest.{
  Http, Schemas, Client, new_client, pool_client, register_account, login, create_key,
}
use prima_pool_client.System.{Os}

module _ {W : Type 0} (console : Console W) (http : Http W) where
  -- The terminal, with the connections closed behind it.
  abbrev pub shown : Text → Text → W → W
  shown account_id api_key w = http.close (
      console.print (codes "Save this key — it is shown only once.") (
        console.print (codes "worker key: " ++ api_key)
          (console.print (codes "account_id: " ++ account_id) w)))

module _ {W : Type 0} (console : Console W) (http : Http W) (args : BootstrapArgs) (client : Client)
    (username password : Text) where
  -- The account comes of the registration, or of a login where that is refused.
  abbrev pub GivesAccount : W → Option Json → W → Type 0
  GivesAccount w account w' =
      (register_account http client username password w ≡ (ok account, w'))
      ⊎ ((refused : Error) × (v : W) × (register_account http client username password w
            ≡ (err refused, v))
          × (login http client username password v ≡ (ok account, w')))

  sign_up-show_key :
      (w w' : W) (account : Option Json)
      → GivesAccount w account w'
      → sign_up console http args client username password w
        ≡ show_key console http args client username password account w'
  unfolding sign_up after_register after_login
  sign_up-show_key w w' account (inl registered) = rw registered refl
  sign_up-show_key w w' account (inr (refused, v, raised, logged_in)) =
      rw raised (rw logged_in refl)

  -- A new account and an account that was there already are served alike: where the control plane
  -- gives the account by registration or login, a session and a key, `bootstrap` shows the account
  -- and its key, closes the connections and ends with 0.
  pub sign_up-shown :
      (w w1 w2 w3 : W) (account session key : Fields) (account_id token api_key : Text)
      → GivesAccount w (some (obj account)) w1
      → lookup (codes "account_id") (entries account) ≡ some (str account_id)
      → login http client username password w1 ≡ (ok (some (obj session)), w2)
      → lookup (codes "session_token") (entries session) ≡ some (str token)
      → create_key http client account_id args.name (codes "worker") token w2
        ≡ (ok (some (obj key)), w3)
      → lookup (codes "api_key") (entries key) ≡ some (str api_key)
      → sign_up console http args client username password w
        ≡ (ok 0, shown console http account_id api_key w3)
  unfolding show_key item
  sign_up-shown w w1 w2 w3 account session key account_id token api_key given has_id opened
        has_token made has_key =
      sign_up-show_key w w1 (some (obj account)) given
      ∙ rw opened (rw has_id (rw has_token (rw made (rw has_key refl))))

-- An argument, if it is given and not empty, or the configuration's own value.
abbrev pub IsGiven : Option Text → Text → Text → Type 0
IsGiven given own value =
    ((c : ℕ) × (s : Text) × (given ≡ some (c ∷ s)) × (value ≡ c ∷ s))
    ⊎ (((given ≡ none) ⊎ (given ≡ some [])) × (value ≡ own))

-- A configuration with the address and the key of the arguments.
abbrev pub Under : RunArgs → ClientConfig → ClientConfig → Type 0
Under args cfg config =
    (pool_url : Text) × (api_key : Text) × IsGiven args.pool_url cfg.pool_url pool_url
    × IsGiven args.api_key cfg.api_key api_key
    × (config ≡ record cfg { pool_url = pool_url; api_key = api_key })

present-IsGiven :
    (given : Option Text) (own : Text)
    → IsGiven given own (elim (present given) [ none ↦ own | some t ↦ t ])
unfolding present
present-IsGiven none own = inr (inl refl, refl)
present-IsGiven (some []) own = inr (inr refl, refl)
present-IsGiven (some (c ∷ s)) own = inl (c, s, refl, refl)

with_args-Under : (args : RunArgs) (cfg : ClientConfig) → Under args cfg (with_args args cfg)
unfolding with_args
with_args-Under args cfg = (
  _,
  _,
  present-IsGiven args.pool_url cfg.pool_url,
  present-IsGiven args.api_key cfg.api_key,
  refl,
)

module _ {W : Type 0} (console : Console W) (http : Http W) (schemas : Schemas) (os : Os W)
    (readers : Readers) (keys : Keys W) (hasher : Hasher) (dumps : AgentState → Text)
    (loads : Text → Result AgentState) where
  abbrev session_of : List Event → ClientConfig → Agent W → Result (Unit {0}) × Agent W
  session_of events config agent =
      session os (pool_client http (new_client config.pool_url config.api_key) schemas) keys hasher
        dumps events agent

  -- The three ends of a run: with no key nothing is done but the message; with a key the state file
  -- may be refused; and else a session of an agent of this configuration decides.
  abbrev pub NoKey : ClientConfig → W → Result ℕ × W → Type 0
  NoKey config w ended =
      (config.api_key ≡ []) × (ended ≡ (ok 1, console.print_error no_key_message w))

  abbrev pub NoAgent : ClientConfig → W → Result ℕ × W → Type 0
  NoAgent config w ended =
      (truthy config.api_key ≡ true)
      × ((e : Error) × (new_agent os dumps loads config w ≡ err e) × (ended ≡ (err e, w)))

  abbrev pub Served : List Event → ClientConfig → W → Result ℕ × W → Type 0
  Served events config w ended =
      (truthy config.api_key ≡ true)
      × ((agent : Agent W) × (n : Agent W) × (new_agent os dumps loads config w ≡ ok agent)
          × (((session_of events config agent ≡ (ok tt, n)) × (ended ≡ (ok 0, n.prima.world)))
              ⊎ ((e : Error) × (session_of events config agent ≡ (err e, n))
                  × (ended ≡ (err e, n.prima.world)))))

  abbrev pub RunOutcome : List Event → ClientConfig → W → Result ℕ × W → Type 0
  RunOutcome events config w ended =
      NoKey config w ended ⊎ (NoAgent config w ended ⊎ Served events config w ended)

  exit_code-cases :
      (n : Agent W) (r : Result (Unit {0})) (call : Result (Unit {0}) × Agent W)
      → call ≡ (r, n)
      → ((call ≡ (ok tt, n))
          × (◌≡◌ {A = Result ℕ × W} (exit_code r, n.prima.world) (ok 0, n.prima.world)))
        ⊎ ((e : Error) × (call ≡ (err e, n))
            × (◌≡◌ {A = Result ℕ × W} (exit_code r, n.prima.world) (err e, n.prima.world)))
  exit_code-cases n (ok tt) call e = inl (e, refl)
  exit_code-cases n (err failed) call e = inr (failed, e, refl)

  run_agent-Outcome :
      (events : List Event) (config : ClientConfig) (r : Result (Agent W)) (w : W)
      → truthy config.api_key ≡ true
      → new_agent os dumps loads config w ≡ r
      → NoAgent config w
          (run_agent console http schemas os readers keys hasher dumps loads config events r w)
        ⊎ Served events config w
            (run_agent console http schemas os readers keys hasher dumps loads config events r w)
  unfolding run_agent
  run_agent-Outcome events config (err e) w has_key made = inl (has_key, (e, made, refl))
  run_agent-Outcome events config (ok agent) w has_key made =
      let (r, n) = session_of events config agent in
      inr (has_key, (agent, n, made, exit_code-cases n r _ refl))

  abbrev decided : List Event → ClientConfig → W → Text → Result ℕ × W
  decided events config w key =
      if not (truthy key)
      then (ok 1, console.print_error no_key_message w)
      else run_agent console http schemas os readers keys hasher dumps loads config events
          (new_agent os dumps loads config w) w

  run_with-Outcome :
      (events : List Event) (config : ClientConfig) (key : Text) (w : W)
      → config.api_key ≡ key
      → RunOutcome events config w
          (run_with console http schemas os readers keys hasher dumps loads events config w)
  unfolding run_with truthy
  run_with-Outcome events config [] w e = inl (e, ap (decided events config w) e)
  run_with-Outcome events config (c ∷ s) w e =
      rw (ap (decided events config w) e)
        (inr (run_agent-Outcome events config _ w (ap truthy e) refl))

  -- Where a configuration is loaded, a run goes on with it, only that an address or a key that the
  -- arguments give, and that is not empty, takes the place of its own; and it ends in one of three
  -- ways. If this leaves no key it ends with 1, and nothing is done but the message. If the state
  -- file raises, so does the run. Else an agent of the configuration has its session, and the run
  -- ends with 0 if the session returns and raises its error if it raises.
  pub run-Outcome :
      (events : List Event) (args : RunArgs) (w : W) {cfg : ClientConfig} {w' : W}
      → load os readers args.config w ≡ (ok cfg, w')
      → (config : ClientConfig) × Under args cfg config
        × RunOutcome events config w'
            (run console http schemas os readers keys hasher dumps loads events args w)
  unfolding run
  run-Outcome events args w {cfg} {w'} loaded = (
    with_args args cfg,
    with_args-Under args cfg,
    rw loaded (run_with-Outcome events (with_args args cfg) _ w' refl),
  )
