-- ===== src/Agent/Run.antt =====
-- `Agent.__init__`, `run` with the event loop behind it, and `_ws_url`.
pub mod Laws
use prima_pool_client.Base.{
  Text, true, false, Option, none, some, List, [], ◌∷◌, ◌++◌, codes, Result, ok, err, Exec, ◌>>=◌,
  ◌>>◌, pure, raise, modify, replace_text,
}
use prima_pool_client.Agent.Events.{Event, heartbeat_due, run_events}
use prima_pool_client.Agent.Frames.{recover_state, stop}
use prima_pool_client.Agent.Persist.{load_state}
use prima_pool_client.Agent.Register.{present, ensure_registered}
use prima_pool_client.Agent.State.{Agent, AgentState, self}
use prima_pool_client.Config.{ClientConfig}
use prima_pool_client.Pool.{Pool, Keys}
use prima_pool_client.Prima.Hash.{Hasher}
use prima_pool_client.System.{Os}
use prima_pool_client.WireGuard.Manager

-- `_ws_url`
unfoldable pub ws_url : Text → Text → Text
ws_url pool_url worker_id =
    replace_text (codes "https://") (codes "wss://")
      (replace_text (codes "http://") (codes "ws://") pool_url)
    ++ (codes "/v1/workers/" ++ (worker_id ++ codes "/events"))

module _ {W : Type 0} (os : Os W) (dumps : AgentState → Text)
    (loads : Text → Result AgentState) where
  -- `Agent(config)`: what the state file holds, or raises.
  unfoldable pub with_state : ClientConfig → W → AgentState → Agent W
  with_state config w s = record {
    config = config;
    state = s;
    wg = Manager.new os config w;
    prima = record { proc = none; capture = none; world = w };
    stopped = false;
    has_ws = false;
    prima_proc = none;
    relay_task = none;
    stdout_task = none;
    cluster_config = none;
  }

  unfoldable pub new_agent : ClientConfig → W → Result (Agent W)
  unfolding with_state
  new_agent config w = elim (load_state os dumps loads config w) [
    | err e ↦ err e
    | ok s ↦ ok (with_state config w s)
  ]

module _ {W : Type 0} where
  abbrev pub with_channel : Agent W → Agent W
  with_channel m = record m { has_ws = true }

  -- The WebSocket client of a worker that has an identity.
  unfoldable pub open_channel : Option Text → Exec (Agent W) Unit
  open_channel none = pure tt
  open_channel (some worker_id) = modify with_channel

module _ {W : Type 0} (os : Os W) (pool : Pool W) (keys : Keys W) (hasher : Hasher)
    (dumps : AgentState → Text) where
  -- `run` up to its loop.
  unfoldable pub start : Exec (Agent W) Unit
  unfolding open_channel
  start = do
    ensure_registered os pool keys hasher dumps
    m ← self
    open_channel (present m.state.worker_id)
    recover_state os pool dumps

  -- `stop` behind what `run` raised, which it passes on, unless it raises itself.
  unfoldable pub stop_after : List Event → Result (Unit {0}) → Exec (Agent W) Unit
  stop_after events (err e) = do stop os pool dumps; raise e
  stop_after events (ok _) = do
    modify (run_events os pool dumps (heartbeat_due ∷ events))
    stop os pool dumps

  -- `_main` of the command line: `run` with its loop, which begins with a heartbeat, until it is
  -- cancelled, and `stop` whether it raised or not.
  unfoldable pub session : List Event → Exec (Agent W) Unit
  unfolding start stop_after
  session events m = let (r, n) = start m in stop_after events r n
