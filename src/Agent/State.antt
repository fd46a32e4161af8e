-- ===== src/Agent/State.antt =====
-- The agent's persisted state, its object, and the calls that it makes on its parts.
use prima_pool_client.Base.{
  Text, ℕ, Bool, false, Option, none, List, [], codes, Result, ok, Exec, ◌>>=◌, ◌>>◌, modify,
}
use prima_pool_client.Config.{ClientConfig}
use prima_pool_client.Models.{ClusterConfig}
use prima_pool_client.Prima.Launcher.{Launcher}
use prima_pool_client.System.{Os}
use prima_pool_client.WireGuard.Manager.{Manager}

pub record AgentState : Type 0 where
  pub worker_id : Option Text
  pub account_id : Option Text
  pub status : Text
  pub online : Bool
  pub model : Text
  pub cluster_id : Option Text
  pub assigned_ip : Option Text
  pub ring_position : Option ℕ
  pub config_url : Option Text
  pub wg_private_key : Text
  pub wg_public_key : Text
  pub endpoint_host : Text
  pub updated_at : ℕ

-- `AgentState()` at a time.
abbrev pub fresh_state : ℕ → AgentState
fresh_state now = record {
  worker_id = none;
  account_id = none;
  status = codes "registered";
  online = false;
  model = [];
  cluster_id = none;
  assigned_ip = none;
  ring_position = none;
  config_url = none;
  wg_private_key = [];
  wg_public_key = [];
  endpoint_host = [];
  updated_at = now;
}

-- A running or finished `_relay_monitor`, with the variable that its rounds keep.
pub record RelayTask : Type 0 where
  pub config : ClusterConfig
  pub relayed_ips : List Text
  pub is_done : Bool

-- A running or finished `_head_stdout_monitor`.
pub record StdoutTask : Type 0 where
  pub config : ClusterConfig
  pub cluster_id : Text
  pub is_done : Bool

-- The `Agent` object. The launcher holds the machine that all parts run on.
pub record Agent (W : Type 0) : Type 0 where
  pub config : ClientConfig
  pub state : AgentState
  pub wg : Manager
  pub prima : Launcher W
  pub stopped : Bool
  pub has_ws : Bool
  pub prima_proc : Option ℕ
  pub relay_task : Option RelayTask
  pub stdout_task : Option StdoutTask
  pub cluster_config : Option ClusterConfig

abbrev pub world_of : {W : Type 0} → Agent W → W
world_of m = m.prima.world

module _ {W : Type 0} where
  -- The object as it is at this point.
  abbrev pub self : Exec (Agent W) (Agent W)
  self m = (ok m, m)

  -- A call on the machine, and a call of the launcher.
  abbrev pub on_world : {A : Type 0} → Exec W A → Exec (Agent W) A
  on_world call m =
      let (r, w) = call m.prima.world in (r, record m { prima = record m.prima { world = w } })

  abbrev pub on_prima : {A : Type 0} → Exec (Launcher W) A → Exec (Agent W) A
  on_prima call m = let (r, l) = call m.prima in (r, record m { prima = l })

  abbrev pub set_state : (AgentState → AgentState) → Exec (Agent W) Unit
  set_state f = modify (λ m. record m { state = f m.state })

  -- `try`: the error, if there is one, as a value.
  abbrev pub attempt : {A : Type 0} → Exec (Agent W) A → Exec (Agent W) (Result A)
  attempt call m = let (r, m') = call m in (ok r, m')

  module _ (os : Os W) (dumps : AgentState → Text) where
    unfoldable pub state_file : ClientConfig → Text
    state_file config = os.expanduser config.state_path

    unfoldable pub stamp : Exec (Agent W) Unit
    stamp = do m ← self; set_state (λ s. record s { updated_at = os.now m.prima.world })

    unfoldable pub write_state : Exec (Agent W) Unit
    unfolding state_file
    write_state = do m ← self; on_world (os.write_text (state_file m.config) (dumps m.state))

    -- `_save_state`; `dumps` stands for `json.dumps` of the state's fields.
    unfoldable pub save_state : Exec (Agent W) Unit
    unfolding state_file stamp write_state
    save_state = do
      m ← self
      on_world (os.mkdir (os.parent (state_file m.config)))
      stamp
      write_state
