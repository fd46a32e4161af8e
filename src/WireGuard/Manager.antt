-- ===== src/WireGuard/Manager.antt =====
-- `WireGuardManager`: the interface through `wg` and `wg-quick`.
use prima_pool_client.Base.{
  Text, ℕ, Bool, false, ◌&&◌, ◌==◌, not, Option, none, some, List, [], ◌∷◌, ◌++◌, codes, join,
  is_some, if◌then◌else◌, runtime_error, called_process_error, Exec, ◌>>=◌, ◌>>◌, pure, raise,
}
use prima_pool_client.Base.Decimal.{str}
use prima_pool_client.Base.Dict.{Dict}
use prima_pool_client.Config.{ClientConfig}
use prima_pool_client.Prima.Launcher.{path_join}
use prima_pool_client.System.{Os}
use prima_pool_client.WireGuard.Handshakes.{parse_handshakes}

-- What `shutil.which` found when the manager was made.
pub record Manager : Type 0 where
  pub wg_quick : Option Text
  pub wg : Option Text

unfoldable pub available : Manager → Bool
available g = is_some g.wg_quick && is_some g.wg

-- The program's name; an absent one is not run.
abbrev pub program_of : Option Text → Text
program_of none = []
program_of (some p) = p

module _ {W : Type 0} (os : Os W) (config : ClientConfig) where
  -- `WireGuardManager(config)`
  unfoldable pub new : W → Manager
  new w = record { wg_quick = os.which (codes "wg-quick") w; wg = os.which (codes "wg") w }

  -- `subprocess.run(cmd, check=True)`
  unfoldable pub run_checked : List Text → Exec W Unit
  run_checked cmd = do
    c ← os.run none cmd
    if c.returncode == 0 then pure tt else raise (called_process_error c.returncode)

  -- `config.wg_conf_path`
  unfoldable pub wg_conf_path : Text
  unfolding path_join
  wg_conf_path = path_join (os.expanduser config.wg_conf_dir) (config.wg_interface ++ codes ".conf")

  unfoldable pub write_conf : Text → Exec W Unit
  write_conf content = do
    os.mkdir (os.parent wg_conf_path)
    os.write_text wg_conf_path content
    os.chmod wg_conf_path 0o600

  unfoldable pub up : Manager → Text → Exec W Unit
  unfolding write_conf run_checked
  up g content =
      if not (available g)
      then raise (runtime_error (codes "wg-quick/wg not found; cannot bring up WireGuard"))
      else do
        write_conf content
        run_checked (program_of g.wg_quick ∷ codes "up" ∷ config.wg_interface ∷ [])

  unfoldable pub down : Manager → Exec W Unit
  down g =
      if not (available g)
      then pure tt
      else do os.run none (program_of g.wg_quick ∷ codes "down" ∷ config.wg_interface ∷ []); pure tt

  unfoldable pub is_up : Manager → Exec W Bool
  is_up g = if not (is_some g.wg) then pure false else do
    c ← os.run none (program_of g.wg ∷ codes "show" ∷ config.wg_interface ∷ [])
    pure (c.returncode == 0)

  show_handshakes : Manager → Exec W (Dict ℕ)
  show_handshakes g = do
    c ←
        os.run none
          (program_of g.wg ∷ codes "show" ∷ config.wg_interface ∷ codes "latest-handshakes" ∷ [])
    pure (if not (c.returncode == 0) then [] else parse_handshakes c.stdout)

  unfoldable pub latest_handshakes : Manager → Exec W (Dict ℕ)
  unfolding is_up show_handshakes
  latest_handshakes g =
      if not (is_some g.wg)
      then pure []
      else do shown ← is_up g; if shown then show_handshakes g else pure []

  unfoldable pub add_peer : Manager → Text → Text → List Text → ℕ → Exec W Unit
  unfolding run_checked
  add_peer g pubkey endpoint allowed_ips keepalive =
      if not (is_some g.wg)
      then raise (runtime_error (codes "wg not found; cannot add peer"))
      else run_checked (
          program_of g.wg
          ∷ codes "set"
          ∷ config.wg_interface
          ∷ codes "peer"
          ∷ pubkey
          ∷ codes "endpoint"
          ∷ endpoint
          ∷ codes "allowed-ips"
          ∷ join (codes ", ") allowed_ips
          ∷ codes "persistent-keepalive"
          ∷ str keepalive
          ∷ [])

  unfoldable pub remove_peer : Manager → Text → Exec W Unit
  unfolding run_checked
  remove_peer g pubkey =
      if not (is_some g.wg)
      then pure tt
      else run_checked (
          program_of g.wg
          ∷ codes "set"
          ∷ config.wg_interface
          ∷ codes "peer"
          ∷ pubkey
          ∷ codes "remove"
          ∷ [])
