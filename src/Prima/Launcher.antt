-- ===== src/Prima/Launcher.antt =====
-- `PrimaLauncher`: the command line of a node, its start and its teardown.
pub mod Ending
pub mod Laws
use prima_pool_client.Base.{
  Text, ℕ, Bool, true, false, ◌==◌, Option, none, some, List, [], ◌∷◌, ◌++◌, codes, truthy,
  split_words, text_eq, if◌then◌else◌, Error, ok, runtime_error, Exec, ◌>>=◌, ◌>>◌, pure, raise,
  lift, is_some, not,
}
use prima_pool_client.Base.Decimal.{str}
use prima_pool_client.Base.Dict.{Dict, get_key, merge}
use prima_pool_client.Config.{ClientConfig}
use prima_pool_client.Models.{ClusterConfig}
use prima_pool_client.Prima.Capture
use prima_pool_client.Prima.Capture.{Capture}
use prima_pool_client.Prima.Env.{launch_env}
use prima_pool_client.System.{Os}

-- The launcher's fields, and the machine that it runs on.
pub record Launcher (W : Type 0) : Type 0 where
  pub proc : Option ℕ
  pub capture : Option Capture
  pub world : W

-- `Path(a) / b` for a relative name `b`.
unfoldable pub path_join : Text → Text → Text
path_join a b = a ++ (b'/' ∷ b)

-- `cmd += flags.split()`, if there are flags.
unfoldable pub flags_of : Text → List Text
flags_of flags = if truthy flags then split_words flags else []

-- The command line of `_launch_same_container`.
unfoldable pub node_command : ClientConfig → Text → Text → ℕ → Text → Text → Text → Text → List Text
unfolding flags_of
node_command config binary model_path ring_position world rank master next =
    (binary
      ∷ codes "-m"
      ∷ model_path
      ∷ codes "-c"
      ∷ str config.ctx_size
      ∷ codes "--world"
      ∷ world
      ∷ codes "--rank"
      ∷ rank
      ∷ codes "--master"
      ∷ master
      ∷ codes "--next"
      ∷ next
      ∷ codes "--prefetch"
      ∷ [])
    ++ ((if ring_position == 0
          then codes "--host" ∷ codes "0.0.0.0" ∷ codes "--port" ∷ str config.api_port ∷ []
          else [])
        ++ ((if truthy config.gpu_mem_flag then config.gpu_mem_flag ∷ [] else [])
            ++ (flags_of config.batch_flags ++ flags_of config.extra_flags)))

unfoldable pub is_docker : ClientConfig → Bool
is_docker config = text_eq config.prima_mode (codes "docker")

abbrev pub no_binary : Error
no_binary = runtime_error (
    codes "llama-server/llama-cli not found. In same-container mode prima.cpp "
    ++ codes "must be installed in this image.")

abbrev pub no_model : Text → Error
no_model model_path = runtime_error (codes "model file not found: " ++ model_path)

module _ {W : Type 0} (os : Os W) (config : ClientConfig) where
  -- A call of the operating system.
  abbrev system : {A : Type 0} → Exec W A → Exec (Launcher W) A
  system call l = let (r, w) = call l.world in (r, record l { world = w })

  -- `_resolve_model_path`
  unfoldable pub resolve_model_path : Text
  unfolding path_join
  resolve_model_path =
      if truthy config.model_path
      then config.model_path
      else path_join (path_join (os.expanduser config.prima_dir) (codes "models")) config.model_file

  unfoldable pub captured_stdout : Launcher W → Text
  captured_stdout l = elim l.capture [ none ↦ [] | some c ↦ Capture.text c ]

  compose_up : Text → Dict Text → Exec (Launcher W) ℕ
  compose_up project_dir env l =
      system
        (os.popen (record {
          cmd = codes "docker" ∷ codes "compose" ∷ codes "up" ∷ codes "-d" ∷ [];
          cwd = some project_dir;
          env = some (merge (os.environ l.world) env);
          piped = false;
        }))
        l

  -- `_launch_docker`
  launch_docker : Dict Text → Exec (Launcher W) ℕ
  unfolding path_join compose_up
  launch_docker env l =
      let project_dir = os.expanduser config.prima_dir in
      if not (is_some (os.which (codes "docker") l.world))
      then raise (runtime_error (codes "docker not found; cannot launch prima.cpp in docker mode"))
          l
      else if not (os.exists (path_join project_dir (codes "docker-compose.yml")) l.world)
      then raise (runtime_error (codes "docker-compose.yml not found in " ++ project_dir)) l
      else compose_up project_dir env l

  -- `self._proc = Popen(…)` and `self._capture = StdoutCapture(self._proc)`
  started_as : ℕ → Exec (Launcher W) ℕ
  started_as pid l = (ok pid, record l { proc = some pid; capture = some (Capture.started pid) })

  spawn_node : Dict Text → ℕ → Text → Text → Exec (Launcher W) ℕ
  unfolding started_as
  spawn_node env ring_position binary model_path = do
    world ← lift (get_key env (codes "WORLD"))
    rank ← lift (get_key env (codes "RANK"))
    master ← lift (get_key env (codes "MASTER_IP"))
    next ← lift (get_key env (codes "NEXT_IP"))
    pid ← system (
        os.popen (record {
          cmd = node_command config binary model_path ring_position world rank master next;
          cwd = none;
          env = none;
          piped = true;
        }))
    started_as pid

  spawn_checked : Dict Text → ℕ → Option Text → Exec (Launcher W) ℕ
  unfolding spawn_node
  spawn_checked env ring_position none l = raise no_binary l
  spawn_checked env ring_position (some binary) l =
      if not (os.exists resolve_model_path l.world)
      then raise (no_model resolve_model_path) l
      else spawn_node env ring_position binary resolve_model_path l

  -- `_launch_same_container`
  launch_same_container : Dict Text → ℕ → Exec (Launcher W) ℕ
  unfolding spawn_checked
  launch_same_container env ring_position l =
      spawn_checked env ring_position
        (os.which (if ring_position == 0 then codes "llama-server" else codes "llama-cli") l.world)
        l

  unfoldable pub launch : ClusterConfig → ℕ → Exec (Launcher W) ℕ
  unfolding launch_docker launch_same_container
  launch cluster ring_position = do
    env ← lift (launch_env config cluster ring_position)
    if is_docker config then launch_docker env else launch_same_container env ring_position

  -- `if self._proc and self._proc.poll() is None: terminate, wait, kill`
  unfoldable pub end_process : Option ℕ → W → W
  end_process none w = w
  end_process (some pid) w = elim (os.poll pid w) [
    | some code ↦ w
    | none ↦
        let (ended, w') = os.wait pid 10 (os.terminate pid w) in
        if ended then w' else os.kill pid w'
  ]

  -- `if self._capture: self._capture.stop(); self._capture = None`
  unfoldable pub close_capture : Option Capture → W → W
  close_capture none w = w
  close_capture (some c) w = os.close_stdout c.source w

  pkill : Text → Exec (Launcher W) Unit
  pkill name = do system (os.run none (codes "pkill" ∷ codes "-f" ∷ name ∷ [])); pure tt

  unfoldable pub stop : Exec (Launcher W) Unit
  unfolding end_process close_capture pkill
  stop l =
      if is_docker config
      then (do
        system (
            os.run (some (os.expanduser config.prima_dir))
              (codes "docker" ∷ codes "compose" ∷ codes "down" ∷ []))
        pure tt)
          l
      else (do pkill (codes "llama-server"); pkill (codes "llama-cli"))
          (record l {
            capture = none;
            world = close_capture l.capture (end_process l.proc l.world);
          })
