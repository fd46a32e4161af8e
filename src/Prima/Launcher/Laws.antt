-- ===== src/Prima/Launcher/Laws.antt =====
-- When a node starts, and with what command (`PrimaLauncher.launch`).
use prima_pool_client.Base.{
  Text, ℕ, ◌==◌, ◌≡◌, refl, ◌⊎◌, inl, inr, true, false, Option, none, some, List, [], ◌∷◌, text_eq,
  codes, length, if◌then◌else◌, Option-cases, Error, Result-cases, ok, err, arith,
}
use prima_pool_client.Base.Decimal.{str}
use prima_pool_client.Config.{ClientConfig}
use prima_pool_client.Models.{ClusterConfig}
use prima_pool_client.Prima.Capture
use prima_pool_client.Prima.Env.{launch_env, build_env}
use prima_pool_client.Prima.Env.Laws.{get_key-build_env, launch_env-ok, launch_env-err}
use prima_pool_client.Prima.Launcher.{
  Launcher, node_command, is_docker, no_binary, no_model, resolve_model_path, launch_same_container,
  spawn_node, spawn_checked, launch,
}
use prima_pool_client.Ring.{ring_members, ring_neighbors}
use prima_pool_client.System.{Os, Spawn}

-- The program that a position runs.
abbrev pub program : ℕ → Text
program i = if i == 0 then codes "llama-server" else codes "llama-cli"

-- The value that a command line gives for an option, read in pairs as far as the options with a
-- value go; the program's name stands first.
abbrev option_in : Text → List Text → Option Text
option_in name (flag ∷ value ∷ rest) =
    let later = option_in name rest in if text_eq flag name then some value else later
option_in name _ = none

abbrev pub option_value : Text → List Text → Option Text
option_value name [] = none
option_value name (binary ∷ args) = option_in name args

module _ {W : Type 0} (os : Os W) (config : ClientConfig) (cluster : ClusterConfig) (i : ℕ) where
  -- The child that a position of the ring should get.
  abbrev pub node_spawn : Text → Text → Text → Spawn
  node_spawn binary master next = record {
    cmd =
        node_command config binary (resolve_model_path os config) i
          (str (length (ring_members cluster))) (str i) master next;
    cwd = none;
    env = none;
    piped = true;
  }

  spawn_node-build_env :
      (binary master next : Text) {pid : ℕ} {w : W} (l : Launcher W)
      → os.popen (node_spawn binary master next) l.world ≡ (ok pid, w)
      → spawn_node os config
          (build_env config i (length (ring_members cluster)) master next)
          i
          binary
          (resolve_model_path os config)
          l
        ≡ (ok pid, record { proc = some pid; capture = some (Capture.started pid); world = w })
  unfolding spawn_node
  spawn_node-build_env binary master next l started =
      let (r, w, m, n) = get_key-build_env config i (length (ring_members cluster)) master next in
      simp (w, r, m, n, started)

  -- The options of a node's command line.
  abbrev pub HasOptions : Text → Text → List Text → Type 0
  HasOptions master next cmd =
      (option_value (codes "-m") cmd ≡ some (resolve_model_path os config))
      × (option_value (codes "--world") cmd ≡ some (str (length (ring_members cluster))))
      × (option_value (codes "--rank") cmd ≡ some (str i))
      × (option_value (codes "--master") cmd ≡ some master)
      × (option_value (codes "--next") cmd ≡ some next)

  node_spawn-HasOptions :
      (binary master next : Text) → HasOptions master next (node_spawn binary master next).cmd
  unfolding node_command text_eq
  node_spawn-HasOptions binary master next = (refl, refl, refl, refl, refl)

  -- In same-container mode, with the binary found and the model file there, a node starts, its
  -- process and the capture of its output are remembered, and its command line names the model
  -- file, the size of the ring, its position, and the addresses that the ring gives it.
  pub launch-node_spawn :
      {binary master next : Text} {pid : ℕ} {w : W} (l : Launcher W)
      → is_docker config ≡ false
      → ring_neighbors cluster i ≡ ok (master, next)
      → os.which (program i) l.world ≡ some binary
      → os.exists (resolve_model_path os config) l.world ≡ true
      → os.popen (node_spawn binary master next) l.world ≡ (ok pid, w)
      → (launch os config cluster i l
          ≡ (ok pid, record { proc = some pid; capture = some (Capture.started pid); world = w }))
        × HasOptions master next (node_spawn binary master next).cmd
  unfolding launch launch_same_container spawn_checked
  launch-node_spawn {binary} {master} {next} l same ring found model started = (
    simp (launch_env-ok config cluster i ring, same, found, model)
        (spawn_node-build_env binary master next l started),
    node_spawn-HasOptions binary master next,
  )

  -- Without a ring member, an address, the binary or the model file a node in same-container
  -- mode raises, has started nothing and leaves the launcher and the machine as they were.
  pub launch_refused :
      (l : Launcher W) {x : Error}
      → is_docker config ≡ false
      → (ring_neighbors cluster i ≡ err x)
        ⊎ ((os.which (program i) l.world ≡ none)
            ⊎ (os.exists (resolve_model_path os config) l.world ≡ false))
      → (e : Error) × (launch os config cluster i l ≡ (err e, l))
  unfolding launch launch_same_container spawn_checked
  launch_refused l {x} same (inl ring) = (x, simp (launch_env-err config cluster i ring))
  launch_refused l same (inr h) = elim (Result-cases (launch_env config cluster i)) [
    | inr (e, failed) ↦ (e, simp failed)
    | inl (env, built) ↦ elim (Option-cases (os.which (program i) l.world)) [
      | inl missing ↦ (no_binary, simp (built, same, missing))
      | inr (binary, found) ↦
          (no_model (resolve_model_path os config), simp (built, same, found) (ground arith))
    ]
  ]
