-- ===== src/Prima/Launcher/Ending.antt =====
-- What `PrimaLauncher.stop` ends.
use prima_pool_client.Base.{
  Text, ℕ, ◌≡◌, refl, ap, ◌⊎◌, inl, inr, Bool-cases, true, false, Option, Option-cases, none, some,
  List, [], ◌∷◌, codes, ok,
}
use prima_pool_client.Agent.Returns.{Works}
use prima_pool_client.Config.{ClientConfig}
use prima_pool_client.Pool.{Pool}
use prima_pool_client.Prima.Capture.{Capture}
use prima_pool_client.Prima.Launcher
use prima_pool_client.Prima.Launcher.{Launcher, is_docker, end_process, close_capture}
use prima_pool_client.System.{Completed, Os}

abbrev pub down_command : List Text
down_command = codes "docker" ∷ codes "compose" ∷ codes "down" ∷ []

-- What it means that a process is over and that a compose project was taken down. A process is over
-- when it has a status, when a wait for it has ended, or when it was killed; a project is taken
-- down by `docker compose down` in its directory. Neither is undone by the other calls that `stop`
-- and its callers make.
pub record Ending {W : Type 0} (os : Os W) (pool : Pool W) (IsOver : ℕ → W → Type 0)
    (IsDown : Text → W → Type 0) : Type 0 where
  pub polled : (pid code : ℕ) (w : W) → os.poll pid w ≡ some code → IsOver pid w
  pub waited : (pid s : ℕ) (w w' : W) → os.wait pid s w ≡ (true, w') → IsOver pid w'
  pub killed : (pid : ℕ) (w : W) → IsOver pid (os.kill pid w)
  pub taken_down :
      (dir : Text) (w w' : W) (c : Completed)
      → os.run (some dir) down_command w ≡ (ok c, w')
      → IsDown dir w'
  pub over_close_stdout :
      (pid source : ℕ) (w : W) → IsOver pid w → IsOver pid (os.close_stdout source w)
  pub over_run :
      (pid : ℕ) (cmd : List Text) (w w' : W) (c : Completed)
      → os.run none cmd w ≡ (ok c, w')
      → IsOver pid w
      → IsOver pid w'
  pub over_mkdir :
      (pid : ℕ) (path : Text) (w w' : W)
      → os.mkdir path w ≡ (ok tt, w')
      → IsOver pid w
      → IsOver pid w'
  pub over_write_text :
      (pid : ℕ) (path content : Text) (w w' : W)
      → os.write_text path content w ≡ (ok tt, w')
      → IsOver pid w
      → IsOver pid w'
  pub over_pool_close : (pid : ℕ) (w : W) → IsOver pid w → IsOver pid (pool.close w)
  pub down_mkdir :
      (dir path : Text) (w w' : W) → os.mkdir path w ≡ (ok tt, w') → IsDown dir w → IsDown dir w'
  pub down_write_text :
      (dir path content : Text) (w w' : W)
      → os.write_text path content w ≡ (ok tt, w')
      → IsDown dir w
      → IsDown dir w'
  pub down_pool_close : (dir : Text) (w : W) → IsDown dir w → IsDown dir (pool.close w)

module _ {W : Type 0} (os : Os W) (IsOver : ℕ → W → Type 0) (IsDown : Text → W → Type 0) where
  -- The process of the launcher, if it ever had one, is over.
  abbrev pub ProcessOver : Option ℕ → W → Type 0
  ProcessOver none w = Unit
  ProcessOver (some pid) w = IsOver pid w

  -- The node is gone: in docker mode its project was taken down, and else the process is over and
  -- its output is captured no more.
  abbrev pub NodeGone : ClientConfig → Option ℕ → Launcher W → Type 0
  NodeGone config proc l =
      ((is_docker config ≡ true) × IsDown (os.expanduser config.prima_dir) l.world)
      ⊎ ((is_docker config ≡ false) × (l.capture ≡ none) × ProcessOver proc l.world)

module _ {W : Type 0} (os : Os W) (pool : Pool W) (IsOver : ℕ → W → Type 0)
    (IsDown : Text → W → Type 0) (ending : Ending os pool IsOver IsDown) where
  end_process-ProcessOver :
      (config : ClientConfig) (proc : Option ℕ) (w : W)
      → ProcessOver os IsOver IsDown proc (end_process os config proc w)
  unfolding end_process
  end_process-ProcessOver config none w = tt
  end_process-ProcessOver config (some pid) w = elim (Option-cases (os.poll pid w)) [
    | inr (code, ended) ↦ rw (end_process, ended) (ending.polled pid code w ended)
    | inl running ↦
        let (over, w') = os.wait pid 10 (os.terminate pid w) in
        elim (Bool-cases over) [
          | inl in_time ↦
              rw (end_process, running, in_time)
                (ending.waited pid 10 (os.terminate pid w) w' (ap (λ b. (b, w')) in_time))
          | inr late ↦ rw (end_process, running, late) (ending.killed pid w')
        ]
  ]

  close_capture-ProcessOver :
      (config : ClientConfig) (capture : Option Capture) (proc : Option ℕ) (w : W)
      → ProcessOver os IsOver IsDown proc w
      → ProcessOver os IsOver IsDown proc (close_capture os config capture w)
  unfolding close_capture
  close_capture-ProcessOver config none proc w over = over
  close_capture-ProcessOver config (some c) none w over = tt
  close_capture-ProcessOver config (some c) (some pid) w over =
      ending.over_close_stdout pid c.source w over

  run-ProcessOver :
      (proc : Option ℕ) (cmd : List Text) (w w' : W) (c : Completed)
      → os.run none cmd w ≡ (ok c, w')
      → ProcessOver os IsOver IsDown proc w
      → ProcessOver os IsOver IsDown proc w'
  run-ProcessOver none cmd w w' c ran over = tt
  run-ProcessOver (some pid) cmd w w' c ran over = ending.over_run pid cmd w w' c ran over

  -- Where programs can be started, a launcher can always be stopped, and its node is then gone.
  pub stop-NodeGone :
      Works os
      → (config : ClientConfig) (l : Launcher W)
      → (k : Launcher W) × (Launcher.stop os config l ≡ (ok tt, k))
        × NodeGone os IsOver IsDown config l.proc k
  unfolding Launcher.stop
  stop-NodeGone works config l = elim (Bool-cases (is_docker config)) [
    | inl docker ↦
        let dir = os.expanduser config.prima_dir in
        let (c, w, e) = works.runs (some dir) down_command l.world in
        (
          record l { world = w },
          simp (docker, e),
          inl (docker, ending.taken_down dir l.world w c e),
        )
    | inr same ↦
        let w : W = close_capture os config l.capture (end_process os config l.proc l.world) in
        let kill = λ (name : Text). codes "pkill" ∷ codes "-f" ∷ name ∷ [] in
        let (c, u, e) = works.runs none (kill (codes "llama-server")) w in
        let (d, v, f) = works.runs none (kill (codes "llama-cli")) u in
        (
          record l { capture = none; world = v },
          simp (same, e, f),
          inr (
            same,
            refl,
            run-ProcessOver l.proc _ u v d f (
                run-ProcessOver l.proc _ w u c e (
                  close_capture-ProcessOver config l.capture l.proc _
                    (end_process-ProcessOver config l.proc l.world))),
          ),
        )
  ]
