-- ===== src/System.antt =====
-- What the program calls and does not implement: the operating system behind `shutil`,
-- `subprocess`, `pathlib` and the clock, over an unknown state `W` of the machine.
use prima_pool_client.Base.{Text, ℕ, Bool, Option, List, Result, Exec}
use prima_pool_client.Base.Dict.{Dict}

-- `subprocess.CompletedProcess`
pub record Completed : Type 0 where
  pub returncode : ℕ
  pub stdout : Text

-- The arguments of `subprocess.Popen`; no `env` means that the child inherits it.
pub record Spawn : Type 0 where
  pub cmd : List Text
  pub cwd : Option Text
  pub env : Option (Dict Text)
  pub piped : Bool

pub record Os (W : Type 0) : Type 0 where
  -- `shutil.which(name)`, `Path(p).exists()`, `os.environ`, `Path(p).expanduser()`
  pub which : Text → W → Option Text
  pub exists : Text → W → Bool
  pub environ : W → Dict Text
  pub expanduser : Text → Text
  -- `Path(p).parent`, `time.time()` in milliseconds, the host name's address if it resolves
  pub parent : Text → Text
  pub now : W → ℕ
  pub host_address : W → Option Text
  -- the processor's name, if it is known, and the system's as `platform.system()`
  -- gives it
  pub processor : W → Option Text
  pub system_name : W → Text
  -- `Path(p).read_text()`, which raises where there is no file or its bytes are no text
  pub read_text : Text → W → Result Text
  -- the content of a file, which may not be readable
  pub read_bytes : Text → Exec W (List ℕ)
  -- `p.mkdir(parents=True, exist_ok=True)`, `p.write_text(t)`, `p.chmod(mode)`
  pub mkdir : Text → Exec W Unit
  pub write_text : Text → Text → Exec W Unit
  pub chmod : Text → ℕ → Exec W Unit
  -- `subprocess.run(cmd, cwd=…)` without `check`; it raises if the program cannot be started
  pub run : Option Text → List Text → Exec W Completed
  -- `subprocess.Popen`; a process is its number
  pub popen : Spawn → Exec W ℕ
  -- `p.poll()` with no value while the process runs
  pub poll : ℕ → W → Option ℕ
  pub terminate : ℕ → W → W
  pub kill : ℕ → W → W
  -- `p.wait(timeout=s)`: whether the process ended in time
  pub wait : ℕ → ℕ → W → Bool × W
  -- closing the pipe from a child
  pub close_stdout : ℕ → W → W
