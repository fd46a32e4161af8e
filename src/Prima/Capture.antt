-- ===== src/Prima/Capture.antt =====
-- `StdoutCapture`: the last lines of a child's output.
pub mod Laws
use prima_pool_client.Base.{
  Text, ℕ, ◌-◌, Bool, false, List, [], ◌∷◌, ◌++◌, codes, join, length, drop, ltb, ◌==◌,
  if◌then◌else◌,
}

pub record Capture : Type 0 where
  pub lines : List Text
  pub stopped : Bool
  pub source : ℕ

abbrev pub max_lines : ℕ
max_lines = 200_000

-- The capture of the output of a process that has just been started.
abbrev pub started : ℕ → Capture
started pid = record { lines = []; stopped = false; source = pid }

abbrev keep_unless_last : ℕ → Text → Text
keep_unless_last c [] = if c == b'\n' then [] else c ∷ []
keep_unless_last c (d ∷ rest) = c ∷ d ∷ rest

-- `line.rstrip("\n")`
unfoldable pub rstrip_newlines : Text → Text
rstrip_newlines [] = []
rstrip_newlines (c ∷ s) = keep_unless_last c (rstrip_newlines s)

-- The body of the lock: append, then delete from the front what is too much.
unfoldable pub append_line : ℕ → List Text → Text → List Text
append_line limit lines line =
    let lines' = lines ++ (line ∷ []) in
    if ltb limit (length lines') then drop (length lines' - limit) lines' else lines'

-- The loop of `_read` over the lines of bytes that the pipe gives until it ends or is closed; with
-- each comes whether `stop` had been called by then. `decode` stands for `bytes.decode` with
-- errors="replace", which never raises.
unfoldable pub read : (List ℕ → Text) → ℕ → List Text → List (List ℕ × Bool) → List Text
unfolding append_line rstrip_newlines
read decode limit lines [] = lines
read decode limit lines ((raw, stopped) ∷ rest) =
    let more = read decode limit (append_line limit lines (rstrip_newlines (decode raw))) rest in
    if stopped then lines else more

-- `text()`
unfoldable pub text : Capture → Text
text c = join (codes "\n") c.lines
