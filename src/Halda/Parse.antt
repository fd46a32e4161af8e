-- ===== src/Halda/Parse.antt =====
-- `parse_distribution`, `parse_window_size` and `build_distribution`.
use prima_pool_client.Base.{
  Text, ℕ, ◌-◌, ◌==◌, ltb, not, Option, none, some, List, [], ◌∷◌, codes, length, take, is_some,
  if◌then◌else◌,
}
use prima_pool_client.Base.Decimal.{int}
use prima_pool_client.Base.Dict.{Dict, lookup, insert}
use prima_pool_client.Halda.Regex.{
  Match, find_iter, search_first, alloc_header, device_index, layer_window, remove_device,
  window_size, ◌>>=◌,
}

-- `matches[-1]`
unfoldable pub last_match : List Match → Option Match
last_match [] = none
last_match (m ∷ []) = some m
last_match (m ∷ n ∷ ms) = last_match (n ∷ ms)

-- The window of one device block, if the block has one.
unfoldable pub add_window : Match → Text → Dict ℕ → Dict ℕ
add_window m block windows = elim (search_first layer_window block) [
  | none ↦ windows
  | some w ↦ insert m.group (int w.group) windows
]

-- The loop over the device blocks; a block ends where the next one starts.
unfoldable pub add_windows : List Match → Dict ℕ → Dict ℕ
unfolding add_window
add_windows [] windows = windows
add_windows (m ∷ []) windows = add_window m m.after windows
add_windows (m ∷ n ∷ ms) windows =
    add_windows (n ∷ ms) (add_window m (take (length m.after - length n.from) m.after) windows)

-- `if not windows: return None`
unfoldable pub if_any : Dict ℕ → Option (Dict ℕ)
if_any [] = none
if_any (entry ∷ windows) = some (entry ∷ windows)

-- The windows of the last table, before devices are removed.
unfoldable pub table_windows : Text → Option (Dict ℕ)
unfolding find_iter last_match add_windows if_any
table_windows stdout = do
  header ← last_match (find_iter alloc_header stdout)
  if_any (add_windows (find_iter device_index header.from) [])

-- The loop over the removals.
unfoldable pub zero_removed : List Match → Dict ℕ → Dict ℕ
zero_removed [] windows = windows
zero_removed (m ∷ ms) windows =
    zero_removed ms (if is_some (lookup m.group windows) then insert m.group 0 windows else windows)

-- The first clause is `if not stdout: return None`.
unfoldable pub parse_distribution : Text → Option (Dict ℕ)
parse_distribution [] = none
parse_distribution (c ∷ stdout) = do
  windows ← table_windows (c ∷ stdout)
  some (zero_removed (find_iter remove_device (c ∷ stdout)) windows)

unfoldable pub parse_window_size : Text → Option ℕ
parse_window_size [] = none
parse_window_size (c ∷ stdout) = do m ← search_first window_size (c ∷ stdout); some (int m.group)

-- `if total is not None and total > 0`
whole_model : Option ℕ → Option (Dict ℕ)
whole_model none = none
whole_model (some total) = if ltb 0 total then some ((codes "0", total) ∷ []) else none

unfoldable pub build_distribution : Text → ℕ → Option (Dict ℕ)
unfolding whole_model
build_distribution stdout world = elim (parse_distribution stdout) [
  | some dist ↦ some dist
  | none ↦ if not (world == 1) then none else whole_model (parse_window_size stdout)
]
