-- ===== src/Halda/Regex.antt =====
-- The regular expressions of halda.py, as matchers at one position, with `finditer` and `search`.
-- `\d` stands for the ASCII digits. No expression matches the empty text, and a greedy run of
-- white space or digits never has to be given back, since what follows it cannot begin with
-- one; `.*` tries the longest run first.
pub mod Scan
use prima_pool_client.Base.{
  Text, ℕ, zero, suc, ◌-◌, ◌==◌, Bool, true, false, Option, none, some, List, [], ◌∷◌, codes,
  length, strip_prefix, is_space, if◌then◌else◌,
}
use prima_pool_client.Base.Decimal.{is_digit}

-- The first group, or no text, with what follows the match.
abbrev pub Matcher : Type 0
Matcher = Text → Option (Text × Text)

infixl 10 ◌>>=◌
abbrev pub ◌>>=◌ : {A B : Type 0} → Option A → (A → Option B) → Option B
none >>= f = none
some a >>= f = f a

-- `\s*`
unfoldable pub skip_spaces : Text → Text
unfolding is_space
skip_spaces [] = []
skip_spaces (c ∷ s) = let rest = skip_spaces s in if is_space c then rest else c ∷ s

-- `(\d*)`
unfoldable pub take_digits : Text → Text × Text
unfolding is_digit
take_digits [] = ([], [])
take_digits (c ∷ s) =
    let (more, rest) = take_digits s in if is_digit c then (c ∷ more, rest) else ([], c ∷ s)

-- `(\d+)`
unfoldable pub digits : Matcher
unfolding take_digits
digits s = elim (take_digits s).0 [ [] ↦ none | c ∷ more ↦ some (take_digits s) ]

abbrev pub header_text : Text
header_text = codes "Allocation Strategy (by HiGHS)"

-- `_ALLOC_HEADER`
unfoldable pub alloc_header : Matcher
unfolding strip_prefix
alloc_header s = do rest ← strip_prefix header_text s; some ([], rest)

-- `-\s*LABEL\s*:\s*(\d+)`
unfoldable pub labelled : Text → Matcher
unfolding strip_prefix skip_spaces digits
labelled label s = do
  a ← strip_prefix (codes "-") s
  b ← strip_prefix label (skip_spaces a)
  c ← strip_prefix (codes ":") (skip_spaces b)
  digits (skip_spaces c)

-- `_DEVICE_INDEX`
abbrev pub device_index : Matcher
device_index = labelled (codes "Device Index")

-- `_LAYER_WINDOW`
abbrev pub layer_window : Matcher
layer_window = labelled (codes "N Layer Window")

-- ` \(rank (\d+)\) with only (\d+) layer`
unfoldable pub removal : Matcher
unfolding strip_prefix digits
removal s = do
  a ← strip_prefix (codes " (rank ") s
  rank ← digits a
  b ← strip_prefix (codes ") with only ") rank.1
  layers ← digits b
  rest ← strip_prefix (codes " layer") layers.1
  some (rank.0, rest)

abbrev or_else : Option (Text × Text) → Option (Text × Text) → Option (Text × Text)
or_else none b = b
or_else (some a) b = some a

-- `.*` in front of a matcher.
unfoldable pub any_then : Matcher → Matcher
any_then m [] = m []
any_then m (c ∷ s) =
    let longer = any_then m s in if c == b'\n' then m (c ∷ s) else or_else longer (m (c ∷ s))

-- `_REMOVE_DEVICE`
unfoldable pub remove_device : Matcher
unfolding strip_prefix any_then removal
remove_device s = do rest ← strip_prefix (codes "Remove device ") s; any_then removal rest

-- `_WINDOW_SIZE`
unfoldable pub window_size : Matcher
unfolding strip_prefix skip_spaces digits
window_size s = do
  a ← strip_prefix (codes "Using window size:") s
  size ← digits (skip_spaces a)
  b ← strip_prefix (codes ",") size.1
  c ← strip_prefix (codes "GPU layers:") (skip_spaces b)
  layers ← digits (skip_spaces c)
  some (size.0, layers.1)

-- A match: its first group, the text from its start on, and the text behind its end.
pub record Match : Type 0 where
  pub group : Text
  pub from : Text
  pub after : Text

-- `finditer`, where the next `skip` characters belong to the last match.
unfoldable pub find_from : Matcher → ℕ → Text → List Match
find_from m skip [] = []
find_from m (suc skip) (c ∷ s) = find_from m skip s
find_from m zero (c ∷ s) = elim (m (c ∷ s)) [
  | none ↦ find_from m zero s
  | some (group, after) ↦
      record { group = group; from = c ∷ s; after = after }
      ∷ find_from m (length s - length after) s
]

unfoldable pub find_iter : Matcher → Text → List Match
unfolding find_from
find_iter m s = find_from m zero s

-- `search`
unfoldable pub search_first : Matcher → Text → Option Match
search_first m [] = none
search_first m (c ∷ s) = elim (m (c ∷ s)) [
  | none ↦ search_first m s
  | some (group, after) ↦ some (record { group = group; from = c ∷ s; after = after })
]
