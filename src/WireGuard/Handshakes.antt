-- ===== src/WireGuard/Handshakes.antt =====
-- What `latest_handshakes` reads in the output of `wg show <interface> latest-handshakes`.
pub mod Laws
use prima_pool_client.Base.{
  Text, ℕ, Bool, ◌&&◌, ◌||◌, ◌==◌, leb, Option, none, some, List, [], ◌∷◌, split_words, not,
  if◌then◌else◌,
}
use prima_pool_client.Base.Decimal.{int, all_digits}
use prima_pool_client.Base.Dict.{Dict, insert}

-- The characters at which `splitlines` breaks.
unfoldable pub is_line_break : ℕ → Bool
is_line_break c = leb 10 c && leb c 13 || leb 28 c && leb c 30 || c == 133 || c == 8232 || c == 8233

abbrev onto_first : ℕ → List Text → List Text
onto_first c [] = (c ∷ []) ∷ []
onto_first c (line ∷ lines) = (c ∷ line) ∷ lines

-- A carriage return and a line feed are one break.
abbrev breaks_at : ℕ → Text → Bool
breaks_at c [] = is_line_break c
breaks_at c (d ∷ s) = is_line_break c && not (c == 13 && d == 10)

-- `s.splitlines()`: the first of `\r\n` is dropped, and no empty line follows the last break.
unfoldable pub splitlines : Text → List Text
unfolding is_line_break
splitlines [] = []
splitlines (c ∷ s) =
    let lines = splitlines s in
    if breaks_at c s then [] ∷ lines else if is_line_break c then lines else onto_first c lines

-- `int(s)`, or a `ValueError`, for what `wg` prints: ASCII digits.
unfoldable pub parse_int : Text → Option ℕ
unfolding int
parse_int [] = none
parse_int (c ∷ s) = if all_digits (c ∷ s) then some (int (c ∷ s)) else none

-- `if len(parts) >= 2: handshakes[parts[0]] = int(parts[1])`, skipping what is no number.
add_handshake : List Text → Dict ℕ → Dict ℕ
add_handshake (pubkey ∷ epoch ∷ parts) handshakes = elim (parse_int epoch) [
  | none ↦ handshakes
  | some n ↦ insert pubkey n handshakes
]
add_handshake _ handshakes = handshakes

add_lines : List Text → Dict ℕ → Dict ℕ
unfolding add_handshake
add_lines [] handshakes = handshakes
add_lines (line ∷ lines) handshakes = add_lines lines (add_handshake (split_words line) handshakes)

unfoldable pub parse_handshakes : Text → Dict ℕ
unfolding add_lines splitlines
parse_handshakes stdout = add_lines (splitlines stdout) []
