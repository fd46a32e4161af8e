-- ===== src/WireGuard/Base64.antt =====
-- `b64encode` and `b64decode` of Python's `base64`.
pub mod Laws
use prima_pool_client.Base.{
  Text, ℕ, ◌+◌, ◌-◌, ◌*◌, ◌/◌, ◌%◌, ltb, leb, ◌==◌, Bool, true, false, ◌&&◌, Option, none, some,
  List, [], ◌∷◌, if◌then◌else◌,
}

-- The character of six bits, and the six bits of a character of the alphabet.
unfoldable pub char_of : ℕ → ℕ
char_of n =
    if ltb n 26
    then 65 + n
    else if ltb n 52
    then 71 + n
    else if ltb n 62
    then n - 4
    else if n == 62
    then b'+'
    else b'/'

unfoldable pub value_of : ℕ → Option ℕ
value_of c =
    if leb 65 c && leb c 90
    then some (c - 65)
    else if leb 97 c && leb c 122
    then some (c - 71)
    else if leb 48 c && leb c 57
    then some (c + 4)
    else if c == b'+'
    then some 62
    else if c == b'/'
    then some 63
    else none

unfoldable pub b64encode : List ℕ → Text
unfolding char_of
b64encode [] = []
b64encode (a ∷ []) = char_of (a / 4) ∷ char_of (a % 4 * 16) ∷ b'=' ∷ b'=' ∷ []
b64encode (a ∷ b ∷ []) =
    char_of (a / 4) ∷ char_of (a % 4 * 16 + b / 16) ∷ char_of (b % 16 * 4) ∷ b'=' ∷ []
b64encode (a ∷ b ∷ c ∷ rest) =
    char_of (a / 4)
    ∷ char_of (a % 4 * 16 + b / 16)
    ∷ char_of (b % 16 * 4 + c / 64)
    ∷ char_of (c % 64)
    ∷ b64encode rest

-- The place in a group of four characters, with the bits that are left of the one before, and in
-- the second half whether one of its two pads has come.
pub data Place : Type 0 where
  first : Place
  second : ℕ → Place
  third : ℕ → Bool → Place
  fourth : ℕ → Place

abbrev pub emit : ℕ → Option (List ℕ) → Option (List ℕ)
emit b none = none
emit b (some bytes) = some (b ∷ bytes)

-- What is not of the alphabet is skipped, and enough pads end the text. No value is an error: the
-- text ends in the middle of a group.
unfoldable pub decode_from : Place → Text → Option (List ℕ)
unfolding value_of
decode_from first [] = some []
decode_from (second left) [] = none
decode_from (third left padded) [] = none
decode_from (fourth left) [] = none
decode_from first (c ∷ s) = elim (value_of c) [
  | none ↦ decode_from first s
  | some v ↦ decode_from (second v) s
]
decode_from (second left) (c ∷ s) = elim (value_of c) [
  | none ↦ decode_from (second left) s
  | some v ↦ emit (left * 4 + v / 16) (decode_from (third (v % 16) false) s)
]
decode_from (third left padded) (c ∷ s) = elim (value_of c) [
  | none ↦ elim (c == b'=') [
    | false ↦ decode_from (third left padded) s
    | true ↦ elim padded [ true ↦ some [] | false ↦ decode_from (third left true) s ]
  ]
  | some v ↦ emit (left * 16 + v / 4) (decode_from (fourth (v % 4)) s)
]
decode_from (fourth left) (c ∷ s) = elim (value_of c) [
  | none ↦ elim (c == b'=') [ true ↦ some [] | false ↦ decode_from (fourth left) s ]
  | some v ↦ emit (left * 64 + v) (decode_from first s)
]

unfoldable pub b64decode : Text → Option (List ℕ)
unfolding decode_from
b64decode s = decode_from first s
