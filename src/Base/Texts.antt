-- ===== src/Base/Texts.antt =====
-- Python's `str` as the list of its code points, with the methods that the program calls.
use Prim.Native.Char.{code}
use Prim.Native.Nat.{ℕ, zero, suc, ◌-◌}
use Prim.Native.String.{String}
use mathlib.Core.Path.{◌≡◌, refl, sym, ap, ◌∙◌}
use mathlib.Core.Logic.{◌↔◌, inl, inr}
use mathlib.Core.Bool.{Bool, true, false, not, ◌&&◌, ◌||◌}
use mathlib.Core.Option.{Option, none, some}
use mathlib.Core.List.{List, [], ◌∷◌, ◌++◌, append-nil, append_assoc}
use native.Mathlib.Omega.{arith}
use prima_pool_client.Base.Tests.{leb, ◌==◌, if◌then◌else◌, Bool-cases}

abbrev pub Text : Type 0
Text = List ℕ

-- A literal: `codes "server"`.
abbrev pub codes : String → Text
codes String.[] = []
codes (String.◌∷◌ c s) = code c ∷ codes s

-- `a == b`
unfoldable pub text_eq : Text → Text → Bool
text_eq [] [] = true
text_eq (x ∷ a) (y ∷ b) = x == y && text_eq a b
text_eq _ _ = false

pub text_eq_iff : (a b : Text) → (text_eq a b ≡ true) ↔ (a ≡ b)
unfolding text_eq
text_eq_iff (x ∷ a) (y ∷ b) = ground (arith, text_eq_iff a b)
text_eq_iff [] [] = ground arith
text_eq_iff _ _ = ground arith

pub text_eq_refl : (a : Text) → text_eq a a ≡ true
text_eq_refl a = (text_eq_iff a a).1 refl

-- The truth value of a `str`.
unfoldable pub truthy : Text → Bool
truthy [] = false
truthy (c ∷ s) = true

-- `a or b`
unfoldable pub or_text : Text → Text → Text
or_text [] b = b
or_text (c ∷ a) b = c ∷ a

abbrev extend_first : ℕ → List Text → List Text
extend_first c [] = (c ∷ []) ∷ []
extend_first c (part ∷ parts) = (c ∷ part) ∷ parts

-- `s.split(sep)` for a separator of one character.
unfoldable pub split_on : ℕ → Text → List Text
split_on sep [] = [] ∷ []
split_on sep (c ∷ s) =
    let parts = split_on sep s in if c == sep then [] ∷ parts else extend_first c parts

abbrev pub lacks : ℕ → Text → Bool
lacks sep [] = true
lacks sep (c ∷ s) = not (c == sep) && lacks sep s

-- A text with no separator is the first part of what is joined to it by one.
pub split_on-append :
    (sep : ℕ) (a s : Text) → lacks sep a ≡ true → split_on sep (a ++ (sep ∷ s)) ≡ a ∷ split_on sep s
unfolding split_on
split_on-append sep [] s h = ground arith
split_on-append sep (c ∷ a) s h = ground (arith, split_on-append sep a s)

-- `sep.join(parts)`
unfoldable pub join : Text → List Text → Text
join sep [] = []
join sep (part ∷ []) = part
join sep (part ∷ next ∷ parts) = part ++ (sep ++ join sep (next ∷ parts))

-- What follows the prefix `p` in `s`, if `s` begins with it.
unfoldable pub strip_prefix : Text → Text → Option Text
strip_prefix [] s = some s
strip_prefix (x ∷ p) [] = none
strip_prefix (x ∷ p) (y ∷ s) = if x == y then strip_prefix p s else none

pub strip_prefix-append : (p s : Text) → strip_prefix p (p ++ s) ≡ some s
unfolding strip_prefix
strip_prefix-append [] s = refl
strip_prefix-append (x ∷ p) s = ground (arith, strip_prefix-append p s)

abbrev pub is_some {ℓ} : {A : Type ℓ} → Option A → Bool
is_some none = false
is_some (some a) = true

-- `needle in s`
unfoldable pub contains_text : Text → Text → Bool
contains_text needle [] = is_some (strip_prefix needle [])
contains_text needle (c ∷ s) = is_some (strip_prefix needle (c ∷ s)) || contains_text needle s

-- `str.isspace`, `\s`
unfoldable pub is_space : ℕ → Bool
is_space c =
    leb 9 c && leb c 13
    || leb 28 c && leb c 32
    || c == 133
    || c == 160
    || c == 5760
    || leb 8192 c && leb c 8202
    || c == 8232
    || c == 8233
    || c == 8239
    || c == 8287
    || c == 12288

abbrev flush : Text → List Text → List Text
flush [] words = words
flush (c ∷ word) words = (c ∷ word) ∷ words

words_from : Text → Text → List Text
words_from word [] = flush word []
words_from word (c ∷ s) = elim (is_space c) [
  | true ↦ flush word (words_from [] s)
  | false ↦ words_from (word ++ (c ∷ [])) s
]

-- `s.split()`: the runs of characters that are no white space.
unfoldable pub split_words : Text → List Text
unfolding words_from is_space
split_words s = words_from [] s

split_words_test : split_words (codes " -b 512\t-x ") ≡ codes "-b" ∷ codes "512" ∷ codes "-x" ∷ []
unfolding split_words
split_words_test = refl

pub or_text_of_truthy : (a b : Text) → truthy a ≡ true → or_text a b ≡ a
unfolding truthy or_text
or_text_of_truthy [] b h = cc
or_text_of_truthy (c ∷ a) b h = refl

-- No white space.
abbrev pub is_word : Text → Bool
is_word [] = true
is_word (c ∷ s) = not (is_space c) && is_word s

words_from-word :
    (word a s : Text) → is_word a ≡ true → words_from word (a ++ s) ≡ words_from (word ++ a) s
unfolding words_from
words_from-word word [] s h = ap (λ w. words_from w s) (sym (append-nil word))
words_from-word word (c ∷ a) s h = elim (Bool-cases (is_space c)) [
  | inl space ↦ ground arith
  | inr other ↦
      rw (other, words_from)
        (words_from-word (word ++ (c ∷ [])) a s (ground arith)
          ∙ ap (λ w. words_from w s) (append_assoc word (c ∷ []) a))
]

-- Two words with white space between them.
pub split_words-two :
    (c d sep : ℕ) (a b : Text)
    → is_word (c ∷ a) ≡ true
    → is_space sep ≡ true
    → is_word (d ∷ b) ≡ true
    → split_words ((c ∷ a) ++ (sep ∷ (d ∷ b))) ≡ (c ∷ a) ∷ (d ∷ b) ∷ []
unfolding split_words words_from
split_words-two c d sep a b h space k =
    words_from-word [] (c ∷ a) (sep ∷ d ∷ b) h
    ∙ rw (space, words_from)
        (ap (λ ws. (c ∷ a) ∷ ws)
          (ap (words_from []) (sym (append-nil (d ∷ b))) ∙ words_from-word [] (d ∷ b) [] k))

abbrev text_length : Text → ℕ
text_length [] = 0
text_length (c ∷ s) = suc (text_length s)

-- `s.replace(old, new)` from a place `skip` characters further on; `old` is not empty.
replace_from : Text → Text → ℕ → Text → Text
replace_from old new skip [] = []
replace_from old new (suc skip) (c ∷ s) = replace_from old new skip s
replace_from old new zero (c ∷ s) =
    let behind = replace_from old new (text_length old - 1) s in
    let further = replace_from old new 0 s in
    if is_some (strip_prefix old (c ∷ s)) then new ++ behind else c ∷ further

unfoldable pub replace_text : Text → Text → Text → Text
unfolding replace_from
replace_text old new s = replace_from old new 0 s

-- Where the text does not occur, nothing is replaced.
pub replace_text-absent :
    (old new s : Text) → contains_text old s ≡ false → replace_text old new s ≡ s
unfolding replace_text replace_from contains_text
replace_text-absent old new [] h = refl
replace_text-absent old new (c ∷ s) h = ground (arith, replace_text-absent old new s)

-- `s.lstrip()` and `s.strip()`
unfoldable pub lstrip : Text → Text
lstrip [] = []
lstrip (c ∷ s) = let rest = lstrip s in if is_space c then rest else c ∷ s

abbrev unless_space : ℕ → Text → Text
unless_space c [] = if is_space c then [] else c ∷ []
unless_space c (d ∷ rest) = c ∷ d ∷ rest

rstrip : Text → Text
rstrip [] = []
rstrip (c ∷ s) = unless_space c (rstrip s)

unfoldable pub strip : Text → Text
unfolding lstrip rstrip
strip s = rstrip (lstrip s)
