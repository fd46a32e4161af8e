-- ===== src/WireGuard/Handshakes/Laws.antt =====
-- The output of `wg show <interface> latest-handshakes` is read back.
use mathlib.Core.List.{append_assoc, append-nil}
use prima_pool_client.Base.{
  Text, ℕ, ◌≡◌, refl, sym, ap, ◌∙◌, Bool, Bool-cases, inl, inr, true, false, not, ◌&&◌, none, some,
  [], ◌∷◌, ◌++◌, is_space, is_word, split_words, split_words-two, arith,
}
use prima_pool_client.Base.Decimal.{
  is_digit, all_digits, int, str, int-str, str-all_digits, str-cons,
}
use prima_pool_client.Base.Dict.{Dict, lookup, insert_fresh}
use prima_pool_client.WireGuard.Handshakes.{
  is_line_break, splitlines, parse_int, add_handshake, add_lines, parse_handshakes,
}

-- A peer a line: its key, a tab, and the time of its last handshake.
unfoldable pub shown : Dict ℕ → Text
shown [] = []
shown ((pubkey, epoch) ∷ peers) = (pubkey ++ (9 ∷ str epoch)) ++ (10 ∷ shown peers)

abbrev no_breaks : Text → Bool
no_breaks [] = true
no_breaks (c ∷ s) = not (is_line_break c) && no_breaks s

splitlines-line :
    (line rest : Text)
    → no_breaks line ≡ true
    → splitlines (line ++ (10 ∷ rest)) ≡ line ∷ splitlines rest
unfolding splitlines is_line_break
splitlines-line [] [] h = refl
splitlines-line [] (d ∷ rest) h = refl
splitlines-line (c ∷ []) rest h = ground (arith, splitlines-line [] rest)
splitlines-line (c ∷ d ∷ line) rest h = ground (arith, splitlines-line (d ∷ line) rest)

line_break_of_space : (c : ℕ) → is_space c ≡ false → is_line_break c ≡ false
unfolding is_line_break is_space
line_break_of_space c h = ground arith

no_breaks-word : (a s : Text) → is_word a ≡ true → no_breaks s ≡ true → no_breaks (a ++ s) ≡ true
no_breaks-word [] s h k = k
no_breaks-word (c ∷ a) s h k = elim (Bool-cases (is_space c)) [
  | inl space ↦ ground arith
  | inr other ↦ rw (line_break_of_space c other) (no_breaks-word a s (ground arith) k)
]

is_word-all_digits : (s : Text) → all_digits s ≡ true → is_word s ≡ true
unfolding is_space is_digit
is_word-all_digits [] h = refl
is_word-all_digits (c ∷ s) h = ground (arith, is_word-all_digits s)

is_word-str : (n : ℕ) → is_word (str n) ≡ true
is_word-str n = is_word-all_digits (str n) (str-all_digits n)

no_breaks-shown :
    (pubkey : Text) (epoch : ℕ)
    → is_word pubkey ≡ true
    → no_breaks (pubkey ++ (9 ∷ str epoch)) ≡ true
unfolding is_line_break
no_breaks-shown pubkey epoch word = no_breaks-word pubkey (9 ∷ str epoch) word (
    ap no_breaks (sym (append-nil (str epoch)))
    ∙ no_breaks-word (str epoch) [] (is_word-str epoch) refl)

parse_int-str : (n : ℕ) → parse_int (str n) ≡ some n
unfolding parse_int
parse_int-str n =
    let (c, s, e) = str-cons n in
    let digits : all_digits (c ∷ s) ≡ true = ap all_digits (sym e) ∙ str-all_digits n in
    let parsed : parse_int (c ∷ s) ≡ some (int (c ∷ s)) = rw digits refl in
    ap parse_int e ∙ parsed ∙ ap (λ t. some (int t)) (sym e) ∙ ap some (int-str n)

split_words-shown :
    (c : ℕ) (pubkey : Text) (epoch : ℕ)
    → is_word (c ∷ pubkey) ≡ true
    → split_words ((c ∷ pubkey) ++ (9 ∷ str epoch)) ≡ (c ∷ pubkey) ∷ str epoch ∷ []
unfolding is_space
split_words-shown c pubkey epoch word =
    let (d, s, e) = str-cons epoch in
    ap (λ t. split_words ((c ∷ pubkey) ++ (9 ∷ t))) e
    ∙ split_words-two c d 9 pubkey s word refl (ap is_word (sym e) ∙ is_word-str epoch)
    ∙ ap (λ t. (c ∷ pubkey) ∷ t ∷ []) (sym e)

-- Keys with no white space, none of them empty and none twice.
abbrev pub AreKeys : Dict ℕ → Dict ℕ → Type 0
AreKeys seen [] = Unit
AreKeys seen (([], epoch) ∷ peers) = ⊥
AreKeys seen ((c ∷ pubkey, epoch) ∷ peers) =
    (is_word (c ∷ pubkey) ≡ true)
    × (lookup (c ∷ pubkey) seen ≡ none)
    × AreKeys (seen ++ ((c ∷ pubkey, epoch) ∷ [])) peers

add_lines-shown :
    (peers seen : Dict ℕ)
    → AreKeys seen peers
    → add_lines (splitlines (shown peers)) seen ≡ seen ++ peers
unfolding add_lines add_handshake shown splitlines
add_lines-shown [] seen keys = sym (append-nil seen)
add_lines-shown (([], epoch) ∷ peers) seen keys = absurd keys
add_lines-shown ((c ∷ pubkey, epoch) ∷ peers) seen (word, fresh, keys) =
    ap (λ lines. add_lines lines seen)
      (splitlines-line ((c ∷ pubkey) ++ (9 ∷ str epoch)) (shown peers)
        (no_breaks-shown (c ∷ pubkey) epoch word))
    ∙ ap (λ ws. add_lines (splitlines (shown peers)) (add_handshake ws seen))
        (split_words-shown c pubkey epoch word)
    ∙ rw (parse_int-str epoch, add_handshake)
        (ap (add_lines (splitlines (shown peers))) (insert_fresh (c ∷ pubkey) epoch seen fresh))
    ∙ add_lines-shown peers (seen ++ ((c ∷ pubkey, epoch) ∷ [])) keys
    ∙ append_assoc seen ((c ∷ pubkey, epoch) ∷ []) peers

-- The output of `wg`, a line for each peer with its key, a tab and the time of its last handshake,
-- is read back as exactly these peers in this order, if the keys are distinct, not empty and
-- have no white space.
pub parse_handshakes-shown :
    (peers : Dict ℕ) → AreKeys [] peers → parse_handshakes (shown peers) ≡ peers
unfolding parse_handshakes
parse_handshakes-shown peers keys = add_lines-shown peers [] keys
