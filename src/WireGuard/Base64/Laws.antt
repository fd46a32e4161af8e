-- ===== src/WireGuard/Base64/Laws.antt =====
-- What is encoded is decoded.
use prima_pool_client.Base.{
  Text, ℕ, ◌+◌, ◌*◌, ◌/◌, ◌%◌, ◌<◌, ◌≡◌, refl, ap, ◌∙◌, some, List, [], ◌∷◌, false, arith,
}
use prima_pool_client.WireGuard.Base64.{
  char_of, value_of, b64encode, first, second, third, fourth, emit, decode_from, b64decode,
}

value_of-char_of : (n : ℕ) → n < 64 → value_of (char_of n) ≡ some n
unfolding value_of char_of
value_of-char_of n h = ground arith

abbrev pub AreBytes : List ℕ → Type 0
AreBytes [] = Unit
AreBytes (b ∷ bytes) = (b < 256) × AreBytes bytes

-- A character in each place of a group.
decode-first :
    (p : ℕ) (s : Text) → p < 64 → decode_from first (char_of p ∷ s) ≡ decode_from (second p) s
unfolding decode_from
decode-first p s h = rw (value_of-char_of p h, decode_from) refl

decode-second :
    (left q : ℕ) (s : Text)
    → q < 64
    → decode_from (second left) (char_of q ∷ s)
      ≡ emit (left * 4 + q / 16) (decode_from (third (q % 16) false) s)
unfolding decode_from
decode-second left q s h = rw (value_of-char_of q h, decode_from) refl

decode-third :
    (left r : ℕ) (s : Text)
    → r < 64
    → decode_from (third left false) (char_of r ∷ s)
      ≡ emit (left * 16 + r / 4) (decode_from (fourth (r % 4)) s)
unfolding decode_from
decode-third left r s h = rw (value_of-char_of r h, decode_from) refl

decode-fourth :
    (left t : ℕ) (s : Text)
    → t < 64
    → decode_from (fourth left) (char_of t ∷ s) ≡ emit (left * 64 + t) (decode_from first s)
unfolding decode_from
decode-fourth left t s h = rw (value_of-char_of t h, decode_from) refl

-- The first two characters of a group, and the first three.
decode-half :
    (p q : ℕ) (s : Text)
    → p < 64
    → q < 64
    → decode_from first (char_of p ∷ char_of q ∷ s)
      ≡ emit (p * 4 + q / 16) (decode_from (third (q % 16) false) s)
decode-half p q s hp hq = decode-first p (char_of q ∷ s) hp ∙ decode-second p q s hq

decode-most :
    (p q r : ℕ) (s : Text)
    → p < 64
    → q < 64
    → r < 64
    → decode_from first (char_of p ∷ char_of q ∷ char_of r ∷ s)
      ≡ emit (p * 4 + q / 16) (emit (q % 16 * 16 + r / 4) (decode_from (fourth (r % 4)) s))
decode-most p q r s hp hq hr =
    decode-half p q (char_of r ∷ s) hp hq
    ∙ ap (emit (p * 4 + q / 16)) (decode-third (q % 16) r s hr)

decode-group :
    (p q r t : ℕ) (s : Text)
    → p < 64
    → q < 64
    → r < 64
    → t < 64
    → decode_from first (char_of p ∷ char_of q ∷ char_of r ∷ char_of t ∷ s)
      ≡ emit
          (p * 4 + q / 16)
          (emit (q % 16 * 16 + r / 4) (emit (r % 4 * 64 + t) (decode_from first s)))
decode-group p q r t s hp hq hr ht =
    decode-most p q r (char_of t ∷ s) hp hq hr
    ∙ ap (λ o. emit (p * 4 + q / 16) (emit (q % 16 * 16 + r / 4) o)) (decode-fourth (r % 4) t s ht)

two_bytes :
    (a b : ℕ)
    → a < 256
    → b < 256
    → some (
        (a / 4 * 4 + (a % 4 * 16 + b / 16) / 16)
        ∷ ((a % 4 * 16 + b / 16) % 16 * 16 + b % 16 * 4 / 4)
        ∷ [])
      ≡ some (a ∷ b ∷ [])
two_bytes a b ha hb =
    let e : a / 4 * 4 + (a % 4 * 16 + b / 16) / 16 ≡ a = omega arith in
    let f : (a % 4 * 16 + b / 16) % 16 * 16 + b % 16 * 4 / 4 ≡ b = omega arith in
    λ i. some (e i ∷ f i ∷ [])

same_bytes :
    (a b c : ℕ) (rest : List ℕ)
    → a < 256
    → b < 256
    → c < 256
    → some (
        (a / 4 * 4 + (a % 4 * 16 + b / 16) / 16)
        ∷ ((a % 4 * 16 + b / 16) % 16 * 16 + (b % 16 * 4 + c / 64) / 4)
        ∷ ((b % 16 * 4 + c / 64) % 4 * 64 + c % 64)
        ∷ rest)
      ≡ some (a ∷ b ∷ c ∷ rest)
same_bytes a b c rest ha hb hc =
    let e : a / 4 * 4 + (a % 4 * 16 + b / 16) / 16 ≡ a = omega arith in
    let f : (a % 4 * 16 + b / 16) % 16 * 16 + (b % 16 * 4 + c / 64) / 4 ≡ b = omega arith in
    let g : (b % 16 * 4 + c / 64) % 4 * 64 + c % 64 ≡ c = omega arith in
    λ i. some (e i ∷ f i ∷ g i ∷ rest)

-- Bytes are decoded as they were encoded, with whatever length.
pub b64decode-b64encode :
    (bytes : List ℕ) → AreBytes bytes → b64decode (b64encode bytes) ≡ some bytes
unfolding b64decode b64encode decode_from value_of
b64decode-b64encode [] h = refl
b64decode-b64encode (a ∷ []) (ha, _) =
    decode-half (a / 4) (a % 4 * 16) (b'=' ∷ b'=' ∷ []) (omega arith) (omega arith)
    ∙ ap (λ x. some (x ∷ [])) (omega arith)
b64decode-b64encode (a ∷ b ∷ []) (ha, (hb, _)) =
    decode-most (a / 4) (a % 4 * 16 + b / 16) (b % 16 * 4) (b'=' ∷ []) (omega arith) (omega arith)
      (omega arith)
    ∙ two_bytes a b ha hb
b64decode-b64encode (a ∷ b ∷ c ∷ rest) (ha, (hb, (hc, h))) =
    decode-group (a / 4) (a % 4 * 16 + b / 16) (b % 16 * 4 + c / 64) (c % 64) (b64encode rest)
      (omega arith) (omega arith) (omega arith) (omega arith)
    ∙ ap
        (λ o. emit (a / 4 * 4 + (a % 4 * 16 + b / 16) / 16) (
          emit ((a % 4 * 16 + b / 16) % 16 * 16 + (b % 16 * 4 + c / 64) / 4)
            (emit ((b % 16 * 4 + c / 64) % 4 * 64 + c % 64) o)))
        (b64decode-b64encode rest h)
    ∙ same_bytes a b c rest ha hb hc
