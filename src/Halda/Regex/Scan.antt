-- ===== src/Halda/Regex/Scan.antt =====
-- Scans over texts in which a pattern does not begin, and over a known match.
use mathlib.Core.List.{append_assoc}
use prima_pool_client.Base.{
  Text, ℕ, zero, ◌-◌, ◌≡◌, refl, sym, ap, ◌∙◌, Bool, true, false, ◌&&◌, not, some, [], ◌∷◌, ◌++◌,
  length, length-append, is_some, is_space, lacks, arith,
}
use prima_pool_client.Base.Decimal.{is_digit, all_digits, str, str-all_digits, str-cons}
use prima_pool_client.Halda.Regex.{
  Matcher, find_from, search_first, alloc_header, labelled, skip_spaces, digits, take_digits,
}

-- No match begins in `p` where `rest` follows.
abbrev pub quiet : Matcher → Text → Text → Bool
quiet m [] rest = true
quiet m (c ∷ p) rest = not (is_some (m (c ∷ (p ++ rest)))) && quiet m p rest

pub find_from-quiet :
    (m : Matcher) (p rest : Text)
    → quiet m p rest ≡ true
    → find_from m zero (p ++ rest) ≡ find_from m zero rest
unfolding find_from
find_from-quiet m [] rest h = refl
find_from-quiet m (c ∷ p) rest h = ground (arith, find_from-quiet m p rest)

pub search_first-quiet :
    (m : Matcher) (p rest : Text)
    → quiet m p rest ≡ true
    → search_first m (p ++ rest) ≡ search_first m rest
unfolding search_first
search_first-quiet m [] rest h = refl
search_first-quiet m (c ∷ p) rest h = ground (arith, search_first-quiet m p rest)

find_from_skip :
    (m : Matcher) (p rest : Text) → find_from m (length p) (p ++ rest) ≡ find_from m zero rest
unfolding find_from
find_from_skip m [] rest = refl
find_from_skip m (c ∷ p) rest = find_from_skip m p rest

-- A match at the front is found, and the scan goes on behind it.
pub find_from-match :
    (m : Matcher) (c : ℕ) (p rest group : Text)
    → m (c ∷ (p ++ rest)) ≡ some (group, rest)
    → find_from m zero (c ∷ (p ++ rest))
      ≡ record { group = group; from = c ∷ (p ++ rest); after = rest } ∷ find_from m zero rest
unfolding find_from
find_from-match m c p rest group h =
    let e : length (p ++ rest) - length rest ≡ length p = omega (arith, length-append p rest) in
    rw (h, find_from)
      (rw e (
        ap (λ ms. record { group = group; from = c ∷ (p ++ rest); after = rest } ∷ ms)
          (find_from_skip m p rest)))

pub quiet-append :
    (m : Matcher) (p q rest : Text)
    → quiet m p (q ++ rest) ≡ true
    → quiet m q rest ≡ true
    → quiet m (p ++ q) rest ≡ true
quiet-append m [] q rest h k = k
quiet-append m (c ∷ p) q rest h k = rw append_assoc (ground (arith, quiet-append m p q rest))

take_digits-append :
    (p : Text) (c : ℕ) (rest : Text)
    → all_digits p ≡ true
    → is_digit c ≡ false
    → take_digits (p ++ (c ∷ rest)) ≡ (p, c ∷ rest)
unfolding take_digits
take_digits-append [] c rest h k = ground arith
take_digits-append (d ∷ p) c rest h k = ground (arith, take_digits-append p c rest)

digits_of_take :
    (s : Text) (d : ℕ) (p rest : Text)
    → take_digits s ≡ (d ∷ p, rest)
    → digits s ≡ some (d ∷ p, rest)
unfolding digits
digits_of_take s d p rest h = rw (h, digits) (ap some h)

-- A printed number in front of what is no digit is read whole.
pub digits-str :
    (n c : ℕ) (rest : Text)
    → is_digit c ≡ false
    → digits (str n ++ (c ∷ rest)) ≡ some (str n, c ∷ rest)
digits-str n c rest k =
    let (d, s, e) = str-cons n in
    let read = take_digits-append (str n) c rest (str-all_digits n) k in
    digits_of_take (str n ++ (c ∷ rest)) d s (c ∷ rest) (read ∙ ap (λ p. (p, c ∷ rest)) e)
    ∙ ap (λ p. some (p, c ∷ rest)) (sym e)

digit_is_no_space : (c : ℕ) → is_digit c ≡ true → is_space c ≡ false
unfolding is_digit is_space
digit_is_no_space c h = ground arith

pub skip_spaces-str : (n : ℕ) (rest : Text) → skip_spaces (str n ++ rest) ≡ str n ++ rest
unfolding skip_spaces
skip_spaces-str n rest =
    let (d, s, e) = str-cons n in
    let all : all_digits (d ∷ s) ≡ true = sym (ap all_digits e) ∙ str-all_digits n in
    rw e (ground (arith, digit_is_no_space d))

-- A text with no dash is quiet for both labels.
pub quiet-labelled :
    (label p rest : Text) → lacks b'-' p ≡ true → quiet (labelled label) p rest ≡ true
unfolding labelled
quiet-labelled label [] rest h = refl
quiet-labelled label (c ∷ p) rest h = ground (arith, quiet-labelled label p rest)

digit_is_no_dash : (p : Text) → all_digits p ≡ true → lacks b'-' p ≡ true
unfolding is_digit
digit_is_no_dash [] h = refl
digit_is_no_dash (c ∷ p) h = ground (arith, digit_is_no_dash p)

pub quiet-str : (label : Text) (n : ℕ) (rest : Text) → quiet (labelled label) (str n) rest ≡ true
quiet-str label n rest =
    quiet-labelled label (str n) rest (digit_is_no_dash (str n) (str-all_digits n))

pub search_first-match :
    (m : Matcher) (c : ℕ) (s group rest : Text)
    → m (c ∷ s) ≡ some (group, rest)
    → search_first m (c ∷ s) ≡ some (record { group = group; from = c ∷ s; after = rest })
unfolding search_first
search_first-match m c s group rest h = rw (h, search_first) refl

digit_is_no_letter : (p : Text) → all_digits p ≡ true → lacks b'A' p ≡ true
unfolding is_digit
digit_is_no_letter [] h = refl
digit_is_no_letter (c ∷ p) h = ground (arith, digit_is_no_letter p)

quiet-alloc_header : (p rest : Text) → lacks b'A' p ≡ true → quiet alloc_header p rest ≡ true
unfolding alloc_header
quiet-alloc_header [] rest h = refl
quiet-alloc_header (c ∷ p) rest h = ground (arith, quiet-alloc_header p rest)

pub quiet_header-str : (n : ℕ) (rest : Text) → quiet alloc_header (str n) rest ≡ true
quiet_header-str n rest =
    quiet-alloc_header (str n) rest (digit_is_no_letter (str n) (str-all_digits n))
