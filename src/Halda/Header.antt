-- ===== src/Halda/Header.antt =====
-- The last header decides, whatever stands in front of it: the header text cannot overlap itself.
use prima_pool_client.Base.{
  Text, ℕ, zero, suc, ◌+◌, ◌-◌, ◌<◌, ◌≤◌, ◌≡◌, ◌≢◌, refl, sym, ap, ◌∙◌, true, Option, none, some,
  List, [], ◌∷◌, ◌++◌, length, drop, get_elem?, strip_prefix, lacks, arith, ltb, Bool-cases,
  Option-cases, inl, inr,
}
use prima_pool_client.Halda.Regex.{Match, find_from, find_iter, alloc_header, header_text, ◌>>=◌}
use prima_pool_client.Halda.Regex.Scan.{find_from-match}
use prima_pool_client.Halda.Parse.{last_match}

-- A prefix that reaches past `q` has at that place the character that follows `q`.
strip_prefix-reaches :
    (p q s : Text) (x : ℕ) (r : Text)
    → strip_prefix p (q ++ (x ∷ s)) ≡ some r
    → length q < length p
    → get_elem? p (length q) ≡ some x
unfolding strip_prefix
strip_prefix-reaches [] q s x r h l = absurd (omega arith)
strip_prefix-reaches (y ∷ p) [] s x r h l = ground arith
strip_prefix-reaches (y ∷ p) (c ∷ q) s x r h l =
    strip_prefix-reaches p q s x r (ground arith) (omega arith)

lacks-get_elem? : (p : Text) (x i : ℕ) → lacks x p ≡ true → get_elem? p i ≢ some x
lacks-get_elem? [] x i h e = cc
lacks-get_elem? (c ∷ p) x zero h e = ground arith
lacks-get_elem? (c ∷ p) x (suc i) h e = lacks-get_elem? p x i (ground arith) e

length-strip_prefix : (p s r : Text) → strip_prefix p s ≡ some r → length s ≡ length p + length r
unfolding strip_prefix
length-strip_prefix [] s r h = let e : s ≡ r = cc in ap length e ∙ omega arith
length-strip_prefix (x ∷ p) [] r h = cc
length-strip_prefix (x ∷ p) (y ∷ s) r h =
    let rest : strip_prefix p s ≡ some r = ground arith in
    omega (arith, length-strip_prefix p s r rest)

bind-eq-some :
    (o : Option Text) (group after : Text)
    → ◌>>=◌ {A = Text} {B = Text × Text} o (λ rest. some ([], rest)) ≡ some (group, after)
    → o ≡ some after
bind-eq-some none group after h = cc
bind-eq-some (some rest) group after h = cc

alloc_header-strip_prefix :
    (s group after : Text)
    → alloc_header s ≡ some (group, after)
    → strip_prefix header_text s ≡ some after
unfolding alloc_header
alloc_header-strip_prefix s group after h = bind-eq-some (strip_prefix header_text s) group after h

-- A match in front of a header ends in front of it.
header_apart :
    (c : ℕ) (pre r group after : Text)
    → alloc_header (c ∷ (pre ++ (header_text ++ r))) ≡ some (group, after)
    → length (pre ++ (header_text ++ r)) - length after ≤ length pre
header_apart c pre r group after h =
    let matched = alloc_header-strip_prefix _ group after h in
    let size = length-strip_prefix header_text (c ∷ (pre ++ (header_text ++ r))) after matched in
    elim (Bool-cases (ltb (length (c ∷ pre)) 30)) [
      | inr long ↦ let far : 30 ≤ suc (length pre) = ground arith in omega (arith, size, far)
      | inl short ↦
          let near : suc (length pre) < 30 = ground arith in
          absurd (
            lacks-get_elem? (drop 1 header_text) b'A' (length pre) refl (
              strip_prefix-reaches header_text (c ∷ pre) (drop 1 header_text ++ r) b'A' after
                matched near))
    ]

last_match-cons :
    (m : Match) (ms : List Match) (n : Match)
    → last_match ms ≡ some n
    → last_match (m ∷ ms) ≡ some n
unfolding last_match
last_match-cons m [] n h = cc
last_match-cons m (k ∷ ms) n h = h

-- There is a last match, and one more in front of it changes nothing.
last_match-some : (m : Match) (ms : List Match) → (n : Match) × (last_match (m ∷ ms) ≡ some n)
unfolding last_match
last_match-some m [] = (m, refl)
last_match-some m (k ∷ ms) = last_match-some k ms

pub find-header_text :
    (r : Text)
    → find_from alloc_header zero (header_text ++ r)
      ≡ record { group = []; from = header_text ++ r; after = r } ∷ find_from alloc_header zero r
unfolding alloc_header strip_prefix
find-header_text r = find_from-match alloc_header b'A' (drop 1 header_text) r [] refl

last_header :
    (pre r : Text) (skip : ℕ)
    → skip ≤ length pre
    → last_match (find_from alloc_header skip (pre ++ (header_text ++ r)))
      ≡ last_match (find_from alloc_header zero (header_text ++ r))
unfolding find_from
last_header [] r zero h = refl
last_header [] r (suc skip) h = absurd (omega arith)
last_header (c ∷ pre) r (suc skip) h = last_header pre r skip (omega arith)
last_header (c ∷ pre) r zero h =
    elim (Option-cases (alloc_header (c ∷ (pre ++ (header_text ++ r))))) [
      | inl unmatched ↦ rw (unmatched, find_from) (last_header pre r zero (omega arith))
      | inr ((group, after), matched) ↦
          let m : Match = record { group = []; from = header_text ++ r; after = r } in
          let (n, found) = last_match-some m (find_from alloc_header zero r) in
          let found' = ap last_match (find-header_text r) ∙ found in
          rw (matched, find_from)
            (last_match-cons _ _ n
                (last_header pre r _ (header_apart c pre r group after matched) ∙ found')
              ∙ sym found')
    ]

-- Whatever the process printed before, the last match of a header in a text that ends in a header
-- and a rest is the last one in that header and rest.
pub last_match-header :
    (pre r : Text)
    → last_match (find_iter alloc_header (pre ++ (header_text ++ r)))
      ≡ last_match (find_iter alloc_header (header_text ++ r))
unfolding find_iter
last_match-header pre r = last_header pre r zero (omega arith)
