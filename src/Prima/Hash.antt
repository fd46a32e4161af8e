-- ===== src/Prima/Hash.antt =====
-- `compute_gguf_sha256`: the digest of a file, fed in chunks.
use prima_pool_client.Base.{
  Text, ℕ, zero, suc, ◌<◌, ◌≡◌, refl, sym, ap, ◌∙◌, Option, none, some, List, [], ◌∷◌, ◌++◌, length,
  take, drop, length-drop, arith,
}

-- `hashlib.sha256`: feeding two blocks is feeding their concatenation, and no block changes
-- nothing.
pub record Hasher : Type 1 where
  pub State : Type 0
  pub init : State
  pub update : State → List ℕ → State
  pub hexdigest : State → Text
  pub update-nil : (h : State) → update h [] ≡ h
  pub update-append : (h : State) (a b : List ℕ) → update (update h a) b ≡ update h (a ++ b)

take-append-drop : (n : ℕ) (xs : List ℕ) → take n xs ++ drop n xs ≡ xs
take-append-drop zero xs = refl
take-append-drop (suc n) [] = refl
take-append-drop (suc n) (x ∷ xs) = ap (λ r. x ∷ r) (take-append-drop n xs)

module _ (H : Hasher) where
  open H use {State, init, update, hexdigest, update-nil, update-append}

  -- The loop over `fh.read(chunk_size)`, with what is left of the file; `none` means that the
  -- fuel ran out.
  read_blocks : ℕ → ℕ → State → List ℕ → Option State
  read_blocks zero chunk_size h rest = none
  read_blocks (suc fuel) chunk_size h rest = elim (take chunk_size rest) [
    | [] ↦ some h
    | b ∷ block ↦ read_blocks fuel chunk_size (update h (b ∷ block)) (drop chunk_size rest)
  ]

  unfoldable pub compute_gguf_sha256 : ℕ → List ℕ → Option Text
  unfolding read_blocks
  compute_gguf_sha256 chunk_size content =
      elim (read_blocks (suc (length content)) chunk_size init content) [
        | none ↦ none
        | some h ↦ some (hexdigest h)
      ]

  read_blocks-update :
      (fuel chunk_size : ℕ) (h : State) (rest : List ℕ)
      → 0 < chunk_size
      → length rest < fuel
      → read_blocks fuel chunk_size h rest ≡ some (update h rest)
  unfolding read_blocks
  read_blocks-update zero c h rest p q = absurd (omega arith)
  read_blocks-update (suc fuel) zero h rest p q = absurd (omega arith)
  read_blocks-update (suc fuel) (suc c) h [] p q = ap some (sym (update-nil h))
  read_blocks-update (suc fuel) (suc c) h (x ∷ rest) p q =
      read_blocks-update fuel (suc c) (update h (x ∷ take c rest)) (drop c rest) p
        (omega (arith, length-drop c rest))
      ∙ ap some (
          update-append h (x ∷ take c rest) (drop c rest)
          ∙ ap (λ r. update h (x ∷ r)) (take-append-drop c rest))

  -- The loop ends for every file and every chunk size above 0, and the digest is that of the
  -- whole content fed at once, whatever the chunk size.
  pub compute_gguf_sha256-whole :
      (chunk_size : ℕ) (content : List ℕ)
      → 0 < chunk_size
      → compute_gguf_sha256 chunk_size content ≡ some (hexdigest (update init content))
  unfolding compute_gguf_sha256
  compute_gguf_sha256-whole c content p =
      rw
        (
          read_blocks-update (suc (length content)) c init content p (omega arith),
          compute_gguf_sha256,
        )
        refl
