-- ===== src/WebSocket/Laws.antt =====
-- When the WebSocket client tries again.
use prima_pool_client.Base.{
  ℕ, zero, suc, ◌+◌, ◌-◌, ◌<◌, ◌≡◌, refl, ap, ◌∙◌, min, Bool, true, false, some, List, [], ◌∷◌,
  ◌++◌, length, get_elem?, arith,
}
use prima_pool_client.WebSocket.{backoff_of, delay_of, attempt_after, delays}

-- Turns without a connection.
abbrev pub failures : ℕ → List Bool
failures zero = []
failures (suc n) = false ∷ failures n

delays-failures :
    (backoff : List ℕ) (attempt n : ℕ)
    → delays backoff attempt (failures n ++ (false ∷ []))
      ≡ delays backoff attempt (failures n) ++ (delay_of backoff (attempt + n) ∷ [])
unfolding delays attempt_after
delays-failures backoff attempt zero =
    let e : attempt ≡ attempt + zero = omega arith in ap (λ k. delay_of backoff k ∷ []) e
delays-failures backoff attempt (suc n) =
    let e : attempt + 1 + n ≡ attempt + suc n = omega arith in
    ap (λ ds. delay_of backoff attempt ∷ ds)
      (delays-failures backoff (attempt + 1) n
        ∙ ap (λ k. delays backoff (attempt + 1) (failures n) ++ (delay_of backoff k ∷ [])) e)

get_elem?-some : (xs : List ℕ) (i : ℕ) → i < length xs → (d : ℕ) × (get_elem? xs i ≡ some d)
get_elem?-some [] i h = absurd (omega arith)
get_elem?-some (x ∷ xs) zero h = (x, refl)
get_elem?-some (x ∷ xs) (suc i) h = get_elem?-some xs i (omega arith)

-- The list of delays is never left, also where none was configured: there is a delay for every
-- number of attempts, and from the last entry on it is that entry's.
pub delay_of-backoff_of :
    (backoff : List ℕ) (attempt : ℕ)
    → ((d : ℕ) × (delay_of (backoff_of backoff) attempt ≡ some d))
      × (delay_of (backoff_of backoff) (length (backoff_of backoff) - 1 + attempt)
          ≡ get_elem? (backoff_of backoff) (length (backoff_of backoff) - 1))
unfolding delay_of backoff_of
delay_of-backoff_of [] attempt = (
  get_elem?-some (1 ∷ 30 ∷ []) (min attempt 1) (omega arith),
  let e : min (1 + attempt) 1 ≡ 1 = omega arith in ap (get_elem? (1 ∷ 30 ∷ [])) e,
)
delay_of-backoff_of (b ∷ backoff) attempt = (
  get_elem?-some (b ∷ backoff) (min attempt (length (b ∷ backoff) - 1)) (omega arith),
  let e : min (length (b ∷ backoff) - 1 + attempt) (length (b ∷ backoff) - 1)
          ≡ length (b ∷ backoff) - 1 =
        omega arith in
      ap (get_elem? (b ∷ backoff)) e,
)

-- After a turn with a connection the delays start anew, whatever came before, and the turn
-- behind `n` more turns without one waits for the delay of `n + 1` attempts.
pub delays-connected :
    (backoff : List ℕ) (attempt n : ℕ)
    → delays backoff attempt (true ∷ (failures n ++ (false ∷ [])))
      ≡ delays backoff 0 (failures (suc n)) ++ (delay_of backoff (suc n) ∷ [])
unfolding delays attempt_after
delays-connected backoff attempt n =
    let e : 1 + n ≡ suc n = omega arith in
    ap (λ ds. delay_of backoff 0 ∷ ds)
      (delays-failures backoff 1 n
        ∙ ap (λ k. delays backoff 1 (failures n) ++ (delay_of backoff k ∷ [])) e)
