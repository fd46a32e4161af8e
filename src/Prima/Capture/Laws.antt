-- ===== src/Prima/Capture/Laws.antt =====
-- The captured lines are the last ones of the whole output.
use prima_pool_client.Base.{
  Text, ℕ, zero, suc, ◌+◌, ◌-◌, ◌≤◌, ◌≡◌, refl, sym, ap, ◌∙◌, Bool, true, false, List, [], ◌∷◌,
  ◌++◌, length, drop, length-append, length-drop, ltb, if◌then◌else◌, Bool-cases, inl, inr, arith,
}
use prima_pool_client.Prima.Capture.{append_line, read, rstrip_newlines}
use mathlib.Core.List.{append_assoc, append-nil}

drop-append : (k : ℕ) (xs ys : List Text) → k ≤ length xs → drop k (xs ++ ys) ≡ drop k xs ++ ys
drop-append zero xs ys h = refl
drop-append (suc k) [] ys h = absurd (omega arith)
drop-append (suc k) (x ∷ xs) ys h = drop-append k xs ys (omega arith)

drop-nil : (k : ℕ) → ◌≡◌ {A = List Text} (drop k []) []
drop-nil zero = refl
drop-nil (suc k) = refl

drop-drop : (i j : ℕ) (xs : List Text) → drop i (drop j xs) ≡ drop (j + i) xs
drop-drop i zero xs = let e : i ≡ zero + i = omega arith in ap (λ k. drop k xs) e
drop-drop i (suc j) [] = drop-nil i ∙ sym (drop-nil (suc j + i))
drop-drop i (suc j) (x ∷ xs) =
    let e : suc (j + i) ≡ suc j + i = omega arith in drop-drop i j xs ∙ ap (λ k. drop k (x ∷ xs)) e

-- The last `limit` of the lines.
abbrev pub last : ℕ → List Text → List Text
last limit lines = drop (length lines - limit) lines

append_line_lem :
    (limit : ℕ) (lines : List Text) (line : Text)
    → append_line limit lines line ≡ last limit (lines ++ (line ∷ []))
unfolding append_line
append_line_lem limit lines line = elim (Bool-cases (ltb limit (length (lines ++ (line ∷ []))))) [
  | inl full ↦ rw full
  | inr fits ↦
      let e : 0 ≡ length (lines ++ (line ∷ [])) - limit = ground arith in
      rw fits (ap (λ k. drop k (lines ++ (line ∷ []))) e)
]

last-last :
    (limit : ℕ) (seen : List Text) (line : Text)
    → last limit (last limit seen ++ (line ∷ [])) ≡ last limit (seen ++ (line ∷ []))
last-last limit seen line =
    let k : ℕ = length seen - limit in
    let all : List Text = seen ++ (line ∷ []) in
    let e : k + (length (drop k all) - limit) ≡ length all - limit =
      omega (arith, length-drop k all, length-append seen (line ∷ [])) in
    ap (last limit) (sym (drop-append k seen (line ∷ []) (omega arith)))
    ∙ drop-drop (length (drop k all) - limit) k all
    ∙ ap (λ m. drop m all) e

-- What the pipe gave until a line came after `stop`.
unfoldable pub delivered : (List ℕ → Text) → List (List ℕ × Bool) → List Text
delivered decode [] = []
delivered decode ((raw, stopped) ∷ rest) =
    let more = delivered decode rest in if stopped then [] else rstrip_newlines (decode raw) ∷ more

read-last :
    (decode : List ℕ → Text) (limit : ℕ) (seen : List Text) (events : List (List ℕ × Bool))
    → read decode limit (last limit seen) events ≡ last limit (seen ++ delivered decode events)
unfolding read delivered
read-last decode limit seen [] = rw append-nil
read-last decode limit seen ((raw, true) ∷ rest) = rw append-nil
read-last decode limit seen ((raw, false) ∷ rest) =
    ap (λ lines. read decode limit lines rest)
      (append_line_lem limit (last limit seen) (rstrip_newlines (decode raw))
        ∙ last-last limit seen (rstrip_newlines (decode raw)))
    ∙ read-last decode limit (seen ++ (rstrip_newlines (decode raw) ∷ [])) rest
    ∙ ap (last limit)
        (append_assoc seen (rstrip_newlines (decode raw) ∷ []) (delivered decode rest))

-- The lines kept are exactly the last `limit` of those that came before `stop`, in order, and
-- there are never more of them than the limit.
pub read-delivered :
    (decode : List ℕ → Text) (limit : ℕ) (events : List (List ℕ × Bool))
    → (read decode limit [] events ≡ last limit (delivered decode events))
      × (length (read decode limit [] events) ≤ limit)
read-delivered decode limit events =
    let same : read decode limit [] events ≡ last limit (delivered decode events) =
      ap (λ lines. read decode limit lines events) (sym (drop-nil (0 - limit)))
      ∙ read-last decode limit [] events in
    (
      same,
      rw same (
          omega (
            arith,
            length-drop (length (delivered decode events) - limit) (delivered decode events),
          )),
    )
