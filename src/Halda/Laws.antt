-- ===== src/Halda/Laws.antt =====
-- What a reported distribution says.
use mathlib.Core.Option
use prima_pool_client.Base.{
  Text, ℕ, ◌<◌, ◌≡◌, ◌≢◌, refl, ◌⊎◌, inl, inr, Option-cases, Bool, false, ◌||◌, none, some, List,
  [], ◌∷◌, codes, text_eq, text_eq_iff, if◌then◌else◌, arith,
}
use prima_pool_client.Base.Dict.{Dict, lookup, insert, lookup-insert}
use prima_pool_client.Halda.Parse.{
  parse_distribution, parse_window_size, build_distribution, zero_removed,
}
use prima_pool_client.Halda.Regex.{Match}

-- In a cluster of any other size than one the report is exactly what the table gave, and unknown
-- without a table: the whole model is never attributed to the head.
pub build_distribution-multi :
    (stdout : Text) (world : ℕ)
    → world ≢ 1
    → build_distribution stdout world ≡ parse_distribution stdout
unfolding build_distribution
build_distribution-multi stdout world h = ground arith

-- A report is either that of the table, or it gives the head alone the window size that the output
-- names, which is above 0, and then the cluster has one worker and the output no table.
pub build_distribution-sources :
    (stdout : Text) (world : ℕ) {d : Dict ℕ}
    → build_distribution stdout world ≡ some d
    → (parse_distribution stdout ≡ some d)
      ⊎ ((world ≡ 1)
          × (parse_distribution stdout ≡ none)
          × ((n : ℕ) × (0 < n) × (parse_window_size stdout ≡ some n) × (d ≡ (codes "0", n) ∷ [])))
unfolding build_distribution
build_distribution-sources stdout world h = elim (Option-cases (parse_distribution stdout)) [
  | inr (dist, parsed) ↦ inl (ground arith)
  | inl unparsed ↦ elim (Option-cases (parse_window_size stdout)) [
    | inl unknown ↦ ground arith
    | inr (n, size) ↦ inr (ground arith, unparsed, (n, ground arith, size, ground arith))
  ]
]

-- Whether one of the removals names the rank.
unfoldable pub names_rank : Text → List Match → Bool
names_rank k [] = false
names_rank k (m ∷ ms) = text_eq m.group k || names_rank k ms

-- After the removals every rank that one of them names has window 0 if it was in the table, all
-- others have their window of the table, and no rank appears or vanishes.
pub lookup-zero_removed :
    (k : Text) (ms : List Match) (windows : Dict ℕ)
    → lookup k (zero_removed ms windows)
      ≡ (if names_rank k ms then Option.map (λ _. 0) (lookup k windows) else lookup k windows)
unfolding zero_removed names_rank
lookup-zero_removed k [] windows = refl
lookup-zero_removed k (m ∷ ms) windows = ground (
  arith,
  text_eq_iff m.group k,
  lookup-insert m.group k 0 windows,
  lookup-zero_removed k ms windows,
  lookup-zero_removed k ms (insert m.group 0 windows),
)
