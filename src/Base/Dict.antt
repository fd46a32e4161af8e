-- ===== src/Base/Dict.antt =====
-- Python's `dict` with text keys, in insertion order.
use prima_pool_client.Base.Tests.{if◌then◌else◌}
use prima_pool_client.Base.Texts.{Text, text_eq, text_eq_iff}
use prima_pool_client.Base.Errors.{Result, ok, err, key_error}
use mathlib.Core.Path.{◌≡◌, refl}
use mathlib.Core.Option.{Option, none, some}
use mathlib.Core.List.{List, [], ◌∷◌, ◌++◌}
use mathlib.Core.Logic.{◌≢◌}
use native.Mathlib.Omega.{arith}

abbrev pub Dict {ℓ} : Type ℓ → Type ℓ
Dict V = List (Text × V)

module _ {ℓ} {V : Type ℓ} where
  -- `d.get(k)`
  unfoldable pub lookup : Text → Dict V → Option V
  lookup k [] = none
  lookup k ((j, v) ∷ d) = if text_eq j k then some v else lookup k d

  -- `d[k] = v`
  unfoldable pub insert : Text → V → Dict V → Dict V
  insert k v [] = (k, v) ∷ []
  insert k v ((j, w) ∷ d) = if text_eq j k then (j, v) ∷ d else (j, w) ∷ insert k v d

  pub lookup-insert :
      (k j : Text) (v : V) (d : Dict V)
      → lookup j (insert k v d) ≡ (if text_eq k j then some v else lookup j d)
  unfolding lookup insert
  lookup-insert k j v [] = refl
  lookup-insert k j v ((i, w) ∷ d) =
      ground (arith, text_eq_iff k j, text_eq_iff i k, text_eq_iff i j, lookup-insert k j v d)

  -- `{**d, **e}`
  unfoldable pub merge : Dict V → Dict V → Dict V
  merge d [] = d
  merge d ((k, v) ∷ e) = merge (insert k v d) e

-- `d[k]`, or a `KeyError`.
unfoldable pub get_key {ℓ} : {V : Type ℓ} → Dict V → Text → Result V
unfolding lookup
get_key d k = elim (lookup k d) [ none ↦ err (key_error k) | some v ↦ ok v ]

module _ {ℓ} {V : Type ℓ} where
  -- A new key comes last.
  pub insert_fresh :
      (k : Text) (v : V) (d : Dict V) → lookup k d ≡ none → insert k v d ≡ d ++ ((k, v) ∷ [])
  unfolding lookup insert
  insert_fresh k v [] h = refl
  insert_fresh k v ((j, w) ∷ d) h = ground (arith, insert_fresh k v d)

  pub lookup-append_fresh :
      (k j : Text) (v : V) (d : Dict V)
      → lookup k d ≡ none
      → j ≢ k
      → lookup k (d ++ ((j, v) ∷ [])) ≡ none
  unfolding lookup
  lookup-append_fresh k j v [] h ne = ground (arith, text_eq_iff j k)
  lookup-append_fresh k j v ((l, w) ∷ d) h ne = ground (arith, lookup-append_fresh k j v d)
