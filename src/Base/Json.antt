-- ===== src/Base/Json.antt =====
-- The values of the `json` package. Numbers are natural: no body of the program has another.
use Prim.Native.Nat.{ℕ}
use mathlib.Core.Bool.{Bool}
use mathlib.Core.List.{List, [], ◌∷◌}
use prima_pool_client.Base.Texts.{Text}

mutual
  pub data Json : Type 0 where
    null : Json
    bool : Bool → Json
    num : ℕ → Json
    str : Text → Json
    arr : Items → Json
    obj : Fields → Json

  pub data Items : Type 0 where
    nil : Items
    cons : Json → Items → Items

  pub data Fields : Type 0 where
    end : Fields
    field : Text → Json → Fields → Fields

-- The items of a `dict`, and a `dict` of items.
abbrev pub entries : Fields → List (Text × Json)
entries end = []
entries (field k v fields) = (k, v) ∷ entries fields

abbrev pub fields_of : List (Text × Json) → Fields
fields_of [] = end
fields_of ((k, v) ∷ rest) = field k v (fields_of rest)
