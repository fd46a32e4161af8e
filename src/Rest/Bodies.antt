-- ===== src/Rest/Bodies.antt =====
-- The bodies that the operations of `PoolClient` send.
use prima_pool_client.Base.{Text, ℕ, Option, none, some, [], ◌∷◌, ◌++◌, codes}
use prima_pool_client.Base.Dict.{Dict}
use prima_pool_client.Base.Json.{Json, Fields, null, bool, num, str, obj, end, fields_of}
use prima_pool_client.Pool.{Payload}

-- `payload` of `_ensure_registered` as it is sent.
unfoldable pub text_or_null : Option Text → Json
text_or_null none = null
text_or_null (some t) = str t

unfoldable pub payload_json : Payload → Json
unfolding text_or_null
payload_json p = obj (
    fields_of (
      (codes "model", str p.model)
      ∷ (codes "gguf_sha256", str p.gguf_sha256)
      ∷ (codes "memory_allocated_mb", num p.memory_allocated_mb)
      ∷ (codes "wg_pubkey", str p.wg_pubkey)
      ∷ (
        codes "endpoint",
        obj (
            fields_of (
              (codes "host", str p.host)
              ∷ (codes "port", num p.port)
              ∷ (codes "behind_nat", bool p.behind_nat)
              ∷ (codes "nat_type", str p.nat_type)
              ∷ [])),
      )
      ∷ (
        codes "hardware",
        obj (
            fields_of (
              (codes "cpu", text_or_null p.cpu)
              ∷ (codes "gpu", null)
              ∷ (codes "ram_gb", null)
              ∷ (codes "os", str p.os_name)
              ∷ (codes "prima_version", null)
              ∷ [])),
      )
      ∷ []))

-- A `dict` of numbers.
unfoldable pub numbers : Dict ℕ → Fields
numbers [] = end
numbers ((k, n) ∷ d) = Fields.field k (num n) (numbers d)

-- The body of `report_ready`.
unfoldable pub ready_body : Option (Dict ℕ) → Json
unfolding numbers
ready_body none = obj end
ready_body (some windows) = obj (fields_of ((codes "layer_windows", obj (numbers windows)) ∷ []))

abbrev pub slashed : Text → Text → Text → Text
slashed before id after = before ++ (id ++ after)
