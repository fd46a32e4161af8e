-- ===== src/WireGuard/Keys.antt =====
-- `generate_keypair` and `derive_public_key`.
pub mod Laws
use prima_pool_client.Base.{
  Text, ℕ, ltb, Bool, true, false, ◌&&◌, ◌≡◌, Option, none, some, List, [], ◌∷◌, length,
}
use prima_pool_client.Pool.{Keys}
use prima_pool_client.WireGuard.Base64.{b64encode, b64decode}
use prima_pool_client.WireGuard.Base64.Laws.{AreBytes}

-- The X25519 keys of the `cryptography` package. A private key is 32 bytes, and is read back from
-- them; other bytes may be none.
pub record Curve (W : Type 0) : Type 1 where
  pub PrivateKey : Type 0
  pub generate : W → PrivateKey × W
  pub private_bytes : PrivateKey → List ℕ
  pub public_bytes : PrivateKey → List ℕ
  pub from_private_bytes : List ℕ → Option PrivateKey
  pub private_bytes-AreBytes : (key : PrivateKey) → AreBytes (private_bytes key)
  pub length-private_bytes : (key : PrivateKey) → length (private_bytes key) ≡ 32
  pub from_private_bytes-private_bytes :
      (key : PrivateKey) → from_private_bytes (private_bytes key) ≡ some key

-- `base64.b64decode` of a `str` is for ASCII only.
unfoldable pub is_ascii : Text → Bool
is_ascii [] = true
is_ascii (c ∷ s) = ltb c 128 && is_ascii s

unfoldable pub decode_text : Text → Option (List ℕ)
unfolding is_ascii
decode_text s = elim (is_ascii s) [ true ↦ b64decode s | false ↦ none ]

module _ {W : Type 0} (curve : Curve W) where
  unfoldable pub generate_keypair : W → (Text × Text) × W
  generate_keypair w =
      let (private, w') = curve.generate w in
      ((b64encode (curve.private_bytes private), b64encode (curve.public_bytes private)), w')

  unfoldable pub derive_public_key : Text → Option Text
  unfolding decode_text
  derive_public_key private_key_b64 = elim (decode_text private_key_b64) [
    | none ↦ none
    | some raw ↦ elim (curve.from_private_bytes raw) [
      | none ↦ none
      | some private ↦ some (b64encode (curve.public_bytes private))
    ]
  ]

  -- What the agent calls.
  unfoldable pub keys : Keys W
  unfolding generate_keypair derive_public_key
  keys = record { generate_keypair = generate_keypair; derive_public_key = derive_public_key }
