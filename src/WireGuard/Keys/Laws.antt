-- ===== src/WireGuard/Keys/Laws.antt =====
-- The key pair that is generated is the one that is derived, and the agent keeps it.
use prima_pool_client.Base.{
  Text, ℕ, ltb, ◌<◌, ◌≡◌, refl, true, some, List, [], ◌∷◌, length, truthy, ok, Exec, arith, ◌/◌,
  ◌%◌, ◌+◌, ◌*◌,
}
use prima_pool_client.Agent.Register.{ensure_keys}
use prima_pool_client.Agent.State.{Agent, AgentState}
use prima_pool_client.Pool.{Pool}
use prima_pool_client.Prima.Hash.{Hasher}
use prima_pool_client.System.{Os}
use prima_pool_client.WireGuard.Base64.{char_of, b64encode}
use prima_pool_client.WireGuard.Base64.Laws.{AreBytes, b64decode-b64encode}
use prima_pool_client.WireGuard.Keys.{
  Curve, is_ascii, decode_text, generate_keypair, derive_public_key, keys,
}

char_of_ascii : (n : ℕ) → n < 64 → ltb (char_of n) 128 ≡ true
unfolding char_of
char_of_ascii n h = ground arith

is_ascii-b64encode : (bytes : List ℕ) → AreBytes bytes → is_ascii (b64encode bytes) ≡ true
unfolding is_ascii b64encode
is_ascii-b64encode [] h = refl
is_ascii-b64encode (a ∷ []) (ha, _) =
    rw (char_of_ascii (a / 4) (omega arith), char_of_ascii (a % 4 * 16) (omega arith)) refl
is_ascii-b64encode (a ∷ b ∷ []) (ha, (hb, _)) =
    rw
      (
        char_of_ascii (a / 4) (omega arith),
        char_of_ascii (a % 4 * 16 + b / 16) (omega arith),
        char_of_ascii (b % 16 * 4) (omega arith),
      )
      refl
is_ascii-b64encode (a ∷ b ∷ c ∷ rest) (ha, (hb, (hc, h))) =
    rw
      (
        char_of_ascii (a / 4) (omega arith),
        char_of_ascii (a % 4 * 16 + b / 16) (omega arith),
        char_of_ascii (b % 16 * 4 + c / 64) (omega arith),
        char_of_ascii (c % 64) (omega arith),
      )
      (is_ascii-b64encode rest h)

decode_text-b64encode :
    (bytes : List ℕ) → AreBytes bytes → decode_text (b64encode bytes) ≡ some bytes
unfolding decode_text
decode_text-b64encode bytes h =
    rw (is_ascii-b64encode bytes h, decode_text) (b64decode-b64encode bytes h)

truthy-b64encode : (bytes : List ℕ) → length bytes ≡ 32 → truthy (b64encode bytes) ≡ true
unfolding truthy b64encode
truthy-b64encode [] h = absurd (omega arith)
truthy-b64encode (a ∷ []) h = refl
truthy-b64encode (a ∷ b ∷ []) h = refl
truthy-b64encode (a ∷ b ∷ c ∷ rest) h = refl

module _ {W : Type 0} (curve : Curve W) where
  -- The private key of a pair, as text, has the public key of the pair.
  derive_public_key-b64encode :
      (key : curve.PrivateKey)
      → derive_public_key curve (b64encode (curve.private_bytes key))
        ≡ some (b64encode (curve.public_bytes key))
  unfolding derive_public_key
  derive_public_key-b64encode key =
      rw
        (
          decode_text-b64encode (curve.private_bytes key) (curve.private_bytes-AreBytes key),
          curve.from_private_bytes-private_bytes key,
          derive_public_key,
        )
        refl

  module _ (os : Os W) (pool : Pool W) (hasher : Hasher) (dumps : AgentState → Text) where
    abbrev pub ensure : Exec (Agent W) Unit
    ensure = ensure_keys os pool (keys curve) hasher dumps

    -- The agent with a new pair.
    abbrev pub with_pair : curve.PrivateKey → W → Agent W → Agent W
    with_pair private w m = record m {
      state = record m.state {
        wg_private_key = b64encode (curve.private_bytes private);
        wg_public_key = b64encode (curve.public_bytes private);
      };
      prima = record m.prima { world = w };
    }

    -- The pair that is made: it is valid, and `ensure_keys` keeps it.
    pub ensure_keys-with_pair :
        (m : Agent W)
        → m.state.wg_private_key ≡ []
        → let (private, w) = curve.generate m.prima.world in
          (ensure m ≡ (ok tt, with_pair private w m))
          × (truthy (b64encode (curve.private_bytes private)) ≡ true)
          × (derive_public_key curve (b64encode (curve.private_bytes private))
              ≡ some (b64encode (curve.public_bytes private)))
          × (ensure (with_pair private w m) ≡ (ok tt, with_pair private w m))
    unfolding ensure_keys keys generate_keypair
    ensure_keys-with_pair m empty =
        let (private, w) = curve.generate m.prima.world in
        let has_key =
          truthy-b64encode (curve.private_bytes private) (curve.length-private_bytes private) in
        let derived = derive_public_key-b64encode private in
        (simp (empty, truthy), has_key, derived, simp (has_key, derived))

    -- The first start of an agent makes a key pair: the private key is a text that is not empty,
    -- the public key is the one that is derived from that text, and a start with what was made
    -- changes nothing.
    pub ensure_keys-again :
        (m : Agent W)
        → m.state.wg_private_key ≡ []
        → (n : Agent W) × (ensure m ≡ (ok tt, n))
          × (truthy n.state.wg_private_key ≡ true)
          × (derive_public_key curve n.state.wg_private_key ≡ some n.state.wg_public_key)
          × (ensure n ≡ (ok tt, n))
    ensure_keys-again m empty =
        let (made, has_key, derived, kept) = ensure_keys-with_pair m empty in
        (_, made, has_key, derived, kept)
