-- ===== src/Agent/Relay/Laws.antt =====
-- Which addresses the relay has to reach (`_relay_monitor`).
use prima_pool_client.Base.{
  Text, ℕ, ◌≡◌, refl, ◌∙◌, ap, sym, Bool, true, false, ◌||◌, Option, none, some, List, [], ◌∷◌,
  ◌++◌, ◌↔◌, text_eq, text_eq_iff, Bool-cases, inl, inr, arith,
}
use prima_pool_client.Base.Dict.{Dict}
use prima_pool_client.Agent.Relay.{add_text, add_wanted, relayed_ip, wanted_ips}
use prima_pool_client.Agent.Relay.Needs.{NeedsRelay, relayed_ip-NeedsRelay, NeedsRelay-relayed_ip}
use prima_pool_client.Models.{PeerConfig}

-- Whether a list has a text.
unfoldable pub has_text : Text → List Text → Bool
has_text x [] = false
has_text x (y ∷ ys) = text_eq y x || has_text x ys

is_ip : Text → Option Text → Bool
is_ip x none = false
is_ip x (some ip) = text_eq ip x

-- Whether the relay has to reach a peer at this address.
unfoldable pub some_relayed : Text → ℕ → Dict ℕ → List PeerConfig → Bool
unfolding is_ip
some_relayed x now handshakes [] = false
some_relayed x now handshakes (p ∷ ps) =
    is_ip x (relayed_ip now handshakes p) || some_relayed x now handshakes ps

has_text-add_text :
    (x y : Text) (ys : List Text) → has_text x (add_text y ys) ≡ (text_eq y x || has_text x ys)
unfolding has_text add_text
has_text-add_text x y [] = refl
has_text-add_text x y (z ∷ ys) = ground (arith, text_eq_iff y z, has_text-add_text x y ys)

has_text-add_wanted :
    (x : Text) (o : Option Text) (ys : List Text)
    → has_text x (add_wanted o ys) ≡ (is_ip x o || has_text x ys)
unfolding add_wanted is_ip
has_text-add_wanted x none ys = refl
has_text-add_wanted x (some ip) ys = has_text-add_text x ip ys

has_text-wanted_ips_from :
    (x : Text) (now : ℕ) (handshakes : Dict ℕ) (peers : List PeerConfig) (wanted : List Text)
    → has_text x (wanted_ips now handshakes peers wanted)
      ≡ (has_text x wanted || some_relayed x now handshakes peers)
unfolding wanted_ips some_relayed
has_text-wanted_ips_from x now handshakes [] wanted = ground arith
has_text-wanted_ips_from x now handshakes (p ∷ ps) wanted = ground (
  arith,
  has_text-wanted_ips_from x now handshakes ps (add_wanted (relayed_ip now handshakes p) wanted),
  has_text-add_wanted x (relayed_ip now handshakes p) wanted,
)

-- A peer of the list that the relay has to reach at this address.
abbrev pub SomePeer : Text → ℕ → Dict ℕ → List PeerConfig → Type 0
SomePeer x now handshakes peers =
    (xs : List PeerConfig) × (p : PeerConfig) × (ys : List PeerConfig) × (peers ≡ xs ++ (p ∷ ys))
    × NeedsRelay x now handshakes p

is_ip_iff : (x : Text) (o : Option Text) → (is_ip x o ≡ true) ↔ (o ≡ some x)
unfolding is_ip
is_ip_iff x none = ground arith
is_ip_iff x (some ip) = ground (arith, text_eq_iff ip x)

some_relayed-SomePeer :
    (x : Text) (now : ℕ) (handshakes : Dict ℕ) (peers : List PeerConfig)
    → some_relayed x now handshakes peers ≡ true
    → SomePeer x now handshakes peers
unfolding some_relayed
some_relayed-SomePeer x now handshakes [] h = ground arith
some_relayed-SomePeer x now handshakes (p ∷ ps) h =
    elim (Bool-cases (is_ip x (relayed_ip now handshakes p))) [
      | inl here ↦ (
        [],
        p,
        ps,
        refl,
        relayed_ip-NeedsRelay x now handshakes p
            ((is_ip_iff x (relayed_ip now handshakes p)).0 here),
      )
      | inr elsewhere ↦
          let (xs, q, ys, split, found) =
            some_relayed-SomePeer x now handshakes ps (ground arith) in
          (p ∷ xs, q, ys, ap (λ r. p ∷ r) split, found)
    ]

SomePeer-some_relayed :
    (x : Text) (now : ℕ) (handshakes : Dict ℕ) (xs ys : List PeerConfig) (p : PeerConfig)
    → relayed_ip now handshakes p ≡ some x
    → some_relayed x now handshakes (xs ++ (p ∷ ys)) ≡ true
unfolding some_relayed
SomePeer-some_relayed x now handshakes [] ys p h =
    rw ((is_ip_iff x (relayed_ip now handshakes p)).1 h) refl
SomePeer-some_relayed x now handshakes (q ∷ xs) ys p h =
    ground (arith, SomePeer-some_relayed x now handshakes xs ys p h)

-- An address is one that the relay is to route exactly if it is the host part of the first address
-- of a peer of the list that is no server and that prefers the relay or whose last handshake is two
-- minutes old or more, where a peer without a handshake counts from the clock's start.
pub wanted_ips-SomePeer :
    (x : Text) (now : ℕ) (handshakes : Dict ℕ) (peers : List PeerConfig)
    → (has_text x (wanted_ips now handshakes peers []) ≡ true) ↔ SomePeer x now handshakes peers
unfolding has_text
wanted_ips-SomePeer x now handshakes peers =
    let same = has_text-wanted_ips_from x now handshakes peers [] in
    (
      λ h. some_relayed-SomePeer x now handshakes peers (sym same ∙ h),
      λ (xs, p, ys, split, found).
          same
          ∙ ap (some_relayed x now handshakes) split
          ∙ SomePeer-some_relayed x now handshakes xs ys p
              (NeedsRelay-relayed_ip x now handshakes p found),
    )
