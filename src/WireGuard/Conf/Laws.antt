-- ===== src/WireGuard/Conf/Laws.antt =====
-- What a rendered configuration says (`render_wg_conf`).
use prima_pool_client.Base.{
  Text, ℕ, ◌≡◌, refl, ap, ◌∙◌, ◌⊎◌, Bool, true, false, truthy, inl, inr, none, some, List, [], ◌∷◌,
  ◌++◌, codes, join, strip_prefix, arith,
}
use mathlib.Core.List.{append_assoc}
use prima_pool_client.Models.{PeerConfig, ClusterConfig}
use prima_pool_client.WireGuard.Conf.{
  endpoint_lines, or_empty, interface_lines, section_lines, peer_lines, all_allowed, peers_lines,
  has_relay, relay_lines, conf_lines,
}

-- The values that the lines give a key, in order.
unfoldable pub values : Text → List Text → List Text
unfolding strip_prefix
values key [] = []
values key (line ∷ lines) =
    let rest = values key lines in elim (strip_prefix key line) [ none ↦ rest | some v ↦ v ∷ rest ]

values-append :
    (key : Text) (xs ys : List Text) → values key (xs ++ ys) ≡ values key xs ++ values key ys
unfolding values
values-append key [] ys = refl
values-append key (x ∷ xs) ys = ground (arith, values-append key xs ys)

abbrev pub key_key : Text
key_key = codes "PublicKey = "

abbrev pub allowed_key : Text
allowed_key = codes "AllowedIPs = "

-- The keys and the routes of peers.
abbrev pub keys_of : List PeerConfig → List Text
keys_of [] = []
keys_of (p ∷ ps) = p.pubkey ∷ keys_of ps

abbrev pub routes_of : List PeerConfig → List Text
routes_of [] = []
routes_of (p ∷ ps) = join (codes ", ") p.allowed_ips ∷ routes_of ps

-- A section gives one key and one list of addresses.
section_values :
    (pubkey endpoint : Text) (ips : List Text) (keepalive : ℕ) (rest : List Text)
    → (values key_key (section_lines pubkey endpoint ips keepalive ++ rest)
        ≡ pubkey ∷ values key_key rest)
      × (values allowed_key (section_lines pubkey endpoint ips keepalive ++ rest)
          ≡ join (codes ", ") ips ∷ values allowed_key rest)
unfolding values section_lines endpoint_lines strip_prefix
section_values pubkey [] ips keepalive rest = (refl, refl)
section_values pubkey (c ∷ endpoint) ips keepalive rest = (refl, refl)

peers_values :
    (ps : List PeerConfig) (rest : List Text)
    → (values key_key (peers_lines ps ++ rest) ≡ keys_of ps ++ values key_key rest)
      × (values allowed_key (peers_lines ps ++ rest) ≡ routes_of ps ++ values allowed_key rest)
unfolding peers_lines peer_lines values strip_prefix
peers_values [] rest = (refl, refl)
peers_values (p ∷ ps) rest =
    let lines = peer_lines p in
    let (keys, routes) = peers_values ps rest in
    let (key, route) =
      section_values p.pubkey (or_empty p.endpoint) p.allowed_ips p.persistent_keepalive
        ([] ∷ (peers_lines ps ++ rest)) in
    let split : (lines ++ ([] ∷ peers_lines ps)) ++ rest
        ≡ lines ++ ([] ∷ (peers_lines ps ++ rest)) =
      append_assoc lines ([] ∷ peers_lines ps) rest in
    (
      ap (values key_key) split ∙ key ∙ ap (λ r. p.pubkey ∷ r) keys,
      ap (values allowed_key) split ∙ route ∙ ap (λ r. join (codes ", ") p.allowed_ips ∷ r) routes,
    )

-- The addresses of all peers, in order.
abbrev pub addresses_of : List PeerConfig → List Text
addresses_of [] = []
addresses_of (p ∷ ps) = p.allowed_ips ++ addresses_of ps

all_allowed-addresses_of : (ps : List PeerConfig) → all_allowed ps ≡ addresses_of ps
unfolding all_allowed
all_allowed-addresses_of [] = refl
all_allowed-addresses_of (p ∷ ps) = ap (λ r. p.allowed_ips ++ r) (all_allowed-addresses_of ps)

-- What the relay adds to the keys and to the routes: its key and all addresses if it is enabled and
-- has a key, else nothing.
abbrev pub RelayAdds : ClusterConfig → List Text → List Text → Type 0
RelayAdds config keys routes =
    ((config.relay.enabled ≡ true)
      × ((c : ℕ) × (cs : Text) × (config.relay.pubkey ≡ c ∷ cs))
      × (keys ≡ config.relay.pubkey ∷ [])
      × (routes ≡ join (codes ", ") (addresses_of config.peers) ∷ []))
    ⊎ (((config.relay.enabled ≡ false) ⊎ (config.relay.pubkey ≡ [])) × (keys ≡ []) × (routes ≡ []))

relay_values :
    (config : ClusterConfig) (enabled : Bool) (pubkey : Text)
    → config.relay.enabled ≡ enabled
    → config.relay.pubkey ≡ pubkey
    → RelayAdds config
        (values key_key (relay_lines config))
        (values allowed_key (relay_lines config))
unfolding relay_lines values strip_prefix has_relay truthy
relay_values config false pubkey off key = inr (inl off, rw off refl, rw off refl)
relay_values config true [] on key = inr (inr key, rw (on, key) refl, rw (on, key) refl)
relay_values config true (c ∷ cs) on key =
    let relay : has_relay config.relay ≡ true = rw (on, key, has_relay) refl in
    let (keys, routes) =
      section_values config.relay.pubkey config.relay.endpoint (all_allowed config.peers) 25
        ([] ∷ []) in
    inl (
      on,
      (c, cs, key),
      rw relay keys,
      rw relay routes
          ∙ ap (λ ips. join (codes ", ") ips ∷ []) (all_allowed-addresses_of config.peers),
    )

-- The lines of a configuration give the public keys of all peers, the server included, in order,
-- each with its own addresses, and behind them, exactly if the relay is enabled and has a key, the
-- relay's key with the addresses of all peers.
pub conf_lines-values :
    (config : ClusterConfig) (private_key : Text) (listen_port : ℕ)
    → (keys : List Text) × (routes : List Text) × RelayAdds config keys routes
      × (values key_key (conf_lines config private_key listen_port) ≡ keys_of config.peers ++ keys)
      × (values allowed_key (conf_lines config private_key listen_port)
          ≡ routes_of config.peers ++ routes)
unfolding conf_lines interface_lines values strip_prefix
conf_lines-values config private_key listen_port =
    let (keys, routes) = peers_values config.peers (relay_lines config) in
    (
      values key_key (relay_lines config),
      values allowed_key (relay_lines config),
      relay_values config config.relay.enabled config.relay.pubkey refl refl,
      keys,
      routes,
    )
