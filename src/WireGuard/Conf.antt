-- ===== src/WireGuard/Conf.antt =====
-- `render_wg_conf`
pub mod Laws
use prima_pool_client.Base.{
  Text, ℕ, Bool, ◌&&◌, Option, none, some, List, [], ◌∷◌, ◌++◌, codes, truthy, join, if◌then◌else◌,
}
use prima_pool_client.Base.Decimal.{str}
use prima_pool_client.Models.{PeerConfig, ClusterConfig, RelayConfig}

-- `if endpoint: lines.append(f"Endpoint = {endpoint}")`
unfoldable pub endpoint_lines : Text → List Text
unfolding truthy
endpoint_lines endpoint = if truthy endpoint then (codes "Endpoint = " ++ endpoint) ∷ [] else []

-- A missing endpoint is false like an empty one.
abbrev pub or_empty : Option Text → Text
or_empty none = []
or_empty (some s) = s

unfoldable pub interface_lines : ClusterConfig → Text → ℕ → List Text
interface_lines config private_key listen_port =
    codes "[Interface]"
    ∷ (codes "PrivateKey = " ++ private_key)
    ∷ (codes "Address = " ++ (config.interface.private_ip ++ codes "/24"))
    ∷ (codes "MTU = " ++ str config.interface.mtu)
    ∷ (codes "ListenPort = " ++ str listen_port)
    ∷ []

-- The lines of a `[Peer]` section.
unfoldable pub section_lines : Text → Text → List Text → ℕ → List Text
unfolding endpoint_lines
section_lines pubkey endpoint allowed_ips keepalive =
    codes "[Peer]"
    ∷ (codes "PublicKey = " ++ pubkey)
    ∷ (endpoint_lines endpoint
        ++ ((codes "AllowedIPs = " ++ join (codes ", ") allowed_ips)
            ∷ (codes "PersistentKeepalive = " ++ str keepalive)
            ∷ []))

unfoldable pub peer_lines : PeerConfig → List Text
unfolding section_lines
peer_lines p = section_lines p.pubkey (or_empty p.endpoint) p.allowed_ips p.persistent_keepalive

-- `[ip for p in config.peers for ip in p.allowed_ips]`
unfoldable pub all_allowed : List PeerConfig → List Text
all_allowed [] = []
all_allowed (p ∷ ps) = p.allowed_ips ++ all_allowed ps

-- The sections of the peers, each ended by an empty line.
unfoldable pub peers_lines : List PeerConfig → List Text
unfolding peer_lines
peers_lines [] = []
peers_lines (p ∷ ps) = peer_lines p ++ ([] ∷ peers_lines ps)

unfoldable pub has_relay : RelayConfig → Bool
unfolding truthy
has_relay r = r.enabled && truthy r.pubkey

-- A relay has no `persistent_keepalive` of its own, so 25 is used.
unfoldable pub relay_lines : ClusterConfig → List Text
unfolding has_relay section_lines
relay_lines config =
    if has_relay config.relay
    then section_lines config.relay.pubkey config.relay.endpoint (all_allowed config.peers) 25
      ++ ([] ∷ [])
    else []

unfoldable pub conf_lines : ClusterConfig → Text → ℕ → List Text
unfolding interface_lines peers_lines relay_lines
conf_lines config private_key listen_port =
    interface_lines config private_key listen_port
    ++ ([] ∷ (peers_lines config.peers ++ relay_lines config))

unfoldable pub render_wg_conf : ClusterConfig → Text → ℕ → Text
render_wg_conf config private_key listen_port =
    join (codes "\n") (conf_lines config private_key listen_port)
