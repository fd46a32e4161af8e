-- ===== src/Agent/Relay/Needs.antt =====
-- When the relay has to reach a peer (`_relay_monitor`), independently of how it is computed.
use prima_pool_client.Base.{
  Text, ℕ, ◌+◌, ◌*◌, ◌<◌, ◌≤◌, codes, not, ◌≡◌, refl, ◌∙◌, ap, sym, Bool, true, false, ◌||◌, Option,
  none, some, List, [], ◌∷◌, ◌↔◌, ◌⊎◌, text_eq, inl, inr, if◌then◌else◌, arith,
}
use prima_pool_client.Base.Dict.{Dict, lookup}
use prima_pool_client.Agent.Relay.{handshake_of, is_recent, relayed_ip}
use prima_pool_client.Models.{PeerConfig, Preferred, relay, direct, is_server, prefers_relay}
use prima_pool_client.Ring.{host_of}

-- A peer that is no server.
abbrev pub IsMember : PeerConfig → Type 0
IsMember p =
    (p.role ≡ none) ⊎ ((r : Text) × (p.role ≡ some r) × (text_eq r (codes "server") ≡ false))

-- The last handshake with a key, in seconds; one that is not shown counts as 0.
abbrev pub LastSeen : Dict ℕ → Text → ℕ → Type 0
LastSeen handshakes pubkey h =
    (lookup pubkey handshakes ≡ some h) ⊎ ((lookup pubkey handshakes ≡ none) × (h ≡ 0))

-- The last handshake is two minutes old or more, or there is none, and the clock, in milliseconds,
-- is at least that far.
abbrev pub IsStale : ℕ → Dict ℕ → Text → Type 0
IsStale now handshakes pubkey =
    (h : ℕ) × LastSeen handshakes pubkey h
    × (119_000 < now)
    × ((h ≡ 0) ⊎ (h * 1000 + 120_000 ≤ now))

-- The relay has to reach the peer at this address.
abbrev pub NeedsRelay : Text → ℕ → Dict ℕ → PeerConfig → Type 0
NeedsRelay x now handshakes p =
    IsMember p
    × ((ip : Text) × (ips : List Text) × (p.allowed_ips ≡ ip ∷ ips) × (x ≡ host_of ip))
    × ((p.preferred ≡ relay) ⊎ IsStale now handshakes p.pubkey)

is_server-IsMember :
    (p : PeerConfig) → (o : Option Text) → p.role ≡ o → (is_server p ≡ false) ↔ IsMember p
unfolding is_server
is_server-IsMember p none e = ground arith
is_server-IsMember p (some r) e = ground arith

handshake_of-LastSeen :
    (handshakes : Dict ℕ) (pubkey : Text) (o : Option ℕ)
    → lookup pubkey handshakes ≡ o
    → LastSeen handshakes pubkey (handshake_of handshakes pubkey)
unfolding handshake_of
handshake_of-LastSeen handshakes pubkey none e =
    inr (e, ap (λ o. elim o [ none ↦ 0 | some n ↦ n ]) e)
handshake_of-LastSeen handshakes pubkey (some h) e =
    inl (e ∙ ap some (sym (ap (λ o. elim o [ none ↦ 0 | some n ↦ n ]) e)))

LastSeen-handshake_of :
    (handshakes : Dict ℕ) (pubkey : Text) (h : ℕ)
    → LastSeen handshakes pubkey h
    → handshake_of handshakes pubkey ≡ h
unfolding handshake_of
LastSeen-handshake_of handshakes pubkey h (inl seen) =
    ap (λ o. elim o [ none ↦ 0 | some n ↦ n ]) seen
LastSeen-handshake_of handshakes pubkey h (inr (unseen, never)) =
    ap (λ o. elim o [ none ↦ 0 | some n ↦ n ]) unseen ∙ sym never

is_recent_iff :
    (now h : ℕ)
    → (is_recent now h ≡ false) ↔ ((119_000 < now) × ((h ≡ 0) ⊎ (h * 1000 + 120_000 ≤ now)))
unfolding is_recent
is_recent_iff now h = ground arith

prefers_relay_iff : (o : Preferred) → (prefers_relay o ≡ true) ↔ (o ≡ relay)
unfolding prefers_relay
prefers_relay_iff direct = ground arith
prefers_relay_iff relay = ground arith

-- `relayed_ip` of what it tests.
abbrev chosen : Bool → List Text → Bool → Option Text
chosen server ips relays =
    if server
    then none
    else elim ips [ [] ↦ none | ip ∷ rest ↦ if relays then some (host_of ip) else none ]

chosen-some :
    (server : Bool) (ips : List Text) (relays : Bool) (x : Text)
    → chosen server ips relays ≡ some x
    → (server ≡ false)
      × ((ip : Text) × (rest : List Text) × (ips ≡ ip ∷ rest) × (x ≡ host_of ip))
      × (relays ≡ true)
chosen-some true ips relays x h = ground arith
chosen-some false [] relays x h = ground arith
chosen-some false (ip ∷ rest) true x h = (refl, (ip, rest, refl, ground arith), refl)
chosen-some false (ip ∷ rest) false x h = ground arith

needs_cases :
    (preferred : Preferred) (recent : Bool)
    → (prefers_relay preferred || not recent) ≡ true
    → (preferred ≡ relay) ⊎ (recent ≡ false)
unfolding prefers_relay
needs_cases relay recent h = inl refl
needs_cases direct false h = inr refl
needs_cases direct true h = ground arith

relays_cases :
    (preferred : Preferred) (recent : Bool)
    → (preferred ≡ relay) ⊎ (recent ≡ false)
    → (prefers_relay preferred || not recent) ≡ true
unfolding prefers_relay
relays_cases preferred recent (inl e) = rw e refl
relays_cases relay recent (inr e) = refl
relays_cases direct recent (inr e) = rw e refl

IsStale-iff :
    (now : ℕ) (handshakes : Dict ℕ) (pubkey : Text)
    → (is_recent now (handshake_of handshakes pubkey) ≡ false) ↔ IsStale now handshakes pubkey
IsStale-iff now handshakes pubkey = (
  λ h. (
    handshake_of handshakes pubkey,
    handshake_of-LastSeen handshakes pubkey (lookup pubkey handshakes) refl,
    ((is_recent_iff now (handshake_of handshakes pubkey)).0 h).0,
    ((is_recent_iff now (handshake_of handshakes pubkey)).0 h).1,
  ),
  λ (h, seen, begun, old).
      ap (is_recent now) (LastSeen-handshake_of handshakes pubkey h seen)
      ∙ (is_recent_iff now h).1 (begun, old),
)

pub relayed_ip-NeedsRelay :
    (x : Text) (now : ℕ) (handshakes : Dict ℕ) (p : PeerConfig)
    → relayed_ip now handshakes p ≡ some x
    → NeedsRelay x now handshakes p
unfolding relayed_ip
relayed_ip-NeedsRelay x now handshakes p h =
    let recent = is_recent now (handshake_of handshakes p.pubkey) in
    let (member, address, relays) =
      chosen-some (is_server p) p.allowed_ips (prefers_relay p.preferred || not recent) x h in
    (
      (is_server-IsMember p p.role refl).0 member,
      address,
      elim (needs_cases p.preferred recent relays) [
        | inl preferred ↦ inl preferred
        | inr stale ↦ inr ((IsStale-iff now handshakes p.pubkey).0 stale)
      ],
    )

pub NeedsRelay-relayed_ip :
    (x : Text) (now : ℕ) (handshakes : Dict ℕ) (p : PeerConfig)
    → NeedsRelay x now handshakes p
    → relayed_ip now handshakes p ≡ some x
unfolding relayed_ip
NeedsRelay-relayed_ip x now handshakes p (member, (ip, ips, address, host), why) =
    let recent = is_recent now (handshake_of handshakes p.pubkey) in
    let relays : (prefers_relay p.preferred || not recent) ≡ true =
      relays_cases p.preferred recent (elim why [
        | inl preferred ↦ inl preferred
        | inr stale ↦ inr ((IsStale-iff now handshakes p.pubkey).1 stale)
      ]) in
    ap (λ b. chosen b p.allowed_ips (prefers_relay p.preferred || not recent))
      ((is_server-IsMember p p.role refl).1 member)
    ∙ ap (λ l. chosen false l (prefers_relay p.preferred || not recent)) address
    ∙ ap (chosen false (ip ∷ ips)) relays
    ∙ ap some (sym host)
