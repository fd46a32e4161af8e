-- ===== src/Agent/Relay.antt =====
-- `_relay_monitor`: which peers the relay has to reach, and a turn of the monitor. A set of
-- addresses is its sorted list, which is also what the interface is given.
pub mod Laws
pub mod Needs
pub mod Turn
use prima_pool_client.Base.{
  Text, ℕ, ◌+◌, ◌-◌, ◌/◌, ltb, leb, Bool, true, false, not, ◌||◌, Option, none, some, List, [], ◌∷◌,
  codes, text_eq, if◌then◌else◌, Result, ok, err, Exec, ◌>>=◌, ◌>>◌, pure, modify, is_some,
}
use prima_pool_client.Base.Dict.{Dict, lookup}
use prima_pool_client.Agent.Cluster.{wg_is_up}
use prima_pool_client.Agent.State.{Agent, AgentState, RelayTask, self, on_world, attempt}
use prima_pool_client.Models.{PeerConfig, ClusterConfig, is_server, prefers_relay}
use prima_pool_client.Pool.{Pool}
use prima_pool_client.Ring.{host_of}
use prima_pool_client.System.{Os}
use prima_pool_client.WireGuard.Manager

-- `x < y` for texts.
unfoldable pub text_ltb : Text → Text → Bool
text_ltb x [] = false
text_ltb [] (d ∷ y) = true
text_ltb (c ∷ x) (d ∷ y) =
    let later = text_ltb x y in if ltb c d then true else if ltb d c then false else later

-- `wanted.add(x)`
unfoldable pub add_text : Text → List Text → List Text
unfolding text_ltb
add_text x [] = x ∷ []
add_text x (y ∷ ys) =
    let rest = add_text x ys in
    if text_eq x y then y ∷ ys else if text_ltb x y then x ∷ y ∷ ys else y ∷ rest

-- `wanted != relayed_ips`
unfoldable pub same_texts : List Text → List Text → Bool
same_texts [] [] = true
same_texts [] (y ∷ ys) = false
same_texts (x ∷ xs) [] = false
same_texts (x ∷ xs) (y ∷ ys) = let rest = same_texts xs ys in if text_eq x y then rest else false

-- `handshake > int(now - 120.0)`, with `now` in milliseconds; int() cuts towards 0.
unfoldable pub is_recent : ℕ → ℕ → Bool
is_recent now handshake =
    if leb (now + 1000) 120_000 then true else ltb ((now - 120_000) / 1000) handshake

-- `handshakes.get(pubkey, 0)`
unfoldable pub handshake_of : Dict ℕ → Text → ℕ
handshake_of handshakes pubkey = elim (lookup pubkey handshakes) [ none ↦ 0 | some n ↦ n ]

-- The address of a peer that the relay has to reach: a ring member with an address that prefers the
-- relay or has no recent handshake.
unfoldable pub relayed_ip : ℕ → Dict ℕ → PeerConfig → Option Text
unfolding is_server host_of is_recent handshake_of prefers_relay
relayed_ip now handshakes p = if is_server p then none else elim p.allowed_ips [
  | [] ↦ none
  | ip ∷ ips ↦
      if prefers_relay p.preferred || not (is_recent now (handshake_of handshakes p.pubkey))
      then some (host_of ip)
      else none
]

unfoldable pub add_wanted : Option Text → List Text → List Text
unfolding add_text
add_wanted none wanted = wanted
add_wanted (some ip) wanted = add_text ip wanted

-- The loop over the peers.
unfoldable pub wanted_ips : ℕ → Dict ℕ → List PeerConfig → List Text → List Text
unfolding relayed_ip add_wanted
wanted_ips now handshakes [] wanted = wanted
wanted_ips now handshakes (p ∷ ps) wanted =
    wanted_ips now handshakes ps (add_wanted (relayed_ip now handshakes p) wanted)

module _ {W : Type 0} (os : Os W) (pool : Pool W) (dumps : AgentState → Text) where
  -- The relay gets the wanted addresses, or its route is removed.
  unfoldable pub route : ClusterConfig → List Text → Exec (Agent W) Unit
  route config [] = do m ← self; on_world (Manager.remove_peer os m.config m.wg config.relay.pubkey)
  route config (ip ∷ ips) = do
    m ← self
    on_world
        (Manager.add_peer os m.config m.wg config.relay.pubkey config.relay.endpoint (ip ∷ ips) 25)

  unfoldable pub route_changed :
      ClusterConfig → List Text → List Text → Exec (Agent W) (Option (List Text))
  unfolding route same_texts
  route_changed config relayed_ips wanted =
      if same_texts wanted relayed_ips
      then pure (some relayed_ips)
      else (do route config wanted; pure (some wanted))

  unfoldable pub check_peers : ClusterConfig → List Text → Exec (Agent W) (Option (List Text))
  unfolding wanted_ips route_changed
  check_peers config relayed_ips = do
    m ← self
    handshakes ← on_world (Manager.latest_handshakes os m.config m.wg)
    route_changed config relayed_ips (wanted_ips (os.now m.prima.world) handshakes config.peers [])

  -- The body of the `try`: the addresses that are relayed then, or none if the loop is left.
  unfoldable pub relay_round : ClusterConfig → List Text → Exec (Agent W) (Option (List Text))
  unfolding check_peers
  relay_round config relayed_ips = do
    up ← wg_is_up os pool dumps
    if not up then pure none else check_peers config relayed_ips

  -- The task behind a round; an error is only logged and leaves the addresses as they were.
  unfoldable pub relayed_after : RelayTask → Result (Option (List Text)) → RelayTask
  relayed_after task (err e) = task
  relayed_after task (ok none) = record task { is_done = true }
  relayed_after task (ok (some ips)) = record task { relayed_ips = ips }

  unfoldable pub run_task : RelayTask → Exec (Agent W) Unit
  unfolding relay_round relayed_after
  run_task task = do
    outcome ← attempt (relay_round task.config task.relayed_ips)
    modify (λ m. record m { relay_task = some (relayed_after task outcome) })

  unfoldable pub turn_of : Option RelayTask → Bool → Exec (Agent W) Unit
  unfolding run_task
  turn_of none stopped = pure tt
  turn_of (some task) stopped =
      if task.is_done
      then pure tt
      else if stopped
      then modify (λ m. record m { relay_task = some (record task { is_done = true }) })
      else run_task task

  -- A turn of the loop, in the task that the agent has; a cancelled task has no more turns.
  unfoldable pub relay_turn : Exec (Agent W) Unit
  unfolding turn_of
  relay_turn = do m ← self; turn_of m.relay_task m.stopped
