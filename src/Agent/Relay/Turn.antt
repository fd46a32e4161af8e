-- ===== src/Agent/Relay/Turn.antt =====
-- What a turn of `_relay_monitor` leaves.
use prima_pool_client.Base.{
  Text, ℕ, ◌≡◌, refl, sym, ap, ◌∙◌, ◌⊎◌, inl, inr, Bool, true, false, Option, none, some, List, [],
  ◌∷◌, text_eq_iff, Bool-cases, Error, Result, ok, err, Result-cases, continue, if◌then◌else◌, not,
  arith,
}
use prima_pool_client.Base.Dict.{Dict}
use prima_pool_client.Agent.Cluster.{wg_is_up}
use prima_pool_client.Agent.Relay.{
  same_texts, wanted_ips, route, route_changed, check_peers, relay_round, relayed_after, run_task,
  turn_of, relay_turn,
}
use prima_pool_client.Agent.State.{Agent, AgentState, RelayTask}
use prima_pool_client.Models.{ClusterConfig}
use prima_pool_client.Pool.{Pool}
use prima_pool_client.System.{Os}
use prima_pool_client.WireGuard.Manager

same_texts-eq : (xs ys : List Text) → same_texts xs ys ≡ true → xs ≡ ys
unfolding same_texts
same_texts-eq [] [] h = refl
same_texts-eq [] (y ∷ ys) h = ground arith
same_texts-eq (x ∷ xs) [] h = ground arith
same_texts-eq (x ∷ xs) (y ∷ ys) h = ground (arith, text_eq_iff x y, same_texts-eq xs ys)

same_texts_refl : (xs : List Text) → same_texts xs xs ≡ true
unfolding same_texts
same_texts_refl [] = refl
same_texts_refl (x ∷ xs) = ground (arith, text_eq_iff x x, same_texts_refl xs)

differ_of : (xs ys : List Text) → same_texts xs ys ≡ false → ¬ (xs ≡ ys)
differ_of xs ys h = λ e. ground (arith, same_texts_refl xs, ap (same_texts xs) e)

module _ {W : Type 0} (os : Os W) (pool : Pool W) (dumps : AgentState → Text) where
  -- The agent with another machine.
  abbrev pub at_world : Agent W → W → Agent W
  at_world m w = record m { prima = record m.prima { world = w } }

  turn_of-run_task :
      (m : Agent W) (task : RelayTask) (o : Option RelayTask) (stopped : Bool)
      → o ≡ some task
      → stopped ≡ false
      → task.is_done ≡ false
      → turn_of os pool dumps o stopped m ≡ run_task os pool dumps task m
  unfolding turn_of
  turn_of-run_task m task o stopped running on going =
      ap (λ p. turn_of os pool dumps p stopped m) running
      ∙ ap (λ b. turn_of os pool dumps (some task) b m) on
      ∙ ap (λ b. (if b then (λ n. (ok tt, n)) else run_task os pool dumps task) m) going

  -- The call of the interface that wanted addresses ask for: the relay gets them, or, where there
  -- are none, is removed.
  abbrev pub asked : Agent W → ClusterConfig → List Text → W → Result (Unit {0}) × W
  asked m config [] w = Manager.remove_peer os m.config m.wg config.relay.pubkey w
  asked m config (ip ∷ ips) w =
      Manager.add_peer os m.config m.wg config.relay.pubkey config.relay.endpoint (ip ∷ ips) 25 w

  -- The agent with another machine, and with other addresses of its task.
  abbrev pub turned : Agent W → W → RelayTask → List Text → Agent W
  turned m w task ips = record (at_world m w) {
    relay_task = some (record task { relayed_ips = ips });
  }

  route-asked :
      (config : ClusterConfig) (wanted : List Text) (n : Agent W)
      → route os pool dumps config wanted n ≡ (
        (asked n config wanted n.prima.world).0,
        at_world n (asked n config wanted n.prima.world).1,
      )
  unfolding route
  route-asked config [] n = refl
  route-asked config (ip ∷ ips) n = refl

  -- The three ways to go on from the wanted addresses.
  abbrev Changed :
      List Text
      → List Text
      → Result (Option (List Text))
      → Agent W
      → Agent W
      → Result (Unit {0}) × W
      → Type 0
  Changed ips wanted r n o call =
      ((wanted ≡ ips) × (r ≡ ok (some wanted)) × (o ≡ n))
      ⊎ ((¬ (wanted ≡ ips))
          × (o ≡ at_world n call.1)
          × (((call.0 ≡ ok tt) × (r ≡ ok (some wanted)))
              ⊎ ((e : Error) × (call.0 ≡ err e) × (r ≡ err e))))

  route_changed-cases :
      (config : ClusterConfig) (ips wanted : List Text) (n : Agent W)
      → (r : Result (Option (List Text))) × (o : Agent W) × (route_changed os pool dumps config ips
            wanted n
          ≡ (r, o))
        × Changed ips wanted r n o (asked n config wanted n.prima.world)
  unfolding route_changed
  route_changed-cases config ips wanted n =
      let call = asked n config wanted n.prima.world in
      let through : Result (Unit {0}) × Agent W → Result (Option (List Text)) × Agent W =
        continue (λ _ o. (ok (some wanted), o)) in
      let routed = ap through (route-asked config wanted n) in
      elim (Bool-cases (same_texts wanted ips)) [
        | inl same ↦ (
          ok (some ips),
          n,
          rw same refl,
          inl (
            same_texts-eq wanted ips same,
            ap (λ t. ok (some t)) (sym (same_texts-eq wanted ips same)),
            refl,
          ),
        )
        | inr changed ↦
            let differ : ¬ (wanted ≡ ips) = differ_of wanted ips changed in
            elim (Result-cases call.0) [
              | inl (_, done) ↦ (
                ok (some wanted),
                at_world n call.1,
                rw changed (routed ∙ ap (λ q. through (q, at_world n call.1)) done),
                inr (differ, refl, inl (done, refl)),
              )
              | inr (e, failed) ↦ (
                err e,
                at_world n call.1,
                rw changed (routed ∙ ap (λ q. through (q, at_world n call.1)) failed),
                inr (differ, refl, inr (e, failed, refl)),
              )
            ]
      ]

  relay_round_lem :
      (config : ClusterConfig) (ips : List Text) (m : Agent W) {w w' : W} {handshakes : Dict ℕ}
      → Manager.is_up os m.config m.wg m.prima.world ≡ (ok true, w)
      → Manager.latest_handshakes os m.config m.wg w ≡ (ok handshakes, w')
      → relay_round os pool dumps config ips m
        ≡ route_changed os pool dumps config ips
            (wanted_ips (os.now w) handshakes config.peers [])
            (at_world m w')
  unfolding relay_round wg_is_up check_peers
  relay_round_lem config ips m {w} up shown =
      ap
        (λ (r, v).
          continue
            (λ b. if not b then (λ n. (ok none, n)) else check_peers os pool dumps config ips)
            (r, at_world m v))
        up
      ∙ ap
          (λ (r, v).
            continue
              (λ hs.
                route_changed os pool dumps config ips (wanted_ips (os.now w) hs config.peers []))
              (r, at_world m v))
          shown

  -- What a turn leaves of a task and the machine, and whether it called the interface.
  abbrev pub Turned : Agent W → W → RelayTask → List Text → Agent W → Type 0
  Turned m w task wanted n =
      let call = asked m task.config wanted w in
      ((wanted ≡ task.relayed_ips) × (n ≡ turned m w task wanted))
      ⊎ ((¬ (wanted ≡ task.relayed_ips))
          × (((call.0 ≡ ok tt) × (n ≡ turned m call.1 task wanted))
              ⊎ (((e : Error) × (call.0 ≡ err e)) × (n ≡ turned m call.1 task task.relayed_ips))))

  -- The agent behind a round.
  abbrev behind : RelayTask → Result (Option (List Text)) → Agent W → Agent W
  behind task r o = record o { relay_task = some (relayed_after os pool dumps task r) }

  Changed-Turned :
      (m : Agent W) (w : W) (task : RelayTask) (wanted : List Text)
      (r : Result (Option (List Text))) (o : Agent W)
      → Changed task.relayed_ips wanted r (at_world m w) o (asked m task.config wanted w)
      → Turned m w task wanted (behind task r o)
  unfolding relayed_after
  Changed-Turned m w task wanted r o (inl (same, done, kept)) =
      inl (same, ap (λ q. behind task q o) done ∙ ap (behind task (ok (some wanted))) kept)
  Changed-Turned m w task wanted r o (inr (differ, machine, inl (called, done))) = inr (
    differ,
    inl (called, ap (λ q. behind task q o) done ∙ ap (behind task (ok (some wanted))) machine),
  )
  Changed-Turned m w task wanted r o (inr (differ, machine, inr (e, refused, failed))) = inr (
    differ,
    inr ((e, refused), ap (λ q. behind task q o) failed ∙ ap (behind task (err e)) machine),
  )

  -- With the interface up and its handshakes read, a turn of a running monitor of an agent that is
  -- not stopped never raises. If the addresses that these handshakes ask for are those of its task,
  -- it leaves the interface as it is. Else it gives the relay these addresses on the interface, with
  -- keepalive 25, or removes the relay if there are none, and they are then its task's; if the
  -- interface refuses, the task is as it was, so that its next turn tries again. Nothing else of the
  -- agent changes.
  pub relay_turn-wanted :
      (m : Agent W) (task : RelayTask) {w w' : W} {handshakes : Dict ℕ}
      → m.relay_task ≡ some task
      → task.is_done ≡ false
      → m.stopped ≡ false
      → Manager.is_up os m.config m.wg m.prima.world ≡ (ok true, w)
      → Manager.latest_handshakes os m.config m.wg w ≡ (ok handshakes, w')
      → (n : Agent W) × (relay_turn os pool dumps m ≡ (ok tt, n))
        × Turned m w' task (wanted_ips (os.now w) handshakes task.config.peers []) n
  unfolding relay_turn run_task
  relay_turn-wanted m task {w} {w'} {handshakes} running going on up shown =
      let wanted = wanted_ips (os.now w) handshakes task.config.peers [] in
      let (r, o, done, outcome) =
        route_changed-cases task.config task.relayed_ips wanted (at_world m w') in
      (
        behind task r o,
        turn_of-run_task m task m.relay_task m.stopped running on going
            ∙ ap (λ (q, n). (ok tt, behind task q n))
                (relay_round_lem task.config task.relayed_ips m up shown ∙ done),
        Changed-Turned m w' task wanted r o outcome,
      )
