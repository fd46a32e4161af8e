-- ===== src/Tests/Monitors.antt =====
-- The theorems on the monitors, the WebSocket and the tunnel at concrete data.
use prima_pool_client.Base.{
  Text, Option, none, ℕ, ◌+◌, ◌*◌, ◌≡◌, refl, ◌↔◌, true, false, some, [], ◌∷◌, codes, ok, join,
  List,
}
use prima_pool_client.Base.Dict.{Dict}
use prima_pool_client.Agent.Monitor.{Poll}
use prima_pool_client.Agent.Relay.{wanted_ips, relay_turn}
use prima_pool_client.Agent.Relay.Laws.{has_text, SomePeer, wanted_ips-SomePeer}
use prima_pool_client.Agent.Relay.Turn.{Turned, relay_turn-wanted}
use prima_pool_client.Agent.State.{Agent, RelayTask}
use prima_pool_client.Tests.Fixtures.{machine, cluster, pool, dumps, agent}
use prima_pool_client.WireGuard.Conf.{conf_lines}
use prima_pool_client.WireGuard.Conf.Laws.{
  values, key_key, allowed_key, RelayAdds, conf_lines-values,
}
use prima_pool_client.WebSocket.{backoff_of, delay_of, delays}
use prima_pool_client.WebSocket.Laws.{delay_of-backoff_of}
use prima_pool_client.Agent.Channel.{
  Turn, refused, connected, run_turns, events_of, run_turns-run_events,
}
use prima_pool_client.Agent.Events.{run_events}
use prima_pool_client.Agent.Frames.{Frame}
use prima_pool_client.WebSocket.{Socket}
use prima_pool_client.WireGuard.Handshakes.{parse_handshakes}
use prima_pool_client.WireGuard.Manager.{is_up, latest_handshakes}

abbrev socket : Socket ℕ
socket = record { is_connected = λ w. true; send = λ frame w. (ok tt, w + 1) }

-- A node that prints no marker.
abbrev polls : ℕ → Poll
polls k = record { is_stopped = false; stdout = codes "loading"; now = 1000 * k }

wanted_ips-SomePeer_example :
    (has_text (codes "10.23.1.2") (wanted_ips 500_000 [] cluster.peers []) ≡ true)
    ↔ SomePeer (codes "10.23.1.2") 500_000 [] cluster.peers
wanted_ips-SomePeer_example = wanted_ips-SomePeer (codes "10.23.1.2") 500_000 [] cluster.peers

abbrev task : RelayTask
task = record { config = cluster; relayed_ips = codes "10.23.1.3" ∷ []; is_done = false }

abbrev watching : Agent ℕ
watching = record agent { prima = record agent.prima { world = 500_000 }; relay_task = some task }

relay_turn-wanted_example :
    (n : Agent ℕ) × (relay_turn machine pool dumps watching ≡ (ok tt, n))
    × Turned machine pool dumps watching 500_003 task (wanted_ips 500_001 [] cluster.peers []) n
unfolding is_up latest_handshakes parse_handshakes
relay_turn-wanted_example =
    relay_turn-wanted machine pool dumps watching task {w = 500_001} {w' = 500_003}
      {handshakes = []} refl refl refl refl refl

abbrev loads : Text → Option Frame
loads [] = none
loads (c ∷ raw) = some (record {
  type = some (codes "cluster_dissolved");
  heartbeat_s = none;
  cluster_id = none;
  assigned_ip = none;
  ring_position = none;
  config_url = none;
})

-- A refused try, a connection with a frame and a text that is no JSON, and a stop in the next one.
abbrev turns : List Turn
turns =
    record { connection = refused; is_stopped = false }
    ∷ record { connection = connected (codes "{}" ∷ [] ∷ []); is_stopped = false }
    ∷ record { connection = connected (codes "{}" ∷ []); is_stopped = true }
    ∷ []

run_turns-run_events_example : run_turns machine pool dumps loads (1 ∷ 30 ∷ []) 0 turns watching ≡ (
  delays (1 ∷ 30 ∷ []) 0 (false ∷ true ∷ []),
  run_events machine pool dumps
      (events_of machine pool dumps loads (codes "{}" ∷ [] ∷ codes "{}" ∷ []))
      watching,
)
run_turns-run_events_example =
    run_turns-run_events machine pool dumps loads (1 ∷ 30 ∷ []) 0 turns watching

delay_of-backoff_of_example :
    ((d : ℕ) × (delay_of (backoff_of []) 7 ≡ some d)) × (delay_of (backoff_of []) 8 ≡ some 30)
unfolding backoff_of
delay_of-backoff_of_example = delay_of-backoff_of [] 7

conf_lines-values_example :
    (keys : List Text) × (routes : List Text) × RelayAdds cluster keys routes
    × (values key_key (conf_lines cluster (codes "priv") 51820)
        ≡ (codes "A" ∷ codes "B" ∷ codes "C" ∷ keys))
    × (values allowed_key (conf_lines cluster (codes "priv") 51820)
        ≡ (codes "10.23.1.1/32" ∷ codes "10.23.1.2/32" ∷ codes "10.23.1.3/32" ∷ routes))
unfolding join
conf_lines-values_example = conf_lines-values cluster (codes "priv") 51820
