-- ===== src/Agent/Monitor/Laws.antt =====
-- The head always reports (`_head_stdout_monitor`).
use prima_pool_client.Base.{
  Text, ℕ, suc, ◌+◌, ◌≤◌, ◌<◌, ◌≡◌, ◌⊎◌, ltb, ◌&&◌, true, false, contains_text, if◌then◌else◌,
}
use prima_pool_client.Base.Dict.{Dict}
use prima_pool_client.Agent.Monitor.{Poll, marker}
use prima_pool_client.Agent.State.{Agent, AgentState}
use prima_pool_client.Pool.{Pool}
use prima_pool_client.System.{Os}
use prima_pool_client.WebSocket.{Socket}

-- The loop sleeps for a second between two turns.
abbrev pub Sleeps : (ℕ → Poll) → Type 0
Sleeps polls = (k : ℕ) → (polls k).now + 1000 ≤ (polls (suc k)).now

-- Why a turn leaves the loop.
abbrev pub IsLast : ℕ → Poll → Type 0
IsLast deadline p =
    (p.is_stopped ≡ true) ⊎ ((contains_text marker p.stdout ≡ true) ⊎ (deadline < p.now))

-- A turn that stays in the loop.
abbrev Stays : ℕ → Poll → Type 0
Stays deadline p =
    (p.is_stopped ≡ false) × (contains_text marker p.stdout ≡ false) × (ltb deadline p.now ≡ false)

module _ {W : Type 0} (os : Os W) (pool : Pool W) (dumps : AgentState → Text)
    (socket : Socket W) where
  -- The machine after the socket, if the agent has one and it is connected, was given the frame.
  abbrev pub sent_world : Agent W → Text → Dict ℕ → W
  sent_world m cluster_id distribution =
      if m.has_ws && socket.is_connected m.prima.world
      then (socket.send (record { cluster_id = cluster_id; layer_windows = distribution })
          m.prima.world).1
      else m.prima.world
