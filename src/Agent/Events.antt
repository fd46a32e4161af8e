-- ===== src/Agent/Events.antt =====
-- The event loop between registration and stop: heartbeats of `run`, frames of the WebSocket
-- client, turns of the relay monitor and ends of the task that watches the output (whose own run is
-- `head_stdout_monitor`), in any order.
use prima_pool_client.Base.{Text, Option, none, some, true, List, [], ◌∷◌, Exec, modify}
use prima_pool_client.Agent.Frames.{Frame, on_frame, heartbeat_once}
use prima_pool_client.Agent.Relay.{relay_turn}
use prima_pool_client.Agent.State.{Agent, AgentState, StdoutTask}
use prima_pool_client.Pool.{Pool}
use prima_pool_client.System.{Os}

pub data Event : Type 0 where
  frame_received : Frame → Event
  heartbeat_due relay_due stdout_ended : Event

-- The task behind its last turn; a cancelled one is no more there.
unfoldable pub ended_task : Option StdoutTask → Option StdoutTask
ended_task none = none
ended_task (some task) = some (record task { is_done = true })

module _ {W : Type 0} (os : Os W) (pool : Pool W) (dumps : AgentState → Text) where
  unfoldable pub handle : Event → Exec (Agent W) Unit
  unfolding ended_task
  handle (frame_received frame) = on_frame os pool dumps frame
  handle heartbeat_due = heartbeat_once os pool dumps
  handle relay_due = relay_turn os pool dumps
  handle stdout_ended = modify (λ m. record m { stdout_task = ended_task m.stdout_task })

  -- What a handler raises is logged by the WebSocket client, and the loop goes on from the state
  -- that the handler left.
  unfoldable pub run_events : List Event → Agent W → Agent W
  unfolding handle
  run_events [] m = m
  run_events (e ∷ events) m = run_events events (handle e m).1
