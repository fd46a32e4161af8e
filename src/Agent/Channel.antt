-- ===== src/Agent/Channel.antt =====
-- The frames that the WebSocket client hands to the agent, connection by connection: `WsClient.run`
-- (src/prima_pool_client/ws_client.py).
use mathlib.Core.List.{append-nil}
use prima_pool_client.Base.{
  Text, ℕ, ◌+◌, ◌≡◌, refl, sym, ap, ◌∙◌, ◌++◌, Bool, Bool-cases, inl, inr, true, false,
  if◌then◌else◌, Option, none, some, List, [], ◌∷◌,
}
use prima_pool_client.Agent.Events.{Event, frame_received, run_events, handle}
use prima_pool_client.Agent.Frames.{Frame, on_frame}
use prima_pool_client.Agent.State.{Agent, AgentState}
use prima_pool_client.Pool.{Pool}
use prima_pool_client.System.{Os}
use prima_pool_client.WebSocket.{attempt_after, delay_of, delays}

-- A try to connect, and the messages of the connection up to its end or its error.
pub data Connection : Type 0 where
  refused : Connection
  connected : List Text → Connection

abbrev pub was_connected : Connection → Bool
was_connected refused = false
was_connected (connected raws) = true

abbrev pub messages_of : Connection → List Text
messages_of refused = []
messages_of (connected raws) = raws

-- A turn of the outer loop, and whether `stop` has been called by its end.
pub record Turn : Type 0 where
  pub connection : Connection
  pub is_stopped : Bool

-- The turns behind which the loop waits, and the messages of all turns up to the last.
abbrev pub waited : List Turn → List Bool
waited [] = []
waited (turn ∷ turns) = if turn.is_stopped then [] else was_connected turn.connection ∷ waited turns

abbrev pub heard_in : List Turn → List Text
heard_in [] = []
heard_in (turn ∷ turns) =
    messages_of turn.connection ++ (if turn.is_stopped then [] else heard_in turns)

module _ {W : Type 0} (os : Os W) (pool : Pool W) (dumps : AgentState → Text)
    (loads : Text → Option Frame) where
  -- What `on_frame` raises is only logged; what is no JSON is skipped.
  unfoldable pub receive_frame : Option Frame → Agent W → Agent W
  receive_frame none m = m
  receive_frame (some frame) m = (on_frame os pool dumps frame m).1

  -- `async for raw in ws`, with `loads` for `json.loads`.
  unfoldable pub receive : List Text → Agent W → Agent W
  unfolding receive_frame
  receive [] m = m
  receive (raw ∷ raws) m = receive raws (receive_frame (loads raw) m)

  -- The events of a sequence of messages.
  abbrev add_event : Option Frame → List Event → List Event
  add_event none events = events
  add_event (some frame) events = frame_received frame ∷ events

  abbrev pub events_of : List Text → List Event
  events_of [] = []
  events_of (raw ∷ raws) = add_event (loads raw) (events_of raws)

  receive_frame-run_events :
      (o : Option Frame) (events : List Event) (m : Agent W)
      → run_events os pool dumps events (receive_frame o m)
        ≡ run_events os pool dumps (add_event o events) m
  unfolding run_events handle receive_frame
  receive_frame-run_events none events m = refl
  receive_frame-run_events (some frame) events m = refl

  -- Receiving messages, those that are no JSON and those whose handler raises among them, is
  -- running the events of the messages that are frames, in order.
  pub receive-run_events :
      (raws : List Text) (m : Agent W)
      → receive raws m ≡ run_events os pool dumps (events_of raws) m
  unfolding receive run_events
  receive-run_events [] m = refl
  receive-run_events (raw ∷ raws) m =
      receive-run_events raws (receive_frame (loads raw) m)
      ∙ receive_frame-run_events (loads raw) (events_of raws) m

  receive-append :
      (raws more : List Text) (m : Agent W)
      → receive (raws ++ more) m ≡ receive more (receive raws m)
  unfolding receive
  receive-append [] more m = refl
  receive-append (raw ∷ raws) more m = receive-append raws more (receive_frame (loads raw) m)

  -- What a turn of the outer loop receives.
  unfoldable pub receive_turn : Connection → Agent W → Agent W
  receive_turn refused m = m
  receive_turn (connected raws) m = receive raws m

  -- The outer loop of `WsClient.run`: the delays that it waits, and the agent behind it.
  unfoldable pub run_turns : List ℕ → ℕ → List Turn → Agent W → List (Option ℕ) × Agent W
  unfolding receive_turn attempt_after delay_of
  run_turns backoff attempt [] m = ([], m)
  run_turns backoff attempt (turn ∷ turns) m =
      let tried = attempt_after (was_connected turn.connection) attempt in
      let heard = receive_turn turn.connection m in
      let rest = run_turns backoff (tried + 1) turns heard in
      if turn.is_stopped then ([], heard) else (delay_of backoff tried ∷ rest.0, rest.1)

  receive_turn-messages :
      (c : Connection) (m : Agent W) → receive_turn c m ≡ receive (messages_of c) m
  unfolding receive_turn receive
  receive_turn-messages refused m = refl
  receive_turn-messages (connected raws) m = refl

  run_turns-receive :
      (backoff : List ℕ) (attempt : ℕ) (turns : List Turn) (m : Agent W)
      → run_turns backoff attempt turns m
        ≡ (delays backoff attempt (waited turns), receive (heard_in turns) m)
  unfolding run_turns delays receive
  run_turns-receive backoff attempt [] m = refl
  run_turns-receive backoff attempt (turn ∷ turns) m =
      let c = turn.connection in
      let tried = attempt_after (was_connected c) attempt in
      let delay = delay_of backoff tried in
      elim (Bool-cases turn.is_stopped) [
        | inl stopped ↦ rw stopped (
            ap (λ n. ([], n))
              (receive_turn-messages c m
                ∙ ap (λ raws. receive raws m) (sym (append-nil (messages_of c)))))
        | inr goes_on ↦ rw goes_on (
            ap (λ r. (delay ∷ r.0, r.1))
              (run_turns-receive backoff (tried + 1) turns (receive_turn c m))
            ∙ ap (λ n. (delay ∷ delays backoff (tried + 1) (waited turns), n))
                (ap (receive (heard_in turns)) (receive_turn-messages c m)
                  ∙ sym (receive-append (messages_of c) (heard_in turns) m)))
      ]

  -- The loop waits the delays of its turns before the one in which it was stopped, and the agent
  -- handles the messages of all connections up to that one as the events of those that are frames,
  -- in order: nothing is handled twice and nothing is left out over the reconnections.
  pub run_turns-run_events :
      (backoff : List ℕ) (attempt : ℕ) (turns : List Turn) (m : Agent W)
      → run_turns backoff attempt turns m ≡ (
        delays backoff attempt (waited turns),
        run_events os pool dumps (events_of (heard_in turns)) m,
      )
  run_turns-run_events backoff attempt turns m =
      run_turns-receive backoff attempt turns m
      ∙ ap (λ n. (delays backoff attempt (waited turns), n)) (receive-run_events (heard_in turns) m)
