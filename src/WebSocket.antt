-- ===== src/WebSocket.antt =====
-- src/prima_pool_client/ws_client.py: sending a frame, and the delays of the reconnects.
pub mod Laws
use prima_pool_client.Base.{
  Text, ℕ, ◌+◌, ◌-◌, min, Bool, true, false, not, List, [], ◌∷◌, length, get_elem?, Option, Result,
  ok, err, Exec, if◌then◌else◌,
}
use prima_pool_client.Base.Dict.{Dict}

-- The frame `layer_distribution`.
pub record DistributionFrame : Type 0 where
  pub cluster_id : Text
  pub layer_windows : Dict ℕ

-- The connection of the `websockets` package: whether there is one, and `ws.send(json.dumps(…))`.
pub record Socket (W : Type 0) : Type 0 where
  pub is_connected : W → Bool
  pub send : DistributionFrame → Exec W Unit

was_sent : Result (Unit {0}) → Bool
was_sent (ok a) = true
was_sent (err e) = false

-- `send_frame`: a failure is only logged.
unfoldable pub send_frame : {W : Type 0} → Socket W → DistributionFrame → Exec W Bool
unfolding was_sent
send_frame socket frame w =
    if not (socket.is_connected w)
    then (ok false, w)
    else let (r, w') = socket.send frame w in (ok (was_sent r), w')

-- `self.backoff = backoff or [1, 30]`
unfoldable pub backoff_of : List ℕ → List ℕ
backoff_of [] = 1 ∷ 30 ∷ []
backoff_of (b ∷ backoff) = b ∷ backoff

-- `self.backoff[min(attempt, len(self.backoff) - 1)]`; the list is not empty.
unfoldable pub delay_of : List ℕ → ℕ → Option ℕ
delay_of backoff attempt = get_elem? backoff (min attempt (length backoff - 1))

-- `attempt` behind the connection of a turn, if it was made.
unfoldable pub attempt_after : Bool → ℕ → ℕ
attempt_after connected attempt = if connected then 0 else attempt

-- The delays of the turns, each with whether the connection was made in it.
unfoldable pub delays : List ℕ → ℕ → List Bool → List (Option ℕ)
unfolding delay_of attempt_after
delays backoff attempt [] = []
delays backoff attempt (connected ∷ turns) =
    delay_of backoff (attempt_after connected attempt)
    ∷ delays backoff (attempt_after connected attempt + 1) turns
