-- ===== src/Agent/Monitor.antt =====
-- `_head_stdout_monitor` and `_send_distribution_and_ready`.
pub mod Laws
use prima_pool_client.Base.{
  Text, ℕ, zero, suc, ◌+◌, ◌/◌, ltb, Bool, Option, none, some, [], codes, contains_text, length,
  if◌then◌else◌, runtime_error, Exec, ◌>>=◌, ◌>>◌, pure, raise,
}
use prima_pool_client.Base.Dict.{Dict}
use prima_pool_client.Agent.Cluster.{report_ready}
use prima_pool_client.Agent.State.{Agent, AgentState, self, on_world}
use prima_pool_client.Halda.Parse.{build_distribution}
use prima_pool_client.Models.{ClusterConfig}
use prima_pool_client.Pool.{Pool}
use prima_pool_client.Prima.Launcher.{is_docker}
use prima_pool_client.Ring.{ring_members}
use prima_pool_client.System.{Os}
use prima_pool_client.WebSocket.{Socket, DistributionFrame, send_frame}

-- What a turn of the waiting loop sees: whether `stop` was called, the captured output, the time.
pub record Poll : Type 0 where
  pub is_stopped : Bool
  pub stdout : Text
  pub now : ℕ

abbrev pub marker : Text
marker = codes "model loaded"

-- The number of the poll at which the loop is left; `none` means that the fuel ran out.
unfoldable pub left_at : ℕ → ℕ → (ℕ → Poll) → ℕ → Option ℕ
unfolding contains_text
left_at zero deadline polls k = none
left_at (suc fuel) deadline polls k =
    let later = left_at fuel deadline polls (suc k) in
    if (polls k).is_stopped
    then some k
    else if contains_text marker (polls k).stdout
    then some k
    else if ltb deadline (polls k).now
    then some k
    else later

-- A turn a second until the deadline, and one behind it.
abbrev pub wait_fuel : ℕ → ℕ
wait_fuel timeout = suc (timeout / 1000 + 1)

-- `if distribution is None: distribution = {}`
unfoldable pub or_unknown : Option (Dict ℕ) → Dict ℕ
or_unknown none = []
or_unknown (some distribution) = distribution

module _ {W : Type 0} (os : Os W) (pool : Pool W) (dumps : AgentState → Text)
    (socket : Socket W) where
  unfoldable pub send_distribution : Text → Dict ℕ → Exec (Agent W) Unit
  send_distribution cluster_id distribution = do
    m ← self
    if m.has_ws
        then (do
          on_world
              (send_frame socket (record { cluster_id = cluster_id; layer_windows = distribution }))
          pure tt)
        else pure tt

  -- `_send_distribution_and_ready`
  unfoldable pub send_distribution_and_ready : Text → Dict ℕ → Exec (Agent W) Unit
  unfolding send_distribution
  send_distribution_and_ready cluster_id distribution = do
    send_distribution cluster_id distribution
    report_ready os pool dumps cluster_id (some distribution)

  -- Behind the loop, with the output captured by then; there is enough fuel, so the first clause
  -- is never reached.
  unfoldable pub after_wait : Text → ClusterConfig → Text → Option ℕ → Exec (Agent W) Unit
  unfolding or_unknown send_distribution_and_ready
  after_wait stdout config cluster_id none = raise (runtime_error (codes "still waiting"))
  after_wait stdout config cluster_id (some k) =
      send_distribution_and_ready cluster_id
        (or_unknown (build_distribution stdout (length (ring_members config))))

  -- `_head_stdout_monitor`, for what its turns see from its start on and the output captured when
  -- it is through, on the agent as it is then.
  unfoldable pub head_stdout_monitor :
      ℕ → (ℕ → Poll) → Text → ClusterConfig → Text → Exec (Agent W) Unit
  unfolding after_wait
  head_stdout_monitor start polls stdout config cluster_id = do
    m ← self
    if is_docker m.config
        then send_distribution_and_ready cluster_id []
        else after_wait stdout config cluster_id (
            left_at (wait_fuel m.config.prima_ready_timeout_s)
              (start + m.config.prima_ready_timeout_s) polls 0)
