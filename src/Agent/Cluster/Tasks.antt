-- ===== src/Agent/Cluster/Tasks.antt =====
-- Which position `_bring_up_cluster` takes, and which tasks it keeps or creates.
use prima_pool_client.Base.{
  Text, ℕ, ◌≡◌, refl, sym, ap, ◌∙◌, ◌⊎◌, ◌∷◌, Bool-cases, inl, inr, Bool, true, false, Option, none,
  some, [], truthy,
}
use prima_pool_client.Agent.Cluster.{
  find_ring_position, ring_position_of, next_relay_task, next_stdout_task, relay_usable,
}
use prima_pool_client.Agent.State.{AgentState, RelayTask, StdoutTask}
use prima_pool_client.Models.{ClusterConfig}
use prima_pool_client.WireGuard.Conf.{has_relay}

-- The persisted position, or the one that the configuration gives.
abbrev pub IsPosition : AgentState → ClusterConfig → ℕ → Type 0
IsPosition s config i =
    (s.ring_position ≡ some i)
    ⊎ ((s.ring_position ≡ none) × (i ≡ find_ring_position s.assigned_ip config))

ring_position_of-cases :
    (s : AgentState) (config : ClusterConfig) (o : Option ℕ)
    → s.ring_position ≡ o
    → IsPosition s config (ring_position_of s config)
unfolding ring_position_of
ring_position_of-cases s config none e =
    inr (e, ap (λ p. elim p [ none ↦ find_ring_position s.assigned_ip config | some i ↦ i ]) e)
ring_position_of-cases s config (some i) e = inl (
    e
    ∙ ap some
        (sym (ap (λ p. elim p [ none ↦ find_ring_position s.assigned_ip config | some j ↦ j ]) e)))

pub ring_position_of-IsPosition :
    (s : AgentState) (config : ClusterConfig) → IsPosition s config (ring_position_of s config)
ring_position_of-IsPosition s config = ring_position_of-cases s config s.ring_position refl

-- A task that is not done is kept; else a new one takes its place.
abbrev pub IsOngoing : {T : Type 0} → (T → Bool) → T → Option T → Option T → Type 0
IsOngoing {T} is_done fresh old now =
    ((task : T) × (old ≡ some task) × (is_done task ≡ false) × (now ≡ some task))
    ⊎ (((old ≡ none) ⊎ ((task : T) × (old ≡ some task) × (is_done task ≡ true)))
        × (now ≡ some fresh))

pub next_stdout_task-IsOngoing :
    (config : ClusterConfig) (cluster_id : Text) (old : Option StdoutTask)
    → IsOngoing
        (λ t. t.is_done)
        (record { config = config; cluster_id = cluster_id; is_done = false })
        old
        (next_stdout_task config cluster_id old)
unfolding next_stdout_task
next_stdout_task-IsOngoing config cluster_id none = inr (inl refl, refl)
next_stdout_task-IsOngoing config cluster_id (some task) = elim (Bool-cases task.is_done) [
  | inl done ↦ inr (inr (task, refl, done), rw done refl)
  | inr going ↦ inl (task, refl, going, rw going refl)
]

-- A relay that is enabled, with a key and an endpoint, is watched; else the task stays as it was.
abbrev pub IsWatched : ClusterConfig → Option RelayTask → Option RelayTask → Type 0
IsWatched config old now =
    ((config.relay.enabled ≡ true)
      × (truthy config.relay.pubkey ≡ true)
      × (truthy config.relay.endpoint ≡ true)
      × IsOngoing (λ t. t.is_done) (record { config = config; relayed_ips = []; is_done = false })
          old now)
    ⊎ (((config.relay.enabled ≡ false)
          ⊎ ((config.relay.pubkey ≡ []) ⊎ (config.relay.endpoint ≡ [])))
        × (now ≡ old))

next_relay_task-IsOngoing :
    (config : ClusterConfig) (old : Option RelayTask)
    → relay_usable config ≡ true
    → IsOngoing
        (λ t. t.is_done)
        (record { config = config; relayed_ips = []; is_done = false })
        old
        (next_relay_task config old)
unfolding next_relay_task
next_relay_task-IsOngoing config none usable = inr (inl refl, rw usable refl)
next_relay_task-IsOngoing config (some task) usable = elim (Bool-cases task.is_done) [
  | inl done ↦ inr (inr (task, refl, done), rw (usable, done) refl)
  | inr going ↦ inl (task, refl, going, rw (usable, going) refl)
]

next_relay_task-unusable :
    (config : ClusterConfig) (old : Option RelayTask)
    → relay_usable config ≡ false
    → next_relay_task config old ≡ old
unfolding next_relay_task
next_relay_task-unusable config old unusable = rw unusable refl

-- By the three conditions of a relay.
IsWatched-cases :
    (config : ClusterConfig) (old : Option RelayTask) (enabled : Bool) (pubkey endpoint : Text)
    → config.relay.enabled ≡ enabled
    → config.relay.pubkey ≡ pubkey
    → config.relay.endpoint ≡ endpoint
    → IsWatched config old (next_relay_task config old)
unfolding relay_usable has_relay truthy
IsWatched-cases config old false k d on key end =
    inr (inl on, next_relay_task-unusable config old (rw (relay_usable, has_relay, on) refl))
IsWatched-cases config old true [] d on key end = inr (
  inr (inl key),
  next_relay_task-unusable config old (rw (relay_usable, has_relay, on, key) refl),
)
IsWatched-cases config old true (a ∷ k) [] on key end = inr (
  inr (inr end),
  next_relay_task-unusable config old (rw (relay_usable, has_relay, on, key, end) refl),
)
IsWatched-cases config old true (a ∷ k) (b ∷ d) on key end = inl (
  on,
  ap truthy key,
  ap truthy end,
  next_relay_task-IsOngoing config old (rw (relay_usable, has_relay, on, key, end) refl),
)

pub next_relay_task-IsWatched :
    (config : ClusterConfig) (old : Option RelayTask)
    → IsWatched config old (next_relay_task config old)
next_relay_task-IsWatched config old =
    IsWatched-cases config old config.relay.enabled config.relay.pubkey config.relay.endpoint refl
      refl refl
