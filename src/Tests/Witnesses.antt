-- ===== src/Tests/Witnesses.antt =====
-- The theorems on the agent and on the ring at concrete data.
use prima_pool_client.Base.{
  Text, ℕ, ◌+◌, ap, ◌<◌, ◌≡◌, refl, true, none, some, [], ◌∷◌, codes, length, text_eq, Result, ok,
  arith, get_elem?, select, split_on,
}
use prima_pool_client.Tests.Fixtures.{
  machine, machine-Works, peer_a, peer_b, peer_c, server, cluster, pool, dumps, agent,
}
use prima_pool_client.Agent.Cluster.{bring_up_cluster, find_ring_position, owns_ip}
use prima_pool_client.Agent.Cluster.Ends.{Outcome}
use prima_pool_client.Agent.Cluster.Outcome.{bring_up_cluster-Outcome}
use prima_pool_client.Agent.Cluster.Position.{find_ring_position-neighbors}
use prima_pool_client.Agent.Events.{frame_received, heartbeat_due, run_events}
use prima_pool_client.Agent.Frames.{Frame, handle_dissolved, stop}
use prima_pool_client.Agent.Frames.Ended.{IsGone, handle_dissolved-IsWaiting, stop-keeps_state}
use prima_pool_client.Agent.Frames.Laws.{IsWaiting}
use prima_pool_client.Prima.Launcher.Ending.{Ending}
use prima_pool_client.Agent.Identity.{IsSameWorker, run_events-IsSameWorker}
use prima_pool_client.Agent.State.{Agent}
use prima_pool_client.Models.{is_server}
use prima_pool_client.Ring.{ring_members, ring_neighbors, first_ip, both, next_idx}
use prima_pool_client.Ring.Laws.{
  with_peers, iterate, ring_neighbors-server, ring_neighbors-between, ring_neighbors-last,
  next_idx_reaches,
}

-- Every call of this machine is counted, and one call is enough to end a process there.
abbrev IsOver : ℕ → ℕ → Type 0
IsOver pid w = 0 < w

abbrev IsDown : Text → ℕ → Type 0
IsDown dir w = 0 < w

counted : (w w' : ℕ) → w + 1 ≡ w' → 0 < w'
counted w w' e = omega arith

machine-Ending : Ending machine pool IsOver IsDown
machine-Ending = record {
  polled = λ pid code w h. absurd cc;
  waited = λ pid s w w' h. counted w w' (ap (λ q. q.1) h);
  killed = λ pid w. omega arith;
  taken_down = λ dir w w' c h. counted w w' (ap (λ q. q.1) h);
  over_close_stdout = λ pid source w h. omega arith;
  over_run = λ pid cmd w w' c h over. counted w w' (ap (λ q. q.1) h);
  over_mkdir = λ pid path w w' h over. counted w w' (ap (λ q. q.1) h);
  over_write_text = λ pid path content w w' h over. counted w w' (ap (λ q. q.1) h);
  over_pool_close = λ pid w h. omega arith;
  down_mkdir = λ dir path w w' h down. counted w w' (ap (λ q. q.1) h);
  down_write_text = λ dir path content w w' h down. counted w w' (ap (λ q. q.1) h);
  down_pool_close = λ dir w h. omega arith;
}

handle_dissolved-IsWaiting_example :
    (n : Agent ℕ) × (handle_dissolved machine pool dumps agent ≡ (ok tt, n))
    × IsWaiting n
    × IsGone machine pool dumps IsOver IsDown agent n
handle_dissolved-IsWaiting_example =
    handle_dissolved-IsWaiting machine pool dumps machine-Works IsOver IsDown machine-Ending agent

stop-keeps_state_example :
    (n : Agent ℕ) × (stop machine pool dumps agent ≡ (ok tt, n))
    × ((n.prima_proc ≡ none)
        × ((n.state ≡ agent.state)
            × (n.stopped ≡ true)
            × (n.relay_task ≡ none)
            × (n.stdout_task ≡ none)))
    × IsGone machine pool dumps IsOver IsDown agent n
stop-keeps_state_example =
    stop-keeps_state machine pool dumps machine-Works IsOver IsDown machine-Ending agent

abbrev assigned : Frame
assigned = record {
  type = some (codes "cluster_assigned");
  heartbeat_s = none;
  cluster_id = some (codes "clu_2");
  assigned_ip = some (codes "10.23.1.2");
  ring_position = none;
  config_url = none;
}

run_events-IsSameWorker_example :
    IsSameWorker
      (run_events machine pool dumps (frame_received assigned ∷ heartbeat_due ∷ []) agent).state
      agent.state
run_events-IsSameWorker_example =
    run_events-IsSameWorker machine pool dumps (frame_received assigned ∷ heartbeat_due ∷ []) agent

ring_neighbors-server_example :
    (length (ring_members (with_peers cluster (peer_a ∷ server ∷ peer_b ∷ [])))
      ≡ length (ring_members (with_peers cluster (peer_a ∷ peer_b ∷ []))))
    × (ring_neighbors (with_peers cluster (peer_a ∷ server ∷ peer_b ∷ [])) 1
        ≡ ring_neighbors (with_peers cluster (peer_a ∷ peer_b ∷ [])) 1)
unfolding is_server text_eq
ring_neighbors-server_example =
    ring_neighbors-server cluster (peer_a ∷ []) (peer_b ∷ []) server 1 refl

next_idx_reaches_example : (k : ℕ) × (k < 3) × (iterate k (next_idx 3) 2 ≡ 1)
next_idx_reaches_example = next_idx_reaches 3 2 1 (omega arith) (omega arith)

ring_neighbors-between_example :
    ring_neighbors cluster 1
    ≡ both (first_ip (get_elem? (ring_members cluster) 0)) (first_ip (some peer_c))
unfolding ring_members select
ring_neighbors-between_example = ring_neighbors-between cluster (peer_a ∷ []) [] peer_b peer_c refl

ring_neighbors-last_example : ◌≡◌ {A = Text} (codes "10.23.1.1") (codes "10.23.1.1")
unfolding ring_neighbors ring_members first_ip next_idx select split_on
ring_neighbors-last_example =
    ring_neighbors-last cluster (peer_a ∷ peer_b ∷ []) peer_c {master = codes "10.23.1.1"}
      {next = codes "10.23.1.1"} refl refl

bring_up_cluster-Outcome_example :
    (r : Result (Unit {0})) × (n : Agent ℕ) × (bring_up_cluster machine pool dumps
        (codes "clu_1")
        agent
      ≡ (r, n))
    × Outcome machine pool agent (codes "clu_1") r n
bring_up_cluster-Outcome_example =
    bring_up_cluster-Outcome machine pool dumps machine-Works (codes "clu_1") agent

find_ring_position-neighbors_example :
    (find_ring_position (some (codes "10.23.1.3")) cluster ≡ 2)
    × (ring_neighbors cluster (find_ring_position (some (codes "10.23.1.3")) cluster)
        ≡ both (first_ip (get_elem? (ring_members cluster) 0)) (first_ip (some peer_a)))
unfolding owns_ip ring_members select split_on text_eq
find_ring_position-neighbors_example =
    find_ring_position-neighbors (some (codes "10.23.1.3")) cluster (peer_a ∷ peer_b ∷ []) [] peer_c
      refl (refl, (refl, tt)) refl
