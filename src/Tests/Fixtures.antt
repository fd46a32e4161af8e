-- ===== src/Tests/Fixtures.antt =====
-- A machine that counts the calls that it gets, the cluster of tests/test_client.py, and an agent.
use prima_pool_client.Base.{
  Text, ℕ, ◌+◌, refl, true, false, Option, none, some, List, [], ◌∷◌, ◌++◌, codes, ok,
}
use mathlib.Core.List.{append_assoc, append-nil}
use prima_pool_client.Agent.State.{Agent, AgentState, fresh_state}
use prima_pool_client.Agent.Returns.{Works}
use prima_pool_client.Config.{ClientConfig}
use prima_pool_client.Models.{
  PeerConfig, ClusterConfig, direct, no_relay, Worker, waitlisted, assembling,
}
use prima_pool_client.Pool.{Pool, Keys}
use prima_pool_client.Prima.Hash.{Hasher}
use prima_pool_client.System.{Os}

-- Every program is found and every call succeeds.
abbrev pub machine : Os ℕ
machine = record {
  which = λ name w. some (codes "/usr/bin/" ++ name);
  exists = λ path w. true;
  environ = λ w. [];
  expanduser = λ path. path;
  parent = λ path. path;
  now = λ w. w;
  host_address = λ w. none;
  processor = λ w. none;
  system_name = λ w. codes "Linux";
  read_text = λ path w. ok [];
  read_bytes = λ path w. (ok (codes "GGUF"), w + 1);
  mkdir = λ path w. (ok tt, w + 1);
  write_text = λ path content w. (ok tt, w + 1);
  chmod = λ path mode w. (ok tt, w + 1);
  run = λ cwd cmd w. (ok (record { returncode = 0; stdout = [] }), w + 1);
  popen = λ spawn w. (ok 42, w + 1);
  poll = λ pid w. none;
  terminate = λ pid w. w + 1;
  kill = λ pid w. w + 1;
  wait = λ pid timeout w. (true, w + 1);
  close_stdout = λ pid w. w + 1;
}

pub machine-Works : Works machine
machine-Works = record {
  runs = λ cwd cmd w. (record { returncode = 0; stdout = [] }, w + 1, refl);
  makes = λ path w. (tt, w + 1, refl);
  writes = λ path content w. (tt, w + 1, refl);
}

abbrev peer : Text → Text → Option Text → PeerConfig
peer key ip role = record {
  pubkey = key;
  endpoint = none;
  allowed_ips = (ip ++ codes "/32") ∷ [];
  persistent_keepalive = 25;
  preferred = direct;
  role = role;
}

abbrev pub peer_a : PeerConfig
peer_a = peer (codes "A") (codes "10.23.1.1") none

abbrev pub peer_b : PeerConfig
peer_b = peer (codes "B") (codes "10.23.1.2") none

abbrev pub peer_c : PeerConfig
peer_c = peer (codes "C") (codes "10.23.1.3") none

abbrev pub server : PeerConfig
server = peer (codes "SRV") (codes "10.23.1.254") (some (codes "server"))

abbrev pub cluster : ClusterConfig
cluster = record {
  cluster_id = codes "clu_1";
  interface = record { private_ip = codes "10.23.1.2"; subnet = codes "10.23.1.0/24"; mtu = 1280 };
  relay = no_relay;
  peers = peer_a ∷ peer_b ∷ peer_c ∷ [];
}

abbrev pub config : ClientConfig
config = record {
  pool_url = codes "http://127.0.0.1:8000";
  api_key = codes "sk-worker-test";
  model = codes "demo-model";
  memory_allocated_mb = 4096;
  wg_private_key = [];
  wg_listen_port = 51820;
  wg_interface = codes "prima-pool";
  wg_conf_dir = codes "/etc/wireguard";
  wg_endpoint_host = codes "203.0.113.99";
  wg_relay_check_s = 10;
  prima_mode = codes "same-container";
  prima_dir = codes "/prima";
  model_file = codes "model.gguf";
  model_path = [];
  mem_limit = codes "8g";
  gpu_mem_flag = [];
  ctx_size = 4096;
  api_port = 8080;
  batch_flags = [];
  extra_flags = [];
  prima_ready_timeout_s = 600_000;
  heartbeat_interval_s = 10_000;
  ws_reconnect_backoff_s = 1 ∷ 30 ∷ [];
  state_path = codes "/state.json";
}

abbrev pub worker : Worker
worker = record {
  worker_id = codes "wrk_new";
  account_id = codes "acc_test";
  status = waitlisted;
  model = codes "demo-model";
  waitlist_position = none;
  online = false;
}

abbrev pub pool : Pool ℕ
pool = record {
  register_worker = λ payload w. (ok worker, w + 1);
  get_worker_state = λ id w. (
    ok (record {
      worker_id = id;
      account_id = codes "acc_test";
      status = waitlisted;
      online = true;
      model = codes "demo-model";
      cluster = none;
    }),
    w + 1,
  );
  heartbeat = λ id w. (ok worker, w + 1);
  get_cluster_config = λ id w. (ok cluster, w + 1);
  report_ready = λ id windows w. (
    ok (record { cluster_id = id; status = assembling; members_ready = 1; members_total = 3 }),
    w + 1,
  );
  close = λ w. w + 1;
}

abbrev pub keys : Keys ℕ
keys = record {
  generate_keypair = λ w. ((codes "priv", codes "pub"), w + 1);
  derive_public_key = λ key. some (codes "pub");
}

-- A digest that keeps all that it is fed.
abbrev pub hasher : Hasher
hasher = record {
  State = List ℕ;
  init = [];
  update = λ h b. h ++ b;
  hexdigest = λ h. h;
  update-nil = append-nil;
  update-append = append_assoc;
}

abbrev pub dumps : AgentState → Text
dumps s = s.status

-- Registered before the move of tests/test_client.py, in a cluster.
abbrev pub agent : Agent ℕ
agent = record {
  config = config;
  state = record (fresh_state 0) {
    worker_id = some (codes "wrk_old");
    wg_private_key = codes "priv";
    endpoint_host = codes "172.18.0.1";
    cluster_id = some (codes "clu_1");
    ring_position = some 1;
    status = codes "assigned";
  };
  wg = record { wg_quick = some (codes "/usr/bin/wg-quick"); wg = some (codes "/usr/bin/wg") };
  prima = record { proc = some 42; capture = none; world = 0 };
  stopped = false;
  has_ws = true;
  prima_proc = some 42;
  relay_task = none;
  stdout_task = none;
  cluster_config = some cluster;
}
