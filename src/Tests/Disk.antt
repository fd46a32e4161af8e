-- ===== src/Tests/Disk.antt =====
-- A machine with one file, and the saved state on it.
use prima_pool_client.Base.{
  Text, ◌≡◌, refl, sym, ap, true, false, none, some, [], ◌∷◌, Result, ok, err, type_error, codes,
  truthy, or_text,
}
use prima_pool_client.Agent.Persist.{load_state, Stores, load_state-save_state}
use prima_pool_client.Agent.Register.{
  ensure_registered, register, ensure_keys, fresh_keys, compute_gguf_hash, hashed,
  send_registration, adopt, adopt_worker, advertised_endpoint_host,
}
use prima_pool_client.Agent.Restart.{register-once}
use prima_pool_client.Agent.Run.{new_agent}
use prima_pool_client.Models.{waitlisted}
use prima_pool_client.Pool.{Pool, Keys}
use prima_pool_client.Prima.Hash.{compute_gguf_sha256}
use prima_pool_client.Agent.Returns.{Works}
use prima_pool_client.Agent.State.{Agent, AgentState, fresh_state, save_state, stamp, write_state}
use prima_pool_client.System.{Os}
use prima_pool_client.Tests.Fixtures.{config, hasher, worker as new_worker}

abbrev disk : Os Text
disk = record {
  which = λ name w. none;
  exists = λ path w. true;
  environ = λ w. [];
  expanduser = λ path. path;
  parent = λ path. path;
  now = λ w. 7;
  host_address = λ w. none;
  processor = λ w. none;
  system_name = λ w. codes "Linux";
  read_text = λ path w. ok w;
  read_bytes = λ path w. (ok [], w);
  mkdir = λ path w. (ok tt, w);
  write_text = λ path content w. (ok tt, content);
  chmod = λ path mode w. (ok tt, w);
  run = λ cwd cmd w. (ok (record { returncode = 0; stdout = [] }), w);
  popen = λ spawn w. (ok 42, w);
  poll = λ pid w. none;
  terminate = λ pid w. w;
  kill = λ pid w. w;
  wait = λ pid timeout w. (true, w);
  close_stdout = λ pid w. w;
}

disk-Works : Works disk
disk-Works = record {
  runs = λ cwd cmd w. (record { returncode = 0; stdout = [] }, w, refl);
  makes = λ path w. (tt, w, refl);
  writes = λ path content w. (tt, content, refl);
}

abbrev worker : Agent Text
worker = record {
  config = config;
  state = record (fresh_state 0) { worker_id = some (codes "wrk_1") };
  wg = record { wg_quick = none; wg = none };
  prima = record { proc = none; capture = none; world = [] };
  stopped = false;
  has_ws = false;
  prima_proc = none;
  relay_task = none;
  stdout_task = none;
  cluster_config = none;
}

-- The time of the save is all that this worker's file needs.
abbrev dumps : AgentState → Text
dumps s = s.updated_at ∷ []

abbrev loads : Text → Result AgentState
loads [] = err (type_error [])
loads (t ∷ rest) = ok (record worker.state { updated_at = t })

disk-Stores : Stores disk dumps loads
disk-Stores = record {
  is_there = λ path content e. refl;
  is_read = λ path content e. ap ok (sym (ap (λ p. p.1) e));
}

load_state-save_state_example :
    (n : Agent Text) × (save_state disk dumps worker ≡ (ok tt, n))
    × (n.state ≡ record worker.state { updated_at = n.state.updated_at })
    × (load_state disk dumps loads config n.prima.world ≡ ok n.state)
load_state-save_state_example =
    load_state-save_state disk dumps loads worker disk-Works disk-Stores (λ t. refl)

abbrev disk_pool : Pool Text
disk_pool = record {
  register_worker = λ payload w. (ok new_worker, w);
  get_worker_state = λ id w. (
    ok (record {
      worker_id = id;
      account_id = codes "acc_test";
      status = waitlisted;
      online = true;
      model = codes "demo-model";
      cluster = none;
    }),
    w,
  );
  heartbeat = λ id w. (ok new_worker, w);
  get_cluster_config = λ id w. (err (type_error []), w);
  report_ready = λ id windows w. (err (type_error []), w);
  close = λ w. w;
}

abbrev disk_keys : Keys Text
disk_keys = record {
  generate_keypair = λ w. ((codes "priv", codes "pub"), w);
  derive_public_key = λ key. some (codes "pub");
}

-- The state behind the registration.
abbrev registered : AgentState
registered = record (fresh_state 7) {
  worker_id = some (codes "wrk_new");
  account_id = some (codes "acc_test");
  status = codes "waitlisted";
  model = codes "demo-model";
  wg_private_key = codes "priv";
  wg_public_key = codes "pub";
  endpoint_host = codes "203.0.113.99";
}

abbrev unregistered : Agent Text
unregistered = record worker { state = fresh_state 0 }

abbrev loads_registered : Text → Result AgentState
loads_registered [] = err (type_error [])
loads_registered (t ∷ rest) = ok (record registered { updated_at = t })

registered-Stores : Stores disk dumps loads_registered
registered-Stores = record {
  is_there = λ path content e. refl;
  is_read = λ path content e. ap ok (sym (ap (λ p. p.1) e));
}

register-once_example :
    (a : Agent Text) × (new_agent disk dumps loads_registered config (7 ∷ []) ≡ ok a)
    × (a.state ≡ registered)
    × (ensure_registered disk disk_pool disk_keys hasher dumps a
        ≡ (ok tt, record a { prima = record a.prima { world = 7 ∷ [] } }))
unfolding register ensure_keys fresh_keys truthy compute_gguf_hash hashed send_registration adopt
    adopt_worker advertised_endpoint_host or_text save_state stamp write_state compute_gguf_sha256
register-once_example =
    register-once disk disk_pool disk_keys hasher dumps loads_registered unregistered
      (record unregistered {
        state = registered;
        prima = record unregistered.prima { world = 7 ∷ [] };
      })
      disk-Works registered-Stores refl refl refl refl refl
