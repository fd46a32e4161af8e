-- ===== src/Tests/Online.antt =====
-- The REST client at concrete responses, and the agent with it.
use prima_pool_client.Base.{
  ℕ, ◌+◌, ◌≡◌, ◌<◌, refl, ◌⊎◌, true, Option, none, some, [], ◌∷◌, codes, Error, Result, ok, err,
  arith,
}
use prima_pool_client.Base.Json.{Json, Fields, str, obj, fields_of}
use prima_pool_client.Agent.Frames.{heartbeat_once, recover_state}
use prima_pool_client.Agent.Online.{refused-keeps_state}
use prima_pool_client.Agent.State.{Agent}
use prima_pool_client.Models.{waitlisted, assembling}
use prima_pool_client.Pool.{Payload}
use prima_pool_client.Rest.{
  Response, Http, Schemas, Client, request, request_for, typed, answer, json_of, unpack,
  pool_client,
}
use prima_pool_client.Rest.Laws.{Answered, request-Answered, typed-eq-ok}
use prima_pool_client.Rest.Sent.{Sends, pool_client-sent}
use prima_pool_client.Tests.Fixtures.{machine, agent, dumps, worker, cluster}

abbrev body : Fields
body = fields_of ((codes "worker_id", str (codes "wrk_new")) ∷ [])

abbrev served : Response
served = record {
  status_code = 200;
  has_content = true;
  text = codes "{\"worker_id\": \"wrk_new\"}";
  json = some (obj body);
}

abbrev not_found : Response
not_found = record { status_code = 404; has_content = true; text = codes "not found"; json = none }

-- A control plane that serves every request, and one that knows no worker.
abbrev serving : Http ℕ
serving = record { request = λ r w. (ok served, w + 1); close = λ w. w }

abbrev refusing : Http ℕ
refusing = record { request = λ r w. (ok not_found, w + 1); close = λ w. w }

abbrev schemas : Schemas
schemas = record {
  worker = λ fields. ok worker;
  worker_state = λ fields. ok (record {
    worker_id = codes "wrk_new";
    account_id = codes "acc_test";
    status = waitlisted;
    online = true;
    model = codes "demo-model";
    cluster = none;
  });
  cluster_config = λ fields. ok cluster;
  cluster_status = λ fields. ok (record {
    cluster_id = codes "clu_1";
    status = assembling;
    members_ready = 1;
    members_total = 3;
  });
}

abbrev client : Client
client = record { base_url = codes "http://pool"; api_key = codes "sk-worker-test" }

abbrev payload : Payload
payload = record {
  model = codes "demo-model";
  gguf_sha256 = codes "00";
  memory_allocated_mb = 4096;
  wg_pubkey = codes "pub";
  host = codes "203.0.113.99";
  port = 51820;
  behind_nat = true;
  nat_type = codes "unknown";
  cpu = none;
  os_name = codes "linux";
}

request-Answered_example :
    (r : Result (Option Json)) × (request refusing client (codes "GET") (codes "/v1/x") none none 0
      ≡ (r, 1))
    × (((e : Error) × (ok not_found ≡ err e) × (r ≡ err e))
        ⊎ ((resp : Response) × (ok not_found ≡ ok resp) × Answered resp r))
request-Answered_example =
    request-Answered refusing client (codes "GET") (codes "/v1/x") none none 0

typed-eq-ok_example :
    (resp : Response) × (fields : Fields) × (serving.request
        (request_for client (codes "POST") (codes "/v1/workers/wrk_new/heartbeat") none none)
        0
      ≡ (ok resp, 1))
    × (resp.status_code < 400)
    × (resp.json ≡ some (obj fields))
    × (schemas.worker fields ≡ ok worker)
unfolding typed request answer json_of unpack
typed-eq-ok_example =
    typed-eq-ok serving client schemas.worker (codes "POST") (codes "/v1/workers/wrk_new/heartbeat")
      none 0 refl

pool_client-sent_example :
    Sends refusing client schemas payload (codes "wrk_new") ((codes "0", 32) ∷ []) 0
pool_client-sent_example =
    pool_client-sent refusing client schemas payload (codes "wrk_new") ((codes "0", 32) ∷ []) 0

refused-keeps_state_example :
    (heartbeat_once machine (pool_client refusing client schemas) dumps agent
      ≡ (ok tt, record agent { prima = record agent.prima { world = 1 } }))
    × (recover_state machine (pool_client refusing client schemas) dumps agent
        ≡ (ok tt, record agent { prima = record agent.prima { world = 1 } }))
refused-keeps_state_example =
    refused-keeps_state machine refusing client schemas dumps agent not_found not_found refl refl
      (omega arith) refl (omega arith)
