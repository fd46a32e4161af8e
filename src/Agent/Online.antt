-- ===== src/Agent/Online.antt =====
-- The agent with the REST client: what a refusal leaves, and a registration over HTTP.
use prima_pool_client.Base.{
  Text, ℕ, ◌≡◌, ◌≢◌, ◌≤◌, ◌<◌, ap, ◌∙◌, true, none, some, ◌∷◌, ◌++◌, codes, ok, err, Error,
}
use prima_pool_client.Base.Json.{Fields, obj}
use prima_pool_client.Agent.Frames.{
  heartbeat_once, beat_worker, beat, recover_state, recover_worker, recover_from,
}
use prima_pool_client.Agent.Register.{present}
use prima_pool_client.Agent.State.{Agent, AgentState}
use prima_pool_client.Models.{Worker}
use prima_pool_client.Pool.{Pool, Payload}
use prima_pool_client.Rest.{
  Http, Response, Schemas, Client, pool_client, request_for, headers, token_of,
}
use prima_pool_client.Rest.Bodies.{payload_json}
use prima_pool_client.Rest.Laws.{typed_refused}
use prima_pool_client.Rest.Sent.{sent}
use prima_pool_client.System.{Os}

module _ {W : Type 0} (os : Os W) (pool : Pool W) (dumps : AgentState → Text) where
  -- The agent on another machine.
  abbrev pub moved : Agent W → W → Agent W
  moved m w = record m { prima = record m.prima { world = w } }

  beat_worker_failed :
      (m : Agent W) (id : Text) {e : Error} {w : W}
      → pool.heartbeat id m.prima.world ≡ (err e, w)
      → beat_worker os pool dumps (some id) m ≡ (ok tt, moved m w)
  unfolding beat_worker beat
  beat_worker_failed m id failed = simp failed

  recover_worker_failed :
      (m : Agent W) (id : Text) {e : Error} {w : W}
      → pool.get_worker_state id m.prima.world ≡ (err e, w)
      → recover_worker os pool dumps (some id) m ≡ (ok tt, moved m w)
  unfolding recover_worker recover_from
  recover_worker_failed m id failed = simp failed

module _ {W : Type 0} (os : Os W) (http : Http W) (client : Client) (schemas : Schemas)
    (dumps : AgentState → Text) where
  abbrev online : Pool W
  online = pool_client http client schemas

  -- A heartbeat, or a recovery, that the control plane refuses with any status from 400 on is
  -- only logged: it returns, and nothing of the agent has changed.
  pub refused-keeps_state :
      (m : Agent W) {c : ℕ} {s : Text} {w w' : W} (beat_resp state_resp : Response)
      → m.state.worker_id ≡ some (c ∷ s)
      → http.request
          (sent http client
            (codes "POST")
            (codes "/v1/workers/" ++ ((c ∷ s) ++ codes "/heartbeat"))
            none)
          m.prima.world
        ≡ (ok beat_resp, w)
      → 400 ≤ beat_resp.status_code
      → http.request
          (sent http client
            (codes "GET")
            (codes "/v1/workers/" ++ ((c ∷ s) ++ codes "/state"))
            none)
          m.prima.world
        ≡ (ok state_resp, w')
      → 400 ≤ state_resp.status_code
      → (heartbeat_once os online dumps m ≡ (ok tt, moved os online dumps m w))
        × (recover_state os online dumps m ≡ (ok tt, moved os online dumps m w'))
  unfolding heartbeat_once recover_state present pool_client request_for headers token_of
  refused-keeps_state m {c} {s} {w} {w'} beat_resp state_resp known beat_came beat_high came high =
      (
        ap (λ o. beat_worker os online dumps (present o) m) known
            ∙ beat_worker_failed os online dumps m (c ∷ s)
                (typed_refused http client schemas.worker _ _ _ beat_resp beat_came beat_high),
        ap (λ o. recover_worker os online dumps (present o) m) known
            ∙ recover_worker_failed os online dumps m (c ∷ s)
                (typed_refused http client schemas.worker_state _ _ _ state_resp came high),
      )

  -- The control plane answers every registration with a worker.
  abbrev pub AnswersRegistrations : Type 0
  AnswersRegistrations =
      (payload : Payload) (w : W)
      → (resp : Response) × (w' : W) × (fields : Fields) × (worker : Worker) × (http.request
            (sent http client (codes "POST") (codes "/v1/workers/register")
              (some (payload_json payload)))
            w
          ≡ (ok resp, w'))
        × (resp.status_code < 400)
        × (resp.status_code ≢ 204)
        × (resp.has_content ≡ true)
        × (resp.json ≡ some (obj fields))
        × (schemas.worker fields ≡ ok worker)
