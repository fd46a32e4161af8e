-- ===== src/Rest/Sent.antt =====
-- What the operations send, and to which address.
use prima_pool_client.Base.{
  Text, ℕ, zero, suc, ◌≡◌, ◌≢◌, refl, ap, ◌∙◌, Option, none, some, [], ◌∷◌, ◌++◌, codes,
  if◌then◌else◌, Result, ok, err, ◌>>=◌, lift, continue, arith, truthy,
}
use prima_pool_client.Base.Dict.{Dict}
use prima_pool_client.Base.Json.{Json, Fields, obj}
use prima_pool_client.Pool.{Payload}
use prima_pool_client.Rest.{
  Request, Http, Schemas, Client, rstrip_slashes, new_client, headers, request_for, token_of,
  request, unpack, typed, pool_client,
}
use prima_pool_client.Rest.Bodies.{payload_json, ready_body}
use prima_pool_client.Rest.Laws.{request-Answered}

module _ {W : Type 0} (http : Http W) (client : Client) where
  continue-lift :
      {A B : Type 0} (f : A → Result B) (call : Result A × W)
      → (continue (λ a. lift (f a)) call).1 ≡ call.1
  continue-lift f (ok a, w) = refl
  continue-lift f (err e, w) = refl

  continue-lift-lift :
      {A B C : Type 0} (f : A → Result B) (g : B → Result C) (call : Result A × W)
      → (continue (λ a. ◌>>=◌ (lift (f a)) (λ b. lift (g b))) call).1 ≡ call.1
  continue-lift-lift f g (ok a, w) = continue-lift g (f a, w)
  continue-lift-lift f g (err e, w) = refl

  typed_world :
      {A : Type 0} (schema : Fields → Result A) (method path : Text) (json : Option Json) (w : W)
      → (typed http client schema method path json w).1
        ≡ (http.request (request_for client method path none json) w).1
  unfolding typed
  typed_world schema method path json w =
      let (r, exchange, came) = request-Answered http client method path none json w in
      continue-lift-lift unpack schema (request http client method path none json w)
      ∙ ap (λ q. q.1) exchange

  -- A request without a token of its own, with the key of the client if there is one.
  abbrev pub sent : Text → Text → Option Json → Request
  sent method path json = record {
    method = method;
    url = client.base_url ++ path;
    headers =
        if truthy client.api_key
        then (codes "Authorization", codes "Bearer " ++ client.api_key) ∷ []
        else [];
    json = json;
  }

  -- One exchange for each operation that the agent calls: its method and path, and its body.
  abbrev pub Sends : Schemas → Payload → Text → Dict ℕ → W → Type 0
  Sends schemas payload id windows w =
      let pool = pool_client http client schemas in
      ((pool.register_worker payload w).1
        ≡ (http.request
            (sent (codes "POST") (codes "/v1/workers/register") (some (payload_json payload))) w).1)
      × ((pool.get_worker_state id w).1
          ≡ (http.request (sent (codes "GET") (codes "/v1/workers/" ++ (id ++ codes "/state")) none)
              w).1)
      × ((pool.heartbeat id w).1
          ≡ (http.request
              (sent (codes "POST") (codes "/v1/workers/" ++ (id ++ codes "/heartbeat")) none) w).1)
      × ((pool.get_cluster_config id w).1
          ≡ (http.request
              (sent (codes "GET") (codes "/v1/clusters/" ++ (id ++ codes "/config")) none) w).1)
      × ((pool.report_ready id none w).1
          ≡ (http.request
              (sent (codes "POST") (codes "/v1/clusters/" ++ (id ++ codes "/ready"))
                (some (obj Fields.end)))
              w).1)
      × ((pool.report_ready id (some windows) w).1
          ≡ (http.request
              (sent (codes "POST") (codes "/v1/clusters/" ++ (id ++ codes "/ready"))
                (some (ready_body (some windows))))
              w).1)

  -- Each operation that the agent calls is one exchange, with no repetition, whatever comes of it:
  -- to this method and path below the base address, with the client's key if it has one, and with
  -- this body, which names the layer windows only if they are given.
  pub pool_client-sent :
      (schemas : Schemas) (payload : Payload) (id : Text) (windows : Dict ℕ) (w : W)
      → Sends schemas payload id windows w
  unfolding pool_client request_for headers token_of ready_body
  pool_client-sent schemas payload id windows w = (
    typed_world schemas.worker _ _ _ w,
    typed_world schemas.worker_state _ _ _ w,
    typed_world schemas.worker _ _ _ w,
    typed_world schemas.cluster_config _ _ _ w,
    typed_world schemas.cluster_status _ _ _ w,
    typed_world schemas.cluster_status _ _ _ w,
  )

abbrev pub slashes : ℕ → Text
slashes zero = []
slashes (suc n) = b'/' ∷ slashes n

rstrip_slashes-slashes : (n : ℕ) → rstrip_slashes (slashes n) ≡ []
unfolding rstrip_slashes
rstrip_slashes-slashes zero = refl
rstrip_slashes-slashes (suc n) = rw (rstrip_slashes-slashes n) refl

rstrip_slashes-append :
    (s : Text) (c n : ℕ) → c ≢ b'/' → rstrip_slashes (s ++ (c ∷ slashes n)) ≡ s ++ (c ∷ [])
unfolding rstrip_slashes
rstrip_slashes-append [] c n h = rw (rstrip_slashes-slashes n) (ground arith)
rstrip_slashes-append (d ∷ []) c n h = rw (rstrip_slashes-append [] c n h) refl
rstrip_slashes-append (d ∷ e ∷ s) c n h = rw (rstrip_slashes-append (e ∷ s) c n h) refl

-- The base address is what was given up to its last character that is no slash, so that however
-- many slashes end it, paths are joined to it by their own.
pub new_client-slashes :
    (s key : Text) (c n : ℕ)
    → c ≢ b'/'
    → new_client (s ++ (c ∷ slashes n)) key ≡ record { base_url = s ++ (c ∷ []); api_key = key }
unfolding new_client
new_client-slashes s key c n h =
    ap (λ t. record { base_url = t; api_key = key }) (rstrip_slashes-append s c n h)
