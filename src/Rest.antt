-- ===== src/Rest.antt =====
-- src/prima_pool_client/rest.py: the client of the control plane, over an HTTP package.
pub mod Bodies
pub mod Laws
pub mod Sent
use prima_pool_client.Base.{
  Text, ℕ, ltb, leb, ◌==◌, Bool, true, false, not, ◌||◌, Option, none, some, List, [], ◌∷◌, ◌++◌,
  codes, truthy, or_text, if◌then◌else◌, Error, Result, ok, err, pool_error, value_error,
  type_error, other_error, Exec, ◌>>=◌, ◌>>◌, pure, raise, lift,
}
use prima_pool_client.Base.Decimal
use prima_pool_client.Base.Dict.{Dict, lookup}
use prima_pool_client.Base.Json.{Json, Fields, null, bool, num, str, obj, end, entries, fields_of}
use prima_pool_client.Models.{Worker, WorkerState, ClusterConfig, ClusterStatusResponse}
use prima_pool_client.Pool.{Payload, Pool}
use prima_pool_client.Rest.Bodies.{text_or_null, payload_json, numbers, ready_body, slashed}

-- A call of `httpx.Client.request`, and what it gives: the content is empty or not, and it is a
-- text, and JSON or not.
pub record Request : Type 0 where
  pub method : Text
  pub url : Text
  pub headers : Dict Text
  pub json : Option Json

pub record Response : Type 0 where
  pub status_code : ℕ
  pub has_content : Bool
  pub text : Text
  pub json : Option Json

-- The `httpx` package: `request` raises where there is no response.
pub record Http (W : Type 0) : Type 0 where
  pub request : Request → Exec W Response
  pub close : W → W

-- The `pydantic` package: a schema made of the items of a `dict`, or an error of validation.
pub record Schemas : Type 0 where
  pub worker : Fields → Result Worker
  pub worker_state : Fields → Result WorkerState
  pub cluster_config : Fields → Result ClusterConfig
  pub cluster_status : Fields → Result ClusterStatusResponse

-- `PoolClient`
pub record Client : Type 0 where
  pub base_url : Text
  pub api_key : Text

abbrev keep_unless_last : ℕ → Text → Text
keep_unless_last c [] = if c == b'/' then [] else c ∷ []
keep_unless_last c (d ∷ rest) = c ∷ d ∷ rest

-- `url.rstrip("/")`
unfoldable pub rstrip_slashes : Text → Text
rstrip_slashes [] = []
rstrip_slashes (c ∷ s) = keep_unless_last c (rstrip_slashes s)

-- `PoolClient(base_url, api_key)`
unfoldable pub new_client : Text → Text → Client
unfolding rstrip_slashes
new_client base_url api_key = record { base_url = rstrip_slashes base_url; api_key = api_key }

-- `bearer or self.api_key`
unfoldable pub token_of : Client → Option Text → Text
unfolding or_text
token_of client none = client.api_key
token_of client (some bearer) = or_text bearer client.api_key

-- `_headers`
unfoldable pub headers : Client → Option Text → Dict Text
unfolding token_of truthy
headers client bearer =
    if truthy (token_of client bearer)
    then (codes "Authorization", codes "Bearer " ++ token_of client bearer) ∷ []
    else []

-- `{"title": resp.text, "status": resp.status_code}`
unfoldable pub plain_problem : Response → Json
plain_problem resp =
    obj (fields_of ((codes "title", str resp.text) ∷ (codes "status", num resp.status_code) ∷ []))

-- `PoolError(status, problem)`, which asks the problem for its detail: only a `dict` has one.
unfoldable pub problem_error : ℕ → Json → Error
problem_error status (obj fields) = pool_error status (obj fields)
problem_error status problem = other_error (codes "the problem has no attribute 'get'")

unfoldable pub problem_of : Response → Json
unfolding plain_problem
problem_of resp = elim resp.json [ none ↦ plain_problem resp | some problem ↦ problem ]

-- `resp.json()`, or a `ValueError`.
unfoldable pub json_of : Option Json → Result Json
json_of none = err (value_error (codes "no JSON"))
json_of (some v) = ok v

-- What `_request` makes of a response; no value stands for `None`.
unfoldable pub answer : Response → Result (Option Json)
unfolding problem_error problem_of json_of
answer resp =
    if leb 400 resp.status_code
    then err (problem_error resp.status_code (problem_of resp))
    else if resp.status_code == 204 || not resp.has_content
    then ok none
    else elim (json_of resp.json) [ err e ↦ err e | ok v ↦ ok (some v) ]

-- `**data`: only a `dict` can be unpacked.
unfoldable pub unpack : Option Json → Result Fields
unpack (some (obj fields)) = ok fields
unpack _ = err (type_error (codes "argument after ** must be a mapping"))

-- The request that `_request` sends.
unfoldable pub request_for : Client → Text → Text → Option Text → Option Json → Request
unfolding headers
request_for client method path bearer json = record {
  method = method;
  url = client.base_url ++ path;
  headers = headers client bearer;
  json = json;
}

module _ {W : Type 0} (http : Http W) (client : Client) where
  -- `_request`
  unfoldable pub request : Text → Text → Option Text → Option Json → Exec W (Option Json)
  unfolding request_for answer
  request method path bearer json = do
    resp ← http.request (request_for client method path bearer json)
    lift (answer resp)

  unfoldable pub register_account : Text → Text → Exec W (Option Json)
  register_account username password = request (codes "POST") (codes "/v1/accounts/register") none (
      some (
        obj (fields_of ((codes "username", str username) ∷ (codes "password", str password) ∷ []))))

  unfoldable pub login : Text → Text → Exec W (Option Json)
  login username password = request (codes "POST") (codes "/v1/accounts/login") none (
      some (
        obj (fields_of ((codes "username", str username) ∷ (codes "password", str password) ∷ []))))

  unfoldable pub create_key : Text → Text → Text → Text → Exec W (Option Json)
  create_key account_id name scope session_token =
      request (codes "POST") (slashed (codes "/v1/accounts/") account_id (codes "/keys"))
        (some session_token)
        (some (obj (fields_of ((codes "name", str name) ∷ (codes "scope", str scope) ∷ []))))

  unfoldable pub list_keys : Text → Text → Exec W (Option Json)
  list_keys account_id session_token =
      request (codes "GET") (slashed (codes "/v1/accounts/") account_id (codes "/keys"))
        (some session_token) none

  unfoldable pub revoke_key : Text → Text → Text → Exec W Unit
  revoke_key account_id key_id session_token = do
    request (codes "DELETE") (slashed (codes "/v1/accounts/") account_id (codes "/keys/" ++ key_id))
        (some session_token) none
    pure tt

  unfoldable pub revoke_worker : Text → Exec W Unit
  revoke_worker worker_id = do
    request (codes "DELETE") (codes "/v1/workers/" ++ worker_id) none none
    pure tt

  -- A request whose answer is made into a schema.
  unfoldable pub typed : {A : Type 0} → (Fields → Result A) → Text → Text → Option Json → Exec W A
  unfolding request unpack
  typed schema method path json = do
    body ← request method path none json
    fields ← lift (unpack body)
    lift (schema fields)

  -- The operations that the agent calls.
  unfoldable pub pool_client : Schemas → Pool W
  unfolding typed payload_json ready_body
  pool_client schemas = record {
    register_worker = λ payload.
        typed schemas.worker (codes "POST") (codes "/v1/workers/register")
          (some (payload_json payload));
    get_worker_state = λ id.
        typed schemas.worker_state (codes "GET")
          (slashed (codes "/v1/workers/") id (codes "/state")) none;
    heartbeat = λ id.
        typed schemas.worker (codes "POST") (slashed (codes "/v1/workers/") id (codes "/heartbeat"))
          none;
    get_cluster_config = λ id.
        typed schemas.cluster_config (codes "GET")
          (slashed (codes "/v1/clusters/") id (codes "/config")) none;
    report_ready = λ id windows.
        typed schemas.cluster_status (codes "POST")
          (slashed (codes "/v1/clusters/") id (codes "/ready")) (some (ready_body windows));
    close = http.close;
  }
