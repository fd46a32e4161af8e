-- ===== src/Rest/Laws.antt =====
-- What comes of a response, and what is sent.
use prima_pool_client.Base.{
  Text, ℕ, [], ◌∷◌, pool_error, other_error, leb, ◌==◌, ◌≤◌, ◌<◌, ◌≡◌, ◌≢◌, refl, sym, ap, ◌∙◌, ◌⊎◌,
  inl, inr, true, false, Bool-cases, Option, Option-cases, none, some, codes, Error, Result, ok,
  err, Result-cases, value_error, ◌>>=◌, lift, arith, continue, continue-eq-ok,
}
use prima_pool_client.Base.Json.{Json, Fields, null, bool, num, str, arr, obj, fields_of}
use prima_pool_client.Rest.{
  Response, Http, Client, problem_error, problem_of, plain_problem, json_of, answer, unpack,
  request_for, request, typed,
}

-- What a response stands for: a problem, nothing, or a body.
-- A problem, which is an object or not.
abbrev pub Raises : ℕ → Json → Result (Option Json) → Type 0
Raises status problem r =
    ((fields : Fields) × (problem ≡ obj fields) × (r ≡ err (pool_error status (obj fields))))
    ⊎ ((¬ ((fields : Fields) × (problem ≡ obj fields)))
        × (r ≡ err (other_error (codes "the problem has no attribute 'get'"))))

abbrev pub Refused : Response → Result (Option Json) → Type 0
Refused resp r =
    (400 ≤ resp.status_code)
    × ((problem : Json) × Raises resp.status_code problem r
        × ((resp.json ≡ some problem)
            ⊎ ((resp.json ≡ none)
                × (problem
                    ≡ obj (
                        fields_of (
                          (codes "title", str resp.text)
                          ∷ (codes "status", num resp.status_code)
                          ∷ []))))))

abbrev pub Empty : Response → Result (Option Json) → Type 0
Empty resp r =
    (resp.status_code < 400)
    × ((resp.status_code ≡ 204) ⊎ (resp.has_content ≡ false))
    × (r ≡ ok none)

abbrev pub HasBody : Response → Result (Option Json) → Type 0
HasBody resp r =
    (resp.status_code < 400)
    × (resp.status_code ≢ 204)
    × (resp.has_content ≡ true)
    × (((v : Json) × (resp.json ≡ some v) × (r ≡ ok (some v)))
        ⊎ ((resp.json ≡ none) × (r ≡ err (value_error (codes "no JSON")))))

abbrev pub Answered : Response → Result (Option Json) → Type 0
Answered resp r = Refused resp r ⊎ (Empty resp r ⊎ HasBody resp r)

problem_of-cases :
    (resp : Response)
    → (resp.json ≡ some (problem_of resp))
      ⊎ ((resp.json ≡ none)
          × (problem_of resp
              ≡ obj (
                  fields_of (
                    (codes "title", str resp.text) ∷ (codes "status", num resp.status_code) ∷ []))))
unfolding problem_of plain_problem
problem_of-cases resp = elim (Option-cases resp.json) [
  | inl e ↦ inr (e, rw (e, problem_of) refl)
  | inr (v, e) ↦ inl (rw (e, problem_of) refl)
]

problem_error-Raises :
    (status : ℕ) (problem : Json) → Raises status problem (err (problem_error status problem))
unfolding problem_error
problem_error-Raises status (obj fields) = inl (fields, refl, refl)
problem_error-Raises status null = inr (λ (fields, e). absurd cc, refl)
problem_error-Raises status (bool b) = inr (λ (fields, e). absurd cc, refl)
problem_error-Raises status (num n) = inr (λ (fields, e). absurd cc, refl)
problem_error-Raises status (str t) = inr (λ (fields, e). absurd cc, refl)
problem_error-Raises status (arr items) = inr (λ (fields, e). absurd cc, refl)

answer-Answered : (resp : Response) → Answered resp (answer resp)
unfolding answer json_of
answer-Answered resp = elim (Bool-cases (leb 400 resp.status_code)) [
  | inl refused ↦ inl (
    ground arith,
    (
      problem_of resp,
      rw refused (problem_error-Raises resp.status_code (problem_of resp)),
      problem_of-cases resp,
    ),
  )
  | inr fine ↦ elim (Bool-cases (resp.status_code == 204)) [
    | inl no_content ↦ inr (inl (ground arith, inl (ground arith), rw (fine, no_content) refl))
    | inr other ↦ elim (Bool-cases resp.has_content) [
      | inr empty ↦ inr (inl (ground arith, inr empty, rw (fine, other, empty) refl))
      | inl content ↦ inr (
          inr (
            ground arith,
            ground arith,
            content,
            elim (Option-cases resp.json) [
              | inl none_there ↦ inr (none_there, rw (fine, other, content, none_there) refl)
              | inr (v, there) ↦ inl (v, there, rw (fine, other, content, there) refl)
            ],
          ))
    ]
  ]
]

Answered-eq-some :
    (resp : Response) (r : Result (Option Json)) {v : Json}
    → Answered resp r
    → r ≡ ok (some v)
    → (resp.status_code < 400) × (resp.json ≡ some v)
Answered-eq-some resp r (inl (high, (problem, inl (fields, is, raised), from))) h = cc
Answered-eq-some resp r (inl (high, (problem, inr (no_object, raised), from))) h = cc
Answered-eq-some resp r (inr (inl (low, empty, nothing))) h = cc
Answered-eq-some resp r (inr (inr (low, other, content, inl (v, has, value)))) h = (low, cc)
Answered-eq-some resp r (inr (inr (low, other, content, inr (no_json, raised)))) h = cc

module _ {W : Type 0} (http : Http W) (client : Client) where
  -- A request is one exchange, whatever comes of it. Where the exchange fails its error is passed
  -- on. A response with a status from 400 on has a problem, its JSON or else its text and status: a
  -- problem that is an object raises a PoolError with the status and the problem, and any other one
  -- an AttributeError. Every other response, one with a status from 300 to 399 included, is nothing
  -- if its status is 204 or it is empty, and else its JSON, or an error if it has none.
  pub request-Answered :
      (method path : Text) (bearer : Option Text) (json : Option Json) (w : W)
      → let call = http.request (request_for client method path bearer json) w in
        (r : Result (Option Json)) × (request http client method path bearer json w ≡ (r, call.1))
        × (((e : Error) × (call.0 ≡ err e) × (r ≡ err e))
            ⊎ ((resp : Response) × (call.0 ≡ ok resp) × Answered resp r))
  unfolding request
  request-Answered method path bearer json w =
      let call = http.request (request_for client method path bearer json) w in
      let answered : Result Response → Result (Option Json) × W =
        λ q. continue (λ resp v. (answer resp, v)) (q, call.1) in
      elim (Result-cases call.0) [
        | inr (e, failed) ↦ (err e, ap answered failed, inl (e, failed, refl))
        | inl (resp, came) ↦ (answer resp, ap answered came, inr (resp, came, answer-Answered resp))
      ]

  unpack-eq-ok :
      (body : Option Json) {fields : Fields} → unpack body ≡ ok fields → body ≡ some (obj fields)
  unfolding unpack
  unpack-eq-ok none h = cc
  unpack-eq-ok (some null) h = cc
  unpack-eq-ok (some (bool b)) h = cc
  unpack-eq-ok (some (num n)) h = cc
  unpack-eq-ok (some (str t)) h = cc
  unpack-eq-ok (some (arr items)) h = cc
  unpack-eq-ok (some (obj fields)) h = cc

  -- An operation whose answer is made into a schema gives a value only for a response with a status
  -- below 400 whose JSON is an object of that schema: never for a refusal, an empty response or
  -- one that is no JSON.
  pub typed-eq-ok :
      {A : Type 0} (schema : Fields → Result A) (method path : Text) (json : Option Json) (w : W)
      {a : A} {w' : W}
      → typed http client schema method path json w ≡ (ok a, w')
      → (resp : Response) × (fields : Fields) × (http.request
            (request_for client method path none json)
            w
          ≡ (ok resp, w'))
        × (resp.status_code < 400)
        × (resp.json ≡ some (obj fields))
        × (schema fields ≡ ok a)
  unfolding typed
  typed-eq-ok schema method path json w {w' = w'} h =
      let call = http.request (request_for client method path none json) w in
      let (body, got, h') = continue-eq-ok _ (request http client method path none json w).0 _ h in
      let (fields, unpacked, h'') = continue-eq-ok _ (unpack body) _ h' in
      let (r, exchange, came) = request-Answered method path none json w in
      let value : r ≡ ok (some (obj fields)) =
        sym (ap (λ q. q.0) exchange) ∙ got ∙ ap ok (unpack-eq-ok body unpacked) in
      let end_world : call.1 ≡ w' = sym (ap (λ q. q.1) exchange) ∙ ap (λ q. q.1) h'' in
      elim came [
        | inl (e, failed, raised) ↦ cc
        | inr (resp, there, answered) ↦
            let (low, has) = Answered-eq-some resp r answered value in
            (resp, fields, λ i. (there i, end_world i), low, has, ap (λ q. q.0) h'')
      ]

  request_lem :
      (method path : Text) (bearer : Option Text) (json : Option Json) {w w' : W} (resp : Response)
      → http.request (request_for client method path bearer json) w ≡ (ok resp, w')
      → request http client method path bearer json w ≡ (answer resp, w')
  unfolding request
  request_lem method path bearer json resp came = ap (continue (λ q v. (answer q, v))) came

  -- An operation whose request is refused raises.
  pub typed_refused :
      {A : Type 0} (schema : Fields → Result A) (method path : Text) (json : Option Json) {w w' : W}
      (resp : Response)
      → http.request (request_for client method path none json) w ≡ (ok resp, w')
      → 400 ≤ resp.status_code
      → typed http client schema method path json w
        ≡ (err (problem_error resp.status_code (problem_of resp)), w')
  unfolding typed answer
  typed_refused {A = A} schema method path json {w} {w'} resp came high =
      let refused : leb 400 resp.status_code ≡ true = ground arith in
      let raised : answer resp ≡ err (problem_error resp.status_code (problem_of resp)) =
        rw refused refl in
      let rest : Result (Option Json) × W → Result A × W =
        continue (λ body. ◌>>=◌ (lift (unpack body)) (λ fields. lift (schema fields))) in
      ap rest (request_lem method path none json resp came) ∙ ap (λ q. rest (q, w')) raised

  -- An operation whose request is answered with an object of its schema returns it.
  pub typed_answered :
      {A : Type 0} (schema : Fields → Result A) (method path : Text) (json : Option Json) {w w' : W}
      (resp : Response) {fields : Fields} {a : A}
      → http.request (request_for client method path none json) w ≡ (ok resp, w')
      → resp.status_code < 400
      → resp.status_code ≢ 204
      → resp.has_content ≡ true
      → resp.json ≡ some (obj fields)
      → schema fields ≡ ok a
      → typed http client schema method path json w ≡ (ok a, w')
  unfolding typed answer json_of unpack
  typed_answered {A = A} schema method path json {w} {w'} resp {fields} came low other content has
        made =
      let fine : leb 400 resp.status_code ≡ false = ground arith in
      let not_empty : (resp.status_code == 204) ≡ false = ground arith in
      let body : answer resp ≡ ok (some (obj fields)) = rw (fine, not_empty, content, has) refl in
      let rest : Result (Option Json) × W → Result A × W =
        continue (λ body. ◌>>=◌ (lift (unpack body)) (λ fields. lift (schema fields))) in
      ap rest (request_lem method path none json resp came)
      ∙ ap (λ q. rest (q, w')) body
      ∙ ap (λ q. (q, w')) made
