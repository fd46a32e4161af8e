-- ===== src/Prima/Env/Laws.antt =====
-- What the nodes of one cluster agree on (`build_env`).
use prima_pool_client.Base.{
  Text, ℕ, ◌≡◌, refl, sym, ◌∙◌, Error, Result, ok, err, codes, length, text_eq,
}
use prima_pool_client.Base.Decimal.{str}
use prima_pool_client.Base.Dict.{Dict, get_key}
use prima_pool_client.Config.{ClientConfig}
use prima_pool_client.Models.{ClusterConfig}
use prima_pool_client.Prima.Env.{build_env, env_of, launch_env}
use prima_pool_client.Ring.Laws.{ring_neighbors-master}
use prima_pool_client.Ring.{ring_members, ring_neighbors}

-- The variables that the launcher reads back are the ones that were put in.
pub get_key-build_env :
    (config : ClientConfig) (position world : ℕ) (master next : Text)
    → let env = build_env config position world master next in
      (get_key env (codes "RANK") ≡ ok (str position))
      × (get_key env (codes "WORLD") ≡ ok (str world))
      × (get_key env (codes "MASTER_IP") ≡ ok master)
      × (get_key env (codes "NEXT_IP") ≡ ok next)
unfolding build_env get_key text_eq
get_key-build_env config position world master next = (refl, refl, refl, refl)

env_of-inversion :
    (config : ClientConfig) (cluster : ClusterConfig) (i : ℕ) (r : Result (Text × Text))
    {env : Dict Text}
    → env_of config cluster i r ≡ ok env
    → (p : Text × Text) × (r ≡ ok p)
      × (env ≡ build_env config i (length (ring_members cluster)) p.0 p.1)
unfolding env_of
env_of-inversion config cluster i (ok p) h = (p, refl, cc)
env_of-inversion config cluster i (err e) h = cc

-- Two nodes of one cluster whose environments can be built agree on the size of the ring and on
-- its master, whatever their positions and configurations; each has its own position as rank.
pub launch_env-agree :
    (a b : ClientConfig) (cluster : ClusterConfig) (i j : ℕ) {env env' : Dict Text}
    → launch_env a cluster i ≡ ok env
    → launch_env b cluster j ≡ ok env'
    → (get_key env (codes "WORLD") ≡ get_key env' (codes "WORLD"))
      × (get_key env (codes "MASTER_IP") ≡ get_key env' (codes "MASTER_IP"))
      × (get_key env (codes "RANK") ≡ ok (str i))
      × (get_key env' (codes "RANK") ≡ ok (str j))
unfolding launch_env
launch_env-agree a b cluster i j h k =
    let (p, rp, ep) = env_of-inversion a cluster i (ring_neighbors cluster i) h in
    let (q, rq, eq) = env_of-inversion b cluster j (ring_neighbors cluster j) k in
    let same : ok p.0 ≡ ok q.0 =
      sym (ring_neighbors-master cluster i rp) ∙ ring_neighbors-master cluster j rq in
    let n : ℕ = length (ring_members cluster) in
    let (r1, w1, m1, _) = get_key-build_env a i n p.0 p.1 in
    let (r2, w2, m2, _) = get_key-build_env b j n q.0 q.1 in
    rw (ep, eq) (w1 ∙ sym w2, m1 ∙ same ∙ sym m2, r1, r2)

pub launch_env-ok :
    (config : ClientConfig) (cluster : ClusterConfig) (i : ℕ) {master next : Text}
    → ring_neighbors cluster i ≡ ok (master, next)
    → launch_env config cluster i
      ≡ ok (build_env config i (length (ring_members cluster)) master next)
unfolding launch_env
launch_env-ok config cluster i e = rw (e, launch_env)

pub launch_env-err :
    (config : ClientConfig) (cluster : ClusterConfig) (i : ℕ) {x : Error}
    → ring_neighbors cluster i ≡ err x
    → launch_env config cluster i ≡ err x
unfolding launch_env
launch_env-err config cluster i e = rw (e, launch_env)
