-- ===== src/Ring/Laws.antt =====
-- Who is whose neighbour in the ring (`_ring_members`, `_ring_neighbors`).
use native.Mathlib.Nat.{mod-eq_of_lt, mod-lt, mod_self, mod-add-mod, add-mod-mod, add-mod_right}
use prima_pool_client.Base.{
  Text, ℕ, zero, suc, ◌+◌, ◌-◌, ◌%◌, ◌<◌, ◌≡◌, refl, sym, ap, ◌∙◌, true, some, List, [], ◌∷◌, ◌++◌,
  Result, ok, err, length, get_elem?, length-append, select, arith,
}
use prima_pool_client.Models.{PeerConfig, ClusterConfig, is_server}
use prima_pool_client.Ring.{ring_members, first_ip, next_idx, both, neighbors, ring_neighbors}

-- The cluster with other peers.
abbrev pub with_peers : ClusterConfig → List PeerConfig → ClusterConfig
with_peers c ps = record c { peers = ps }

ring_members-server :
    (c : ClusterConfig) (xs ys : List PeerConfig) (s : PeerConfig)
    → is_server s ≡ true
    → ring_members (with_peers c (xs ++ (s ∷ ys))) ≡ ring_members (with_peers c (xs ++ ys))
unfolding ring_members select
ring_members-server c [] ys s h = ground arith
ring_members-server c (x ∷ xs) ys s h = ground (arith, ring_members-server c xs ys s h)

neighbors-with_peers :
    (c : ClusterConfig) (ps qs ms : List PeerConfig) (i : ℕ)
    → neighbors (with_peers c ps) ms i ≡ neighbors (with_peers c qs) ms i
unfolding neighbors
neighbors-with_peers c ps qs [] i = refl
neighbors-with_peers c ps qs (m ∷ ms) i = refl

-- A server peer, wherever it stands in the configuration, changes neither the number of ring
-- members nor anybody's master and next address.
pub ring_neighbors-server :
    (c : ClusterConfig) (xs ys : List PeerConfig) (s : PeerConfig) (ring_position : ℕ)
    → is_server s ≡ true
    → (length (ring_members (with_peers c (xs ++ (s ∷ ys))))
        ≡ length (ring_members (with_peers c (xs ++ ys))))
      × (ring_neighbors (with_peers c (xs ++ (s ∷ ys))) ring_position
          ≡ ring_neighbors (with_peers c (xs ++ ys)) ring_position)
unfolding ring_neighbors
ring_neighbors-server c xs ys s i h = (
  ap length (ring_members-server c xs ys s h),
  rw (ring_members-server c xs ys s h) (
      neighbors-with_peers c (xs ++ (s ∷ ys)) (xs ++ ys) (ring_members (with_peers c (xs ++ ys)))
        i),
)

abbrev pub iterate : ℕ → (ℕ → ℕ) → ℕ → ℕ
iterate zero f n = n
iterate (suc k) f n = iterate k f (f n)

iterate-mod : (k n i : ℕ) → iterate k (next_idx n) (i % n) ≡ (i + k) % n
unfolding next_idx
iterate-mod zero n i = ap (λ (m : ℕ). m % n) (omega arith)
iterate-mod (suc k) n i =
    ap (iterate k (next_idx n)) (mod-add-mod i n 1)
    ∙ iterate-mod k n (i + 1)
    ∙ ap (λ (m : ℕ). m % n) (omega arith)

-- Following the next member from any position of a ring of n leads to every position j, in
-- fewer than n steps.
pub next_idx_reaches :
    (n i j : ℕ) → i < n → j < n → (k : ℕ) × (k < n) × (iterate k (next_idx n) i ≡ j)
next_idx_reaches n i j hi hj = (
  (j + (n - i)) % n,
  mod-lt (j + (n - i)) (omega arith),
  ap (iterate ((j + (n - i)) % n) (next_idx n)) (sym (mod-eq_of_lt hi))
      ∙ iterate-mod ((j + (n - i)) % n) n i
      ∙ add-mod-mod i (j + (n - i)) n
      ∙ ap (λ (m : ℕ). m % n) (omega arith)
      ∙ add-mod_right j n
      ∙ mod-eq_of_lt hj,
)

get_elem?-append :
    (xs ys : List PeerConfig) (a : PeerConfig) → get_elem? (xs ++ (a ∷ ys)) (length xs) ≡ some a
get_elem?-append [] ys a = refl
get_elem?-append (x ∷ xs) ys a = get_elem?-append xs ys a

neighbors_lem :
    (c : ClusterConfig) (ms xs ys : List PeerConfig) (a : PeerConfig) (i : ℕ)
    → ms ≡ xs ++ (a ∷ ys)
    → neighbors c ms i
      ≡ both (first_ip (get_elem? ms 0)) (first_ip (get_elem? ms (next_idx (length ms) i)))
unfolding neighbors
neighbors_lem c [] [] ys a i e = cc
neighbors_lem c [] (x ∷ xs) ys a i e = cc
neighbors_lem c (m ∷ ms) xs ys a i e = refl

both-eq-ok : (r s : Result Text) {master next : Text} → both r s ≡ ok (master, next) → r ≡ ok master
both-eq-ok (ok a) (ok b) h = cc
both-eq-ok (ok a) (err e) h = cc
both-eq-ok (err e) s h = cc

neighbors-master :
    (c : ClusterConfig) (ms : List PeerConfig) (i : ℕ) {master next : Text}
    → neighbors c ms i ≡ ok (master, next)
    → first_ip (get_elem? ms 0) ≡ ok master
unfolding neighbors
neighbors-master c [] i h = cc
neighbors-master c (m ∷ ms) i h = both-eq-ok (first_ip (some m)) _ h

-- The master's address is the first member's, from every position.
pub ring_neighbors-master :
    (c : ClusterConfig) (i : ℕ) {master next : Text}
    → ring_neighbors c i ≡ ok (master, next)
    → first_ip (get_elem? (ring_members c) 0) ≡ ok master
unfolding ring_neighbors
ring_neighbors-master c i h = neighbors-master c (ring_members c) i h

next_idx-between :
    (xs ys : List PeerConfig) (a b : PeerConfig)
    → next_idx (length (xs ++ (a ∷ b ∷ ys))) (length xs) ≡ length xs + 1
unfolding next_idx
next_idx-between xs ys a b = rw length-append (mod-eq_of_lt (omega arith))

next_idx-last :
    (xs : List PeerConfig) (a : PeerConfig) → next_idx (length (xs ++ (a ∷ []))) (length xs) ≡ 0
unfolding next_idx
next_idx-last xs a = rw length-append (mod_self (length xs + 1))

get_elem?-append_second :
    (xs ys : List PeerConfig) (a b : PeerConfig)
    → get_elem? (xs ++ (a ∷ b ∷ ys)) (length xs + 1) ≡ some b
get_elem?-append_second [] ys a b = refl
get_elem?-append_second (x ∷ xs) ys a b =
    let e : suc (length xs) + 1 ≡ suc (length xs + 1) = omega arith in
    ap (get_elem? (x ∷ (xs ++ (a ∷ b ∷ ys)))) e ∙ get_elem?-append_second xs ys a b

-- The master's address is the first member's, and the next address is that of the member right
-- behind one's own.
pub ring_neighbors-between :
    (c : ClusterConfig) (xs ys : List PeerConfig) (a b : PeerConfig)
    → ring_members c ≡ xs ++ (a ∷ b ∷ ys)
    → ring_neighbors c (length xs)
      ≡ both (first_ip (get_elem? (ring_members c) 0)) (first_ip (some b))
unfolding ring_neighbors
ring_neighbors-between c xs ys a b e =
    neighbors_lem c (ring_members c) xs (b ∷ ys) a (length xs) e
    ∙ ap (λ o. both (first_ip (get_elem? (ring_members c) 0)) (first_ip o))
        (ap (λ ms. get_elem? ms (next_idx (length ms) (length xs))) e
          ∙ ap (get_elem? (xs ++ (a ∷ b ∷ ys))) (next_idx-between xs ys a b)
          ∙ get_elem?-append_second xs ys a b)

-- Behind the last member comes the first.
pub ring_neighbors-wraps :
    (c : ClusterConfig) (xs : List PeerConfig) (a : PeerConfig)
    → ring_members c ≡ xs ++ (a ∷ [])
    → ring_neighbors c (length xs)
      ≡ both (first_ip (get_elem? (ring_members c) 0)) (first_ip (get_elem? (ring_members c) 0))
unfolding ring_neighbors
ring_neighbors-wraps c xs a e =
    neighbors_lem c (ring_members c) xs [] a (length xs) e
    ∙ ap (λ o. both (first_ip (get_elem? (ring_members c) 0)) (first_ip o))
        (ap (λ ms. get_elem? ms (next_idx (length ms) (length xs))) e
          ∙ ap (get_elem? (xs ++ (a ∷ []))) (next_idx-last xs a)
          ∙ ap (λ ms. get_elem? ms 0) (sym e))

both-same : (r : Result Text) {master next : Text} → both r r ≡ ok (master, next) → next ≡ master
both-same (ok a) h = cc
both-same (err e) h = cc

-- Behind the last member comes the first: its next address is the master's.
pub ring_neighbors-last :
    (c : ClusterConfig) (xs : List PeerConfig) (a : PeerConfig) {master next : Text}
    → ring_members c ≡ xs ++ (a ∷ [])
    → ring_neighbors c (length xs) ≡ ok (master, next)
    → next ≡ master
ring_neighbors-last c xs a e h =
    both-same (first_ip (get_elem? (ring_members c) 0)) (sym (ring_neighbors-wraps c xs a e) ∙ h)
