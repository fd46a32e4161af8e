-- ===== src/Agent/Cluster/Position.antt =====
-- Where a worker finds itself in the ring (`_find_ring_position`).
use prima_pool_client.Base.{
  Text, ℕ, suc, ◌+◌, ◌≡◌, refl, ap, ◌∙◌, true, false, Option, some, List, [], ◌∷◌, ◌++◌, length,
  get_elem?, arith,
}
use prima_pool_client.Agent.Cluster.{owns_ip, position_from, find_ring_position}
use prima_pool_client.Models.{PeerConfig, ClusterConfig}
use prima_pool_client.Ring.{ring_members, ring_neighbors, first_ip, both}
use prima_pool_client.Ring.Laws.{ring_neighbors-between, ring_neighbors-wraps}

-- No member of the list has the address.
abbrev pub NoneOwns : Option Text → List PeerConfig → Type 0
NoneOwns ip [] = Unit
NoneOwns ip (p ∷ ps) = (owns_ip ip p.allowed_ips ≡ false) × NoneOwns ip ps

position_from-first :
    (ip : Option Text) (i : ℕ) (xs ys : List PeerConfig) (p : PeerConfig)
    → NoneOwns ip xs
    → owns_ip ip p.allowed_ips ≡ true
    → position_from ip i (xs ++ (p ∷ ys)) ≡ i + length xs
unfolding position_from
position_from-first ip i [] ys p others own = rw own (omega arith)
position_from-first ip i (x ∷ xs) ys p (other, others) own =
    rw other (position_from-first ip (suc i) xs ys p others own ∙ omega arith)

position_from-nobody :
    (ip : Option Text) (i : ℕ) (xs : List PeerConfig) → NoneOwns ip xs → position_from ip i xs ≡ 0
unfolding position_from
position_from-nobody ip i [] others = refl
position_from-nobody ip i (x ∷ xs) (other, others) =
    rw other (position_from-nobody ip (suc i) xs others)

-- The member behind a place of the ring: the next one, and behind the last the first.
abbrev pub behind : List PeerConfig → PeerConfig → List PeerConfig → PeerConfig
behind xs p (b ∷ ys) = b
behind [] p [] = p
behind (x ∷ xs) p [] = x

neighbors_of :
    (c : ClusterConfig) (xs ys : List PeerConfig) (p : PeerConfig)
    → ring_members c ≡ xs ++ (p ∷ ys)
    → ring_neighbors c (length xs)
      ≡ both (first_ip (get_elem? (ring_members c) 0)) (first_ip (some (behind xs p ys)))
neighbors_of c xs (b ∷ ys) p ring = ring_neighbors-between c xs ys p b ring
neighbors_of c [] [] p ring =
    ring_neighbors-wraps c [] p ring
    ∙ ap (λ o. both (first_ip (get_elem? (ring_members c) 0)) (first_ip o))
        (ap (λ ms. get_elem? ms 0) ring)
neighbors_of c (x ∷ xs) [] p ring =
    ring_neighbors-wraps c (x ∷ xs) p ring
    ∙ ap (λ o. both (first_ip (get_elem? (ring_members c) 0)) (first_ip o))
        (ap (λ ms. get_elem? ms 0) ring)

-- A worker's position is the number of members in front of the first one that has its address,
-- wherever that one stands. With the neighbours of that position the worker talks to the first
-- member as master and to the member right behind its own, which for the last is the first.
pub find_ring_position-neighbors :
    (ip : Option Text) (c : ClusterConfig) (xs ys : List PeerConfig) (p : PeerConfig)
    → ring_members c ≡ xs ++ (p ∷ ys)
    → NoneOwns ip xs
    → owns_ip ip p.allowed_ips ≡ true
    → (find_ring_position ip c ≡ length xs)
      × (ring_neighbors c (find_ring_position ip c)
          ≡ both (first_ip (get_elem? (ring_members c) 0)) (first_ip (some (behind xs p ys))))
unfolding find_ring_position
find_ring_position-neighbors ip c xs ys p ring others own =
    let found : find_ring_position ip c ≡ length xs =
      ap (position_from ip 0) ring ∙ position_from-first ip 0 xs ys p others own ∙ omega arith in
    (found, ap (ring_neighbors c) found ∙ neighbors_of c xs ys p ring)

-- A worker whose address no member has takes itself for the head.
pub find_ring_position-nobody :
    (ip : Option Text) (c : ClusterConfig)
    → NoneOwns ip (ring_members c)
    → find_ring_position ip c ≡ 0
unfolding find_ring_position
find_ring_position-nobody ip c others = position_from-nobody ip 0 (ring_members c) others
