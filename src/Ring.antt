-- ===== src/Ring.antt =====
-- The prima.cpp ring of src/prima_pool_client/prima.py: `_ring_members` and `_ring_neighbors`.
pub mod Laws
use prima_pool_client.Base.{
  Text, ℕ, suc, ◌+◌, ◌%◌, not, Option, none, some, List, [], ◌∷◌, Result, ok, err, value_error,
  index_error, length, get_elem?, get_or, select, split_on, codes, ◌++◌,
}
use prima_pool_client.Models.{PeerConfig, ClusterConfig, is_server}

-- `[p for p in cluster.peers if p.role != "server"]`
unfoldable pub ring_members : ClusterConfig → List PeerConfig
unfolding is_server
ring_members cluster = select (λ p. not (is_server p)) cluster.peers

-- `ip.split("/")[0]`; `split` returns at least one part.
unfoldable pub host_of : Text → Text
host_of ip = get_or (split_on b'/' ip) 0 []

-- `members[i].allowed_ips[0].split("/")[0]`, or an `IndexError`.
unfoldable pub first_ip : Option PeerConfig → Result Text
unfolding host_of
first_ip none = err (index_error (codes "list index out of range"))
first_ip (some p) = elim p.allowed_ips [
  | [] ↦ err (index_error (codes "list index out of range"))
  | ip ∷ ips ↦ ok (host_of ip)
]

-- The index of the next member, for a ring that is not empty.
unfoldable pub next_idx : ℕ → ℕ → ℕ
next_idx n ring_position = (ring_position + 1) % n

abbrev pub both : Result Text → Result Text → Result (Text × Text)
both (ok a) (ok b) = ok (a, b)
both (ok a) (err e) = err e
both (err e) b = err e

-- Master and next, in this order; the ring must have a member.
neighbors : ClusterConfig → List PeerConfig → ℕ → Result (Text × Text)
neighbors cluster [] ring_position =
    err (value_error (codes "cluster " ++ (cluster.cluster_id ++ codes " has no ring members")))
neighbors cluster (p ∷ ps) ring_position =
    both (first_ip (get_elem? (p ∷ ps) 0))
      (first_ip (get_elem? (p ∷ ps) (next_idx (length (p ∷ ps)) ring_position)))

-- `_ring_neighbors`: the head's address and the next member's.
unfoldable pub ring_neighbors : ClusterConfig → ℕ → Result (Text × Text)
unfolding neighbors
ring_neighbors cluster ring_position = neighbors cluster (ring_members cluster) ring_position
