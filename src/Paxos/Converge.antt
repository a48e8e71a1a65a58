-- ===== src/Paxos/Converge.antt =====
-- Gossip in both directions.
use weave.Base.{◌≡◌, refl, arith, Option, none, some}
use weave.Paxos.{NodeId, ProposalId, NodeClaims, Node, precedes, find, update_node}
use weave.Paxos.Gossip.{later, join_claims, join_known, IsMap, update_node_correct}

-- the proposals of some claims
unfoldable pub proposals : Option NodeClaims → Option (ProposalId × ProposalId)
proposals none = none
proposals (some c) = some (c.promise, c.accepted)

later_comm : (a b : ProposalId) → later a b ≡ later b a
unfolding later precedes
later_comm a b = ground arith

join_known_comm :
    (a b : Option NodeClaims) → proposals (join_known a b) ≡ proposals (join_known b a)
unfolding join_known join_claims proposals
join_known_comm none none = refl
join_known_comm none (some b) = refl
join_known_comm (some a) none = refl
join_known_comm (some a) (some b) =
    rw (later_comm a.promise b.promise, later_comm a.accepted b.accepted) refl

-- Two nodes that Update with what the other knew, as maps, know of every node id the same promise and
-- the same accepted proposal.
pub update_node_converge :
    (a b : Node) (k : NodeId)
    → IsMap a.knows
    → IsMap b.knows
    → proposals (find k (update_node a b.knows).0.knows)
      ≡ proposals (find k (update_node b a.knows).0.knows)
update_node_converge a b k d e =
    rw (update_node_correct a b.knows k e, update_node_correct b a.knows k d)
      (join_known_comm (find k a.knows) (find k b.knows))
