-- ===== src/Paxos/Order.antt =====
-- The order of proposals.
use weave.Base.{◌≡◌, true, false, arith}
use weave.Paxos.{NodeId, ProposalId, precedes, same, same_node}

pub same-eq : (a b : ProposalId) → same a b ≡ true → a ≡ b
unfolding same
same-eq a b h = ground arith

pub same_node-eq : (a b : NodeId) → same_node a b ≡ true → a ≡ b
unfolding same_node
same_node-eq a b h = ground arith

pub same_node_self : (a : NodeId) → same_node a a ≡ true
unfolding same_node
same_node_self a = ground arith

-- No proposal precedes itself.
pub precedes_irrefl : (a : ProposalId) → precedes a a ≡ false
unfolding precedes
precedes_irrefl a = ground arith

pub precedes_trans :
    (a b c : ProposalId) → precedes a b ≡ true → precedes b c ≡ true → precedes a c ≡ true
unfolding precedes
precedes_trans a b c h k = ground arith

pub precedes_connected : (a b : ProposalId) → precedes a b ≡ false → precedes b a ≡ false → a ≡ b
unfolding precedes
precedes_connected a b h k = ground arith

pub same_self : (p : ProposalId) → same p p ≡ true
unfolding same
same_self p = ground arith
