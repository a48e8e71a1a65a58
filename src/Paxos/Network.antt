-- ===== src/Paxos/Network.antt =====
-- ipam/paxos/paxos.go: a network of nodes that gossip. What a node has gossiped at some time may reach any
-- node at any later time, in any order, more than once or never. `log` is a history variable, which no
-- node reads: who has accepted what so far.
pub mod Invariant
pub mod Growth
pub mod Views
pub mod Hearing
pub mod Counting
pub mod Settling
pub mod Requesting
pub mod Thinking
pub mod Moving
pub mod Chosen
pub mod Agreement
pub mod Progress
pub mod Split
use weave.Base.{
  ℕ, Bool, true, false, ◌||◌, List, [], ◌∷◌, ◌==◌, if◌then◌else◌, Run, ok, err, panic, Option, none,
  some, get_elem?,
}
use weave.Paxos.{
  NodeId, ProposalId, AcceptedValue, NodeClaims, GossipState, Node, same_node, same, valid, find,
  put, update_node,
}
use weave.Paxos.Think.{our_claims, or_zero, think, propose}

pub record Vote : Type 0 where
  pub voter : NodeId
  pub proposal : ProposalId
  pub value : AcceptedValue

pub record Net : Type 0 where
  pub knows : NodeId → GossipState
  pub sent : List GossipState
  pub log : List Vote

abbrev pub start : Net
start = record { knows = λ i. []; sent = []; log = [] }

-- `hear n k`: the node is given the gossip at the place `k` of those sent so far
pub data Move : Type 0 where
  gossips thinks proposes : NodeId → Move
  hears : NodeId → ℕ → Move

abbrev pub mover : Move → NodeId
mover (gossips n) = n
mover (thinks n) = n
mover (proposes n) = n
mover (hears n k) = n

unfoldable pub set_view : NodeId → GossipState → (NodeId → GossipState) → NodeId → GossipState
unfolding same_node
set_view n m knows i = if same_node n i then m else knows i

-- what the node has accepted is written down, if that is a proposal
unfoldable pub record_vote : NodeId → NodeClaims → List Vote → List Vote
unfolding valid
record_vote n c log =
    if valid c.accepted
    then record { voter = n; proposal = c.accepted; value = c.accepted_val } ∷ log
    else log

unfoldable pub become : Node → Net → Net
unfolding set_view record_vote our_claims
become node s = record {
  knows = set_view node.id node.knows s.knows;
  sent = s.sent;
  log = record_vote node.id (our_claims node) s.log;
}

-- the claims that the node makes itself
unfoldable pub own : Net → NodeId → NodeClaims
unfolding find
own s i = or_zero (find i (s.knows i))

abbrev pub view : ℕ → Net → NodeId → Node
view quorum s n = record { id = n; quorum = quorum; knows = s.knows n }

unfoldable pub hear : ℕ → NodeId → Option GossipState → Net → Net
unfolding update_node set_view
hear quorum n none s = s
hear quorum n (some m) s = record s {
  knows = set_view n (update_node (view quorum s n) m).0.knows s.knows;
}

unfoldable pub proposed : Run Unit Node → Net → Net
unfolding become
proposed (ok node) s = become node s
proposed (err e) s = s
proposed panic s = s

unfoldable pub move : ℕ → Move → Net → Net
unfolding hear become think proposed propose
move quorum (gossips n) s = record s { sent = s.knows n ∷ s.sent }
move quorum (hears n k) s = hear quorum n (get_elem? s.sent k) s
move quorum (thinks n) s = become (think (view quorum s n)).0 s
move quorum (proposes n) s = proposed (propose (view quorum s n)) s

unfoldable pub run : ℕ → List Move → Net → Net
unfolding move
run quorum [] s = s
run quorum (m ∷ ms) s = run quorum ms (move quorum m s)
