-- ===== src/Paxos.antt =====
-- ipam/paxos/paxos.go: the peers agree on who seeds the ring. All messages are gossip: a node holds what
-- it knows of every node's claims, and merges what it hears.
-- The map GossipState is an association list; Go's loops over it, in any order, are loops over the
-- list. Names and UIDs are numbers, and `uint` is taken to have 64 bits.
pub mod Order
pub mod Gossip
pub mod Think
pub mod Converge
pub mod Agreement
pub mod Network
use weave.Base.{
  ℕ, Bool, true, false, not, ◌&&◌, ◌||◌, List, [], ◌∷◌, ltb, ◌==◌, if◌then◌else◌, Option, none,
  some,
}

pub record NodeId : Type 0 where
  pub name : ℕ
  pub uid : ℕ

pub record ProposalId : Type 0 where
  pub round : ℕ
  pub proposer : NodeId

unfoldable pub same_node : NodeId → NodeId → Bool
same_node a b = a.name == b.name && a.uid == b.uid

-- `==` on proposals
unfoldable pub same : ProposalId → ProposalId → Bool
unfolding same_node
same a b = a.round == b.round && same_node a.proposer b.proposer

unfoldable pub precedes : ProposalId → ProposalId → Bool
precedes a b =
    if not (a.round == b.round)
    then ltb a.round b.round
    else if not (a.proposer.name == b.proposer.name)
    then ltb a.proposer.name b.proposer.name
    else if not (a.proposer.uid == b.proposer.uid)
    then ltb a.proposer.uid b.proposer.uid
    else false

unfoldable pub valid : ProposalId → Bool
valid a = ltb 0 a.round

pub record AcceptedValue : Type 0 where
  pub value : List ℕ
  pub origin : ProposalId

pub record NodeClaims : Type 0 where
  pub promise : ProposalId
  pub accepted : ProposalId
  pub accepted_val : AcceptedValue

unfoldable pub equals : NodeClaims → NodeClaims → Bool
unfolding same
equals a b =
    same a.promise b.promise
    && (same a.accepted b.accepted && same a.accepted_val.origin b.accepted_val.origin)

-- the zero values
abbrev pub no_proposal : ProposalId
no_proposal = record { round = 0; proposer = record { name = 0; uid = 0 } }

abbrev pub no_value : AcceptedValue
no_value = record { value = []; origin = no_proposal }

abbrev pub no_claims : NodeClaims
no_claims = record { promise = no_proposal; accepted = no_proposal; accepted_val = no_value }

abbrev pub GossipState : Type 0
GossipState = List (NodeId × NodeClaims)

pub record Node : Type 0 where
  pub id : NodeId
  pub quorum : ℕ
  pub knows : GossipState

unfoldable pub new_node : ℕ → ℕ → ℕ → Node
new_node n u quorum = record { id = record { name = n; uid = u }; quorum = quorum; knows = [] }

unfoldable pub set_quorum : Node → ℕ → Node
set_quorum node quorum = record node { quorum = quorum }

-- `m[i]` and `m[i] = c`
unfoldable pub find : NodeId → GossipState → Option NodeClaims
unfolding same_node
find i [] = none
find i ((j, c) ∷ m) = if same_node j i then some c else find i m

unfoldable pub put : NodeId → NodeClaims → GossipState → GossipState
unfolding same_node
put i c [] = (i, c) ∷ []
put i c ((j, d) ∷ m) = if same_node j i then (j, c) ∷ m else (j, d) ∷ put i c m

-- what the loop of Update makes of the claims that we know, and whether they changed
unfoldable pub learn : Option NodeClaims → NodeClaims → NodeClaims × Bool
unfolding precedes
learn none theirs = (theirs, true)
learn (some ours) theirs =
    let newer = precedes ours.promise theirs.promise in
    let later = precedes ours.accepted theirs.accepted in
    (
      record {
        promise = if newer then theirs.promise else ours.promise;
        accepted = if later then theirs.accepted else ours.accepted;
        accepted_val = if later then theirs.accepted_val else ours.accepted_val;
      },
      newer || later,
    )

-- the loop of Update
unfoldable pub learn_all : GossipState → GossipState → GossipState × Bool
unfolding learn put find
learn_all knows [] = (knows, false)
learn_all knows ((i, theirs) ∷ from) =
    let (claims, changed) = learn (find i knows) theirs in
    let (knows', more) = learn_all (put i claims knows) from in (knows', changed || more)

unfoldable pub update_node : Node → GossipState → Node × Bool
unfolding learn_all
update_node node from =
    let (knows, changed) = learn_all node.knows from in (record node { knows = knows }, changed)
