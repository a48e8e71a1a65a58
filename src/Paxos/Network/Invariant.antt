-- ===== src/Paxos/Network/Invariant.antt =====
-- What is true of every network of nodes that follow the code: who may have accepted what.
use weave.Base.{ℕ, ◌+◌, ◌≤◌, ◌≡◌, Bool, true, false, List, [], ◌∷◌, ◌⊎◌, if◌then◌else◌, arith, All}
use weave.Paxos.{
  NodeId, ProposalId, AcceptedValue, NodeClaims, GossipState, no_proposal, same_node, precedes,
  valid,
}
use weave.Paxos.Gossip.{IsMap}
use weave.Paxos.Network.{Vote, Net, own}
use weave.Paxos.Order.{precedes_connected}

-- a proposal is at or before another one
abbrev pub AtMost : ProposalId → ProposalId → Type 0
AtMost p r = precedes r p ≡ false

pub AtMost_refl : (p : ProposalId) → AtMost p p
unfolding precedes
AtMost_refl p = ground arith

pub AtMost_trans : (p r t : ProposalId) → AtMost p r → AtMost r t → AtMost p t
unfolding precedes
AtMost_trans p r t h k = ground arith

pub precedes-AtMost : (p r : ProposalId) → precedes p r ≡ true → AtMost p r
unfolding precedes
precedes-AtMost p r h = ground arith

pub AtMost_antisymm : (p r : ProposalId) → AtMost p r → AtMost r p → p ≡ r
AtMost_antisymm p r h k = precedes_connected p r k h

pub AtMost-no_proposal : (p : ProposalId) → AtMost no_proposal p
unfolding precedes
AtMost-no_proposal p = ground arith

-- the vote is in the log
abbrev pub Cast : Vote → List Vote → Type 0
Cast w [] = ⊥
Cast w (x ∷ log) = (x ≡ w) ⊎ Cast w log

abbrev pub vote : NodeId → ProposalId → AcceptedValue → Vote
vote n p v = record { voter = n; proposal = p; value = v }

unfoldable pub is_member : NodeId → List NodeId → Bool
unfolding same_node
is_member i [] = false
is_member i (j ∷ js) = if same_node j i then true else is_member i js

-- how many of the nodes are on the side
unfoldable pub tally : (NodeId → Bool) → List NodeId → ℕ
tally side [] = 0
tally side (i ∷ is) = (if side i then 1 else 0) + tally side is

module _ (members : List NodeId) (quorum : ℕ) where
  -- what is true of the claims of a node that anybody may know of, after `k` moves: none of its votes lies
  -- after what it had accepted and before what it had promised
  pub record Known (k : ℕ) (s : Net) (i : NodeId) (c : NodeClaims) : Type 0 where
    pub member : is_member i members ≡ true
    pub promised : AtMost c.promise (own s i).promise
    pub issued : AtMost c.promise (own s c.promise.proposer).promise
    pub real : valid c.promise ≡ false → c.promise ≡ no_proposal
    pub ordered : AtMost c.accepted c.promise
    pub bounded : c.promise.round ≤ k
    pub voted : (c.accepted ≡ no_proposal) ⊎ Cast (vote i c.accepted c.accepted_val) s.log
    pub kept :
        (w : Vote)
        → Cast w s.log
        → w.voter ≡ i
        → AtMost w.proposal c.accepted ⊎ AtMost c.promise w.proposal

  abbrev pub AllKnown : ℕ → Net → GossipState → Type 0
  AllKnown k s m = IsMap m × All (λ (e : NodeId × NodeClaims). Known k s e.0 e.1) m

  -- a quorum has promised the proposal, and what it had accepted at the latest before is the value
  pub record Grounded (s : Net) (p : ProposalId) (v : AcceptedValue) : Type 0 where
    pub side : NodeId → Bool
    pub base : ProposalId
    pub enough : quorum ≤ tally side members
    pub promised : (j : NodeId) → side j ≡ true → AtMost p (own s j).promise
    pub below : precedes base p ≡ true
    pub based :
        (base ≡ no_proposal) ⊎ ((w : Vote) × Cast w s.log × (w.proposal ≡ base) × (w.value ≡ v))
    pub silent :
        (w : Vote)
        → Cast w s.log
        → side w.voter ≡ true
        → AtMost w.proposal base ⊎ AtMost p w.proposal

  -- what is true of a vote
  pub record Honest (s : Net) (w : Vote) : Type 0 where
    pub real : valid w.proposal ≡ true
    pub accepted : AtMost w.proposal (own s w.voter).accepted
    pub first :
        (x : Vote) × Cast x s.log × (x.voter ≡ w.proposal.proposer) × (x.proposal ≡ w.proposal)
    pub grounded : Grounded s w.proposal w.value

  pub record IsSafe (k : ℕ) (s : Net) : Type 0 where
    pub views : (i : NodeId) → AllKnown k s (s.knows i)
    pub sent : All (AllKnown k s) s.sent
    pub honest : (w : Vote) → Cast w s.log → Honest s w
    pub unique :
        (w x : Vote) → Cast w s.log → Cast x s.log → w.proposal ≡ x.proposal → w.value ≡ x.value
