-- ===== src/Tests/Proposals.antt =====
-- ipam/paxos at concrete nodes.
use weave.Base.{ℕ, ◌≡◌, refl, true, false, [], ◌∷◌, none, ok, panic}
use weave.Paxos.{
  NodeId, ProposalId, NodeClaims, GossipState, Node, find, update_node, no_claims, no_value,
  new_node, precedes,
}
use weave.Paxos.Agreement.{IsHighest, Decides, think_correct, consensus_correct}
use weave.Paxos.Gossip.{join_known, update_node_correct}
use weave.Paxos.Think.{our_claims, propose, think, consensus}

abbrev peer : ℕ → NodeId
peer n = record { name = n; uid = 0 }

abbrev by : ℕ → ℕ → ProposalId
by round n = record { round = round; proposer = peer n }

abbrev promised : ℕ → ℕ → NodeClaims
promised round n = record no_claims { promise = by round n }

abbrev accepted : ℕ → ℕ → NodeClaims
accepted round n = record {
  promise = by round n;
  accepted = by round n;
  accepted_val = record { value = 1 ∷ 2 ∷ []; origin = by round n };
}

abbrev node_with : ℕ → GossipState → Node
node_with n knows = record { id = peer n; quorum = 2; knows = knows }

-- node 1 has proposed and heard the promise of node 2, which has heard of nobody else
abbrev first : Node
first = node_with 1 ((peer 1, promised 1 1) ∷ (peer 2, promised 1 1) ∷ [])

abbrev second : Node
second = node_with 2 ((peer 2, promised 2 2) ∷ [])

think-first : our_claims (think first).0 ≡ accepted 1 1
unfolding think
think-first = refl

propose-second : propose {E = ℕ} second ≡ ok (node_with 2 ((peer 2, promised 3 2) ∷ []))
unfolding propose
propose-second = refl

propose-no_quorum : propose {E = ℕ} (new_node 1 0 0) ≡ panic
unfolding propose new_node
propose-no_quorum = refl

abbrev agreed : Node
agreed = node_with 1 ((peer 1, accepted 1 1) ∷ (peer 2, accepted 1 1) ∷ [])

consensus-agreed : consensus agreed ≡ (true, (accepted 1 1).accepted_val)
unfolding consensus
consensus-agreed = refl

consensus-first : consensus first ≡ (false, no_value)
unfolding consensus
consensus-first = refl

apart : find (peer 1) ((peer 2, promised 1 1) ∷ []) ≡ none
unfolding find
apart = refl

alone : find (peer 2) [] ≡ none
unfolding find
alone = refl

update_node_correct_example :
    find (peer 2) (update_node second first.knows).0.knows
    ≡ join_known (find (peer 2) second.knows) (find (peer 2) first.knows)
update_node_correct_example = update_node_correct second first.knows (peer 2) (apart, (alone, tt))

think_correct_example :
    (precedes (our_claims (think first).0).promise (our_claims first).promise ≡ false)
    × IsHighest (our_claims (think first).0).promise first.knows
think_correct_example = think_correct first

consensus_correct_example : Decides agreed.quorum agreed.knows (by 1 1) (consensus agreed)
consensus_correct_example = consensus_correct agreed (by 1 1)
