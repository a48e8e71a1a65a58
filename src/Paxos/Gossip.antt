-- ===== src/Paxos/Gossip.antt =====
-- Update, node by node: the later of each two proposals.
use weave.Base.{
  ◌≡◌, refl, sym, ap, ◌∙◌, true, arith, [], ◌∷◌, Option, none, some, inl, inr, Bool-cases,
  if◌then◌else◌,
}
use weave.Paxos.{
  NodeId, ProposalId, NodeClaims, GossipState, Node, precedes, same_node, find, put, learn,
  learn_all, update_node,
}
use weave.Paxos.Order.{same_node-eq}

-- the later of two proposals
unfoldable pub later : ProposalId → ProposalId → ProposalId
later a b = if precedes a b then b else a

-- the claims on both sides: the later promise, and the later accepted proposal with its value
unfoldable pub join_claims : NodeClaims → NodeClaims → NodeClaims
unfolding later
join_claims a b = record {
  promise = later a.promise b.promise;
  accepted = later a.accepted b.accepted;
  accepted_val = if precedes a.accepted b.accepted then b.accepted_val else a.accepted_val;
}

unfoldable pub join_known : Option NodeClaims → Option NodeClaims → Option NodeClaims
unfolding join_claims
join_known a none = a
join_known none (some b) = some b
join_known (some a) (some b) = some (join_claims a b)

-- the keys of a map are distinct
abbrev pub IsMap : GossipState → Type 0
IsMap [] = Unit
IsMap ((i, c) ∷ m) = (find i m ≡ none) × IsMap m

learn-join : (a : Option NodeClaims) (b : NodeClaims) → some (learn a b).0 ≡ join_known a (some b)
unfolding learn join_known join_claims later
learn-join none b = refl
learn-join (some a) b = refl

pub find-put :
    (i k : NodeId) (c : NodeClaims) (m : GossipState)
    → find k (put i c m) ≡ (if same_node i k then some c else find k m)
unfolding find put same_node
find-put i k c [] = refl
find-put i k c ((j, d) ∷ m) = ground (arith, find-put i k c m)

find-same : (i k : NodeId) (m : GossipState) → same_node i k ≡ true → find i m ≡ find k m
find-same i k m h = ap (λ t. find t m) (same_node-eq i k h)

pub find-learn_all :
    (k : NodeId) (knows from : GossipState)
    → IsMap from
    → find k (learn_all knows from).0 ≡ join_known (find k knows) (find k from)
unfolding learn_all find join_known
find-learn_all k knows [] d = refl
find-learn_all k knows ((i, c) ∷ from) d =
    let claims = (learn (find i knows) c).0 in
    let rest = find-learn_all k (put i claims knows) from d.1 in
    let put_lem = find-put i k claims knows in
    let joined = learn-join (find i knows) c in
    elim (Bool-cases (same_node i k)) [
      | inl h ↦
          let here = find-same i k knows h in
          let gone = sym (find-same i k from h) ∙ d.0 in
          rest ∙ rw (put_lem, h, gone, sym here) joined
      | inr h ↦ rest ∙ rw (put_lem, h) refl
    ]

-- After Update with a map from node ids to claims, a node knows of every node id the claims that it or
-- the map had, where both had some the later promise and the later accepted proposal with its value.
pub update_node_correct :
    (node : Node) (from : GossipState) (k : NodeId)
    → IsMap from
    → find k (update_node node from).0.knows ≡ join_known (find k node.knows) (find k from)
unfolding update_node
update_node_correct node from k d = find-learn_all k node.knows from d
