-- ===== src/Paxos/Network/Progress.antt =====
-- A proposal that a quorum has promised is accepted.
use weave.Base.{◌≤◌, ◌≡◌, refl, sym, ap, ◌∙◌, true, [], ◌∷◌, inl, inr, arith, All, Bool-cases, leb}
use mathlib.Core.Path.{subst}
use weave.Paxos.{
  NodeId, ProposalId, NodeClaims, GossipState, Node, no_proposal, no_value, same, same_node, equals,
}
use weave.Paxos.Agreement.{IsHighest, our_claims-put, request-promise}
use weave.Paxos.Order.{same_node_self}
use weave.Paxos.Think.{
  our_claims, highest_promise, count_promised, request, follow, new_claims, think,
}
use weave.Paxos.Network.Counting.{number, promises, count_promised-Best}
use weave.Paxos.Network.Thinking.{follow-cases}

highest_promise_self : (p : ProposalId) (m : GossipState) → IsHighest p m → highest_promise p m ≡ p
unfolding highest_promise
highest_promise_self p [] h = refl
highest_promise_self p ((i, c) ∷ m) h = rw h.0 (highest_promise_self p m h.1)

anything : (m : GossipState) → All (λ (e : NodeId × NodeClaims). Unit {0}) m
anything [] = tt
anything (e ∷ m) = (tt, anything m)

-- the "Accept Request" step of a proposer whose promise has a quorum
request-accepted :
    (node : Node) (ours : NodeClaims)
    → ours.promise.proposer ≡ node.id
    → node.quorum ≤ number (promises ours.promise) node.knows
    → (request node ours).accepted ≡ ours.promise
unfolding request
request-accepted node ours mine enough =
    let best =
      count_promised-Best (λ i c. Unit {0}) ours.promise node.knows 0 no_proposal no_value
        (anything node.knows) in
    let own : same_node ours.promise.proposer node.id ≡ true = rw mine (same_node_self node.id) in
    let count = (count_promised ours.promise node.knows 0 no_proposal no_value).0 in
    let full : leb node.quorum count ≡ true = ground (arith, best.counted) in rw (own, full) refl

follow-accepted :
    (m : GossipState) (ours : NodeClaims)
    → ours.accepted ≡ ours.promise
    → (follow m ours).accepted ≡ ours.promise
follow-accepted m ours h = elim (follow-cases (λ i c. Unit {0}) m ours (anything m)) [
  | inl e ↦ rw e h
  | inr (i, c, t, at, e) ↦ rw e at
]

equals-accepted : (a b : NodeClaims) → equals a b ≡ true → a.accepted ≡ b.accepted
unfolding equals same
equals-accepted a b h = ground arith

think-accepted : (node : Node) → (our_claims (think node).0).accepted ≡ (new_claims node).accepted
unfolding think
think-accepted node = elim (Bool-cases (equals (new_claims node) (our_claims node))) [
  | inl h ↦ rw h (sym (equals-accepted (new_claims node) (our_claims node) h))
  | inr h ↦ rw (h, our_claims-put node (new_claims node)) refl
]

-- If the promise that a node has made itself is its own proposal, no promise that it knows of is later,
-- and a quorum of the nodes that it knows of have promised it, then after Think the node has accepted it.
pub think_accepts :
    (node : Node)
    → IsHighest (our_claims node).promise node.knows
    → (our_claims node).promise.proposer ≡ node.id
    → node.quorum ≤ number (promises (our_claims node).promise) node.knows
    → (our_claims (think node).0).accepted ≡ (our_claims node).promise
unfolding new_claims
think_accepts node highest mine enough =
    let ours = our_claims node in
    let p = highest_promise ours.promise node.knows in
    let same_p : p ≡ ours.promise = highest_promise_self ours.promise node.knows highest in
    let promised : NodeClaims = record ours { promise = p } in
    let req = request node promised in
    let mine' : p.proposer ≡ node.id = ap (λ (q : ProposalId). q.proposer) same_p ∙ mine in
    let enough' : node.quorum ≤ number (promises p) node.knows =
      subst (λ (q : ProposalId). node.quorum ≤ number (promises q) node.knows) (sym same_p)
        enough in
    let kept = request-promise node promised in
    let took = request-accepted node promised mine' enough' in
    think-accepted node ∙ follow-accepted node.knows req (took ∙ sym kept) ∙ kept ∙ same_p
