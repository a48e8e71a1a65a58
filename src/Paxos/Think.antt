-- ===== src/Paxos/Think.antt =====
-- ipam/paxos/paxos.go: Propose, Think and Consensus.
use weave.Base.{
  ℕ, ◌+◌, ◌%◌, ◌^◌, Bool, true, false, ◌&&◌, List, [], ◌∷◌, leb, ◌==◌, if◌then◌else◌, Run, ok,
  panic, max, map, Option, none, some,
}
use weave.Paxos.{
  NodeId, ProposalId, AcceptedValue, NodeClaims, GossipState, Node, no_proposal, no_value,
  no_claims, same, same_node, precedes, valid, equals, find, put,
}

-- `node.knows[node.id]`, the zero claims where there are none
abbrev pub or_zero : Option NodeClaims → NodeClaims
or_zero none = no_claims
or_zero (some c) = c

unfoldable pub our_claims : Node → NodeClaims
unfolding find
our_claims node = or_zero (find node.id node.knows)

-- the loop of the "Promise" step
unfoldable pub highest_promise : ProposalId → GossipState → ProposalId
unfolding precedes
highest_promise p [] = p
highest_promise p ((i, c) ∷ m) = highest_promise (if precedes p c.promise then c.promise else p) m

-- the loop of the "Accept Request" step: how many have promised, and the best accepted value of theirs
unfoldable pub count_promised :
    ProposalId → GossipState → ℕ → ProposalId → AcceptedValue → ℕ × ProposalId × AcceptedValue
unfolding same precedes
count_promised p [] count accepted val = (count, accepted, val)
count_promised p ((i, c) ∷ m) count accepted val =
    let best = precedes accepted c.accepted in
    let promised =
      count_promised p m (count + 1) (if best then c.accepted else accepted)
        (if best then c.accepted_val else val) in
    let rest = count_promised p m count accepted val in if same c.promise p then promised else rest

unfoldable pub pick_value : Node → List ℕ
pick_value node = map (λ (e : NodeId × NodeClaims). e.0.name) node.knows

-- the "Accept Request" step, on our claims
unfoldable pub request : Node → NodeClaims → NodeClaims
unfolding same_node count_promised valid pick_value
request node ours =
    let (count, accepted, val) = count_promised ours.promise node.knows 0 no_proposal no_value in
    let picked : AcceptedValue = record { value = pick_value node; origin = ours.promise } in
    if same_node ours.promise.proposer node.id && leb node.quorum count
    then record ours {
      accepted = ours.promise;
      accepted_val = if valid accepted then val else picked;
    }
    else ours

-- the loop of the "Accepted" step
unfoldable pub follow : GossipState → NodeClaims → NodeClaims
unfolding same
follow [] ours = ours
follow ((i, c) ∷ m) ours =
    let rest = follow m ours in
    if same c.accepted ours.promise
    then record ours { accepted = c.accepted; accepted_val = c.accepted_val }
    else rest

-- our claims after the three steps
unfoldable pub new_claims : Node → NodeClaims
unfolding our_claims highest_promise request follow
new_claims node =
    let ours = our_claims node in
    let promised = record ours { promise = highest_promise ours.promise node.knows } in
    follow node.knows (request node promised)

unfoldable pub think : Node → Node × Bool
unfolding new_claims our_claims equals put
think node =
    if equals (new_claims node) (our_claims node)
    then (node, false)
    else (record node { knows = put node.id (new_claims node) node.knows }, true)

-- the highest round around
unfoldable pub highest_round : ℕ → GossipState → ℕ
highest_round r [] = r
highest_round r ((i, c) ∷ m) = highest_round (max (max r c.promise.round) c.accepted.round) m

unfoldable pub propose : {E : Type 0} → Node → Run E Node
unfolding our_claims highest_round put think
propose node =
    let promise : ProposalId = record {
      round = (highest_round 0 node.knows + 1) % 2 ^ 64;
      proposer = node.id;
    } in
    let claims = record (our_claims node) { promise = promise } in
    let proposed = record node { knows = put node.id claims node.knows } in
    if node.quorum == 0
    then panic
    else if node.quorum == 1
    then ok (think proposed).0
    else ok proposed

-- the map `counts` of Consensus, as a function
unfoldable pub bump : ProposalId → ℕ → (ProposalId → ℕ) → ProposalId → ℕ
unfolding same
bump p n counts q = if same p q then n else counts q

-- the loop of Consensus
unfoldable pub consensus_in : ℕ → (ProposalId → ℕ) → GossipState → Bool × AcceptedValue
unfolding valid bump
consensus_in quorum counts [] = (false, no_value)
consensus_in quorum counts ((i, c) ∷ m) =
    let origin = c.accepted_val.origin in
    let count = counts origin + 1 in
    let more = consensus_in quorum (bump origin count counts) m in
    let rest = consensus_in quorum counts m in
    if valid c.accepted then (if leb quorum count then (true, c.accepted_val) else more) else rest

unfoldable pub consensus : Node → Bool × AcceptedValue
unfolding consensus_in
consensus node =
    if node.quorum == 0 then (false, no_value) else consensus_in node.quorum (λ p. 0) node.knows
