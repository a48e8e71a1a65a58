-- ===== src/Paxos/Agreement.antt =====
-- Think and Consensus.
use weave.Base.{
  ℕ, suc, ◌+◌, ◌≤◌, ◌<◌, ◌≡◌, refl, sym, ap, ◌∙◌, Bool, true, false, ◌&&◌, arith, [], ◌∷◌, leb,
  ◌==◌, ◌⊎◌, leb→le, leb→lt, Bool-cases, inl, inr, if◌then◌else◌, All, some,
}
use weave.Paxos.{
  NodeId, ProposalId, AcceptedValue, NodeClaims, GossipState, Node, precedes, valid, same, equals,
  put, find,
}
use weave.Paxos.Think.{
  highest_promise, bump, consensus_in, consensus, request, follow, new_claims, our_claims, or_zero,
  think,
}
use weave.Paxos.Gossip.{find-put}
use weave.Paxos.Order.{precedes_irrefl, same_self, same-eq, same_node_self}

-- how many nodes have accepted a value of this origin
unfoldable pub votes : ProposalId → GossipState → ℕ
unfolding valid same
votes p [] = 0
votes p ((i, c) ∷ m) =
    let rest = votes p m in
    if valid c.accepted && same c.accepted_val.origin p then suc rest else rest

-- what a run of the loop, begun with these counts, tells
unfoldable pub Tells : ℕ → (ProposalId → ℕ) → GossipState → Bool × AcceptedValue → Type 0
unfolding votes
Tells quorum counts m (true, v) = quorum ≤ counts v.origin + votes v.origin m
Tells quorum counts m (false, v) =
    (p : ProposalId) → counts p < quorum → counts p + votes p m < quorum

-- a step that moves votes into the counts keeps what a run tells
Tells-moved :
    (quorum : ℕ) (counts counts' : ProposalId → ℕ) (m m' : GossipState) (r : Bool × AcceptedValue)
    → ((p : ProposalId) → counts p + votes p m ≡ counts' p + votes p m')
    → ((p : ProposalId) → counts' p < quorum → counts p < quorum)
    → Tells quorum counts m r
    → Tells quorum counts' m' r
unfolding Tells
Tells-moved quorum counts counts' m m' (true, v) e f t = omega (arith, e v.origin)
Tells-moved quorum counts counts' m m' (false, v) e f t = λ p h. omega (arith, e p, t p (f p h))

votes-bump :
    (i : NodeId) (c : NodeClaims) (m : GossipState) (counts : ProposalId → ℕ) (p : ProposalId)
    → valid c.accepted ≡ true
    → bump c.accepted_val.origin (counts c.accepted_val.origin + 1) counts p + votes p m
      ≡ counts p + votes p ((i, c) ∷ m)
unfolding votes bump
votes-bump i c m counts p h = elim (Bool-cases (same c.accepted_val.origin p)) [
  | inl s ↦ rw (h, s) (omega (arith, ap counts (same-eq c.accepted_val.origin p s)))
  | inr s ↦ rw (h, s) refl
]

votes-skip :
    (i : NodeId) (c : NodeClaims) (m : GossipState) (p : ProposalId)
    → valid c.accepted ≡ false
    → votes p m ≡ votes p ((i, c) ∷ m)
unfolding votes
votes-skip i c m p h = rw h refl

votes-enough :
    (i : NodeId) (c : NodeClaims) (m : GossipState)
    → valid c.accepted ≡ true
    → 1 ≤ votes c.accepted_val.origin ((i, c) ∷ m)
unfolding votes
votes-enough i c m h = rw (h, same_self c.accepted_val.origin) (omega arith)

bump-few :
    (o p : ProposalId) (quorum : ℕ) (counts : ProposalId → ℕ)
    → counts o + 1 < quorum
    → counts p < quorum
    → bump o (counts o + 1) counts p < quorum
unfolding bump
bump-few o p quorum counts h k = ground arith

consensus_in-Tells :
    (quorum : ℕ) (counts : ProposalId → ℕ) (m : GossipState)
    → Tells quorum counts m (consensus_in quorum counts m)
unfolding consensus_in Tells
consensus_in-Tells quorum counts [] = λ p h. omega arith
consensus_in-Tells quorum counts ((i, c) ∷ m) =
    let o = c.accepted_val.origin in
    elim (Bool-cases (valid c.accepted)) [
      | inr h ↦ rw h (
          Tells-moved quorum counts counts m ((i, c) ∷ m) (consensus_in quorum counts m)
            (λ p. ap (λ (n : ℕ). counts p + n) (votes-skip i c m p h)) (λ p l. l)
            (consensus_in-Tells quorum counts m))
      | inl h ↦ elim (Bool-cases (leb quorum (counts o + 1))) [
        | inl e ↦
            let one = votes-enough i c m h in
            let two = leb→le quorum (counts o + 1) e in rw (h, e) (omega (arith, one, two))
        | inr few ↦
            rw (h, few)
              (Tells-moved quorum (bump o (counts o + 1) counts) counts m ((i, c) ∷ m)
                (consensus_in quorum (bump o (counts o + 1) counts) m)
                (λ p. votes-bump i c m counts p h)
                (λ p l. bump-few o p quorum counts (leb→lt quorum (counts o + 1) few) l)
                (consensus_in-Tells quorum (bump o (counts o + 1) counts) m))
      ]
    ]

-- no known promise is later than this one
abbrev pub IsHighest : ProposalId → GossipState → Type 0
IsHighest p m = All (λ (e : NodeId × NodeClaims). precedes p e.1.promise ≡ false) m

precedes-le :
    (a b c : ProposalId) → precedes a b ≡ false → precedes b c ≡ false → precedes a c ≡ false
unfolding precedes
precedes-le a b c h k = ground arith

-- the later of two proposals is at or after both
later-left : (p q : ProposalId) → precedes (if precedes p q then q else p) p ≡ false
unfolding precedes
later-left p q = ground arith

later-right : (p q : ProposalId) → precedes (if precedes p q then q else p) q ≡ false
unfolding precedes
later-right p q = ground arith

pub highest_promise-start :
    (p : ProposalId) (m : GossipState) → precedes (highest_promise p m) p ≡ false
unfolding highest_promise
highest_promise-start p [] = precedes_irrefl p
highest_promise-start p ((i, c) ∷ m) =
    let q = if precedes p c.promise then c.promise else p in
    precedes-le (highest_promise q m) q p (highest_promise-start q m) (later-left p c.promise)

highest_promise-IsHighest : (p : ProposalId) (m : GossipState) → IsHighest (highest_promise p m) m
unfolding highest_promise
highest_promise-IsHighest p [] = tt
highest_promise-IsHighest p ((i, c) ∷ m) =
    let q = if precedes p c.promise then c.promise else p in
    (
      precedes-le (highest_promise q m) q c.promise (highest_promise-start q m)
          (later-right p c.promise),
      highest_promise-IsHighest q m,
    )

follow-promise : (m : GossipState) (ours : NodeClaims) → (follow m ours).promise ≡ ours.promise
unfolding follow
follow-promise [] ours = refl
follow-promise ((i, c) ∷ m) ours = elim (Bool-cases (same c.accepted ours.promise)) [
  | inl h ↦ rw h refl
  | inr h ↦ rw h (follow-promise m ours)
]

pub request-promise : (node : Node) (ours : NodeClaims) → (request node ours).promise ≡ ours.promise
unfolding request
request-promise node ours = ground arith

new_claims-promise :
    (node : Node)
    → (precedes (new_claims node).promise (our_claims node).promise ≡ false)
      × IsHighest (new_claims node).promise node.knows
unfolding new_claims
new_claims-promise node =
    let p = (our_claims node).promise in
    let promised = record (our_claims node) { promise = highest_promise p node.knows } in
    let kept = follow-promise node.knows (request node promised) ∙ request-promise node promised in
    rw kept (highest_promise-start p node.knows, highest_promise-IsHighest p node.knows)

pub our_claims-put :
    (node : Node) (c : NodeClaims)
    → our_claims (record node { knows = put node.id c node.knows }) ≡ c
unfolding our_claims
our_claims-put node c =
    let got : find node.id (put node.id c node.knows) ≡ some c =
      rw (find-put node.id node.id c node.knows, same_node_self node.id) refl in
    ap or_zero got

pub equals-promise : (a b : NodeClaims) → equals a b ≡ true → a.promise ≡ b.promise
unfolding equals same
equals-promise a b h = ground arith

think-promise : (node : Node) → (our_claims (think node).0).promise ≡ (new_claims node).promise
unfolding think
think-promise node = elim (Bool-cases (equals (new_claims node) (our_claims node))) [
  | inl h ↦ rw h (sym (equals-promise (new_claims node) (our_claims node) h))
  | inr h ↦ rw (h, our_claims-put node (new_claims node)) refl
]

-- After Think the node's own promise is at or after the one that it had made and every promise that it
-- knew of.
pub think_correct :
    (node : Node)
    → (precedes (our_claims (think node).0).promise (our_claims node).promise ≡ false)
      × IsHighest (our_claims (think node).0).promise node.knows
think_correct node = rw (think-promise node) (new_claims-promise node)

-- what Consensus may answer, at the origin `o`
abbrev pub Decides : ℕ → GossipState → ProposalId → Bool × AcceptedValue → Type 0
Decides quorum m o r =
    (r.0 ≡ true) × (0 < quorum) × (quorum ≤ votes r.1.origin m)
    ⊎ (r.0 ≡ false) × (0 < quorum → votes o m < quorum)

Tells-Decides :
    (quorum : ℕ) (m : GossipState) (o : ProposalId) (r : Bool × AcceptedValue)
    → 0 < quorum
    → Tells quorum (λ p. 0) m r
    → Decides quorum m o r
unfolding Tells
Tells-Decides quorum m o (true, v) pos t = inl (refl, pos, omega arith)
Tells-Decides quorum m o (false, v) pos t = inr (refl, λ h. omega (arith, t o h))

-- Consensus reports a value only if at least a quorum, which is then not 0, of the known nodes have
-- accepted a value of its origin. If it reports none and a quorum is set, then no origin has that
-- many nodes.
pub consensus_correct :
    (node : Node) (o : ProposalId) → Decides node.quorum node.knows o (consensus node)
unfolding consensus
consensus_correct node o = elim (Bool-cases (node.quorum == 0)) [
  | inl h ↦ rw h (inr (refl, λ l. ground arith))
  | inr h ↦ rw h (
      Tells-Decides node.quorum node.knows o _ (ground arith)
        (consensus_in-Tells node.quorum (λ p. 0) node.knows))
]
