-- ===== src/Paxos/Network/Counting.antt =====
-- The loop of the "Accept Request" step: how many nodes have promised, and the latest that they accepted.
use weave.Base.{
  ℕ, suc, ◌+◌, ◌≤◌, ◌≡◌, refl, sym, ap, ◌∙◌, Bool, true, false, List, [], ◌∷◌, ◌⊎◌, inl, inr, arith,
  All, Option, none, some, Bool-cases, if◌then◌else◌,
}
use weave.Paxos.{
  NodeId, ProposalId, AcceptedValue, NodeClaims, GossipState, precedes, same, same_node, find,
}
use weave.Paxos.Gossip.{IsMap}
use weave.Paxos.Order.{same-eq, same_node-eq, same_node_self}
use weave.Paxos.Think.{count_promised}
use weave.Paxos.Network.Invariant.{
  AtMost, AtMost_refl, AtMost_trans, precedes-AtMost, is_member, tally,
}

-- are there claims that pass the test?
unfoldable pub passes : (NodeClaims → Bool) → Option NodeClaims → Bool
passes test none = false
passes test (some c) = test c

unfoldable pub number : (NodeClaims → Bool) → GossipState → ℕ
number test [] = 0
number test ((i, c) ∷ m) = (if test c then 1 else 0) + number test m

-- has the node promised exactly this proposal?
abbrev pub promises : ProposalId → NodeClaims → Bool
promises p c = same c.promise p

pub tally_mono :
    (f g : NodeId → Bool) (is : List NodeId)
    → ((i : NodeId) → f i ≡ true → g i ≡ true)
    → tally f is ≤ tally g is
unfolding tally
tally_mono f g [] h = omega arith
tally_mono f g (i ∷ is) h = ground (arith, h i, tally_mono f g is h)

-- a side with one member more
tally-add :
    (f : NodeId → Bool) (k : NodeId) (is : List NodeId)
    → is_member k is ≡ true
    → f k ≡ false
    → suc (tally f is) ≤ tally (λ i. if same_node k i then true else f i) is
unfolding tally is_member
tally-add f k [] h e = cc
tally-add f k (j ∷ js) h e = elim (Bool-cases (same_node j k)) [
  | inl here ↦
      let same_j = same_node-eq j k here in
      let off : f j ≡ false = ap f same_j ∙ e in
      let on : same_node k j ≡ true = ap (same_node k) same_j ∙ same_node_self k in
      let more = tally_mono f (λ i. if same_node k i then true else f i) js (λ i t. ground arith) in
      rw (off, on) (omega (arith, more))
  | inr there ↦ let rest = tally-add f k js (rw there at h) e in ground (arith, rest)
]

pub number-le-tally :
    (test : NodeClaims → Bool) (members : List NodeId) (m : GossipState)
    → IsMap m
    → All (λ (e : NodeId × NodeClaims). is_member e.0 members ≡ true) m
    → number test m ≤ tally (λ i. passes test (find i m)) members
unfolding number passes find
number-le-tally test members [] d h = omega arith
number-le-tally test members ((k, c) ∷ m) d h =
    let side = λ (i : NodeId). passes test (find i m) in
    let rest = number-le-tally test members m d.1 h.1 in
    let off : side k ≡ false = rw d.0 refl in
    let gone : (i : NodeId) → same_node k i ≡ true → side i ≡ false =
      λ i e. ap side (sym (same_node-eq k i e)) ∙ off in
    elim (Bool-cases (test c)) [
      | inl e ↦
          let one = tally-add side k members h.0 off in
          let more =
            tally_mono (λ i. if same_node k i then true else side i)
              (λ i. passes test (find i ((k, c) ∷ m))) members (λ i t. ground arith) in
          rw e (omega (arith, rest, one, more))
      | inr e ↦
          let more =
            tally_mono side (λ i. passes test (find i ((k, c) ∷ m))) members
              (λ i t. ground (arith, gone i)) in
          rw e (omega (arith, rest, more))
    ]

-- what the loop returns, begun with `count`, `acc` and `val`
pub record Best (P : NodeId → NodeClaims → Type 0) (p : ProposalId) (m : GossipState) (count : ℕ)
    (acc : ProposalId) (val : AcceptedValue) (res : ℕ × ProposalId × AcceptedValue) : Type 0 where
  pub counted : res.0 ≡ count + number (promises p) m
  pub source :
      (res.1 ≡ acc) × (res.2 ≡ val)
      ⊎ (i : NodeId) × (c : NodeClaims) × P i c
        × (c.promise ≡ p)
        × (c.accepted ≡ res.1)
        × (c.accepted_val ≡ res.2)
  pub above : AtMost acc res.1
  pub best :
      (i : NodeId) (c : NodeClaims)
      → find i m ≡ some c
      → same c.promise p ≡ true
      → AtMost c.accepted res.1

module _ (P : NodeId → NodeClaims → Type 0) (p : ProposalId) where
  at_head :
      (j : NodeId) (d : NodeClaims) (m : GossipState) (a : ProposalId)
      → ((i : NodeId) (c : NodeClaims)
          → find i m ≡ some c
          → same c.promise p ≡ true
          → AtMost c.accepted a)
      → AtMost d.accepted a
      → (i : NodeId) (c : NodeClaims) → find i ((j, d) ∷ m) ≡ some c
      → same c.promise p ≡ true
      → AtMost c.accepted a
  unfolding find
  at_head j d m a rest first i c f t = elim (Bool-cases (same_node j i)) [
    | inl here ↦
        let at : some d ≡ some c = (rw here at f) in let got : d ≡ c = cc in rw (sym got) first
    | inr there ↦ rest i c (rw there at f) t
  ]

  pub count_promised-Best :
      (m : GossipState) (count : ℕ) (acc : ProposalId) (val : AcceptedValue)
      → All (λ (e : NodeId × NodeClaims). P e.0 e.1) m
      → Best P p m count acc val (count_promised p m count acc val)
  unfolding count_promised number find
  count_promised-Best [] count acc val h = record {
    counted = omega arith;
    source = inl (refl, refl);
    above = AtMost_refl acc;
    best = λ i c f e. cc;
  }
  count_promised-Best ((j, d) ∷ m) count acc val h = elim (Bool-cases (same d.promise p)) [
    | inr e ↦
        let rest = count_promised-Best m count acc val h.1 in
        rw e (record {
          counted = rw e (omega (arith, rest.counted));
          source = rest.source;
          above = rest.above;
          best = λ i c f t. elim (Bool-cases (same_node j i)) [
            | inl here ↦
                let at : some d ≡ some c = (rw here at f) in
                let got : d ≡ c = cc in absurd (let o : same d.promise p ≡ true = (rw got t) in cc)
            | inr there ↦ rest.best i c (rw there at f) t
          ];
        })
    | inl e ↦ elim (Bool-cases (precedes acc d.accepted)) [
      | inl b ↦
          let rest = count_promised-Best m (count + 1) d.accepted d.accepted_val h.1 in
          rw (e, b)
            (record {
              counted = rw e (omega (arith, rest.counted));
              source = elim rest.source [
                | inl start ↦ inr (j, d, h.0, same-eq d.promise p e, sym start.0, sym start.1)
                | inr other ↦ inr other
              ];
              above = AtMost_trans acc d.accepted _ (precedes-AtMost acc d.accepted b) rest.above;
              best = at_head j d m _ rest.best rest.above;
            })
      | inr b ↦
          let rest = count_promised-Best m (count + 1) acc val h.1 in
          rw (e, b)
            (record {
              counted = rw e (omega (arith, rest.counted));
              source = rest.source;
              above = rest.above;
              best = at_head j d m _ rest.best (AtMost_trans d.accepted acc _ b rest.above);
            })
    ]
  ]
