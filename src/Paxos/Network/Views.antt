-- ===== src/Paxos/Network/Views.antt =====
-- Predicates on all the claims that a node knows of, and how put keeps them.
use weave.Base.{◌≡◌, refl, sym, ◌∙◌, false, [], ◌∷◌, arith, All, none, some, inl, inr, Bool-cases}
use mathlib.Core.Path.{subst}
use weave.Paxos.{NodeId, NodeClaims, GossipState, same_node, find, put}
use weave.Paxos.Gossip.{IsMap, find-put}
use weave.Paxos.Order.{same_node-eq}

same_node_comm : (i j : NodeId) → same_node i j ≡ same_node j i
unfolding same_node
same_node_comm i j = ground arith

pub put-IsMap : (i : NodeId) (c : NodeClaims) (m : GossipState) → IsMap m → IsMap (put i c m)
unfolding put find
put-IsMap i c [] h = (refl, tt)
put-IsMap i c ((j, d) ∷ m) h = elim (Bool-cases (same_node j i)) [
  | inl e ↦ rw e h
  | inr e ↦
      let apart : same_node i j ≡ false = same_node_comm i j ∙ e in
      let none_left : find j (put i c m) ≡ none = rw (find-put i j c m, apart) h.0 in
      rw e (none_left, put-IsMap i c m h.1)
]

module _ (P : NodeId → NodeClaims → Type 0) where
  pub All-put :
      (i : NodeId) (c : NodeClaims) (m : GossipState)
      → P i c
      → All (λ (e : NodeId × NodeClaims). P e.0 e.1) m
      → All (λ (e : NodeId × NodeClaims). P e.0 e.1) (put i c m)
  unfolding put
  All-put i c [] p h = (p, tt)
  All-put i c ((j, d) ∷ m) p h = elim (Bool-cases (same_node j i)) [
    | inl e ↦ rw e (subst (λ (n : NodeId). P n c) (sym (same_node-eq j i e)) p, h.1)
    | inr e ↦ rw e (h.0, All-put i c m p h.1)
  ]

  pub All-find :
      (i : NodeId) (c : NodeClaims) (m : GossipState)
      → All (λ (e : NodeId × NodeClaims). P e.0 e.1) m
      → find i m ≡ some c
      → P i c
  unfolding find
  All-find i c [] h f = cc
  All-find i c ((j, d) ∷ m) h f = elim (Bool-cases (same_node j i)) [
    | inl e ↦
        let at : some d ≡ some c = (rw e at f) in
        let got : d ≡ c = cc in
        subst (λ (n : NodeId). P n c) (same_node-eq j i e)
          (subst (λ (x : NodeClaims). P j x) got h.0)
    | inr e ↦ All-find i c m h.1 (rw e at f)
  ]
