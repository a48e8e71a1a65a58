-- ===== src/Paxos/Network/Growth.antt =====
-- What is true stays true while the nodes' own claims grow.
use weave.Base.{ℕ, suc, sym, List, [], ◌∷◌, ◌⊎◌, inl, inr, arith, All}
use weave.Paxos.{NodeId, ProposalId, AcceptedValue, NodeClaims, GossipState}
use weave.Paxos.Network.{Vote, Net, own}
use weave.Paxos.Network.Invariant.{AtMost, AtMost_trans, Cast, Known, AllKnown, Grounded, Honest}

-- own claims only go up, no vote is lost, and a new vote is not below what its voter had promised
pub record Grows (s t : Net) : Type 0 where
  pub promise : (i : NodeId) → AtMost (own s i).promise (own t i).promise
  pub accepted : (i : NodeId) → AtMost (own s i).accepted (own t i).accepted
  pub cast : (w : Vote) → Cast w s.log → Cast w t.log
  pub fresh : (w : Vote) → Cast w t.log → Cast w s.log ⊎ AtMost (own s w.voter).promise w.proposal

module _ (members : List NodeId) (quorum k : ℕ) (s t : Net) (g : Grows s t) where
  pub Known-Grows :
      (i : NodeId) (c : NodeClaims)
      → Known members quorum k s i c
      → Known members quorum (suc k) t i c
  Known-Grows i c h = record {
    member = h.member;
    promised = AtMost_trans c.promise (own s i).promise _ h.promised (g.promise i);
    issued =
        let n = c.promise.proposer in
        AtMost_trans c.promise (own s n).promise _ h.issued (g.promise n);
    real = h.real;
    ordered = h.ordered;
    bounded = omega (arith, h.bounded);
    voted = elim h.voted [ inl e ↦ inl e | inr e ↦ inr (g.cast _ e) ];
    kept = λ w e same. elim (g.fresh w e) [
      | inl old ↦ h.kept w old same
      | inr new ↦ inr (AtMost_trans c.promise (own s i).promise _ h.promised (rw (sym same) new))
    ];
  }

  All-Grows :
      (m : GossipState)
      → All (λ (e : NodeId × NodeClaims). Known members quorum k s e.0 e.1) m
      → All (λ (e : NodeId × NodeClaims). Known members quorum (suc k) t e.0 e.1) m
  All-Grows [] h = tt
  All-Grows ((i, c) ∷ m) h = (Known-Grows i c h.0, All-Grows m h.1)

  pub AllKnown-Grows :
      (m : GossipState) → AllKnown members quorum k s m → AllKnown members quorum (suc k) t m
  AllKnown-Grows m h = (h.0, All-Grows m h.1)

  pub sent-Grows :
      (ms : List GossipState)
      → All (AllKnown members quorum k s) ms
      → All (AllKnown members quorum (suc k) t) ms
  sent-Grows [] h = tt
  sent-Grows (m ∷ ms) h = (AllKnown-Grows m h.0, sent-Grows ms h.1)

  pub Grounded-Grows :
      (p : ProposalId) (v : AcceptedValue)
      → Grounded members quorum s p v
      → Grounded members quorum t p v
  Grounded-Grows p v h = record {
    side = h.side;
    base = h.base;
    enough = h.enough;
    promised = λ j e. AtMost_trans p (own s j).promise _ (h.promised j e) (g.promise j);
    below = h.below;
    based = elim h.based [ inl e ↦ inl e | inr (w, e, p', v') ↦ inr (w, g.cast w e, p', v') ];
    silent = λ w e side. elim (g.fresh w e) [
      | inl old ↦ h.silent w old side
      | inr new ↦
          inr (AtMost_trans p (own s w.voter).promise w.proposal (h.promised w.voter side) new)
    ];
  }

  pub Honest-Grows : (w : Vote) → Honest members quorum s w → Honest members quorum t w
  Honest-Grows w h = record {
    real = h.real;
    accepted = AtMost_trans w.proposal (own s w.voter).accepted _ h.accepted (g.accepted w.voter);
    first = (h.first.0, g.cast _ h.first.1, h.first.2, h.first.3);
    grounded = Grounded-Grows w.proposal w.value h.grounded;
  }
