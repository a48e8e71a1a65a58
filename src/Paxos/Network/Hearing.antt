-- ===== src/Paxos/Network/Hearing.antt =====
-- Update keeps what is known true.
use weave.Base.{ℕ, ◌≡◌, refl, List, [], ◌∷◌, inl, inr, arith, Option, none, some, Bool-cases}
use weave.Paxos.{NodeId, NodeClaims, GossipState, precedes, find, put, learn, learn_all}
use weave.Paxos.Gossip.{join_known, join_claims, later}
use weave.Paxos.Think.{or_zero}
use weave.Paxos.Network.{Net}
use weave.Paxos.Network.Invariant.{
  AtMost, AtMost_refl, AtMost_trans, precedes-AtMost, Known, AllKnown,
}
use weave.Paxos.Network.Views.{put-IsMap, All-put, All-find}

-- hearing of a node only raises its claims
pub join_known-AtMost :
    (a b : Option NodeClaims)
    → AtMost (or_zero a).promise (or_zero (join_known a b)).promise
      × AtMost (or_zero a).accepted (or_zero (join_known a b)).accepted
unfolding join_known join_claims later precedes
join_known-AtMost none none = ground arith
join_known-AtMost none (some b) = ground arith
join_known-AtMost (some a) none = ground arith
join_known-AtMost (some a) (some b) = ground arith

module _ (members : List NodeId) (quorum k : ℕ) (s : Net) where
  -- the promise of one set of claims and what the other has accepted, where these are the later ones
  mix :
      (i : NodeId) (x y : NodeClaims)
      → Known members quorum k s i x
      → Known members quorum k s i y
      → AtMost y.promise x.promise
      → AtMost x.accepted y.accepted
      → Known members quorum k s i (record y { promise = x.promise })
  mix i x y h l p a = record {
    member = h.member;
    promised = h.promised;
    issued = h.issued;
    real = h.real;
    ordered = AtMost_trans y.accepted y.promise x.promise l.ordered p;
    bounded = h.bounded;
    voted = l.voted;
    kept = λ w e same. elim (h.kept w e same) [
      | inl below ↦ inl (AtMost_trans w.proposal x.accepted y.accepted below a)
      | inr above ↦ inr above
    ];
  }

  learn-Known :
      (i : NodeId) (a b : NodeClaims)
      → Known members quorum k s i a
      → Known members quorum k s i b
      → Known members quorum k s i (learn (some a) b).0
  unfolding learn
  learn-Known i a b h l = elim (Bool-cases (precedes a.promise b.promise)) [
    | inl p ↦ elim (Bool-cases (precedes a.accepted b.accepted)) [
      | inl q ↦ rw (p, q) (mix i b b l l (AtMost_refl b.promise) (AtMost_refl b.accepted))
      | inr q ↦ rw (p, q) (mix i b a l h (precedes-AtMost a.promise b.promise p) q)
    ]
    | inr p ↦ elim (Bool-cases (precedes a.accepted b.accepted)) [
      | inl q ↦ rw (p, q) (mix i a b h l p (precedes-AtMost a.accepted b.accepted q))
      | inr q ↦ rw (p, q) (mix i a a h h (AtMost_refl a.promise) (AtMost_refl a.accepted))
    ]
  ]

  learned-Known :
      (i : NodeId) (o : Option NodeClaims) (knows : GossipState) (b : NodeClaims)
      → find i knows ≡ o
      → AllKnown members quorum k s knows
      → Known members quorum k s i b
      → Known members quorum k s i (learn o b).0
  unfolding learn
  learned-Known i none knows b e h l = l
  learned-Known i (some a) knows b e h l =
      learn-Known i a b (All-find (Known members quorum k s) i a knows h.1 e) l

  pub learn_all-AllKnown :
      (knows from : GossipState)
      → AllKnown members quorum k s knows
      → AllKnown members quorum k s from
      → AllKnown members quorum k s (learn_all knows from).0
  unfolding learn_all
  learn_all-AllKnown knows [] h l = h
  learn_all-AllKnown knows ((i, b) ∷ from) h l =
      let c = (learn (find i knows) b).0 in
      let c_Known = learned-Known i (find i knows) knows b refl h l.1.0 in
      learn_all-AllKnown (put i c knows) from
        (put-IsMap i c knows h.0, All-put (Known members quorum k s) i c knows c_Known h.1)
        (l.0.1, l.1.1)
