-- ===== src/Paxos/Network/Thinking.antt =====
-- Think keeps the network safe.
use weave.Base.{
  ℕ, suc, ◌≤◌, ◌≡◌, ◌≢◌, refl, sym, ◌∙◌, true, false, List, [], ◌∷◌, ◌⊎◌, inl, inr, arith, All,
  Bool-cases, if◌then◌else◌, leb, leb→le,
}
use weave.Paxos.{
  NodeId, ProposalId, AcceptedValue, NodeClaims, GossipState, Node, no_proposal, no_value, same,
  same_node, precedes, valid,
}
use weave.Paxos.Agreement.{highest_promise-start, request-promise}
use weave.Paxos.Order.{same-eq, same_node-eq}
use weave.Paxos.Think.{
  our_claims, highest_promise, count_promised, pick_value, request, follow, new_claims,
}
use weave.Paxos.Network.{Vote, Net, own, view}
use weave.Paxos.Network.Invariant.{
  AtMost, AtMost_refl, AtMost_trans, Cast, vote, is_member, Known, Grounded, IsSafe,
}
use weave.Paxos.Network.Requesting.{not-valid-zero, request-Supported}
use weave.Paxos.Network.Settling.{Advances, own-Known}

highest_promise-from :
    (P : ProposalId → Type 0) (p : ProposalId) (m : GossipState)
    → P p
    → All (λ (e : NodeId × NodeClaims). P e.1.promise) m
    → P (highest_promise p m)
unfolding highest_promise
highest_promise-from P p [] h l = h
highest_promise-from P p ((i, c) ∷ m) h l = elim (Bool-cases (precedes p c.promise)) [
  | inl e ↦ rw e (highest_promise-from P c.promise m l.0 l.1)
  | inr e ↦ rw e (highest_promise-from P p m h l.1)
]

-- the "Accepted" step changes nothing, or takes over what some node has accepted under our promise
pub follow-cases :
    (P : NodeId → NodeClaims → Type 0) (m : GossipState) (ours : NodeClaims)
    → All (λ (e : NodeId × NodeClaims). P e.0 e.1) m
    → (follow m ours ≡ ours)
      ⊎ (i : NodeId) × (c : NodeClaims) × P i c
        × (c.accepted ≡ ours.promise)
        × (follow m ours ≡ record ours { accepted = c.accepted; accepted_val = c.accepted_val })
unfolding follow
follow-cases P [] ours h = inl refl
follow-cases P ((i, c) ∷ m) ours h = elim (Bool-cases (same c.accepted ours.promise)) [
  | inl e ↦ inr (i, c, h.0, same-eq c.accepted ours.promise e, rw e refl)
  | inr e ↦ rw e (follow-cases P m ours h.1)
]

-- the "Accept Request" step changes nothing, or a quorum has promised what we have proposed
request-cases :
    (node : Node) (ours : NodeClaims)
    → (request node ours ≡ ours)
      ⊎ ((v : AcceptedValue) × (request node ours
            ≡ record ours { accepted = ours.promise; accepted_val = v })
          × (ours.promise.proposer ≡ node.id)
          × (node.quorum ≤ (count_promised ours.promise node.knows 0 no_proposal no_value).0)
          × (valid (count_promised ours.promise node.knows 0 no_proposal no_value).1 ≡ true
              → (count_promised ours.promise node.knows 0 no_proposal no_value).2 ≡ v))
unfolding request
request-cases node ours =
    let res = count_promised ours.promise node.knows 0 no_proposal no_value in
    elim (Bool-cases (same_node ours.promise.proposer node.id)) [
      | inr e ↦ inl (rw e refl)
      | inl e ↦ elim (Bool-cases (leb node.quorum res.0)) [
        | inr q ↦ inl (rw (e, q) refl)
        | inl q ↦ inr (
          (if valid res.1
              then res.2
              else record { value = pick_value node; origin = ours.promise }),
          rw (e, q) refl,
          same_node-eq ours.promise.proposer node.id e,
          leb→le node.quorum res.0 q,
          λ h. rw h refl,
        )
      ]
    ]

-- a higher promise, and no new vote
pub raised-Advances :
    (members : List NodeId) (quorum k : ℕ) (s : Net) (n : NodeId)
    → IsSafe members quorum k s
    → is_member n members ≡ true
    → (r : ProposalId) → AtMost (own s n).promise r
    → AtMost r (own s r.proposer).promise ⊎ (r.proposer ≡ n)
    → (valid r ≡ false → r ≡ no_proposal)
    → r.round ≤ suc k
    → Advances members quorum k s n (record (own s n) { promise = r })
raised-Advances members quorum k s n safe member r above issued real bounded =
    let mine = own s n in
    let known = own-Known members quorum k s n member (safe.views n) in
    record {
      promise = above;
      accepted = AtMost_refl mine.accepted;
      ordered = AtMost_trans mine.accepted mine.promise r known.ordered above;
      issued = issued;
      real = real;
      bounded = bounded;
      timely = λ h. elim known.voted [
        | inl e ↦ absurd (not-valid-zero mine.accepted h e)
        | inr e ↦ inl e
      ];
      choice = elim known.voted [
        | inl e ↦ inl e
        | inr e ↦ inr (inl (vote n mine.accepted mine.accepted_val, e, refl, refl))
      ];
    }

module _ (members : List NodeId) (quorum k : ℕ) (s : Net) (n : NodeId)
    (safe : IsSafe members quorum k s) (member : is_member n members ≡ true) where
  abbrev mine : NodeClaims
  mine = own s n

  abbrev p : ProposalId
  p = highest_promise mine.promise (s.knows n)

  abbrev promised : NodeClaims
  promised = record mine { promise = p }

  mine-Known : Known members quorum k s n mine
  mine-Known = own-Known members quorum k s n member (safe.views n)

  -- what is true of every promise around
  abbrev Fair : ProposalId → Type 0
  Fair r = AtMost r (own s r.proposer).promise × (valid r ≡ false → r ≡ no_proposal) × (r.round ≤ k)

  Fair-promises :
      (m : GossipState)
      → All (λ (e : NodeId × NodeClaims). Known members quorum k s e.0 e.1) m
      → All (λ (e : NodeId × NodeClaims). Fair e.1.promise) m
  Fair-promises [] h = tt
  Fair-promises ((i, c) ∷ m) h = ((h.0.issued, h.0.real, h.0.bounded), Fair-promises m h.1)

  p-Fair : Fair p
  p-Fair =
      highest_promise-from Fair mine.promise (s.knows n)
        (mine-Known.issued, mine-Known.real, mine-Known.bounded)
        (Fair-promises (s.knows n) (safe.views n).1)

  p_above : AtMost mine.promise p
  p_above = highest_promise-start mine.promise (s.knows n)

  mine_below : AtMost mine.accepted p
  mine_below = AtMost_trans mine.accepted mine.promise p mine-Known.ordered p_above

  kept-Advances : (c : NodeClaims) → c ≡ promised → Advances members quorum k s n c
  kept-Advances c e = rw e (
      raised-Advances members quorum k s n safe member p p_above (inl p-Fair.0) p-Fair.1
        (omega (arith, p-Fair.2)))

  taken-Advances :
      (c : NodeClaims)
      → c.promise ≡ p
      → c.accepted ≡ p
      → (p ≡ no_proposal)
        ⊎ ((w : Vote) × Cast w s.log × (w.proposal ≡ p) × (w.value ≡ c.accepted_val))
        ⊎ ((valid p ≡ true)
            × (p.proposer ≡ n)
            × ((w : Vote) → Cast w s.log → w.proposal ≢ p)
            × Grounded members quorum s p c.accepted_val)
      → Advances members quorum k s n c
  taken-Advances c promise accepted choice = record {
    promise = rw promise p_above;
    accepted = rw accepted mine_below;
    ordered = rw (promise, accepted) (AtMost_refl p);
    issued = rw promise (inl p-Fair.0);
    real = rw promise p-Fair.1;
    bounded = rw promise (omega (arith, p-Fair.2));
    timely = λ h. inr (rw accepted p_above);
    choice = rw accepted choice;
  }

  follow-Advances :
      (ours : NodeClaims)
      → ours.promise ≡ p
      → Advances members quorum k s n ours
      → Advances members quorum k s n (follow (s.knows n) ours)
  follow-Advances ours e h =
      elim (follow-cases (Known members quorum k s) (s.knows n) ours (safe.views n).1) [
        | inl same ↦ rw same h
        | inr (i, c, c_Known, at, result) ↦
            let is_p : c.accepted ≡ p = at ∙ e in
            rw result (
              taken-Advances (record ours { accepted = c.accepted; accepted_val = c.accepted_val })
                e is_p
                (elim c_Known.voted [
                  | inl none_yet ↦ inl (sym is_p ∙ none_yet)
                  | inr cast ↦ inr (inl (vote i c.accepted c.accepted_val, cast, is_p, refl))
                ]))
      ]

  request-Advances : Advances members quorum k s n (request (view quorum s n) promised)
  request-Advances = elim (request-cases (view quorum s n) promised) [
    | inl e ↦ kept-Advances _ e
    | inr (v, e, proposer, enough, value) ↦
        let c : NodeClaims = record promised { accepted = p; accepted_val = v } in
        elim (Bool-cases (valid p)) [
          | inr unreal ↦ rw e (taken-Advances c refl refl (inl (p-Fair.1 unreal)))
          | inl real ↦
              let supported =
                request-Supported members quorum k s n p safe p-Fair.0 p_above proposer real v
                  enough value in
              rw e (taken-Advances c refl refl (inr supported))
        ]
  ]

  pub new_claims-Advances : Advances members quorum k s n (new_claims (view quorum s n))
  unfolding new_claims our_claims own
  new_claims-Advances =
      follow-Advances (request (view quorum s n) promised)
        (request-promise (view quorum s n) promised) request-Advances
