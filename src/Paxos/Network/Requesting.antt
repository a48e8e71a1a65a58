-- ===== src/Paxos/Network/Requesting.antt =====
-- The "Accept Request" step: the value that a proposer picks is safe.
use weave.Base.{
  ℕ, ◌≤◌, ◌≡◌, ◌≢◌, refl, sym, ap, ◌∙◌, Bool, true, false, List, [], ◌∷◌, ◌⊎◌, inl, inr, arith, All,
  some, Bool-cases, Option-cases,
}
use mathlib.Core.Path.{subst}
use weave.Paxos.{
  NodeId, ProposalId, AcceptedValue, NodeClaims, GossipState, no_proposal, no_claims, no_value,
  same, precedes, valid, find,
}
use weave.Paxos.Order.{same-eq, same_self, precedes_connected}
use weave.Paxos.Think.{or_zero, count_promised}
use weave.Paxos.Network.{Vote, Net, own}
use weave.Paxos.Network.Invariant.{
  AtMost, AtMost_antisymm, AtMost_trans, AtMost-no_proposal, Cast, vote, is_member, Known, Grounded,
  IsSafe,
}
use weave.Paxos.Network.Views.{All-find}
use weave.Paxos.Network.Counting.{Best, number-le-tally, passes, promises, count_promised-Best}

pub not-valid-zero : (p : ProposalId) → valid p ≡ true → p ≢ no_proposal
unfolding valid
not-valid-zero p h e = (let f : valid no_proposal ≡ true = (rw e at h) in cc)

pub members_of :
    (members : List NodeId) (quorum k : ℕ) (s : Net) (m : GossipState)
    → All (λ (e : NodeId × NodeClaims). Known members quorum k s e.0 e.1) m
    → All (λ (e : NodeId × NodeClaims). is_member e.0 members ≡ true) m
members_of members quorum k s [] h = tt
members_of members quorum k s ((i, c) ∷ m) h = (h.0.member, members_of members quorum k s m h.1)

module _ (members : List NodeId) (quorum k : ℕ) (s : Net) (n : NodeId) (p : ProposalId)
    (safe : IsSafe members quorum k s) (issued : AtMost p (own s p.proposer).promise)
    (above : AtMost (own s n).promise p) (mine : p.proposer ≡ n) (real : valid p ≡ true) where
  abbrev knows : GossipState
  knows = s.knows n

  abbrev counted : ℕ × ProposalId × AcceptedValue
  counted = count_promised p knows 0 no_proposal no_value

  best : Best (Known members quorum k s) p knows 0 no_proposal no_value counted
  best =
      count_promised-Best (Known members quorum k s) p knows 0 no_proposal no_value (safe.views n).1

  -- the latest accepted proposal is none, or somebody has accepted it
  best_cast :
      (counted.1 ≡ no_proposal)
      ⊎ ((w : Vote) × Cast w s.log × (w.proposal ≡ counted.1) × (w.value ≡ counted.2))
  best_cast = elim best.source [
    | inl (zero_is, val) ↦ inl zero_is
    | inr (i, c, h, promise, acc, val) ↦ elim h.voted [
      | inl e ↦ inl (sym acc ∙ e)
      | inr e ↦ inr (vote i c.accepted c.accepted_val, e, acc, val)
    ]
  ]

  best_below : AtMost counted.1 p
  best_below = elim best.source [
    | inl (zero_is, val) ↦ rw zero_is (AtMost-no_proposal p)
    | inr (i, c, h, promise, acc, val) ↦ rw (sym acc, sym promise) h.ordered
  ]

  -- a proposer that has voted for its proposal counts its own vote
  voted-best : (w : Vote) → Cast w s.log → w.proposal ≡ p → counted.1 ≡ p
  unfolding own
  voted-best w h e =
      let (x, x_cast, x_voter, x_proposal) = (safe.honest w h).first in
      let is_p : x.proposal ≡ p = x_proposal ∙ e in
      let by_n : x.voter ≡ n = x_voter ∙ ap (λ (q : ProposalId). q.proposer) e ∙ mine in
      let done : AtMost p (own s n).accepted =
        subst (λ (q : ProposalId). AtMost q (own s n).accepted) is_p
          (subst (λ (j : NodeId). AtMost x.proposal (own s j).accepted) by_n
            (safe.honest x x_cast).accepted) in
      let promised : AtMost p (own s n).promise =
        subst (λ (j : NodeId). AtMost p (own s j).promise) mine issued in
      elim (Option-cases (find n knows)) [
        | inl e' ↦
            let o : own s n ≡ no_claims = ap or_zero e' in
            let low : AtMost p no_proposal =
              subst (λ (d : NodeClaims). AtMost p d.promise) o promised in
            absurd
              (not-valid-zero p real (AtMost_antisymm p no_proposal low (AtMost-no_proposal p)))
        | inr (c, e') ↦
            let o : own s n ≡ c = ap or_zero e' in
            let up : AtMost p c.promise =
              subst (λ (d : NodeClaims). AtMost p d.promise) o promised in
            let down : AtMost c.promise p =
              subst (λ (d : NodeClaims). AtMost d.promise p) o above in
            let has : same c.promise p ≡ true =
              ap (λ (q : ProposalId). same q p) (AtMost_antisymm c.promise p down up)
              ∙ same_self p in
            let voted : AtMost p c.accepted =
              subst (λ (d : NodeClaims). AtMost p d.accepted) o done in
            AtMost_antisymm counted.1 p best_below
              (AtMost_trans p c.accepted counted.1 voted (best.best n c e' has))
      ]

  abbrev side : NodeId → Bool
  side i = passes (promises p) (find i knows)

  side-Known :
      (j : NodeId)
      → side j ≡ true
      → (c : NodeClaims) × (find j knows ≡ some c) × (c.promise ≡ p) × Known members quorum k s j c
  unfolding passes
  side-Known j h = elim (Option-cases (find j knows)) [
    | inl e ↦ absurd (let f : false ≡ true = (rw e at h) in cc)
    | inr (c, e) ↦
        let f : same c.promise p ≡ true = (rw e at h) in
        (
          c,
          e,
          same-eq c.promise p f,
          All-find (Known members quorum k s) j c knows (safe.views n).1 e,
        )
  ]

  -- a value may be asked for that is the one of the latest accepted proposal, or new if there is none
  pub request-Grounded :
      (v : AcceptedValue)
      → quorum ≤ counted.0
      → counted.1 ≢ p
      → (valid counted.1 ≡ true → counted.2 ≡ v)
      → Grounded members quorum s p v
  request-Grounded v enough apart value = record {
    side = side;
    base = counted.1;
    enough = omega (
      arith,
      best.counted,
      number-le-tally (promises p) members knows (safe.views n).0
          (members_of members quorum k s knows (safe.views n).1),
    );
    promised = λ j h.
        let (c, e, is_p, c_Known) = side-Known j h in
        subst (λ (q : ProposalId). AtMost q (own s j).promise) is_p c_Known.promised;
    below = elim (Bool-cases (precedes counted.1 p)) [
      | inl e ↦ e
      | inr e ↦ absurd (apart (precedes_connected counted.1 p e best_below))
    ];
    based = elim best_cast [
      | inl e ↦ inl e
      | inr (w, e, a, b) ↦
          let r : valid counted.1 ≡ true =
            subst (λ (q : ProposalId). valid q ≡ true) a (safe.honest w e).real in
          inr (w, e, a, b ∙ value r)
    ];
    silent = λ w e h.
        let (c, found, is_p, c_Known) = side-Known w.voter h in
        let has : same c.promise p ≡ true = ap (λ (q : ProposalId). same q p) is_p ∙ same_self p in
        elim (c_Known.kept w e refl) [
          | inl below ↦
              inl
                (AtMost_trans w.proposal c.accepted counted.1 below (best.best w.voter c found has))
          | inr over ↦ inr (subst (λ (q : ProposalId). AtMost q w.proposal) is_p over)
        ];
  }

  -- what may be accepted under the proposal
  abbrev pub Supported : AcceptedValue → Type 0
  Supported v =
      ((w : Vote) × Cast w s.log × (w.proposal ≡ p) × (w.value ≡ v))
      ⊎ ((valid p ≡ true)
          × (p.proposer ≡ n)
          × ((w : Vote) → Cast w s.log → w.proposal ≢ p)
          × Grounded members quorum s p v)

  pub request-Supported :
      (v : AcceptedValue)
      → quorum ≤ counted.0
      → (valid counted.1 ≡ true → counted.2 ≡ v)
      → Supported v
  request-Supported v enough value = elim (Bool-cases (same counted.1 p)) [
    | inl e ↦
        let acc_is : counted.1 ≡ p = same-eq counted.1 p e in
        elim best_cast [
          | inl zero_is ↦ absurd (not-valid-zero p real (sym acc_is ∙ zero_is))
          | inr (w, there, a, b) ↦
              let r : valid counted.1 ≡ true = ap valid acc_is ∙ real in
              inl (w, there, a ∙ acc_is, b ∙ value r)
        ]
    | inr e ↦
        let apart : counted.1 ≢ p = λ q.
          (let f : same p p ≡ false = subst (λ (r : ProposalId). same r p ≡ false) q e in
            let t = same_self p in cc) in
        inr (real, mine, λ w h q. apart (voted-best w h q), request-Grounded v enough apart value)
  ]
