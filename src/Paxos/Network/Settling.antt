-- ===== src/Paxos/Network/Settling.antt =====
-- A node changes its own claims: when the network stays safe.
use weave.Base.{
  ℕ, suc, ◌≤◌, ◌≡◌, ◌≢◌, refl, sym, ap, ◌∙◌, true, false, List, ◌⊎◌, inl, inr, arith, Bool-cases,
  Option-cases, if◌then◌else◌,
}
use mathlib.Core.Path.{subst}
use weave.Paxos.{
  NodeId, ProposalId, NodeClaims, GossipState, no_proposal, no_claims, same_node, valid, find,
}
use weave.Paxos.Think.{or_zero}
use weave.Paxos.Order.{same_node-eq, same_node_self}
use weave.Paxos.Network.{Vote, Net, own, set_view, record_vote}
use weave.Paxos.Network.Invariant.{
  AtMost, AtMost_refl, AtMost_trans, AtMost-no_proposal, Cast, vote, is_member, Known, AllKnown,
  Grounded, Honest, IsSafe,
}
use weave.Paxos.Network.Growth.{Grows, AllKnown-Grows, sent-Grows, Grounded-Grows, Honest-Grows}
use weave.Paxos.Network.Views.{All-find}

-- the network after node `n` knows `m` instead
unfoldable pub settled : NodeId → GossipState → Net → Net
unfolding set_view record_vote
settled n m s = record {
  knows = set_view n m s.knows;
  sent = s.sent;
  log = record_vote n (or_zero (find n m)) s.log;
}

pub own-settled :
    (n : NodeId) (m : GossipState) (s : Net) (i : NodeId)
    → own (settled n m s) i ≡ (if same_node n i then or_zero (find n m) else own s i)
unfolding own settled set_view
own-settled n m s i = elim (Bool-cases (same_node n i)) [
  | inl e ↦ rw e (ap (λ j. or_zero (find j m)) (sym (same_node-eq n i e)))
  | inr e ↦ rw e refl
]

module _ (members : List NodeId) (quorum : ℕ) where
  -- the claims that a node may take
  pub record Advances (k : ℕ) (s : Net) (n : NodeId) (c : NodeClaims) : Type 0 where
    pub promise : AtMost (own s n).promise c.promise
    pub accepted : AtMost (own s n).accepted c.accepted
    pub ordered : AtMost c.accepted c.promise
    pub issued : AtMost c.promise (own s c.promise.proposer).promise ⊎ (c.promise.proposer ≡ n)
    pub real : valid c.promise ≡ false → c.promise ≡ no_proposal
    pub bounded : c.promise.round ≤ suc k
    pub timely :
        valid c.accepted ≡ true
        → Cast (vote n c.accepted c.accepted_val) s.log ⊎ AtMost (own s n).promise c.accepted
    pub choice :
        (c.accepted ≡ no_proposal)
        ⊎ ((w : Vote) × Cast w s.log × (w.proposal ≡ c.accepted) × (w.value ≡ c.accepted_val))
        ⊎ ((valid c.accepted ≡ true)
            × (c.accepted.proposer ≡ n)
            × ((w : Vote) → Cast w s.log → w.proposal ≢ c.accepted)
            × Grounded members quorum s c.accepted c.accepted_val)

  pub no_claims-Known :
      (k : ℕ) (s : Net) (i : NodeId)
      → is_member i members ≡ true
      → Known members quorum k s i no_claims
  no_claims-Known k s i m = record {
    member = m;
    promised = AtMost-no_proposal _;
    issued = AtMost-no_proposal _;
    real = λ h. refl;
    ordered = AtMost_refl no_proposal;
    bounded = omega arith;
    voted = inl refl;
    kept = λ w e same. inr (AtMost-no_proposal w.proposal);
  }

  pub own-Known :
      (k : ℕ) (s : Net) (i : NodeId)
      → is_member i members ≡ true
      → AllKnown members quorum k s (s.knows i)
      → Known members quorum k s i (own s i)
  unfolding own
  own-Known k s i m h = elim (Option-cases (find i (s.knows i))) [
    | inl e ↦ rw e (no_claims-Known k s i m)
    | inr (c, e) ↦ rw e (All-find (Known members quorum k s) i c (s.knows i) h.1 e)
  ]

  module _ (k : ℕ) (s : Net) (n : NodeId) (m : GossipState) (safe : IsSafe members quorum k s)
      (member : is_member n members ≡ true) (adv : Advances k s n (or_zero (find n m))) where
    abbrev c : NodeClaims
    c = or_zero (find n m)

    abbrev t : Net
    t = settled n m s

    own_here : own t n ≡ c
    own_here = rw (own-settled n m s n, same_node_self n) refl

    old_cast : (w : Vote) → Cast w s.log → Cast w t.log
    unfolding settled record_vote
    old_cast w h = elim (Bool-cases (valid c.accepted)) [ inl e ↦ rw e (inr h) | inr e ↦ rw e h ]

    new_cast :
        (w : Vote)
        → Cast w t.log
        → ((valid c.accepted ≡ true) × (vote n c.accepted c.accepted_val ≡ w)) ⊎ Cast w s.log
    unfolding settled record_vote
    new_cast w h = elim (Bool-cases (valid c.accepted)) [
      | inl e ↦
          let h' : (vote n c.accepted c.accepted_val ≡ w) ⊎ Cast w s.log = (rw e at h) in
          elim h' [ inl this ↦ inl (e, this) | inr old ↦ inr old ]
      | inr e ↦ inr (rw e at h)
    ]

    pub settled-Grows : Grows s t
    settled-Grows = record {
      promise = λ i. elim (Bool-cases (same_node n i)) [
        | inl e ↦
            rw (own-settled n m s i, e)
              (subst (λ (j : NodeId). AtMost (own s j).promise c.promise) (same_node-eq n i e)
                adv.promise)
        | inr e ↦ rw (own-settled n m s i, e) (AtMost_refl (own s i).promise)
      ];
      accepted = λ i. elim (Bool-cases (same_node n i)) [
        | inl e ↦
            rw (own-settled n m s i, e)
              (subst (λ (j : NodeId). AtMost (own s j).accepted c.accepted) (same_node-eq n i e)
                adv.accepted)
        | inr e ↦ rw (own-settled n m s i, e) (AtMost_refl (own s i).accepted)
      ];
      cast = old_cast;
      fresh = λ w h. elim (new_cast w h) [
        | inr old ↦ inl old
        | inl (real, this) ↦
            subst (λ (x : Vote). Cast x s.log ⊎ AtMost (own s x.voter).promise x.proposal) this
              (adv.timely real)
      ];
    }

    real_vote : valid c.accepted ≡ true → c.accepted ≢ no_proposal
    unfolding valid
    real_vote h e = (let f : valid no_proposal ≡ true = (rw e at h) in cc)

    claims_real : valid c.accepted ≡ false → c.accepted ≡ no_proposal
    claims_real h = elim adv.choice [
      | inl zero_is ↦ zero_is
      | inr (inl (w, e, p, v)) ↦
          let r : valid w.proposal ≡ true = (safe.honest w e).real in
          let f : valid w.proposal ≡ false = rw p h in absurd cc
      | inr (inr (r, mine, none_yet, g)) ↦ absurd cc
    ]

    this_cast : valid c.accepted ≡ true → Cast (vote n c.accepted c.accepted_val) t.log
    unfolding settled record_vote
    this_cast e = rw e (inl refl)

    new_Known : Known members quorum (suc k) t n c
    new_Known = record {
      member = member;
      promised = rw own_here (AtMost_refl c.promise);
      issued = elim adv.issued [
        | inl old ↦
            let j = c.promise.proposer in
            AtMost_trans c.promise (own s j).promise _ old (settled-Grows.promise j)
        | inr e ↦ rw (e, own_here) (AtMost_refl c.promise)
      ];
      real = adv.real;
      ordered = adv.ordered;
      bounded = adv.bounded;
      voted = elim (Bool-cases (valid c.accepted)) [
        | inl e ↦ inr (this_cast e)
        | inr e ↦ inl (claims_real e)
      ];
      kept = λ w h same. elim (new_cast w h) [
        | inr old ↦
            let below : AtMost w.proposal (own s n).accepted =
              subst (λ (j : NodeId). AtMost w.proposal (own s j).accepted) same
                (safe.honest w old).accepted in
            inl (AtMost_trans w.proposal (own s n).accepted c.accepted below adv.accepted)
        | inl (real, this) ↦
            inl (subst (λ (x : Vote). AtMost x.proposal c.accepted) this (AtMost_refl c.accepted))
      ];
    }

    new_Honest :
        valid c.accepted ≡ true → Honest members quorum t (vote n c.accepted c.accepted_val)
    new_Honest real = record {
      real = real;
      accepted = rw own_here (AtMost_refl c.accepted);
      first = elim adv.choice [
        | inl zero_is ↦ absurd (real_vote real zero_is)
        | inr (inl (w, e, p, v)) ↦
            let (x, x_cast, x_voter, x_proposal) = (safe.honest w e).first in
            (x, old_cast x x_cast, x_voter ∙ ap (λ (q : ProposalId). q.proposer) p, x_proposal ∙ p)
        | inr (inr (r, mine, none_yet, g)) ↦
            (vote n c.accepted c.accepted_val, this_cast real, sym mine, refl)
      ];
      grounded = elim adv.choice [
        | inl zero_is ↦ absurd (real_vote real zero_is)
        | inr (inl (w, e, p, v)) ↦
            let g =
              Grounded-Grows members quorum k s t settled-Grows w.proposal w.value
                (safe.honest w e).grounded in
            rw (sym p, sym v) g
        | inr (inr (r, mine, none_yet, g)) ↦
            Grounded-Grows members quorum k s t settled-Grows c.accepted c.accepted_val g
      ];
    }

    all_Honest : (w : Vote) → Cast w t.log → Honest members quorum t w
    all_Honest w h = elim (new_cast w h) [
      | inr old ↦ Honest-Grows members quorum k s t settled-Grows w (safe.honest w old)
      | inl (real, this) ↦ subst (λ (x : Vote). Honest members quorum t x) this (new_Honest real)
    ]

    -- a vote that was there and the new one agree
    new_unique :
        valid c.accepted ≡ true
        → (x : Vote) → Cast x s.log
        → x.proposal ≡ c.accepted
        → x.value ≡ c.accepted_val
    new_unique real x h e = elim adv.choice [
      | inl zero_is ↦ absurd (real_vote real zero_is)
      | inr (inl (w, there, p, v)) ↦ safe.unique x w h there (e ∙ sym p) ∙ v
      | inr (inr (r, mine, none_yet, g)) ↦ absurd (none_yet x h e)
    ]

    all_unique :
        (w x : Vote) → Cast w t.log → Cast x t.log → w.proposal ≡ x.proposal → w.value ≡ x.value
    all_unique w x h l e = elim (new_cast w h) [
      | inr old ↦ elim (new_cast x l) [
        | inr old' ↦ safe.unique w x old old' e
        | inl (real, this) ↦
            let at : w.proposal ≡ c.accepted = e ∙ ap (λ (y : Vote). y.proposal) (sym this) in
            new_unique real w old at ∙ ap (λ (y : Vote). y.value) this
      ]
      | inl (real, this) ↦ elim (new_cast x l) [
        | inr old' ↦
            let at : x.proposal ≡ c.accepted = sym e ∙ ap (λ (y : Vote). y.proposal) (sym this) in
            ap (λ (y : Vote). y.value) (sym this) ∙ sym (new_unique real x old' at)
        | inl (real', this') ↦ ap (λ (y : Vote). y.value) (sym this ∙ this')
      ]
    ]

    pub settled-IsSafe :
        (Known members quorum (suc k) t n c → AllKnown members quorum (suc k) t m)
        → IsSafe members quorum (suc k) t
    unfolding settled set_view
    settled-IsSafe view_known = record {
      views = λ i. elim (Bool-cases (same_node n i)) [
        | inl e ↦ rw e (view_known new_Known)
        | inr e ↦
            rw e (AllKnown-Grows members quorum k s t settled-Grows (s.knows i) (safe.views i))
      ];
      sent = sent-Grows members quorum k s t settled-Grows s.sent safe.sent;
      honest = all_Honest;
      unique = all_unique;
    }
