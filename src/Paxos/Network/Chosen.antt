-- ===== src/Paxos/Network/Chosen.antt =====
-- What a quorum has accepted stays the only value.
use weave.Base.{
  ℕ, zero, suc, ◌+◌, ◌*◌, ◌≤◌, ◌<◌, ◌≡◌, refl, sym, ap, ◌∙◌, Bool, true, false, ◌&&◌, List, [], ◌∷◌,
  inl, inr, arith, Bool-cases, if◌then◌else◌, length,
}
use mathlib.Core.Path.{subst}
use weave.Paxos.{NodeId, ProposalId, no_proposal, same, same_node, precedes, valid}
use weave.Paxos.Order.{same-eq, same_node-eq, precedes_irrefl, precedes_trans, precedes_connected}
use weave.Paxos.Network.{Vote, Net}
use weave.Paxos.Network.Invariant.{
  AtMost, AtMost_antisymm, AtMost-no_proposal, Cast, tally, Grounded, IsSafe,
}
use weave.Paxos.Network.Requesting.{not-valid-zero}

-- two sides with more members than there are share one
overlap :
    (f g : NodeId → Bool) (is : List NodeId)
    → length is < tally f is + tally g is
    → (j : NodeId) × (f j ≡ true) × (g j ≡ true)
unfolding tally
overlap f g [] h = absurd (omega arith)
overlap f g (i ∷ is) h = elim (Bool-cases (f i)) [
  | inl a ↦ elim (Bool-cases (g i)) [
    | inl b ↦ (i, a, b)
    | inr b ↦ overlap f g is (let h' = (rw (a, b) at h) in omega arith)
  ]
  | inr a ↦ overlap f g is (let h' = (rw a at h) in ground arith)
]

-- how many votes are for earlier proposals
pub rank : ProposalId → List Vote → ℕ
rank p [] = 0
rank p (x ∷ log) = (if precedes x.proposal p then 1 else 0) + rank p log

rank_mono : (p r : ProposalId) (log : List Vote) → precedes p r ≡ true → rank p log ≤ rank r log
unfolding rank
rank_mono p r [] h = omega arith
rank_mono p r (x ∷ log) h = ground (arith, precedes_trans x.proposal p r, rank_mono p r log)

rank-lt :
    (w : Vote) (r : ProposalId) (log : List Vote)
    → Cast w log
    → precedes w.proposal r ≡ true
    → rank w.proposal log < rank r log
unfolding rank
rank-lt w r [] e h = elim e [ ]
rank-lt w r (x ∷ log) (inl e) h =
    let at : precedes x.proposal r ≡ true =
      subst (λ (y : Vote). precedes y.proposal r ≡ true) (sym e) h in
    let off : precedes x.proposal w.proposal ≡ false =
      subst (λ (y : Vote). precedes y.proposal w.proposal ≡ false) (sym e)
        (precedes_irrefl w.proposal) in
    rw (at, off) (omega (arith, rank_mono w.proposal r log h))
rank-lt w r (x ∷ log) (inr e) h =
    ground (arith, precedes_trans x.proposal w.proposal r, rank-lt w r log e h)

-- has the node accepted the proposal at some time?
unfoldable pub has_voted : ProposalId → List Vote → NodeId → Bool
unfolding same same_node
has_voted p [] i = false
has_voted p (x ∷ log) i =
    if same_node x.voter i && same x.proposal p then true else has_voted p log i

pub has_voted-Cast :
    (p : ProposalId) (log : List Vote) (i : NodeId)
    → has_voted p log i ≡ true
    → (w : Vote) × Cast w log × (w.voter ≡ i) × (w.proposal ≡ p)
unfolding has_voted
has_voted-Cast p [] i h = cc
has_voted-Cast p (x ∷ log) i h = elim (Bool-cases (same_node x.voter i)) [
  | inl a ↦ elim (Bool-cases (same x.proposal p)) [
    | inl b ↦ (x, inl refl, same_node-eq x.voter i a, same-eq x.proposal p b)
    | inr b ↦ let (w, e, f, g) = has_voted-Cast p log i (rw (a, b) at h) in (w, inr e, f, g)
  ]
  | inr a ↦ let (w, e, f, g) = has_voted-Cast p log i (rw a at h) in (w, inr e, f, g)
]

module _ (members : List NodeId) (quorum k : ℕ) (s : Net) (safe : IsSafe members quorum k s)
    (majority : length members < 2 * quorum) (p : ProposalId)
    (chosen : quorum ≤ tally (has_voted p s.log) members) where
  -- a later vote is grounded on one that is not before what a quorum has accepted
  base_after :
      (w : Vote) (g : Grounded members quorum s w.proposal w.value)
      → precedes p w.proposal ≡ true
      → AtMost p g.base
  base_after w g later =
      let (j, on, voted) = overlap g.side (has_voted p s.log) members (omega (arith, g.enough)) in
      let (y, y_cast, y_voter, y_is) = has_voted-Cast p s.log j voted in
      elim (g.silent y y_cast (ap g.side y_voter ∙ on)) [
        | inl below ↦ subst (λ (q : ProposalId). AtMost q g.base) y_is below
        | inr above ↦
            let not_later : precedes p w.proposal ≡ false =
              subst (λ (q : ProposalId). AtMost w.proposal q) y_is above in
            absurd cc
      ]

  pub agrees :
      (n : ℕ) (w x : Vote)
      → Cast w s.log
      → Cast x s.log
      → x.proposal ≡ p
      → AtMost p w.proposal
      → rank w.proposal s.log < n
      → w.value ≡ x.value
  agrees zero w x h l e up few = absurd (omega arith)
  agrees (suc n) w x h l e up few = elim (Bool-cases (precedes p w.proposal)) [
    | inr same ↦ safe.unique w x h l (precedes_connected w.proposal p up same ∙ sym e)
    | inl later ↦
        let g = (safe.honest w h).grounded in
        let after = base_after w g later in
        elim g.based [
          | inl none_before ↦
              let low : AtMost p no_proposal = rw (sym none_before) after in
              let is_zero = AtMost_antisymm p no_proposal low (AtMost-no_proposal p) in
              let r : valid p ≡ true = rw (sym e) (safe.honest x l).real in
              absurd (not-valid-zero p r is_zero)
          | inr (w', there, at, same_value) ↦
              let up' : AtMost p w'.proposal = rw at after in
              let below : precedes w'.proposal w.proposal ≡ true = rw at g.below in
              sym same_value
              ∙ agrees n w' x there l e up' (omega (arith, rank-lt w' w.proposal s.log there below))
        ]
  ]
