-- ===== src/Paxos/Network/Moving.antt =====
-- Every move keeps the network safe.
use weave.Base.{
  ℕ, zero, suc, ◌+◌, ◌%◌, ◌^◌, ◌≤◌, ◌<◌, ◌≡◌, refl, sym, ap, true, false, List, [], ◌∷◌, inl, inr,
  arith, All, Option, none, some, Bool-cases, Option-cases, if◌then◌else◌, ◌==◌, max, get_elem?,
  length,
}
use mathlib.Core.Path.{subst}
use weave.Paxos.{
  NodeId, ProposalId, NodeClaims, GossipState, precedes, valid, find, put, equals, learn_all,
  update_node, same_node,
}
use weave.Paxos.Agreement.{our_claims-put}
use weave.Paxos.Gossip.{IsMap, find-learn_all}
use weave.Paxos.Order.{same_node-eq}
use weave.Paxos.Think.{or_zero, our_claims, highest_round, new_claims, think, propose}
use weave.Paxos.Network.{
  Net, Move, gossips, thinks, proposes, hears, mover, start, own, view, become, set_view, hear,
  proposed, move, run,
}
use weave.Paxos.Network.Growth.{Grows, AllKnown-Grows, sent-Grows, Honest-Grows}
use weave.Paxos.Network.Hearing.{join_known-AtMost, learn_all-AllKnown}
use weave.Paxos.Network.Invariant.{AtMost, AtMost_refl, is_member, Known, AllKnown, IsSafe}
use weave.Paxos.Network.Settling.{Advances, settled, settled-IsSafe, settled-Grows, own-Known}
use weave.Paxos.Network.Thinking.{raised-Advances, new_claims-Advances}
use weave.Paxos.Network.Views.{put-IsMap, All-put}

module _ (members : List NodeId) (quorum k : ℕ) (s : Net) (safe : IsSafe members quorum k s) where
  -- a network whose nodes know more, with no vote more
  quiet-IsSafe :
      (t : Net)
      → Grows s t
      → t.log ≡ s.log
      → ((i : NodeId) → AllKnown members quorum (suc k) t (t.knows i))
      → All (AllKnown members quorum (suc k) t) t.sent
      → IsSafe members quorum (suc k) t
  quiet-IsSafe t g e views sent = record {
    views = views;
    sent = sent;
    honest = λ w h. Honest-Grows members quorum k s t g w (safe.honest w (rw e at h));
    unique = λ w x h l. safe.unique w x (rw e at h) (rw e at l);
  }

  gossips-IsSafe :
      (n : NodeId) → IsSafe members quorum (suc k) (record s { sent = s.knows n ∷ s.sent })
  unfolding own
  gossips-IsSafe n =
      let t : Net = record s { sent = s.knows n ∷ s.sent } in
      let g : Grows s t = record {
        promise = λ i. AtMost_refl (own s i).promise;
        accepted = λ i. AtMost_refl (own s i).accepted;
        cast = λ w h. h;
        fresh = λ w h. inl h;
      } in
      quiet-IsSafe t g refl (λ i. AllKnown-Grows members quorum k s t g (s.knows i) (safe.views i))
        (
          AllKnown-Grows members quorum k s t g (s.knows n) (safe.views n),
          sent-Grows members quorum k s t g s.sent safe.sent,
        )

  put-IsSafe :
      (n : NodeId) (c : NodeClaims)
      → is_member n members ≡ true
      → Advances members quorum k s n c
      → IsSafe members quorum (suc k) (settled n (put n c (s.knows n)) s)
  unfolding our_claims
  put-IsSafe n c member adv =
      let m = put n c (s.knows n) in
      let e : or_zero (find n m) ≡ c = our_claims-put (view quorum s n) c in
      let adv' = subst (Advances members quorum k s n) (sym e) adv in
      let g = settled-Grows members quorum k s n m safe member adv' in
      let all = AllKnown-Grows members quorum k s (settled n m s) g (s.knows n) (safe.views n) in
      settled-IsSafe members quorum k s n m safe member adv' (λ h. (
        put-IsMap n c (s.knows n) all.0,
        All-put (Known members quorum (suc k) (settled n m s)) n c (s.knows n) (rw e at h) all.1,
      ))

  unchanged-IsSafe :
      (n : NodeId)
      → is_member n members ≡ true
      → IsSafe members quorum (suc k) (settled n (s.knows n) s)
  unfolding own
  unchanged-IsSafe n member =
      let mine = own s n in
      let known = own-Known members quorum k s n member (safe.views n) in
      let adv =
        raised-Advances members quorum k s n safe member mine.promise (AtMost_refl mine.promise)
          (inl known.issued) known.real (omega (arith, known.bounded)) in
      let g = settled-Grows members quorum k s n (s.knows n) safe member adv in
      settled-IsSafe members quorum k s n (s.knows n) safe member adv (λ h.
        AllKnown-Grows members quorum k s (settled n (s.knows n) s) g (s.knows n) (safe.views n))

  thinks-IsSafe :
      (n : NodeId)
      → is_member n members ≡ true
      → IsSafe members quorum (suc k) (become (think (view quorum s n)).0 s)
  unfolding think become settled our_claims
  thinks-IsSafe n member =
      let node = view quorum s n in
      elim (Bool-cases (equals (new_claims node) (our_claims node))) [
        | inl e ↦ rw e (unchanged-IsSafe n member)
        | inr e ↦ rw e (
            put-IsSafe n (new_claims node) member
              (new_claims-Advances members quorum k s n safe member))
      ]

  own-heard :
      (n : NodeId) (m : GossipState) (i : NodeId)
      → own (record s { knows = set_view n m s.knows }) i
        ≡ (if same_node n i then or_zero (find i m) else own s i)
  unfolding own set_view
  own-heard n m i = elim (Bool-cases (same_node n i)) [ inl e ↦ rw e refl | inr e ↦ rw e refl ]

  heard-AtMost :
      (n : NodeId) (m : GossipState)
      → IsMap m
      → (i : NodeId) → same_node n i ≡ true
      → AtMost (own s i).promise (or_zero (find i (learn_all (s.knows n) m).0)).promise
        × AtMost (own s i).accepted (or_zero (find i (learn_all (s.knows n) m).0)).accepted
  unfolding own
  heard-AtMost n m d i e =
      let m' = (learn_all (s.knows n) m).0 in
      subst
        (λ (j : NodeId).
          AtMost (own s j).promise (or_zero (find j m')).promise
          × AtMost (own s j).accepted (or_zero (find j m')).accepted)
        (same_node-eq n i e)
        (rw (find-learn_all n (s.knows n) m d) (join_known-AtMost (find n (s.knows n)) (find n m)))

  still-Grows : Grows s s
  still-Grows = record {
    promise = λ i. AtMost_refl (own s i).promise;
    accepted = λ i. AtMost_refl (own s i).accepted;
    cast = λ w h. h;
    fresh = λ w h. inl h;
  }

  still-IsSafe : IsSafe members quorum (suc k) s
  still-IsSafe =
      quiet-IsSafe s still-Grows refl
        (λ i. AllKnown-Grows members quorum k s s still-Grows (s.knows i) (safe.views i))
        (sent-Grows members quorum k s s still-Grows s.sent safe.sent)

  hear-IsSafe :
      (n : NodeId) (o : Option GossipState)
      → ((m : GossipState) → o ≡ some m → AllKnown members quorum k s m)
      → IsSafe members quorum (suc k) (hear quorum n o s)
  unfolding hear update_node set_view
  hear-IsSafe n none h = still-IsSafe
  hear-IsSafe n (some m) h =
      let m' = (learn_all (s.knows n) m).0 in
      let heard = h m refl in
      let t : Net = record s { knows = set_view n m' s.knows } in
      let raised : (i : NodeId)
          → same_node n i ≡ true
          → AtMost (own s i).promise (or_zero (find i m')).promise
            × AtMost (own s i).accepted (or_zero (find i m')).accepted =
        heard-AtMost n m heard.0 in
      let g : Grows s t = record {
        promise = λ i. elim (Bool-cases (same_node n i)) [
          | inl e ↦ rw (own-heard n m' i, e) (raised i e).0
          | inr e ↦ rw (own-heard n m' i, e) (AtMost_refl (own s i).promise)
        ];
        accepted = λ i. elim (Bool-cases (same_node n i)) [
          | inl e ↦ rw (own-heard n m' i, e) (raised i e).1
          | inr e ↦ rw (own-heard n m' i, e) (AtMost_refl (own s i).accepted)
        ];
        cast = λ w h. h;
        fresh = λ w h. inl h;
      } in
      let all = learn_all-AllKnown members quorum k s (s.knows n) m (safe.views n) heard in
      quiet-IsSafe t g refl
        (λ i. elim (Bool-cases (same_node n i)) [
          | inl e ↦ rw e (AllKnown-Grows members quorum k s t g m' all)
          | inr e ↦ rw e (AllKnown-Grows members quorum k s t g (s.knows i) (safe.views i))
        ])
        (sent-Grows members quorum k s t g s.sent safe.sent)

AtMost-round : (p r : ProposalId) → AtMost p r → p.round ≤ r.round
unfolding precedes
AtMost-round p r h = ground arith

round-AtMost : (p r : ProposalId) → p.round < r.round → AtMost p r
unfolding precedes
round-AtMost p r h = ground arith

valid-positive : (r : ProposalId) → 0 < r.round → valid r ≡ true
unfolding valid
valid-positive r h = ground arith

highest_round-start : (r : ℕ) (m : GossipState) → r ≤ highest_round r m
unfolding highest_round
highest_round-start r [] = omega arith
highest_round-start r ((i, c) ∷ m) =
    omega (arith, highest_round-start (max (max r c.promise.round) c.accepted.round) m)

highest_round-find :
    (r : ℕ) (m : GossipState) (i : NodeId) (c : NodeClaims)
    → find i m ≡ some c
    → c.promise.round ≤ highest_round r m
unfolding highest_round find
highest_round-find r [] i c h = cc
highest_round-find r ((j, d) ∷ m) i c h = elim (Bool-cases (same_node j i)) [
  | inl e ↦
      let at : some d ≡ some c = (rw e at h) in
      let got : d ≡ c = cc in
      let same : d.promise.round ≡ c.promise.round = ap (λ (x : NodeClaims). x.promise.round) got in
      omega (arith, same, highest_round-start (max (max r d.promise.round) d.accepted.round) m)
  | inr e ↦ highest_round-find (max (max r d.promise.round) d.accepted.round) m i c (rw e at h)
]

module _ (members : List NodeId) (quorum k : ℕ) (s : Net) (safe : IsSafe members quorum k s) where
  highest_round-le :
      (r : ℕ) (m : GossipState)
      → r ≤ k
      → All (λ (e : NodeId × NodeClaims). Known members quorum k s e.0 e.1) m
      → highest_round r m ≤ k
  unfolding highest_round
  highest_round-le r [] h l = h
  highest_round-le r ((i, c) ∷ m) h l =
      let a = AtMost-round c.accepted c.promise l.0.ordered in
      highest_round-le (max (max r c.promise.round) c.accepted.round) m
        (omega (arith, a, l.0.bounded)) l.1

  own-round : (n : NodeId) → (own s n).promise.round ≤ highest_round 0 (s.knows n)
  unfolding own
  own-round n = elim (Option-cases (find n (s.knows n))) [
    | inl e ↦ rw e (omega arith)
    | inr (c, e) ↦ rw e (highest_round-find 0 (s.knows n) n c e)
  ]

  proposes-IsSafe :
      (n : NodeId)
      → is_member n members ≡ true
      → 1 < quorum
      → suc k < 2 ^ 64
      → IsSafe members quorum (suc k) (proposed (propose (view quorum s n)) s)
  unfolding proposed propose become settled own our_claims
  proposes-IsSafe n member many few =
      let low = highest_round-le 0 (s.knows n) (omega arith) (safe.views n).1 in
      let r : ProposalId = record {
        round = (highest_round 0 (s.knows n) + 1) % 2 ^ 64;
        proposer = n;
      } in
      let exact : r.round ≡ highest_round 0 (s.knows n) + 1 = omega arith in
      let below = own-round n in
      let positive : (quorum == 0) ≡ false = ground arith in
      let several : (quorum == 1) ≡ false = ground arith in
      let adv =
        raised-Advances members quorum k s n safe member r
          (round-AtMost (own s n).promise r (omega (arith, exact, below))) (inr refl)
          (λ h. absurd (let v = valid-positive r (omega (arith, exact)) in cc))
          (omega (arith, exact)) in
      rw (positive, several)
        (put-IsSafe members quorum k s safe n (record (own s n) { promise = r }) member adv)

get_elem?-All :
    (P : GossipState → Type 0) (ms : List GossipState) (k : ℕ) (m : GossipState)
    → All P ms
    → get_elem? ms k ≡ some m
    → P m
get_elem?-All P [] k m h e = cc
get_elem?-All P (x ∷ ms) zero m h e = subst P (cc) h.0
get_elem?-All P (x ∷ ms) (suc k) m h e = get_elem?-All P ms k m h.1 e

-- the movers are members
abbrev pub AreMembers : List NodeId → List Move → Type 0
AreMembers members moves = All (λ (m : Move). is_member (mover m) members ≡ true) moves

module _ (members : List NodeId) (quorum : ℕ) (many : 1 < quorum) where
  move-IsSafe :
      (m : Move) (k : ℕ) (s : Net)
      → is_member (mover m) members ≡ true
      → suc k < 2 ^ 64
      → IsSafe members quorum k s
      → IsSafe members quorum (suc k) (move quorum m s)
  unfolding move
  move-IsSafe (gossips n) k s member few safe = gossips-IsSafe members quorum k s safe n
  move-IsSafe (thinks n) k s member few safe = thinks-IsSafe members quorum k s safe n member
  move-IsSafe (proposes n) k s member few safe =
      proposes-IsSafe members quorum k s safe n member many few
  move-IsSafe (hears n i) k s member few safe =
      hear-IsSafe members quorum k s safe n (get_elem? s.sent i)
        (λ m e. get_elem?-All (AllKnown members quorum k s) s.sent i m safe.sent e)

  run-IsSafe :
      (moves : List Move) (k : ℕ) (s : Net)
      → AreMembers members moves
      → k + length moves < 2 ^ 64
      → IsSafe members quorum k s
      → IsSafe members quorum (k + length moves) (run quorum moves s)
  unfolding run
  run-IsSafe [] k s h few safe = subst (λ (j : ℕ). IsSafe members quorum j s) (omega arith) safe
  run-IsSafe (m ∷ moves) k s h few safe =
      subst (λ (j : ℕ). IsSafe members quorum j (run quorum moves (move quorum m s))) (omega arith)
        (run-IsSafe moves (suc k) (move quorum m s) h.1 (omega arith)
          (move-IsSafe m k s h.0 (omega arith) safe))

  start-IsSafe : IsSafe members quorum 0 start
  start-IsSafe = record {
    views = λ i. (tt, tt);
    sent = tt;
    honest = λ w h. elim h [ ];
    unique = λ w x h l e. elim h [ ];
  }

  pub reached-IsSafe :
      (moves : List Move)
      → AreMembers members moves
      → length moves < 2 ^ 64
      → IsSafe members quorum (length moves) (run quorum moves start)
  reached-IsSafe moves h few =
      subst (λ (j : ℕ). IsSafe members quorum j (run quorum moves start)) (omega arith)
        (run-IsSafe moves 0 start h (omega arith) start-IsSafe)
