-- ===== src/Paxos/Network/Agreement.antt =====
-- Two nodes that each know of a quorum behind a proposal know the same value.
use weave.Base.{
  ℕ, suc, ◌+◌, ◌*◌, ◌^◌, ◌≤◌, ◌<◌, ◌≡◌, refl, sym, ◌∙◌, Bool, true, false, List, [], ◌∷◌, ◌++◌, inl,
  inr, arith, some, none, Option, Option-cases, Bool-cases, length, length-append, Run, ok, err,
  panic, get_elem?,
}
use mathlib.Core.Path.{subst}
use weave.Paxos.{NodeId, ProposalId, NodeClaims, GossipState, Node, same, precedes, valid, find}
use weave.Paxos.Order.{same-eq, same_self, same_node_self}
use weave.Paxos.Think.{our_claims, think, propose}
use weave.Paxos.Network.{
  Vote, Net, Move, gossips, thinks, proposes, hears, start, view, record_vote, become, hear,
  proposed, move, run,
}
use weave.Paxos.Network.Chosen.{has_voted, has_voted-Cast, rank, agrees}
use weave.Paxos.Network.Counting.{number, passes, number-le-tally, tally_mono}
use weave.Paxos.Network.Invariant.{AtMost, Cast, vote, tally, Known, IsSafe, precedes-AtMost}
use weave.Paxos.Network.Moving.{AreMembers, reached-IsSafe}
use weave.Paxos.Network.Requesting.{members_of, not-valid-zero}
use weave.Paxos.Network.Views.{All-find}

-- the node has accepted exactly this proposal
abbrev pub accepts : ProposalId → NodeClaims → Bool
accepts p c = same c.accepted p

record_vote-Cast :
    (n : NodeId) (c : NodeClaims) (w : Vote) (log : List Vote)
    → Cast w log
    → Cast w (record_vote n c log)
unfolding record_vote
record_vote-Cast n c w log h = elim (Bool-cases (valid c.accepted)) [
  | inl e ↦ rw e (inr h)
  | inr e ↦ rw e h
]

hear-Cast :
    (quorum : ℕ) (n : NodeId) (o : Option GossipState) (s : Net) (w : Vote)
    → Cast w s.log
    → Cast w (hear quorum n o s).log
unfolding hear
hear-Cast quorum n none s w h = h
hear-Cast quorum n (some m) s w h = h

proposed-Cast : (r : Run Unit Node) (s : Net) (w : Vote) → Cast w s.log → Cast w (proposed r s).log
unfolding proposed become
proposed-Cast (ok node) s w h = record_vote-Cast node.id (our_claims node) w s.log h
proposed-Cast (err e) s w h = h
proposed-Cast panic s w h = h

-- no vote is lost
run-Cast :
    (quorum : ℕ) (moves : List Move) (s : Net) (w : Vote)
    → Cast w s.log
    → Cast w (run quorum moves s).log
unfolding run move become
run-Cast quorum [] s w h = h
run-Cast quorum (gossips n ∷ moves) s w h = run-Cast quorum moves _ w h
run-Cast quorum (thinks n ∷ moves) s w h = run-Cast quorum moves _ w (
    record_vote-Cast (think (view quorum s n)).0.id (our_claims (think (view quorum s n)).0) w s.log
      h)
run-Cast quorum (proposes n ∷ moves) s w h =
    run-Cast quorum moves _ w (proposed-Cast (propose (view quorum s n)) s w h)
run-Cast quorum (hears n k ∷ moves) s w h =
    run-Cast quorum moves _ w (hear-Cast quorum n (get_elem? s.sent k) s w h)

Cast-has_voted : (w : Vote) (log : List Vote) → Cast w log → has_voted w.proposal log w.voter ≡ true
unfolding has_voted
Cast-has_voted w [] h = elim h [ ]
Cast-has_voted w (x ∷ log) (inl e) =
    subst (λ (y : Vote). has_voted y.proposal (x ∷ log) y.voter ≡ true) e
      (rw (same_node_self x.voter, same_self x.proposal) refl)
Cast-has_voted w (x ∷ log) (inr h) = ground (arith, Cast-has_voted w log h)

module _ (members : List NodeId) (quorum k : ℕ) (s : Net) (safe : IsSafe members quorum k s)
    (i : NodeId) (p : ProposalId) (real : valid p ≡ true) where
  -- who is known to have accepted the proposal has voted for it
  known-Cast :
      (a : NodeId) (c : NodeClaims)
      → find a (s.knows i) ≡ some c
      → c.accepted ≡ p
      → Cast (vote a p c.accepted_val) s.log
  known-Cast a c e at =
      let known = All-find (Known members quorum k s) a c (s.knows i) (safe.views i).1 e in
      elim known.voted [
        | inl none_yet ↦ absurd (not-valid-zero p real (sym at ∙ none_yet))
        | inr cast ↦ subst (λ (q : ProposalId). Cast (vote a q c.accepted_val) s.log) at cast
      ]

  known-quorum :
      quorum ≤ number (accepts p) (s.knows i) → quorum ≤ tally (has_voted p s.log) members
  unfolding passes
  known-quorum h =
      let count =
        number-le-tally (accepts p) members (s.knows i) (safe.views i).0
          (members_of members quorum k s (s.knows i) (safe.views i).1) in
      let more =
        tally_mono (λ a. passes (accepts p) (find a (s.knows i))) (has_voted p s.log) members
          (λ a t. elim (Option-cases (find a (s.knows i))) [
            | inl e ↦ absurd (let f : false ≡ true = (rw e at t) in cc)
            | inr (c, e) ↦
                let f : same c.accepted p ≡ true = (rw e at t) in
                Cast-has_voted (vote a p c.accepted_val) s.log
                  (known-Cast a c e (same-eq c.accepted p f))
          ]) in
      omega (arith, count, more)

-- a vote under what a quorum has accepted, or later, is for the same value
module _ (members : List NodeId) (quorum k : ℕ) (s : Net) (safe : IsSafe members quorum k s)
    (majority : length members < 2 * quorum) where
  later-agrees :
      (w x : Vote)
      → Cast w s.log
      → Cast x s.log
      → quorum ≤ tally (has_voted x.proposal s.log) members
      → AtMost x.proposal w.proposal
      → w.value ≡ x.value
  later-agrees w x h l chosen up =
      agrees members quorum k s safe majority x.proposal chosen (suc (rank w.proposal s.log)) w x h
        l refl up (omega arith)

  pub chosen-agree :
      (w x : Vote)
      → Cast w s.log
      → Cast x s.log
      → quorum ≤ tally (has_voted w.proposal s.log) members
      → quorum ≤ tally (has_voted x.proposal s.log) members
      → w.value ≡ x.value
  chosen-agree w x h l cw cx = elim (Bool-cases (precedes w.proposal x.proposal)) [
    | inr up ↦ later-agrees w x h l cx up
    | inl e ↦ sym (later-agrees x w l h cw (precedes-AtMost w.proposal x.proposal e))
  ]

has_voted-run :
    (members : List NodeId) (quorum : ℕ) (moves : List Move) (s : Net) (p : ProposalId)
    → tally (has_voted p s.log) members ≤ tally (has_voted p (run quorum moves s).log) members
has_voted-run members quorum moves s p =
    tally_mono (has_voted p s.log) (has_voted p (run quorum moves s).log) members (λ i t.
      let (w, h, voter, is_p) = has_voted-Cast p s.log i t in
      subst (λ (j : NodeId). has_voted p (run quorum moves s).log j ≡ true) voter
        (subst (λ (q : ProposalId). has_voted q (run quorum moves s).log w.voter ≡ true) is_p
          (Cast-has_voted w (run quorum moves s).log (run-Cast quorum moves s w h))))

run-append :
    (quorum : ℕ) (moves later : List Move) (s : Net)
    → run quorum (moves ++ later) s ≡ run quorum later (run quorum moves s)
unfolding run
run-append quorum [] later s = refl
run-append quorum (m ∷ moves) later s = run-append quorum moves later (move quorum m s)

AreMembers-append :
    (members : List NodeId) (moves later : List Move)
    → AreMembers members moves
    → AreMembers members later
    → AreMembers members (moves ++ later)
AreMembers-append members [] later h l = l
AreMembers-append members (m ∷ moves) later h l = (h.0, AreMembers-append members moves later h.1 l)

-- The members of a network of nodes gossip, hear old and new gossip in any order, think and propose in
-- any order, fewer than 2^64 moves in all, with a quorum of more than one node and of more than half of
-- the members. If at some time a node knows of a quorum of nodes that have accepted a proposal, and at
-- that time or later a node knows of a quorum that has accepted a proposal, the same or another, then
-- the values that these nodes have accepted are the same.
pub quorums_agree :
    (members : List NodeId) (quorum : ℕ) (moves later : List Move) (i j a b : NodeId)
    (p r : ProposalId) (c d : NodeClaims)
    → 1 < quorum
    → length members < 2 * quorum
    → AreMembers members moves
    → AreMembers members later
    → length moves + length later < 2 ^ 64
    → valid p ≡ true
    → valid r ≡ true
    → quorum ≤ number (accepts p) ((run quorum moves start).knows i)
    → quorum ≤ number (accepts r) ((run quorum later (run quorum moves start)).knows j)
    → find a ((run quorum moves start).knows i) ≡ some c
    → c.accepted ≡ p
    → find b ((run quorum later (run quorum moves start)).knows j) ≡ some d
    → d.accepted ≡ r
    → c.accepted_val ≡ d.accepted_val
quorums_agree members quorum moves later i j a b p r c d many majority h l few vp vr np nr fa ca fb
      db =
    let s = run quorum moves start in
    let t = run quorum later s in
    let safe = reached-IsSafe members quorum many moves h (omega arith) in
    let few' : length (moves ++ later) < 2 ^ 64 = omega (arith, length-append moves later) in
    let whole =
      reached-IsSafe members quorum many (moves ++ later)
        (AreMembers-append members moves later h l) few' in
    let safe' : IsSafe members quorum (length (moves ++ later)) t =
      subst (IsSafe members quorum (length (moves ++ later))) (run-append quorum moves later start)
        whole in
    let w = vote a p c.accepted_val in
    let x = vote b r d.accepted_val in
    let w_cast =
      run-Cast quorum later s w
        (known-Cast members quorum (length moves) s safe i p vp a c fa ca) in
    let x_cast = known-Cast members quorum (length (moves ++ later)) t safe' j r vr b d fb db in
    let one = known-quorum members quorum (length moves) s safe i p vp np in
    let more = has_voted-run members quorum later s p in
    let two = known-quorum members quorum (length (moves ++ later)) t safe' j r vr nr in
    chosen-agree members quorum (length (moves ++ later)) t safe' majority w x w_cast x_cast
      (omega (arith, one, more)) two
