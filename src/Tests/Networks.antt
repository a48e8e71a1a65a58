-- ===== src/Tests/Networks.antt =====
-- ipam/paxos in networks of three nodes.
use weave.Base.{◌≡◌, refl, List, [], ◌∷◌, ◌++◌, arith}
use weave.Paxos.{NodeId, NodeClaims, Node, find, no_claims, valid, precedes, same}
use weave.Paxos.Network.{run}
use weave.Paxos.Network.Agreement.{quorums_agree}
use weave.Paxos.Network.Counting.{number}
use weave.Paxos.Network.Invariant.{is_member}
use weave.Paxos.Network.Progress.{think_accepts}
use weave.Paxos.Network.Split.{a, b, c, by, of_b, tells, three_proposals, one_more}
use weave.Paxos.Think.{our_claims, think}

abbrev members : List NodeId
members = a ∷ b ∷ c ∷ []

abbrev agreed : NodeClaims
agreed = record { promise = by 4 b; accepted = by 4 b; accepted_val = of_b }

quorums_agree_example : agreed.accepted_val ≡ of_b
unfolding run number find is_member valid
quorums_agree_example =
    quorums_agree members 2 (three_proposals ++ one_more) (tells a b) a b a b (by 4 b) (by 4 b)
      agreed agreed (omega arith) (omega arith) (ground arith) (ground arith) (omega arith) refl
      refl (omega arith) (omega arith) refl refl refl refl

-- `a` has proposed, and heard that `b` has promised
abbrev heard_back : Node
heard_back = record {
  id = a;
  quorum = 2;
  knows =
      (a, record no_claims { promise = by 1 a }) ∷ (b, record no_claims { promise = by 1 a }) ∷ [];
}

think_accepts_example : (our_claims (think heard_back).0).accepted ≡ by 1 a
unfolding our_claims number precedes same
think_accepts_example = think_accepts heard_back (ground arith) refl (omega arith)
