-- ===== src/Paxos/Network/Split.antt =====
-- Consensus counts the nodes behind the origin of a value, not those behind a proposal: a run of three nodes
-- in which two of them report different values.
use weave.Base.{ℕ, ◌*◌, ◌^◌, ◌<◌, ◌≡◌, refl, true, List, [], ◌∷◌, ◌++◌, arith, length}
use weave.Paxos.{NodeId, ProposalId, AcceptedValue}
use weave.Paxos.Network.{Move, gossips, thinks, proposes, hears, start, view, run}
use weave.Paxos.Network.Invariant.{is_member}
use weave.Paxos.Network.Moving.{AreMembers}
use weave.Paxos.Think.{consensus}

abbrev pub node_id : ℕ → NodeId
node_id k = record { name = k; uid = 0 }

abbrev pub a : NodeId
a = node_id 1

abbrev pub b : NodeId
b = node_id 2

abbrev pub c : NodeId
c = node_id 3

-- what a node gossips now is heard by another one, which thinks (`hears n 0` is the latest gossip)
abbrev pub tells : NodeId → NodeId → List Move
tells i j = gossips i ∷ hears j 0 ∷ thinks j ∷ []

abbrev pub by : ℕ → NodeId → ProposalId
by round n = record { round = round; proposer = n }

abbrev pub of_a : AcceptedValue
of_a = record { value = 1 ∷ 2 ∷ []; origin = by 1 a }

abbrev pub of_b : AcceptedValue
of_b = record { value = 1 ∷ 2 ∷ 3 ∷ []; origin = by 2 b }

-- `a` and `b` accept proposals of their own that nobody hears of, and `c` adopts the value of `a`
abbrev pub three_proposals : List Move
three_proposals =
    proposes a ∷ tells a b
    ++ tells b a
    ++ proposes b ∷ tells b c
    ++ tells c b
    ++ proposes c ∷ tells c a
    ++ tells a c

-- `b` proposes again
abbrev pub one_more : List Move
one_more = proposes b ∷ proposes b ∷ tells b a ++ tells a b ++ tells b a

pub consensus-c : consensus (view 2 (run 2 three_proposals start) c) ≡ (true, of_a)
unfolding consensus run
consensus-c = refl

pub consensus-a : consensus (view 2 (run 2 (three_proposals ++ one_more) start) a) ≡ (true, of_b)
unfolding consensus run
consensus-a = refl

moves-AreMembers : AreMembers (a ∷ b ∷ c ∷ []) (three_proposals ++ one_more)
unfolding is_member
moves-AreMembers = ground arith

-- Consensus does not guarantee agreement: with a quorum of two of three members and fewer than 2^64
-- moves, it is not so that whatever value Consensus reports to one member, and later to a member, must be
-- the same.
pub consensus_splits : ¬ (
    (members : List NodeId) (moves later : List Move) (i j : NodeId) (v w : AcceptedValue)
    → length members < 2 * 2
    → AreMembers members (moves ++ later)
    → length (moves ++ later) < 2 ^ 64
    → consensus (view 2 (run 2 moves start) i) ≡ (true, v)
    → consensus (view 2 (run 2 (moves ++ later) start) j) ≡ (true, w)
    → v ≡ w)
consensus_splits agree =
    let same : of_a ≡ of_b =
      agree (a ∷ b ∷ c ∷ []) three_proposals one_more c a of_a of_b (omega arith) moves-AreMembers
        (omega arith) consensus-c consensus-a in
    cc
