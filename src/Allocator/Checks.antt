-- ===== src/Allocator/Checks.antt =====
-- What actorLoop checks after each action: assertInvariants passes, and reportFreeSpace too.
use weave.Base.{ℕ, ◌≡◌, refl, ◌∙◌, sym, false, ◌||◌, List, [], ◌∷◌, length, ok, arith, ==_self}
use weave.Address.{Range}
use weave.Boundaries
use weave.Boundaries.Spans.{[]-IsSpans}
use weave.Space
use weave.Space.{Space}
use weave.Space.Invariant
use weave.Space.Invariant.{owned, is_free, new-IsValid}
use weave.Space.Updates.{covered, AreRanges, add_all-Holds, owned_ranges-same}
use weave.Ring.{Ring}
use weave.Ring.Ranges
use weave.Ring.Owner
use weave.Ring.Owner.{peer_ranges, owned_ranges_of_peer-ok}
use weave.Allocator.{Allocator}
use weave.Allocator.Actor.{compare_ranges, assert_invariants}

-- the space has the addresses of these ranges, in use or free
abbrev pub Has : List Range → Space → Type 0
Has rs s = (b : ℕ) → covered rs b ≡ (owned s b || is_free s b)

compare_ranges_self : {E : Type 0} (rs : List Range) → compare_ranges {E = E} rs rs ≡ ok tt
unfolding compare_ranges
compare_ranges_self [] = refl
compare_ranges_self {E} (r ∷ rs) =
    rw (==_self r.start, ==_self r.end) (compare_ranges_self {E = E} rs)

pub owned_ranges-ok :
    {E : Type 0} (r : Ring)
    → Owner.IsValid r
    → Ranges.owned_ranges {E = E} r ≡ ok (peer_ranges r r.peer)
unfolding Ranges.owned_ranges
owned_ranges-ok r v = owned_ranges_of_peer-ok r r.peer v

nothing-contains : (x : ℕ) → Boundaries.contains [] x ≡ false
unfolding Boundaries.contains
nothing-contains x = refl

-- a new space with the ranges added
add_ranges-IsValid :
    (rs : List Range)
    → AreRanges rs
    → Invariant.IsValid (Space.add_ranges Space.new rs) × Has rs (Space.add_ranges Space.new rs)
unfolding Space.add_ranges Space.new
add_ranges-IsValid rs h =
    let f = add_all-Holds [] rs h []-IsSpans in
    (
      record {
        ours_spans = []-IsSpans;
        free_spans = f.spans;
        disjoint = λ b. ground (arith, nothing-contains b);
      },
      λ b. ground (arith, f.members b, nothing-contains b),
    )

pub assert_invariants-ok :
    {E : Type 0} (r : Ring) (x : Allocator)
    → Owner.IsValid r
    → AreRanges (peer_ranges r r.peer)
    → Invariant.IsValid x.space
    → Has (peer_ranges r r.peer) x.space
    → assert_invariants {E = E} r x ≡ ok tt
unfolding assert_invariants
assert_invariants-ok {E} r x v h w has =
    let (valid, same) = add_ranges-IsValid (peer_ranges r r.peer) h in
    let (rs, e, f) =
      owned_ranges-same {E = E} (Space.add_ranges Space.new (peer_ranges r r.peer)) x.space valid w
        (λ b. sym (same b) ∙ has b) in
    rw (owned_ranges-ok {E = E} r v, e, f, ==_self (length rs)) (compare_ranges_self {E = E} rs)
