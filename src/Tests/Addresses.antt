-- ===== src/Tests/Addresses.antt =====
-- net/address at concrete inputs, and the boundary slices of ipam/space.
use weave.Base.{ℕ, ◌≡◌, refl, List, [], ◌∷◌, arith, ok}
use weave.Address
use weave.Address.{Range}
use weave.Address.Biggest.{IsBiggest, biggest_cidr_range_correct}
use weave.Boundaries
use weave.Boundaries.Spans.{IsSpans}

abbrev NoError : Type 0
NoError = ⊥

-- [10.0.0.3, 10.0.0.14), of which 10.0.0.4/30 and 10.0.0.8/30 are the biggest blocks
abbrev odd_range : Range
odd_range = record { start = 0x0a00_0003; end = 0x0a00_000e }

biggest-odd_range :
    Address.biggest_cidr_range {E = NoError} odd_range
    ≡ ok (record { start = 0x0a00_0004; end = 0x0a00_0008 })
unfolding Address.biggest_cidr_range Address.size Address.msb Address.biggest_in
biggest-odd_range = refl

msb_runs : Address.msb 0xc000_0001 ≡ 0x8000_0000
unfolding Address.msb
msb_runs = refl

biggest_cidr_range_correct_example :
    (c : Range) × (Address.biggest_cidr_range {E = NoError} odd_range ≡ ok c)
    × IsBiggest odd_range c
biggest_cidr_range_correct_example =
    biggest_cidr_range_correct {E = NoError} odd_range (omega arith) (omega arith)

abbrev two_spans : List ℕ
two_spans = 12 ∷ 20 ∷ 30 ∷ 34 ∷ []

two_spans-IsSpans : IsSpans two_spans
two_spans-IsSpans = record { ascending = omega arith; even = refl; bounded = omega arith }

add_joins : Boundaries.add two_spans 20 30 ≡ 12 ∷ 34 ∷ []
unfolding Boundaries.add
add_joins = refl

subtract_splits : Boundaries.subtract two_spans 14 16 ≡ 12 ∷ 14 ∷ 16 ∷ 20 ∷ 30 ∷ 34 ∷ []
unfolding Boundaries.subtract
subtract_splits = refl
