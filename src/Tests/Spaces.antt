-- ===== src/Tests/Spaces.antt =====
-- ipam/space at a concrete space.
use weave.Base.{ℕ, ◌≤◌, ◌<◌, ◌≡◌, refl, true, false, List, [], ◌∷◌, arith, ok, err, word, ◌⊎◌}
use weave.Address
use weave.Address.{Range}
use weave.Boundaries
use weave.Boundaries.Spans.{IsSpans, covers, contains-covers}
use weave.Boundaries.Tally.{tally}
use weave.Space.{
  Space, SpaceError, not_free, not_ours, allocate, claim, release, donate, num_owned_addresses,
  num_free_addresses, num_free_addresses_in_range, biggest_free_range, keep_bigger, upper_half,
  walk_free,
}
use weave.Space.Invariant.{owned, is_free, IsValid, Taken, Released}
use weave.Space.Moves.{claim_correct, release_correct, allocate_correct}
use weave.Space.Counts.{within, num_correct}
use weave.Space.Donate.{Donated, donate_correct}

-- 10 and 11 are in use; 12 to 19 and 30 to 33 are free
abbrev sample : Space
sample = record { ours = 10 ∷ 12 ∷ []; free = 12 ∷ 20 ∷ 30 ∷ 34 ∷ [] }

ours-IsSpans : IsSpans sample.ours
ours-IsSpans = record { ascending = omega arith; even = refl; bounded = omega arith }

free-IsSpans : IsSpans sample.free
free-IsSpans = record { ascending = omega arith; even = refl; bounded = omega arith }

sample-IsValid : IsValid sample
unfolding covers
sample-IsValid = record {
  ours_spans = ours-IsSpans;
  free_spans = free-IsSpans;
  disjoint = λ a. ground (
    arith,
    contains-covers sample.ours a ours-IsSpans,
    contains-covers sample.free a free-IsSpans,
  );
}

abbrev upper : Range
upper = record { start = 25; end = 40 }

allocate-upper :
    allocate sample upper
    ≡ ok (true, (30, record { ours = 10 ∷ 12 ∷ 30 ∷ 31 ∷ []; free = 12 ∷ 20 ∷ 31 ∷ 34 ∷ [] }))
unfolding allocate
allocate-upper = refl

donate-all :
    donate sample (record { start = 0; end = 100 })
    ≡ ok (
      record { start = 12; end = 16 },
      true,
      record { ours = 10 ∷ 12 ∷ []; free = 16 ∷ 20 ∷ 30 ∷ 34 ∷ [] },
    )
unfolding donate biggest_free_range num_free_addresses_in_range upper_half Boundaries.subtract
    walk_free keep_bigger Address.size Address.biggest_cidr_range Address.msb Address.biggest_in
donate-all = refl

claim_correct_example :
    ((is_free sample 15 ≡ true) × (t : Space) × (claim sample 15 ≡ ok t) × Taken sample 15 t)
    ⊎ ((is_free sample 15 ≡ false) × (claim sample 15 ≡ err (not_free 15)))
claim_correct_example = claim_correct sample 15 sample-IsValid

release_correct_example :
    ((owned sample 11 ≡ true) × (t : Space) × (release sample 11 ≡ ok t) × Released sample 11 t)
    ⊎ ((owned sample 11 ≡ false) × (release sample 11 ≡ err (not_ours 11)))
release_correct_example = release_correct sample 11 sample-IsValid

abbrev claimed : Space
claimed = record { ours = 10 ∷ 12 ∷ 15 ∷ 16 ∷ []; free = 12 ∷ 15 ∷ 16 ∷ 20 ∷ 30 ∷ 34 ∷ [] }

claim-sample : claim sample 15 ≡ ok claimed
unfolding claim
claim-sample = refl

allocate_correct_example :
    ((allocate sample upper ≡ ok (false, (0, sample)))
      × ((b : ℕ) → 25 ≤ b → b < 40 → is_free sample b ≡ false))
    ⊎ ((a : ℕ) × (t : Space) × (allocate sample upper ≡ ok (true, (a, t)))
        × (25 ≤ a)
        × (a < 40)
        × Taken sample a t
        × ((b : ℕ) → 25 ≤ b → b < a → is_free sample b ≡ false))
allocate_correct_example = allocate_correct sample upper sample-IsValid

donate_correct_example :
    ((donate sample upper ≡ ok (record { start = 0; end = 0 }, false, sample))
      × ((x : ℕ) → within upper x ≡ true → is_free sample x ≡ false))
    ⊎ ((g : Range) × (t : Space) × (donate sample upper ≡ ok (g, true, t))
        × Donated sample upper g t)
donate_correct_example = donate_correct sample upper sample-IsValid

num_correct_example :
    (num_owned_addresses {E = SpaceError} sample ≡ ok (tally word (owned sample)))
    × (num_free_addresses {E = SpaceError} sample ≡ ok (tally word (is_free sample)))
num_correct_example = num_correct {E = SpaceError} sample sample-IsValid

abbrev new_ranges : List Range
new_ranges = record { start = 10; end = 20 } ∷ record { start = 40; end = 50 } ∷ []
