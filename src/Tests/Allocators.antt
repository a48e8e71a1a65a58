-- ===== src/Tests/Allocators.antt =====
-- The allocator at a concrete state.
use weave.Base.{
  ℕ, ◌+◌, ◌≡◌, refl, Bool, true, false, not, ◌&&◌, ◌||◌, List, [], ◌∷◌, ◌==◌, arith, length, ok,
}
use weave.Address
use weave.Address.{Range, Cidr}
use weave.Boundaries.Spans.{IsSpans, covers, contains-covers}
use weave.Space.{Space}
use weave.Space.Invariant.{owned, is_free, IsValid}
use weave.Allocator.{Allocator, owned_data, has_addr, delete, container_died_timeout}
use weave.Allocator.Owned.{filed, count, entries}
use weave.Allocator.Backed.{IsBacked}
use weave.Allocator.Try.{Allocate, Claim, Answer, us, try_allocate, try_claim}
use weave.Allocator.Requests.{Allocated, try_allocate_correct}
use weave.Allocator.Claimed.{Claimed}
use weave.Allocator.Claims.{try_claim_correct}
use weave.Allocator.Deletes.{deletion_correct}
use weave.Allocator.Actor.{
  event, action, assert_invariants, report_free_space, free_spaces, Actor, Event, allocating,
  claiming, deleting, died, tick, events,
}
use weave.Allocator.Events.{IsSound, events-IsSound}
use weave.Ring.{Ring, distance, next_token}
use weave.Ring.Valid.{AreValid, first_or}
use weave.Ring.Ranges
use weave.Ring.Transfer
use weave.Space
use weave.Ring.Owner.{peer_ranges}
use weave.Space.Updates.{covered}

-- 257 and 258 are in use, 259 to 319 are free, in the universe 256 to 511
abbrev sample_space : Space
sample_space = record { ours = 257 ∷ 259 ∷ []; free = 259 ∷ 320 ∷ [] }

abbrev cidr : ℕ → Cidr
cidr a = record { addr = a; prefix_len = 24 }

-- the container 7 owns 257, and 9 owns 258
abbrev sample : Allocator
sample = record {
  universe = record { start = 256; end = 512 };
  space = sample_space;
  owned =
      (7, record { is_container = true; cidrs = cidr 257 ∷ [] })
      ∷ (9, record { is_container = true; cidrs = cidr 258 ∷ [] })
      ∷ [];
  dead = [];
}

abbrev string : ℕ → ℕ
string a = a + 1000

sample-IsValid : IsValid sample_space
unfolding covers
sample-IsValid =
    let o : IsSpans sample_space.ours = record {
      ascending = omega arith;
      even = refl;
      bounded = omega arith;
    } in
    let f : IsSpans sample_space.free = record {
      ascending = omega arith;
      even = refl;
      bounded = omega arith;
    } in
    record {
      ours_spans = o;
      free_spans = f;
      disjoint = λ a.
          ground
            (arith, contains-covers sample_space.ours a o, contains-covers sample_space.free a f);
    }

sample-IsBacked : IsBacked sample
unfolding filed count entries covers Address.contains
sample-IsBacked =
    let v = sample-IsValid in
    let o = λ (b : ℕ). contains-covers sample_space.ours b v.ours_spans in
    let f = λ (b : ℕ). contains-covers sample_space.free b v.free_spans in
    record {
      valid = v;
      keyed = λ i. ground arith;
      once = λ b. ground arith;
      used_filed = λ b e. ground (arith, o b);
      filed_used = λ b e. ground (arith, f b);
      within = λ b e. ground (arith, o b, f b);
    }

abbrev for_eight : Allocate
for_eight = record { ident = 8; r = cidr 256; is_container = true }

abbrev claim_300 : Claim
claim_300 = record {
  ident = 5;
  cidr = cidr 300;
  is_container = true;
  no_error_on_unknown = false;
  waiting = true;
}

try_allocate_correct_example :
    (y : Allocator) × (answers : List Answer) × (done : Bool) × (try_allocate string false for_eight
        sample
      ≡ ok (y, (answers, done)))
    × Allocated string false sample for_eight y answers done
    × IsBacked y
try_allocate_correct_example = try_allocate_correct string sample sample-IsBacked false for_eight

try_claim_correct_example :
    (y : Allocator) × (answers : List Answer) × (done : Bool) × (try_claim string false true us
        claim_300 sample
      ≡ ok (y, (answers, done)))
    × Claimed string false true us claim_300 sample y answers done
    × IsBacked y
try_claim_correct_example = try_claim_correct string claim_300 sample sample-IsBacked false true us

deletion_correct_example :
    ((delete 7 sample).1 ≡ not (length (owned_data 7 sample.owned).cidrs == 0))
    × ((owned_data 7 (delete 7 sample).0.owned).cidrs ≡ [])
    × ((b : ℕ)
        → owned (delete 7 sample).0.space b
          ≡ (owned sample.space b && not (has_addr b (owned_data 7 sample.owned).cidrs)))
    × ((b : ℕ)
        → is_free (delete 7 sample).0.space b ≡ (
            is_free sample.space b
            || (owned sample.space b && has_addr b (owned_data 7 sample.owned).cidrs)))
deletion_correct_example = deletion_correct 7 sample sample-IsBacked

-- the peer 1 has the addresses from 257 to 319, and the peer 2 the rest, across the end of the ring
abbrev ring_with : ℕ → ℕ → Ring
ring_with version free = record {
  start = 256;
  end = 512;
  peer = 1;
  entries =
      (record { token = 257; peer = 1; version = version; free = free })
      ∷ (record { token = 320; peer = 2; version = 0; free = 0 })
      ∷ [];
  seeds = [];
  tracked = false;
}

abbrev actor : Actor
actor = record {
  alloc = sample;
  ring = ring_with 0 61;
  pending_claims = [];
  pending_allocates = [];
}

ring-AreValid : AreValid 256 512 (ring_with 0 61).entries
unfolding distance next_token first_or
ring-AreValid = record { sorted = omega arith; below_end = omega arith; fits = omega arith }

ring_with-ranges : peer_ranges (ring_with 0 61) 1 ≡ (record { start = 257; end = 320 }) ∷ []
unfolding Ranges.split_ranges_over_zero Ranges.entry_ranges Ranges.first_token
ring_with-ranges = refl

actor-IsSound : IsSound actor
unfolding covered covers
actor-IsSound =
    let o = λ (b : ℕ). contains-covers sample_space.ours b sample-IsValid.ours_spans in
    let f = λ (b : ℕ). contains-covers sample_space.free b sample-IsValid.free_spans in
    record {
      backed = sample-IsBacked;
      valid = ring-AreValid;
      small = omega arith;
      first = record { token = 257; peer = 1; version = 0; free = 61 };
      rest = (record { token = 320; peer = 2; version = 0; free = 0 }) ∷ [];
      established = refl;
      ranges = λ b. rw (ring_with-ranges, o b, f b) (ground arith);
    }

abbrev history : List Event
history =
    died 5 7
    ∷ allocating false for_eight
    ∷ claiming false true claim_300
    ∷ claiming false true (record claim_300 { cidr = cidr 400 })
    ∷ deleting 9
    ∷ tick (6 + container_died_timeout) (λ c. false) (λ c. true) (λ g. false)
    ∷ []

events-IsSound_example : (b : Actor) × (events string history actor ≡ ok b) × IsSound b
events-IsSound_example = events-IsSound string history actor actor-IsSound

-- the round of a deletion gives the address 258 back, and reports one more free address
round-frees :
    event string (deleting 9) actor
    ≡ ok (record actor {
      alloc = record sample {
        space = record { ours = 257 ∷ 258 ∷ []; free = 258 ∷ 320 ∷ [] };
        owned = (7, record { is_container = true; cidrs = cidr 257 ∷ [] }) ∷ [];
      };
      ring = ring_with 1 62;
    })
unfolding event action assert_invariants report_free_space Transfer.report_free Transfer.join_origin
    Transfer.report_all Space.release Space.num_free_addresses_in_range Ranges.owned_ranges
    free_spaces
round-frees = refl
