-- ===== src/Space.antt =====
-- ipam/space/space.go: the addresses that one peer owns, in use (`ours`) or not (`free`).
-- Each method returns the new Space; Go's in-place updates of the two slices are the fields of it.
pub mod Invariant
pub mod Moves
pub mod Counts
pub mod Donate
pub mod Updates
use weave.Base.{
  ℕ, ◌+◌, ◌/◌, ◌%◌, Bool, true, false, not, List, [], ◌∷◌, ◌++◌, ltb, leb, ◌==◌, if◌then◌else◌,
  word, Run, ok, panic, ◌>>=◌, ◌>>◌, fail_if,
}
use weave.Address
use weave.Address.{Range}
use weave.Boundaries

pub record Space : Type 0 where
  pub ours : List ℕ
  pub free : List ℕ

-- the error messages, each with its address
pub data SpaceError : Type 0 where
  not_free not_ours already_free : ℕ → SpaceError

unfoldable pub new : Space
new = record { ours = []; free = [] }

unfoldable pub add : Space → ℕ → ℕ → Space
unfolding Boundaries.add Address.add
add s start size = record s { free = Boundaries.add s.free start (Address.add start size) }

unfoldable pub clear : Space → Space
clear s = record { ours = []; free = [] }

-- `for i := 0; i < len(xs); i += 2`, with xs[i] and xs[i+1]; the latter panics on an odd length
unfoldable pub fold_pairs {ℓ} :
    {E : Type 0} {S : Type ℓ} → (S → ℕ → ℕ → Run E S) → S → List ℕ → Run E S
fold_pairs f s [] = ok s
fold_pairs f s (a ∷ []) = panic
fold_pairs f s (a ∷ b ∷ rest) = f s a b >>= λ s'. fold_pairs f s' rest

-- the part of a chunk that lies in the range
unfoldable pub clip : Range → ℕ → ℕ → Range
clip r start end = record {
  start = if ltb start r.start then r.start else start;
  end = if ltb r.end end then r.end else end;
}

-- the loop of walkFree; the callback's own state is `S`. A callback that answers false leaves the
-- slice as it is, so the loop reads the slice that it began with
unfoldable pub walk_loop {ℓ} :
    {E : Type 0} {S : Type ℓ}
    → Range
    → (Range → S → Run E (Bool × S))
    → List ℕ
    → S
    → Run E (Bool × S)
unfolding clip
walk_loop r f [] s = ok (false, s)
walk_loop r f (a ∷ []) s = panic
walk_loop r f (a ∷ b ∷ rest) s =
    let next = λ (t : Bool × _). if t.0 then ok t else walk_loop r f rest t.1 in
    let skip = walk_loop r f rest s in
    if leb b r.start
    then skip
    else if leb r.end a
    then ok (false, s)
    else (f (clip r a b) s >>= next)

unfoldable pub walk_free {ℓ} :
    {E : Type 0} {S : Type ℓ}
    → List ℕ
    → Range
    → (Range → S → Run E (Bool × S))
    → S
    → Run E (Bool × S)
unfolding walk_loop
walk_free free r f s = if leb r.end r.start then ok (false, s) else walk_loop r f free s

unfoldable pub take_first : Range → Space → Run SpaceError (Bool × (ℕ × Space))
unfolding Boundaries.add Boundaries.subtract Address.add
take_first chunk s =
    let result = chunk.start in
    let next = Address.add result 1 in
    ok (
      true,
      (
        result,
        record {
          ours = Boundaries.add s.ours result next;
          free = Boundaries.subtract s.free result next;
        },
      ),
    )

-- the answer is (found, address, space); the address is 0 if nothing was found
unfoldable pub allocate : Space → Range → Run SpaceError (Bool × (ℕ × Space))
unfolding walk_free take_first
allocate s r = walk_free s.free r (λ chunk t. take_first chunk t.1) (0, s)

unfoldable pub claim : Space → ℕ → Run SpaceError Space
unfolding Boundaries.contains Boundaries.add Boundaries.subtract Address.add
claim s addr =
    fail_if (not (Boundaries.contains s.free addr)) (not_free addr)
    >> ok (record {
      ours = Boundaries.add s.ours addr (Address.add addr 1);
      free = Boundaries.subtract s.free addr (Address.add addr 1);
    })

unfoldable pub release : Space → ℕ → Run SpaceError Space
unfolding Boundaries.contains Boundaries.add Boundaries.subtract Address.add
release s addr =
    fail_if (not (Boundaries.contains s.ours addr)) (not_ours addr)
    >> fail_if (Boundaries.contains s.free addr) (already_free addr)
    >> ok (record {
      ours = Boundaries.subtract s.ours addr (Address.add addr 1);
      free = Boundaries.add s.free addr (Address.add addr 1);
    })

-- the loop of NumOwnedAddresses and of NumFreeAddresses
unfoldable pub num_addresses : {E : Type 0} → List ℕ → Run E ℕ
unfolding fold_pairs Address.length
num_addresses xs =
    fold_pairs (λ res start end. Address.length end start >>= λ n. ok ((res + n) % word)) 0 xs

unfoldable pub num_owned_addresses : {E : Type 0} → Space → Run E ℕ
unfolding num_addresses
num_owned_addresses s = num_addresses s.ours

unfoldable pub num_free_addresses : {E : Type 0} → Space → Run E ℕ
unfolding num_addresses
num_free_addresses s = num_addresses s.free

unfoldable pub num_free_addresses_in_range : {E : Type 0} → Space → Range → Run E ℕ
unfolding walk_free Address.size
num_free_addresses_in_range s r =
    walk_free s.free r (λ chunk res. Address.size chunk >>= λ n. ok (false, (res + n) % word)) 0
    >>= λ t. ok t.1

-- the callback of biggestFreeRange, on the biggest range so far and its size
unfoldable pub keep_bigger : {E : Type 0} → Range → Range × ℕ → Run E (Bool × (Range × ℕ))
keep_bigger chunk (biggest, biggest_size) = do
  n ← Address.size chunk
  let try_cidr = do
    cidr ← Address.biggest_cidr_range chunk
    m ← Address.size cidr
    ok (false, if leb biggest_size m then (cidr, m) else (biggest, biggest_size))
  if leb biggest_size n then try_cidr else ok (false, (biggest, biggest_size))

unfoldable pub biggest_free_range : {E : Type 0} → Space → Range → Run E Range
biggest_free_range s r =
    walk_free s.free r keep_bigger (record { start = 0; end = 0 }, 0) >>= λ t. ok (t.1.0)

-- the second half of a range, rounded up
unfoldable pub upper_half : {E : Type 0} → Range → Run E Range
unfolding Address.size Address.add
upper_half r = do n ← Address.size r; ok (record r { start = Address.add r.start (n / 2) })

-- the answer is (range, donated, space)
unfoldable pub donate : Space → Range → Run SpaceError (Range × Bool × Space)
donate s r = do
  biggest ← biggest_free_range s r
  n ← Address.size biggest
  if n == 0 then ok (record { start = 0; end = 0 }, false, s) else do
    available ← num_free_addresses_in_range s r
    given ← if ltb (available / 2) n then upper_half biggest else ok biggest
    ok (
      given,
      true,
      record {
        ours = Boundaries.subtract s.ours given.start given.end;
        free = Boundaries.subtract s.free given.start given.end;
      },
    )

-- everything that is owned, free or not
unfoldable pub everything : {E : Type 0} → Space → Run E (List ℕ)
unfolding fold_pairs Boundaries.add
everything s = fold_pairs (λ a start end. ok (Boundaries.add a start end)) s.ours s.free

unfoldable pub owned_ranges : {E : Type 0} → Space → Run E (List Range)
unfolding everything fold_pairs
owned_ranges s = do
  all ← everything s
  fold_pairs (λ result a b. ok (result ++ record { start = a; end = b } ∷ [])) [] all

-- the loop of AddRanges, and the first of UpdateRanges
unfoldable pub add_all : List ℕ → List Range → List ℕ
unfolding Boundaries.add
add_all a [] = a
add_all a (r ∷ ranges) = add_all (Boundaries.add a r.start r.end) ranges

unfoldable pub add_ranges : Space → List Range → Space
unfolding add_all
add_ranges s ranges = record s { free = add_all s.free ranges }

unfoldable pub update_ranges : {E : Type 0} → Space → List Range → Run E Space
unfolding add_all everything fold_pairs Boundaries.add Boundaries.subtract
update_ranges s ranges = do
  current ← everything s
  excess ← fold_pairs (λ n a b. ok (Boundaries.subtract n a b)) (add_all [] ranges) current
  free ← fold_pairs (λ f a b. ok (Boundaries.add f a b)) s.free excess
  ok (record s { free = free })
