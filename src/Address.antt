-- ===== src/Address.antt =====
-- net/address/address.go: IPv4 addresses as 32-bit numbers, and ranges of them.
-- An Address, an Offset and a Count are numbers below `word`; what the code adds wraps around.
-- Meant to be used qualified: `Address.contains` is Range.Contains, `Address.add` is Add.
pub mod Bits
pub mod Msb
pub mod Biggest
use Prim.Native.Nat.{bit_and, bit_or}
use weave.Base.{
  ℕ, ◌+◌, ◌-◌, ◌/◌, ◌%◌, ◌^◌, Bool, not, ◌&&◌, ◌||◌, ltb, leb, ◌==◌, if◌then◌else◌, word, Run, ok,
  ◌>>=◌, ◌>>◌, assert,
}

-- [start, end); start <= end
pub record Range : Type 0 where
  pub start : ℕ
  pub end : ℕ

pub record Cidr : Type 0 where
  pub addr : ℕ
  pub prefix_len : ℕ

unfoldable pub add : ℕ → ℕ → ℕ
add addr i = (addr + i) % word

unfoldable pub subtract : {E : Type 0} → ℕ → ℕ → Run E ℕ
subtract a b = assert (leb b a) >> ok (a - b)

unfoldable pub length : {E : Type 0} → ℕ → ℕ → Run E ℕ
length a b = assert (leb b a) >> ok (a - b)

unfoldable pub min : ℕ → ℕ → ℕ
min a b = if ltb b a then b else a

unfoldable pub new_range : ℕ → ℕ → Range
unfolding add
new_range start size = record { start = start; end = add start size }

unfoldable pub size : {E : Type 0} → Range → Run E ℕ
unfolding length
size r = length r.end r.start

unfoldable pub overlaps : Range → Range → Bool
overlaps r or = not (leb or.end r.start || leb r.end or.start)

unfoldable pub contains : Range → ℕ → Bool
contains r addr = leb r.start addr && ltb addr r.end

-- the highest bit set in `v`; the last step is made in 64 bits, so it does not overflow
unfoldable pub msb : ℕ → ℕ
msb v =
    let v1 = bit_or v (v / 2) in
    let v2 = bit_or v1 (v1 / 2 ^ 2) in
    let v3 = bit_or v2 (v2 / 2 ^ 4) in
    let v4 = bit_or v3 (v3 / 2 ^ 8) in let v5 = bit_or v4 (v4 / 2 ^ 16) in ((v5 + 1) / 2) % word

-- the branches of BiggestCIDRRange, on the size's highest bit and the two masked values; a
-- uint32 difference is written modulo `word`
unfoldable pub biggest_in : Range → ℕ → ℕ → ℕ → Range
unfolding new_range add
biggest_in r size_msb masked_size masked_start =
    if masked_start == 0
    then new_range r.start size_msb
    else if leb ((size_msb + word - masked_start) % word) masked_size
    then new_range (add r.start ((size_msb + word - masked_start) % word)) size_msb
    else if leb masked_start (size_msb / 2)
    then new_range (add r.start ((size_msb / 2 + word - masked_start) % word)) (size_msb / 2)
    else new_range (add r.start ((size_msb + word - masked_start) % word)) (size_msb / 2)

unfoldable pub biggest_cidr_range : {E : Type 0} → Range → Run E Range
biggest_cidr_range r = do
  n ← size r
  let mask = (msb n + word - 1) % word
  ok (biggest_in r (msb n) (bit_and n mask) (bit_and r.start mask))
