-- ===== src/Address/Biggest.antt =====
-- BiggestCIDRRange: the biggest aligned block inside a range.
use native.Mathlib.Nat.{
  div-add-mod, mod-lt, mod-eq_of_lt, mod-eq-sub-mod, mul-mod_right, mul-le-mul_left,
}
use native.Mathlib.Decide.{dec_lt, ℕ_discrete}
use mathlib.Core.Path.{subst}
use weave.Base.{
  false, true, leb→le, leb→lt, ◌⊎◌, ℕ, zero, suc, ◌+◌, ◌-◌, ◌*◌, ◌/◌, ◌%◌, ◌≤◌, ◌<◌, ◌≡◌, ◌≢◌, refl,
  sym, ap, ◌∙◌, arith, word, Bool-cases, inl, inr, leb, ◌==◌, ok, if◌then◌else◌,
}
use weave.Address.{Range, biggest_in, biggest_cidr_range, size}
use weave.Address
use weave.Address.Bits.{power, power_pos, bit_and_mask}
use weave.Address.Msb.{msb_correct}

-- `a` is the first address of an aligned block of 2^i addresses inside the range
pub record IsBlock (r : Range) (i a : ℕ) : Type 0 where
  pub aligned : a % power i ≡ 0
  pub from : r.start ≤ a
  pub upto : a + power i ≤ r.end

-- `c` is an aligned block inside `r`, and no block inside `r` is bigger
pub record IsBiggest (r c : Range) : Type 0 where
  pub exponent : ℕ
  pub block : IsBlock r exponent c.start
  pub width : c.end ≡ c.start + power exponent
  pub biggest : (i a : ℕ) → IsBlock r i a → power i ≤ power exponent

power_mono : (i k : ℕ) → i ≤ k → power i ≤ power k
power_mono zero k h = power_pos k
power_mono (suc i) zero h = absurd (omega arith)
power_mono (suc i) (suc k) h = omega (arith, power_mono i k (omega arith))

power-gap : (i k : ℕ) → power i < power (suc k) → power i ≤ power k
power-gap zero k h = power_pos k
power-gap (suc i) zero h = absurd (omega (arith, power_pos i))
power-gap (suc i) (suc k) h = omega (arith, power-gap i k (omega arith))

-- the next multiple of `m` after an address that is none
next_multiple : (m a s : ℕ) → 0 < m → a % m ≡ 0 → s ≤ a → s % m ≢ 0 → s + m ≤ a + s % m
next_multiple m a s pos e h off =
    let whole = div-add-mod s m in
    let block = div-add-mod a m in
    elim (dec_lt (s / m) (a / m)) [
      | yes lt ↦ omega (arith, whole, block, mul-le-mul_left m lt)
      | no ge ↦
          let le : a / m ≤ s / m = omega arith in
          absurd (omega (arith, whole, block, mul-le-mul_left m le))
    ]

aligned_by : (m a q : ℕ) → a ≡ m * q → a % m ≡ 0
aligned_by m a q e = ap (λ (t : ℕ). t % m) e ∙ mul-mod_right m q

-- the block of 2^k addresses at `a`, whose end does not wrap around
block_at : ℕ → ℕ → Range
block_at a n = record { start = a; end = a + n }

new_range-eq : (a n : ℕ) → a + n < word → Address.new_range a n ≡ block_at a n
unfolding Address.new_range Address.add block_at
new_range-eq a n h = ap (λ e. record { start = a; end = e }) (omega arith)

module _ (r : Range) (k : ℕ) (end_small : r.end < word) (lo : r.start + power k ≤ r.end)
    (hi : r.end < r.start + power (suc k)) where
  fits_below : (i a : ℕ) → IsBlock r i a → power i ≤ power k
  fits_below i a b = power-gap i k (omega (arith, b.from, b.upto))

  -- the block of the size's highest bit, where it fits
  whole_block : (a : ℕ) → IsBlock r k a → IsBiggest r (Address.new_range a (power k))
  whole_block a b =
      rw (new_range-eq a (power k) (omega (arith, b.upto))) (
        unfold block_at in (record { exponent = k; block = b; width = refl; biggest = fits_below }))

  -- where it does not, half of it
  half_block :
      (j a : ℕ)
      → k ≡ suc j
      → r.start % power k ≢ 0
      → r.end < r.start + (power k - r.start % power k) + power k
      → IsBlock r j a
      → IsBiggest r (Address.new_range a (power j))
  half_block j a e off none_fits b =
      rw (new_range-eq a (power j) (omega (arith, b.upto)))
        (unfold block_at in (record { exponent = j; block = b; width = refl; biggest = smaller }))
    where
      smaller : (i x : ℕ) → IsBlock r i x → power i ≤ power j
      smaller i x c = elim (dec_lt (power i) (power k)) [
        | yes lt ↦ power-gap i j (subst (λ t. power i < power t) e lt)
        | no ge ↦
            let same : power i ≡ power k = omega (arith, fits_below i x c) in
            let next =
              next_multiple (power k) x r.start (power_pos k)
                (subst (λ t. x % t ≡ 0) same c.aligned) c.from off in
            absurd (omega (arith, c.upto, mod-lt r.start (power_pos k)))
      ]

  module _ (off : r.start % power k ≢ 0) where
    past : ℕ
    past = power k - r.start % power k

    gap : (power k + word - r.start % power k) % word ≡ past
    unfolding past
    gap = omega (arith, mod-lt r.start (power_pos k))

    add_past : (r.start + past) % word ≡ r.start + past
    unfolding past
    add_past = omega (arith, mod-lt r.start (power_pos k))

    -- the code after the first test
    shifted : ℕ → Range
    shifted masked_size =
        if leb past masked_size
        then Address.new_range (r.start + past) (power k)
        else if leb (r.start % power k) (power k / 2)
        then Address.new_range
            (Address.add r.start ((power k / 2 + word - r.start % power k) % word)) (power k / 2)
        else Address.new_range (r.start + past) (power k / 2)

    biggest_in-shifted :
        (masked_size : ℕ)
        → biggest_in r (power k) masked_size (r.start % power k) ≡ shifted masked_size
    unfolding biggest_in shifted
    biggest_in-shifted n =
        let nonzero : (r.start % power k == 0) ≡ false = ground arith in rw (nonzero, gap, add_past)

    whole_aligned : (r.start + past) % power k ≡ 0
    unfolding past
    whole_aligned =
        aligned_by (power k) _ (r.start / power k + 1)
          (omega (arith, div-add-mod r.start (power k), mod-lt r.start (power_pos k)))

    half : ℕ
    half = power (k - 1)

    exponent-suc : k ≡ suc (k - 1)
    exponent-suc = elim (ℕ_discrete k 0) [
      | yes e ↦ absurd (off (subst (λ t. r.start % power t ≡ 0) (sym e) (omega arith)))
      | no e ↦ omega arith
    ]

    half-double : power k ≡ half + half
    unfolding half
    half-double = ap power exponent-suc

    -- the code's last two blocks
    half_aligned :
        (q : ℕ)
        → (q ≡ 1) ⊎ (q ≡ 2)
        → r.start % power k ≤ half * q
        → (r.start + (half * q - r.start % power k)) % half ≡ 0
    half_aligned q two h = aligned_by half _ (2 * (r.start / power k) + q) (
        omega (
          arith,
          div-add-mod r.start (power k),
          ap (λ (t : ℕ). t * (r.start / power k)) half-double,
        ))

    half_range :
        (a : ℕ)
        → r.end < r.start + past + power k
        → a % half ≡ 0
        → r.start ≤ a
        → a + half ≤ r.end
        → IsBiggest r (Address.new_range a half)
    unfolding half past
    half_range a none_fits e lo' hi' =
        half_block (k - 1) a exponent-suc off none_fits
          (record { aligned = e; from = lo'; upto = hi' })

    masked-eq : (r.end - r.start) % power k ≡ r.end - r.start - power k
    masked-eq = mod-eq-sub-mod (omega arith) ∙ mod-eq_of_lt (omega arith)

    half-eq : power k / 2 ≡ half
    half-eq = omega (arith, half-double)

    add-half :
        r.start % power k ≤ half
        → Address.add r.start ((half + word - r.start % power k) % word)
          ≡ r.start + (half * 1 - r.start % power k)
    unfolding Address.add
    add-half le =
        let e : (half + word - r.start % power k) % word ≡ half * 1 - r.start % power k =
          omega (arith, half-double, mod-lt r.start (power_pos k)) in
        rw e (omega (arith, half-double))

    last_block :
        r.end < r.start + past + power k
        → IsBiggest r (
            if leb (r.start % power k) half
            then Address.new_range
                (Address.add r.start ((half + word - r.start % power k) % word))
                half
            else Address.new_range (r.start + past) half)
    last_block none_fits =
        let small = mod-lt r.start (power_pos k) in
        elim (Bool-cases (leb (r.start % power k) half)) [
          | inl before ↦
              let le = leb→le _ _ before in
              rw (before, add-half le)
                (half_range (r.start + (half * 1 - r.start % power k)) (omega (arith, none_fits))
                  (half_aligned 1 (inl refl) (omega (arith, le))) (omega arith)
                  (omega (arith, le, half-double)))
          | inr after ↦
              let e : r.start + past ≡ r.start + (half * 2 - r.start % power k) =
                unfold past in (omega (arith, half-double)) in
              let lt = leb→lt _ _ after in
              rw (after, e)
                (half_range (r.start + (half * 2 - r.start % power k)) none_fits
                  (half_aligned 2 (inr refl) (omega (arith, half-double, small))) (omega arith)
                  (omega (arith, lt, half-double)))
        ]

    shifted-IsBiggest : IsBiggest r (shifted ((r.end - r.start) % power k))
    unfolding shifted
    shifted-IsBiggest = elim (Bool-cases (leb past (r.end - r.start - power k))) [
      | inl fits ↦
          rw (masked-eq, fits)
            (whole_block _ (record {
              aligned = whole_aligned;
              from = omega arith;
              upto = omega (arith, leb→le _ _ fits);
            }))
      | inr none_fits ↦
          rw (masked-eq, none_fits, half-eq) (last_block (omega (arith, leb→lt _ _ none_fits)))
    ]

module _ (r : Range) (k : ℕ) (end_small : r.end < word) (lo : r.start + power k ≤ r.end)
    (hi : r.end < r.start + power (suc k)) where
  biggest_in-IsBiggest :
      IsBiggest r (biggest_in r (power k) ((r.end - r.start) % power k) (r.start % power k))
  biggest_in-IsBiggest = elim (ℕ_discrete (r.start % power k) 0) [
    | yes aligned ↦ rw (aligned_in aligned) (
        whole_block r k end_small lo hi r.start
          (record { aligned = aligned; from = omega arith; upto = lo }))
    | no off ↦
        rw (biggest_in-shifted r k end_small lo hi off ((r.end - r.start) % power k))
          (shifted-IsBiggest r k end_small lo hi off)
  ]
    where
      aligned_in :
          r.start % power k ≡ 0
          → biggest_in r (power k) ((r.end - r.start) % power k) (r.start % power k)
            ≡ Address.new_range r.start (power k)
      aligned_in e = rw e (unfold biggest_in in refl)

-- BiggestCIDRRange of a non-empty range returns an aligned block inside the range, and no aligned block inside the range is bigger.
pub biggest_cidr_range_correct :
    {E : Type 0} (r : Range)
    → r.start < r.end
    → r.end < word
    → (c : Range) × (biggest_cidr_range {E = E} r ≡ ok c) × IsBiggest r c
unfolding biggest_cidr_range size Address.length
biggest_cidr_range_correct r pos small =
    let (k, e, lo, hi) = msb_correct (r.end - r.start) (omega arith) (omega arith) in
    let mask : (power k + word - 1) % word ≡ power k - 1 = omega (arith, power_pos k) in
    let fits : leb r.start r.end ≡ true = ground arith in
    (
      biggest_in r (power k) ((r.end - r.start) % power k) (r.start % power k),
      rw (fits, e, mask, bit_and_mask k (r.end - r.start), bit_and_mask k r.start),
      biggest_in-IsBiggest r k small (omega arith) (omega arith),
    )
