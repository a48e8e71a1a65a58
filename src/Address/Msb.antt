-- ===== src/Address/Msb.antt =====
-- The highest bit of a count: the shifts of msb fill every bit below it.
use Prim.Native.Nat.{bit_or}
use weave.Base.{
  ℕ, zero, suc, ◌/◌, ◌%◌, ◌^◌, ◌≤◌, ◌<◌, ◌≡◌, refl, sym, ap, ◌∙◌, min, max, arith, word,
  if◌then◌else◌, ltb,
}
use weave.Address.{msb}
use weave.Address.Bits.{bit_or-half, bit_or-odd, power}

-- `v |= v >> n` after the function `f`, with `d` for the power of two
spread : (ℕ → ℕ) → ℕ → ℕ → ℕ
spread f d v = bit_or (f v) (f v / d)

-- a function that works on all bits alike
abbrev IsUniform : (ℕ → ℕ) → Type 0
IsUniform f = (v : ℕ) → f v / 2 ≡ f (v / 2)

-- a function that puts a one at the lowest bit if any of the bits below the power `d` is set
abbrev Gathers : (ℕ → ℕ) → ℕ → Type 0
Gathers f d = (v : ℕ) → f v % 2 ≡ min 1 (v % d)

spread-IsUniform :
    (f : ℕ → ℕ) (d : ℕ) → ((v : ℕ) → v / d / 2 ≡ v / 2 / d) → IsUniform f → IsUniform (spread f d)
unfolding spread
spread-IsUniform f d swap u v = rw (bit_or-half (f v) (f v / d), swap (f v), u v)

-- n halvings
halve : ℕ → ℕ → ℕ
halve zero v = v
halve (suc n) v = halve n (v / 2)

halve-uniform : (f : ℕ → ℕ) (n v : ℕ) → IsUniform f → halve n (f v) ≡ f (halve n v)
unfolding halve
halve-uniform f zero v u = refl
halve-uniform f (suc n) v u = rw (u v) (halve-uniform f n (v / 2) u)

spread_odd :
    (f : ℕ → ℕ) (n d v : ℕ)
    → ((v : ℕ) → halve n v ≡ v / d)
    → IsUniform f
    → spread f d v % 2 ≡ max (f v % 2) (f (v / d) % 2)
unfolding spread
spread_odd f n d v e u =
    bit_or-odd (f v) (f v / d)
    ∙ ap (λ (t : ℕ). max (f v % 2) (t % 2)) (sym (e (f v)) ∙ halve-uniform f n v u ∙ ap f (e v))

first : ℕ → ℕ
unfolding spread
first = spread (λ v. v) 2

second : ℕ → ℕ
unfolding spread first
second = spread first (2 ^ 2)

third : ℕ → ℕ
unfolding spread second
third = spread second (2 ^ 4)

fourth : ℕ → ℕ
unfolding spread third
fourth = spread third (2 ^ 8)

-- every bit below the highest one
smear : ℕ → ℕ
unfolding spread fourth
smear = spread fourth (2 ^ 16)

first-IsUniform : IsUniform first
unfolding first
first-IsUniform = spread-IsUniform (λ v. v) 2 (λ v. refl) (λ v. refl)

second-IsUniform : IsUniform second
unfolding second
second-IsUniform = spread-IsUniform first (2 ^ 2) (λ v. omega arith) first-IsUniform

third-IsUniform : IsUniform third
unfolding third
third-IsUniform = spread-IsUniform second (2 ^ 4) (λ v. omega arith) second-IsUniform

fourth-IsUniform : IsUniform fourth
unfolding fourth
fourth-IsUniform = spread-IsUniform third (2 ^ 8) (λ v. omega arith) third-IsUniform

smear-IsUniform : IsUniform smear
unfolding smear
smear-IsUniform = spread-IsUniform fourth (2 ^ 16) (λ v. omega arith) fourth-IsUniform

first-Gathers : Gathers first (2 ^ 2)
unfolding first
first-Gathers v = omega (arith, spread_odd (λ t. t) 1 2 v (λ t. unfold halve in refl) (λ t. refl))

second-Gathers : Gathers second (2 ^ 4)
unfolding second
second-Gathers v = omega (
  arith,
  spread_odd first 2 (2 ^ 2) v (λ t. unfold halve in (omega arith)) first-IsUniform,
  first-Gathers v,
  first-Gathers (v / 2 ^ 2),
)

third-Gathers : Gathers third (2 ^ 8)
unfolding third
third-Gathers v = omega (
  arith,
  spread_odd second 4 (2 ^ 4) v (λ t. unfold halve in (omega arith)) second-IsUniform,
  second-Gathers v,
  second-Gathers (v / 2 ^ 4),
)

fourth-Gathers : Gathers fourth (2 ^ 16)
unfolding fourth
fourth-Gathers v = omega (
  arith,
  spread_odd third 8 (2 ^ 8) v (λ t. unfold halve in (omega arith)) third-IsUniform,
  third-Gathers v,
  third-Gathers (v / 2 ^ 8),
)

smear-Gathers : Gathers smear (2 ^ 32)
unfolding smear
smear-Gathers v = omega (
  arith,
  spread_odd fourth 16 (2 ^ 16) v (λ t. unfold halve in (omega arith)) fourth-IsUniform,
  fourth-Gathers v,
  fourth-Gathers (v / 2 ^ 16),
)

smear_ones : (k v : ℕ) → power k ≤ v → v < power (suc k) → v < word → suc (smear v) ≡ power (suc k)
smear_ones zero v lo hi small = let e : v ≡ 1 = omega arith in rw e (unfold smear in refl)
smear_ones (suc k) v lo hi small = omega (
  arith,
  smear-IsUniform v,
  smear-Gathers v,
  smear_ones k (v / 2) (omega arith) (omega arith) (omega arith),
)

msb-smear : (v : ℕ) → msb v ≡ suc (smear v) / 2 % word
unfolding msb smear
msb-smear v = omega arith

-- the exponent of the highest bit
log : ℕ → ℕ → ℕ
log zero v = 0
log (suc n) v = if ltb v 2 then 0 else suc (log n (v / 2))

log_bounds : (n v : ℕ) → 0 < v → v < power n → (power (log n v) ≤ v) × (v < power (suc (log n v)))
unfolding log
log_bounds zero v pos h = absurd (omega arith)
log_bounds (suc n) v pos h = ground (arith, log_bounds n (v / 2))

-- msb of a non-zero number below 2^32 is the power of two of its highest bit.
pub msb_correct :
    (v : ℕ) → 0 < v → v < word → (k : ℕ) × (msb v ≡ power k) × (power k ≤ v) × (v < power (suc k))
msb_correct v pos small =
    let (lo, hi) = log_bounds 32 v pos small in
    (log 32 v, rw (msb-smear v) (omega (arith, smear_ones (log 32 v) v lo hi small)), lo, hi)
