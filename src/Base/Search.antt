-- ===== src/Base/Search.antt =====
-- Go's sort.Search: the binary search behind every lookup in a sorted slice.
use Prim.Native.Nat.{ℕ, zero, suc, ◌+◌, ◌/◌, ◌≤◌, ◌<◌}
use mathlib.Core.Path.{◌≡◌}
use mathlib.Core.Logic.{inl, inr}
use mathlib.Core.Bool.{Bool, true, false}
use native.Mathlib.Omega.{arith}
use weave.Base.Tests.{ltb, Bool-cases, ltb→lt}

-- `for i < j { h := (i + j) / 2; if !f(h) { i = h + 1 } else { j = h } }; return i`; the fuel
-- `j - i` bounds the rounds
pub search_loop : ℕ → (ℕ → Bool) → ℕ → ℕ → ℕ
search_loop zero f i j = i
search_loop (suc k) f i j = elim (ltb i j) [
  | true ↦ elim (f ((i + j) / 2)) [
    | true ↦ search_loop k f i ((i + j) / 2)
    | false ↦ search_loop k f ((i + j) / 2 + 1) j
  ]
  | false ↦ i
]

unfoldable pub search : ℕ → (ℕ → Bool) → ℕ
unfolding search_loop
search n f = search_loop n f 0 n

module _ (f : ℕ → Bool) (p : ℕ) (below : (i : ℕ) → i < p → f i ≡ false) where
  search_loop-cut :
      (k i j : ℕ)
      → ((h : ℕ) → p ≤ h → h < j → f h ≡ true)
      → i ≤ p
      → p ≤ j
      → j ≤ i + k
      → search_loop k f i j ≡ p
  unfolding search_loop
  search_loop-cut zero i j above lo hi fuel = omega arith
  search_loop-cut (suc k) i j above lo hi fuel = elim (Bool-cases (ltb i j)) [
    | inl more ↦ ground (
      arith,
      below ((i + j) / 2),
      above ((i + j) / 2),
      search_loop-cut k i ((i + j) / 2) (λ h a b. above h a (omega (arith, ltb→lt i j more))),
      search_loop-cut k ((i + j) / 2 + 1) j above,
    )
    | inr done ↦ ground arith
  ]

-- where the test is false below a cut and true from it on, the search finds the cut
pub search-cut :
    (f : ℕ → Bool) (p n : ℕ)
    → ((i : ℕ) → i < p → f i ≡ false)
    → ((i : ℕ) → p ≤ i → i < n → f i ≡ true)
    → p ≤ n
    → search n f ≡ p
unfolding search
search-cut f p n below above h = search_loop-cut f p below n 0 n above (omega arith) h (omega arith)
