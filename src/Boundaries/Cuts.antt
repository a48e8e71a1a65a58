-- ===== src/Boundaries/Cuts.antt =====
-- How the binary searches cut an ascending slice.
use weave.Base.{
  ℕ, zero, suc, ◌+◌, ◌-◌, ◌≤◌, ◌<◌, ◌≡◌, refl, List, [], ◌∷◌, ◌++◌, ltb, leb, if◌then◌else◌, length,
  get_or, take, drop, min, arith,
}
use weave.Base.Search.{search-cut}
use weave.Boundaries.{first_greater, first_greater_or_eq, boundary, add_sub}

-- ascending without repetition, from `lo` on
abbrev pub IsAscendingFrom : ℕ → List ℕ → Type 0
IsAscendingFrom lo [] = Unit
IsAscendingFrom lo (x ∷ xs) = (lo ≤ x) × IsAscendingFrom (suc x) xs

abbrev pub IsAscending : List ℕ → Type 0
IsAscending xs = IsAscendingFrom 0 xs

unfoldable pub count_lt : ℕ → List ℕ → ℕ
count_lt s [] = 0
count_lt s (x ∷ xs) = if ltb x s then suc (count_lt s xs) else count_lt s xs

unfoldable pub below : ℕ → List ℕ → List ℕ
below s [] = []
below s (x ∷ xs) = if ltb x s then x ∷ below s xs else below s xs

unfoldable pub above : ℕ → List ℕ → List ℕ
above s [] = []
above s (x ∷ xs) = if leb s x then x ∷ above s xs else above s xs

pub IsAscendingFrom-mono :
    {m n : ℕ} (xs : List ℕ) → m ≤ n → IsAscendingFrom n xs → IsAscendingFrom m xs
IsAscendingFrom-mono [] h a = tt
IsAscendingFrom-mono (x ∷ xs) h a = (omega arith, a.1)

pub count_lt-zero : (lo s : ℕ) (xs : List ℕ) → IsAscendingFrom lo xs → s ≤ lo → count_lt s xs ≡ 0
unfolding count_lt
count_lt-zero lo s [] a h = refl
count_lt-zero lo s (x ∷ xs) a h = ground (arith, count_lt-zero (suc x) s xs a.1)

pub below-nil : (lo s : ℕ) (xs : List ℕ) → IsAscendingFrom lo xs → s ≤ lo → below s xs ≡ []
unfolding below
below-nil lo s [] a h = refl
below-nil lo s (x ∷ xs) a h = ground (arith, below-nil (suc x) s xs a.1)

pub above_all : (lo s : ℕ) (xs : List ℕ) → IsAscendingFrom lo xs → s ≤ lo → above s xs ≡ xs
unfolding above
above_all lo s [] a h = refl
above_all lo s (x ∷ xs) a h = ground (arith, above_all (suc x) s xs a.1)

pub count_lt-le-length : (s : ℕ) (xs : List ℕ) → count_lt s xs ≤ length xs
unfolding count_lt
count_lt-le-length s [] = omega arith
count_lt-le-length s (x ∷ xs) = ground (arith, count_lt-le-length s xs)

pub count_lt_mono : (s t : ℕ) (xs : List ℕ) → s ≤ t → count_lt s xs ≤ count_lt t xs
unfolding count_lt
count_lt_mono s t [] h = omega arith
count_lt_mono s t (x ∷ xs) h = ground (arith, count_lt_mono s t xs)

get_or-lt :
    (lo s : ℕ) (xs : List ℕ) (i : ℕ) → IsAscendingFrom lo xs → i < count_lt s xs → get_or xs i 0 < s
unfolding count_lt
get_or-lt lo s [] i a h = absurd (omega arith)
get_or-lt lo s (x ∷ xs) zero a h = ground (arith, count_lt-zero (suc x) s xs a.1)
get_or-lt lo s (x ∷ xs) (suc i) a h =
    ground (arith, get_or-lt (suc x) s xs i a.1, count_lt-zero (suc x) s xs a.1)

get_or-ge :
    (lo s : ℕ) (xs : List ℕ) (i : ℕ)
    → IsAscendingFrom lo xs
    → count_lt s xs ≤ i
    → i < length xs
    → s ≤ get_or xs i 0
unfolding count_lt
get_or-ge lo s [] i a h k = absurd (omega arith)
get_or-ge lo s (x ∷ xs) zero a h k = ground arith
get_or-ge lo s (x ∷ xs) (suc i) a h k =
    ground (arith, get_or-ge (suc x) s xs i a.1, count_lt-zero (suc x) s xs a.1)

take-below : (lo s : ℕ) (xs : List ℕ) → IsAscendingFrom lo xs → take (count_lt s xs) xs ≡ below s xs
unfolding count_lt below
take-below lo s [] a = refl
take-below lo s (x ∷ xs) a =
    ground (
      arith,
      take-below (suc x) s xs a.1,
      count_lt-zero (suc x) s xs a.1,
      below-nil (suc x) s xs a.1,
    )

drop-above : (lo s : ℕ) (xs : List ℕ) → IsAscendingFrom lo xs → drop (count_lt s xs) xs ≡ above s xs
unfolding count_lt above
drop-above lo s [] a = refl
drop-above lo s (x ∷ xs) a =
    ground (
      arith,
      drop-above (suc x) s xs a.1,
      count_lt-zero (suc x) s xs a.1,
      above_all (suc x) s xs a.1,
    )

pub count_lt-below : (s t : ℕ) (xs : List ℕ) → count_lt t (below s xs) ≡ count_lt (min s t) xs
unfolding count_lt below
count_lt-below s t [] = refl
count_lt-below s t (x ∷ xs) = ground (arith, count_lt-below s t xs)

pub count_lt-above :
    (s t : ℕ) (xs : List ℕ) → count_lt t (above s xs) ≡ count_lt t xs - count_lt s xs
unfolding count_lt above
count_lt-above s t [] = refl
count_lt-above s t (x ∷ xs) =
    ground (arith, count_lt-above s t xs, count_lt_mono s t xs, count_lt_mono t s xs)

pub count_lt-append :
    (t : ℕ) (xs ys : List ℕ) → count_lt t (xs ++ ys) ≡ count_lt t xs + count_lt t ys
unfolding count_lt
count_lt-append t [] ys = omega arith
count_lt-append t (x ∷ xs) ys = ground (arith, count_lt-append t xs ys)

pub above-IsAscending :
    (lo s : ℕ) (xs : List ℕ) → IsAscendingFrom lo xs → IsAscendingFrom s (above s xs)
unfolding above
above-IsAscending lo s [] a = tt
above-IsAscending lo s (x ∷ xs) a =
    ground (arith, above-IsAscending (suc x) s xs a.1, above_all (suc x) s xs a.1)

pub first_greater_or_eq-eq :
    (lo s : ℕ) (xs : List ℕ) → IsAscendingFrom lo xs → first_greater_or_eq xs s ≡ count_lt s xs
unfolding first_greater_or_eq
first_greater_or_eq-eq lo s xs a =
    search-cut (λ i. leb s (get_or xs i 0)) (count_lt s xs) (length xs)
      (λ i h. ground (arith, get_or-lt lo s xs i a))
      (λ i h k. ground (arith, get_or-ge lo s xs i a)) (count_lt-le-length s xs)

pub first_greater-eq :
    (lo s : ℕ) (xs : List ℕ) → IsAscendingFrom lo xs → first_greater xs s ≡ count_lt (suc s) xs
unfolding first_greater
first_greater-eq lo s xs a =
    search-cut (λ i. ltb s (get_or xs i 0)) (count_lt (suc s) xs) (length xs)
      (λ i h. ground (arith, get_or-lt lo (suc s) xs i a))
      (λ i h k. ground (arith, get_or-ge lo (suc s) xs i a)) (count_lt-le-length (suc s) xs)

-- add_sub by filters and counts
pub add_sub-eq :
    (xs : List ℕ) (s e sense : ℕ)
    → IsAscending xs
    → s ≤ e
    → add_sub xs s e sense
      ≡ below s xs
        ++ (boundary (count_lt s xs) sense s
            ++ (boundary (count_lt (suc e) xs) sense e ++ above (suc e) xs))
unfolding add_sub
add_sub-eq xs s e sense a h = rw (
  first_greater_or_eq-eq 0 s xs a,
  drop-above 0 s xs a,
  take-below 0 s xs a,
  first_greater-eq s e (above s xs) (above-IsAscending 0 s xs a),
  count_lt-above s (suc e) xs,
  cut,
  drop-above 0 (suc e) xs a,
)
  where
    cut : count_lt (suc e) xs - count_lt s xs + count_lt s xs ≡ count_lt (suc e) xs
    cut = omega (arith, count_lt_mono s (suc e) xs)
