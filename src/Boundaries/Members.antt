-- ===== src/Boundaries/Members.antt =====
-- The set of addresses that a slice of boundaries stands for, under add and subtract.
use weave.Base.{
  ℕ, suc, ◌+◌, ◌-◌, ◌%◌, ◌≤◌, ◌<◌, ◌≡◌, refl, not, ◌&&◌, List, [], ◌∷◌, ◌++◌, ltb, leb, ◌==◌,
  if◌then◌else◌, length, min, arith, length-append, Bool-cases, inl, inr,
}
use native.Mathlib.Decide.{dec_lt}
use weave.Boundaries.{boundary, add_sub, contains}
use weave.Boundaries.Cuts.{
  IsAscendingFrom, IsAscending, count_lt, below, above, IsAscendingFrom-mono, count_lt_mono,
  count_lt-below, count_lt-above, count_lt-append, above-IsAscending, first_greater-eq, add_sub-eq,
  below-nil, count_lt-le-length,
}

pub contains-count :
    (xs : List ℕ) (a : ℕ) → IsAscending xs → contains xs a ≡ not (count_lt (suc a) xs % 2 == 0)
unfolding contains
contains-count xs a h = rw (first_greater-eq 0 a xs h)

count_lt-boundary :
    (t pos sense x : ℕ)
    → count_lt t (boundary pos sense x) ≡ (if pos % 2 == sense && ltb x t then 1 else 0)
unfolding boundary count_lt
count_lt-boundary t pos sense x = ground arith

-- the boundaries up to `t` after add_sub
count_lt-add_sub :
    (xs : List ℕ) (s e sense t : ℕ)
    → IsAscending xs
    → s ≤ e
    → count_lt t (add_sub xs s e sense)
      ≡ count_lt (min s t) xs
        + ((if count_lt s xs % 2 == sense && ltb s t then 1 else 0)
            + ((if count_lt (suc e) xs % 2 == sense && ltb e t then 1 else 0)
                + (count_lt t xs - count_lt (suc e) xs)))
count_lt-add_sub xs s e sense t a h = rw (
  add_sub-eq xs s e sense a h,
  count_lt-append t (below s xs),
  count_lt-append t (boundary (count_lt s xs) sense s),
  count_lt-append t (boundary (count_lt (suc e) xs) sense e),
  count_lt-below s t xs,
  count_lt-above (suc e) t xs,
  count_lt-boundary t (count_lt s xs) sense s,
  count_lt-boundary t (count_lt (suc e) xs) sense e,
)

below-append-IsAscending :
    (lo s : ℕ) (xs ys : List ℕ)
    → IsAscendingFrom lo xs
    → lo ≤ s
    → IsAscendingFrom s ys
    → IsAscendingFrom lo (below s xs ++ ys)
unfolding below
below-append-IsAscending lo s [] ys a h b = IsAscendingFrom-mono ys h b
below-append-IsAscending lo s (x ∷ xs) ys a h b = elim (dec_lt x s) [
  | yes lt ↦ ground (arith, below-append-IsAscending (suc x) s xs ys a.1 (omega arith) b)
  | no ge ↦ ground (arith, below-nil (suc x) s xs a.1, IsAscendingFrom-mono {m = lo} ys h b)
]

boundary-append-IsAscending :
    (lo pos sense x : ℕ) (ys : List ℕ)
    → lo ≤ x
    → IsAscendingFrom (suc x) ys
    → IsAscendingFrom lo (boundary pos sense x ++ ys)
unfolding boundary
boundary-append-IsAscending lo pos sense x ys h a = elim (Bool-cases (pos % 2 == sense)) [
  | inl in_sense ↦ rw (in_sense, boundary) (h, a)
  | inr not_in ↦ rw (not_in, boundary) (IsAscendingFrom-mono ys (omega arith) a)
]

-- a slice stays ascending without repetition
pub add_sub-IsAscending :
    (xs : List ℕ) (s e sense : ℕ) → IsAscending xs → s < e → IsAscending (add_sub xs s e sense)
add_sub-IsAscending xs s e sense a h = rw (add_sub-eq xs s e sense a (omega arith)) (
    below-append-IsAscending 0 s xs _ a (omega arith) (
      boundary-append-IsAscending s (count_lt s xs) sense s _ (omega arith) (
        boundary-append-IsAscending (suc s) (count_lt (suc e) xs) sense e _ h
          (above-IsAscending 0 (suc e) xs a))))

-- which addresses a slice contains after adding (sense 0) or subtracting (sense 1) [s, e)
pub contains-add_sub :
    (xs : List ℕ) (s e sense a : ℕ)
    → IsAscending xs
    → s < e
    → sense < 2
    → contains (add_sub xs s e sense) a ≡ (if leb s a && ltb a e then sense == 0 else contains xs a)
contains-add_sub xs s e sense a asc h two =
    rw
      (
        contains-count (add_sub xs s e sense) a (add_sub-IsAscending xs s e sense asc h),
        contains-count xs a asc,
        count_lt-add_sub xs s e sense (suc a) asc (omega arith),
      )
      (ground (
        arith,
        count_lt_mono s (suc e) xs,
        count_lt_mono (suc e) (suc a) xs,
        count_lt_mono (suc a) (suc e) xs,
      ))

length-below : (s : ℕ) (xs : List ℕ) → length (below s xs) ≡ count_lt s xs
unfolding below count_lt
length-below s [] = refl
length-below s (x ∷ xs) = ground (arith, length-below s xs)

length-above : (s : ℕ) (xs : List ℕ) → length (above s xs) ≡ length xs - count_lt s xs
unfolding above count_lt
length-above s [] = refl
length-above s (x ∷ xs) = ground (arith, length-above s xs, count_lt-le-length s xs)

length-boundary :
    (pos sense x : ℕ) → length (boundary pos sense x) ≡ (if pos % 2 == sense then 1 else 0)
unfolding boundary
length-boundary pos sense x = ground arith

-- the slice stays a sequence of pairs
pub length-add_sub :
    (xs : List ℕ) (s e sense : ℕ)
    → IsAscending xs
    → s < e
    → sense < 2
    → length xs % 2 ≡ 0
    → length (add_sub xs s e sense) % 2 ≡ 0
length-add_sub xs s e sense asc h two even =
    rw
      (
        add_sub-eq xs s e sense asc (omega arith),
        length-append (below s xs),
        length-append (boundary (count_lt s xs) sense s),
        length-append (boundary (count_lt (suc e) xs) sense e),
        length-below s xs,
        length-above (suc e) xs,
        length-boundary (count_lt s xs) sense s,
        length-boundary (count_lt (suc e) xs) sense e,
      )
      (ground (arith, count_lt-le-length (suc e) xs))
