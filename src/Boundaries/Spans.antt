-- ===== src/Boundaries/Spans.antt =====
-- Well-formed slices of boundaries, and the ranges that they list.
use weave.Base.{
  ℕ, suc, ◌%◌, ◌≤◌, ◌<◌, ◌≡◌, refl, ◌∙◌, Bool, true, false, not, ◌&&◌, ◌||◌, List, [], ◌∷◌, ◌++◌,
  sym, ltb, leb, ◌==◌, length, arith, Bool-cases, inl, inr, All, word,
}
use weave.Boundaries.{boundary, add_sub, add, subtract, contains}
use weave.Boundaries.Cuts.{
  IsAscendingFrom, IsAscendingFrom-mono, IsAscending, count_lt, below, above, count_lt-zero,
  add_sub-eq,
}
use weave.Boundaries.Members.{contains-count, add_sub-IsAscending, contains-add_sub, length-add_sub}

-- pairs of boundaries, ascending without repetition, in 32 bits
pub record IsSpans (xs : List ℕ) : Type 0 where
  pub ascending : IsAscending xs
  pub even : length xs % 2 ≡ 0
  pub bounded : All (λ x. x < word) xs

-- whether one of the listed ranges contains the address
unfoldable pub covers : List ℕ → ℕ → Bool
covers [] x = false
covers (a ∷ []) x = false
covers (a ∷ b ∷ rest) x = (leb a x && ltb x b) || covers rest x

odd_count-covers :
    (lo x : ℕ) (xs : List ℕ)
    → IsAscendingFrom lo xs
    → length xs % 2 ≡ 0
    → not (count_lt (suc x) xs % 2 == 0) ≡ covers xs x
unfolding count_lt covers
odd_count-covers lo x [] asc even = refl
odd_count-covers lo x (a ∷ []) asc even = absurd (omega arith)
odd_count-covers lo x (a ∷ b ∷ rest) asc even = ground (
  arith,
  odd_count-covers (suc b) x rest asc.1.1 (omega arith),
  count_lt-zero (suc b) (suc x) rest asc.1.1,
)

pub contains-covers : (xs : List ℕ) (x : ℕ) → IsSpans xs → contains xs x ≡ covers xs x
contains-covers xs x v =
    contains-count xs x v.ascending ∙ odd_count-covers 0 x xs v.ascending v.even

covers-lt : (xs : List ℕ) (x n : ℕ) → All (λ y. y < n) xs → covers xs x ≡ true → suc x < n
unfolding covers
covers-lt [] x n h c = cc
covers-lt (a ∷ []) x n h c = cc
covers-lt (a ∷ b ∷ rest) x n h c = ground (arith, covers-lt rest x n h.1.1)

-- the address after a contained one does not wrap around
pub contains-lt : (xs : List ℕ) (x : ℕ) → IsSpans xs → contains xs x ≡ true → suc x < word
contains-lt xs x v c = covers-lt xs x word v.bounded (rw (contains-covers xs x v) at c)

module _ (n : ℕ) where
  All-below-append :
      (s : ℕ) (xs ys : List ℕ)
      → All (λ x. x < n) xs
      → All (λ x. x < n) ys
      → All (λ x. x < n) (below s xs ++ ys)
  unfolding below
  All-below-append s [] ys a b = b
  All-below-append s (x ∷ xs) ys a b = ground (arith, All-below-append s xs ys a.1 b)

  All-above : (s : ℕ) (xs : List ℕ) → All (λ x. x < n) xs → All (λ x. x < n) (above s xs)
  unfolding above
  All-above s [] a = tt
  All-above s (x ∷ xs) a = ground (arith, All-above s xs a.1)

  All-boundary-append :
      (pos sense x : ℕ) (ys : List ℕ)
      → x < n
      → All (λ x. x < n) ys
      → All (λ x. x < n) (boundary pos sense x ++ ys)
  unfolding boundary
  All-boundary-append pos sense x ys h a = elim (Bool-cases (pos % 2 == sense)) [
    | inl in_sense ↦ rw (in_sense, boundary) (h, a)
    | inr not_in ↦ rw (not_in, boundary) a
  ]

module _ (xs : List ℕ) (s e : ℕ) (v : IsSpans xs) (h : s < e) (w : e < word) where
  add_sub-IsSpans : (sense : ℕ) → sense < 2 → IsSpans (add_sub xs s e sense)
  add_sub-IsSpans sense two = record {
    ascending = add_sub-IsAscending xs s e sense v.ascending h;
    even = length-add_sub xs s e sense v.ascending h two v.even;
    bounded = rw (add_sub-eq xs s e sense v.ascending (omega arith)) (
        All-below-append word s xs _ v.bounded (
          All-boundary-append word (count_lt s xs) sense s _ (omega arith) (
            All-boundary-append word (count_lt (suc e) xs) sense e _ w
              (All-above word (suc e) xs v.bounded))));
  }

  pub add-IsSpans : IsSpans (add xs s e)
  unfolding add
  add-IsSpans = add_sub-IsSpans 0 (omega arith)

  pub subtract-IsSpans : IsSpans (subtract xs s e)
  unfolding subtract
  subtract-IsSpans = add_sub-IsSpans 1 (omega arith)

  -- On well-formed boundaries add of a non-empty range that ends below 2^32 is the union with [s, e).
  pub contains-add : (a : ℕ) → contains (add xs s e) a ≡ (leb s a && ltb a e) || contains xs a
  unfolding add
  contains-add a = ground (arith, contains-add_sub xs s e 0 a v.ascending h)

  -- On well-formed boundaries subtract of a non-empty range that ends below 2^32 is the difference with [s, e).
  pub contains-subtract :
      (a : ℕ) → contains (subtract xs s e) a ≡ (not (leb s a && ltb a e) && contains xs a)
  unfolding subtract
  contains-subtract a = ground (arith, contains-add_sub xs s e 1 a v.ascending h)

pub []-IsSpans : IsSpans []
[]-IsSpans = record { ascending = tt; even = refl; bounded = tt }

pub covers_below : (lo x : ℕ) (xs : List ℕ) → IsAscendingFrom lo xs → x < lo → covers xs x ≡ false
unfolding covers
covers_below lo x [] asc h = refl
covers_below lo x (a ∷ []) asc h = refl
covers_below lo x (a ∷ b ∷ rest) asc h = ground (arith, covers_below (suc b) x rest asc.1.1)

module _ (a b c d : ℕ) (xs ys : List ℕ) (asc : IsAscendingFrom 0 (a ∷ b ∷ xs))
    (asc' : IsAscendingFrom 0 (c ∷ d ∷ ys))
    (same : (x : ℕ) → covers (a ∷ b ∷ xs) x ≡ covers (c ∷ d ∷ ys) x) where
  first_le : c ≤ a
  unfolding covers
  first_le = ground (arith, same a, covers_below (suc d) a ys asc'.1.1)

  second_le : a ≡ c → d ≤ b
  unfolding covers
  second_le e = ground (arith, same b, covers_below (suc b) b xs asc.1.1)

  rest_same : a ≡ c → b ≡ d → (x : ℕ) → covers xs x ≡ covers ys x
  unfolding covers
  rest_same e f x =
      ground (arith, same x, covers_below (suc b) x xs asc.1.1, covers_below (suc d) x ys asc'.1.1)

covers-injective :
    (lo lo' : ℕ) (xs ys : List ℕ)
    → IsAscendingFrom lo xs
    → IsAscendingFrom lo' ys
    → length xs % 2 ≡ 0
    → length ys % 2 ≡ 0
    → ((x : ℕ) → covers xs x ≡ covers ys x)
    → xs ≡ ys
covers-injective lo lo' [] [] p q m n same = refl
covers-injective lo lo' [] (c ∷ []) p q m n same = absurd (omega arith)
covers-injective lo lo' [] (c ∷ d ∷ ys) p q m n same = unfold covers in (ground (arith, same c))
covers-injective lo lo' (a ∷ []) ys p q m n same = absurd (omega arith)
covers-injective lo lo' (a ∷ b ∷ xs) [] p q m n same = unfold covers in (ground (arith, same a))
covers-injective lo lo' (a ∷ b ∷ xs) (c ∷ []) p q m n same = absurd (omega arith)
covers-injective lo lo' (a ∷ b ∷ xs) (c ∷ d ∷ ys) p q m n same =
    let p' = IsAscendingFrom-mono {m = 0} (a ∷ b ∷ xs) (omega arith) p in
    let q' = IsAscendingFrom-mono {m = 0} (c ∷ d ∷ ys) (omega arith) q in
    let back : (x : ℕ) → covers (c ∷ d ∷ ys) x ≡ covers (a ∷ b ∷ xs) x = λ x. sym (same x) in
    let e : a ≡ c =
      omega (arith, first_le a b c d xs ys p' q' same, first_le c d a b ys xs q' p' back) in
    let f : b ≡ d =
      omega
        (arith, second_le a b c d xs ys p' q' same e, second_le c d a b ys xs q' p' back (sym e)) in
    let g =
      covers-injective (suc b) (suc d) xs ys p.1.1 q.1.1 (omega arith) (omega arith)
        (rest_same a b c d xs ys p' q' same e f) in
    cc

-- Two well-formed slices of boundaries that contain the same addresses are equal.
pub contains-injective :
    (xs ys : List ℕ) → IsSpans xs → IsSpans ys → ((x : ℕ) → contains xs x ≡ contains ys x) → xs ≡ ys
contains-injective xs ys v w same =
    covers-injective 0 0 xs ys v.ascending w.ascending v.even w.even
      λ x. sym (contains-covers xs x v) ∙ same x ∙ contains-covers ys x w
