-- ===== src/Space/Counts.antt =====
-- The counting methods, and what the moves do to the counts.
use weave.Base.{
  ℕ, suc, ◌+◌, ◌-◌, ◌%◌, ◌≤◌, ◌<◌, ◌≡◌, refl, ◌∙◌, Bool, true, false, ◌&&◌, List, [], ◌∷◌, ltb, leb,
  if◌then◌else◌, length, arith, Bool-cases, inl, inr, All, word, Run, ok, ◌>>=◌, ap, sym, min, max,
  leb→le,
}
use weave.Address
use weave.Address.{Range}
use weave.Boundaries
use weave.Boundaries.Cuts.{IsAscendingFrom, IsAscendingFrom-mono}
use weave.Boundaries.Spans.{IsSpans, covers, covers_below, contains-covers}
use weave.Boundaries.Tally.{
  tally, tally-ext, tally_none, tally_past, spans_size, spans_size-contains,
}
use weave.Space.{
  Space, fold_pairs, num_addresses, num_owned_addresses, num_free_addresses,
  num_free_addresses_in_range, walk_loop, clip,
}
use weave.Space.Invariant.{owned, is_free, IsValid}

-- the body of the counting loop
abbrev count_pair : {E : Type 0} → ℕ → ℕ → ℕ → Run E ℕ
count_pair res start end = Address.length end start >>= λ n. ok ((res + n) % word)

fold_count :
    {E : Type 0} (lo res : ℕ) (xs : List ℕ)
    → IsAscendingFrom lo xs
    → length xs % 2 ≡ 0
    → res + spans_size xs < word
    → fold_pairs {E = E} count_pair res xs ≡ ok (res + spans_size xs)
unfolding fold_pairs spans_size Address.length
fold_count lo res [] asc even h = ap ok (omega arith)
fold_count lo res (a ∷ []) asc even h = absurd (omega arith)
fold_count lo res (a ∷ b ∷ rest) asc even h =
    let fits : leb a b ≡ true = ground arith in
    let small : (res + (b - a)) % word ≡ res + (b - a) = omega arith in
    rw (fits, small)
      (fold_count (suc b) (res + (b - a)) rest asc.1.1 (omega arith) (omega arith)
        ∙ ap ok (omega arith))

spans_size-lt :
    (lo n : ℕ) (xs : List ℕ)
    → IsAscendingFrom lo xs
    → All (λ x. x < n) xs
    → lo < n
    → lo + spans_size xs < n
unfolding spans_size
spans_size-lt lo n [] asc h k = omega arith
spans_size-lt lo n (a ∷ []) asc h k = omega arith
spans_size-lt lo n (a ∷ b ∷ rest) asc h k = omega (
  arith,
  spans_size-lt b n rest (IsAscendingFrom-mono {m = b} rest (omega arith) asc.1.1) h.1.1 h.1.0,
)

num_addresses-tally :
    {E : Type 0} (xs : List ℕ)
    → IsSpans xs
    → num_addresses {E = E} xs ≡ ok (tally word (Boundaries.contains xs))
unfolding num_addresses
num_addresses-tally xs v =
    fold_count 0 0 xs v.ascending v.even
      (spans_size-lt 0 word xs v.ascending v.bounded (omega arith))
    ∙ ap ok (omega (arith, spans_size-contains xs v))

-- On a valid space NumOwnedAddresses and NumFreeAddresses return how many addresses are in use and how many are free: no count wraps around and no assertion fails.
pub num_correct :
    {E : Type 0} (s : Space)
    → IsValid s
    → (num_owned_addresses {E = E} s ≡ ok (tally word (owned s)))
      × (num_free_addresses {E = E} s ≡ ok (tally word (is_free s)))
unfolding num_owned_addresses num_free_addresses
num_correct s v = (num_addresses-tally s.ours v.ours_spans, num_addresses-tally s.free v.free_spans)

-- whether an address lies in the range
abbrev pub within : Range → ℕ → Bool
within r x = leb r.start x && ltb x r.end

-- the body of the loop of NumFreeAddressesInRange
abbrev count_chunk : {E : Type 0} → Range → ℕ → Run E (Bool × ℕ)
count_chunk chunk res = Address.size chunk >>= λ n. ok (false, (res + n) % word)

-- the sum of the clipped chunks
clipped_size : Range → List ℕ → ℕ
clipped_size r [] = 0
clipped_size r (a ∷ []) = 0
clipped_size r (a ∷ b ∷ rest) = min b r.end - max a r.start + clipped_size r rest

clipped_size-tally :
    (lo n : ℕ) (r : Range) (xs : List ℕ)
    → IsAscendingFrom lo xs
    → length xs % 2 ≡ 0
    → All (λ x. x < n) xs
    → clipped_size r xs ≡ tally n (λ x. within r x && covers xs x)
unfolding clipped_size covers
clipped_size-tally lo n r [] asc even h = sym (tally_none n _ (λ x. ground arith))
clipped_size-tally lo n r (a ∷ []) asc even h = absurd (omega arith)
clipped_size-tally lo n r (a ∷ b ∷ rest) asc even h =
    ap (◌+◌ (min b r.end - max a r.start))
      (clipped_size-tally (suc b) n r rest asc.1.1 (omega arith) h.1.1)
    ∙ sym (
        tally_past n (max a r.start) (min b r.end) (λ x. within r x && covers rest x) (omega arith)
          (λ x p. rw (covers_below (suc b) x rest asc.1.1 (omega arith)) (ground arith)))
    ∙ tally-ext n _ _ (λ x. ground arith)

clipped_size-le : (r : Range) (xs : List ℕ) → clipped_size r xs ≤ spans_size xs
unfolding clipped_size spans_size
clipped_size-le r [] = omega arith
clipped_size-le r (a ∷ []) = omega arith
clipped_size-le r (a ∷ b ∷ rest) = omega (arith, clipped_size-le r rest)

clipped_size-past :
    (lo : ℕ) (r : Range) (xs : List ℕ) → IsAscendingFrom lo xs → r.end ≤ lo → clipped_size r xs ≡ 0
unfolding clipped_size
clipped_size-past lo r [] asc h = refl
clipped_size-past lo r (a ∷ []) asc h = refl
clipped_size-past lo r (a ∷ b ∷ rest) asc h =
    omega (arith, clipped_size-past (suc b) r rest asc.1.1)

walk_count :
    {E : Type 0} (lo res : ℕ) (r : Range) (xs : List ℕ)
    → IsAscendingFrom lo xs
    → length xs % 2 ≡ 0
    → r.start < r.end
    → res + clipped_size r xs < word
    → walk_loop {E = E} r count_chunk xs res ≡ ok (false, res + clipped_size r xs)
unfolding walk_loop clipped_size Address.size clip
walk_count lo res r [] asc even h small = ground arith
walk_count lo res r (a ∷ []) asc even h small = absurd (omega arith)
walk_count lo res r (a ∷ b ∷ rest) asc even h small = elim (Bool-cases (leb b r.start)) [
  | inl before ↦ rw before (
      walk_count (suc b) res r rest asc.1.1 (omega arith) h (omega arith)
      ∙ ap (λ n. ok (false, n)) (ground arith))
  | inr reaches ↦ elim (Bool-cases (leb r.end a)) [
    | inl after ↦
        rw (reaches, after)
          (ap (λ n. ok (false, n))
            (omega (
              arith,
              leb→le r.end a after,
              clipped_size-past (suc b) r rest asc.1.1 (omega (arith, leb→le r.end a after)),
            )))
    | inr meets ↦
        let first = if ltb a r.start then r.start else a in
        let last = if ltb r.end b then r.end else b in
        let fits : leb first last ≡ true = ground arith in
        let sum : (res + (last - first)) % word ≡ res + (min b r.end - max a r.start) =
          ground arith in
        rw (reaches, meets, fits, sum)
          (walk_count (suc b) (res + (min b r.end - max a r.start)) r rest asc.1.1 (omega arith) h
              (omega arith)
            ∙ ap (λ n. ok (false, n)) (omega arith))
  ]
]

-- NumFreeAddressesInRange of a valid space returns how many addresses of the range are free, also for a range whose end does not lie past its start.
pub num_free_addresses_in_range_correct :
    {E : Type 0} (s : Space) (r : Range)
    → IsValid s
    → num_free_addresses_in_range {E = E} s r ≡ ok (tally word (λ x. within r x && is_free s x))
unfolding num_free_addresses_in_range
num_free_addresses_in_range_correct {E} s r v = elim (Bool-cases (leb r.end r.start)) [
  | inl empty ↦ rw empty (ap ok (sym (tally_none word _ (λ x. ground arith))))
  | inr nonempty ↦
      let free = v.free_spans in
      let small = spans_size-lt 0 word s.free free.ascending free.bounded (omega arith) in
      let count = clipped_size-tally 0 word r s.free free.ascending free.even free.bounded in
      let same : tally word (λ x. within r x && covers s.free x)
          ≡ tally word (λ x. within r x && is_free s x) =
        tally-ext word _ _ (λ x. rw (contains-covers s.free x free)) in
      rw
        (
          nonempty,
          walk_count 0 0 r s.free free.ascending free.even (ground arith)
              (omega (arith, clipped_size-le r s.free)),
        )
        (ap ok (omega (arith, count, same)))
]
