-- ===== src/Ring/Valid.antt =====
-- What checkEntries accepts.
use weave.Base.{
  ℕ, suc, ◌≤◌, ◌<◌, ◌≡◌, ◌↔◌, refl, Bool, true, false, not, List, [], ◌∷◌, ltb, leb, Run, ok, ◌>>◌,
  fail_if, arith, Bool-cases, inl, inr, All, ltb→le, leb→lt,
}
use weave.Entries.{Entry, is_sorted}
use weave.Entries.Order.{IsSortedFrom}
use weave.Entries.Search.{last, entry_first, entry_before-last}
use weave.Ring.{
  RingError, token_out_of_range, token_repeated, not_sorted, repeats, next_token, distance,
  check_free, check_range, check_entries,
}

-- no entry reports more free space than lies before the next token
abbrev pub FreeFits : ℕ → ℕ → ℕ → List Entry → Type 0
FreeFits start end first [] = Unit
FreeFits start end first (e ∷ es) =
    (e.free ≤ distance start end e.token (next_token first es)) × FreeFits start end first es

unfoldable pub first_or : ℕ → List Entry → ℕ
first_or d [] = d
first_or d (e ∷ es) = e.token

-- the tokens ascend without repetition inside [start, end), and the free space fits
pub record AreValid (start end : ℕ) (es : List Entry) : Type 0 where
  pub sorted : IsSortedFrom start es
  pub below_end : All (λ e. e.token < end) es
  pub fits : FreeFits start end (first_or start es) es

sorted-from :
    (e : Entry) (es : List Entry)
    → is_sorted (e ∷ es) ≡ true
    → repeats (e ∷ es) ≡ false
    → IsSortedFrom (suc e.token) es
unfolding is_sorted repeats
sorted-from e [] h r = tt
sorted-from e (f ∷ es) h r = (ground arith, sorted-from f es (ground arith) (ground arith))

is_sorted-IsSorted :
    (e : Entry) (es : List Entry)
    → IsSortedFrom (suc e.token) es
    → (is_sorted (e ∷ es) ≡ true) × (repeats (e ∷ es) ≡ false)
unfolding is_sorted repeats
is_sorted-IsSorted e [] s = (refl, refl)
is_sorted-IsSorted e (f ∷ es) s = ground (arith, is_sorted-IsSorted f es s.1)

below_end-last :
    (end : ℕ) (e : Entry) (es : List Entry)
    → IsSortedFrom (suc e.token) es
    → (last e es).token < end
    → All (λ x. x.token < end) (e ∷ es)
unfolding last
below_end-last end e [] s h = (h, tt)
below_end-last end e (f ∷ es) s h = let ih = below_end-last end f es s.1 h in (omega arith, ih)

last-below_end :
    (end : ℕ) (e : Entry) (es : List Entry)
    → All (λ x. x.token < end) (e ∷ es)
    → (last e es).token < end
unfolding last
last-below_end end e [] h = h.0
last-below_end end e (f ∷ es) h = last-below_end end f es h.1

check_free-FreeFits :
    (start end first : ℕ) (es : List Entry)
    → check_free start end first es ≡ ok tt
    → FreeFits start end first es
unfolding check_free
check_free-FreeFits start end first [] h = tt
check_free-FreeFits start end first (e ∷ es) h =
    elim (Bool-cases (ltb (distance start end e.token (next_token first es)) e.free)) [
      | inl too_much ↦ let h' = rw too_much at h in cc
      | inr fits ↦ (ltb→le _ _ fits, check_free-FreeFits start end first es (rw fits at h))
    ]

FreeFits-check_free :
    (start end first : ℕ) (es : List Entry)
    → FreeFits start end first es
    → check_free start end first es ≡ ok tt
unfolding check_free
FreeFits-check_free start end first [] h = refl
FreeFits-check_free start end first (e ∷ es) h =
    let fits : ltb (distance start end e.token (next_token first es)) e.free ≡ false =
      ground arith in
    rw fits (FreeFits-check_free start end first es h.1)

-- check_range with its two entries looked up
pub check_range-cons :
    (start end : ℕ) (e : Entry) (es : List Entry)
    → check_range start end (e ∷ es) ≡ (
        fail_if (ltb e.token start) token_out_of_range
        >> (fail_if (leb end (last e es).token) token_out_of_range
            >> check_free start end e.token (e ∷ es)))
unfolding check_range
check_range-cons start end e es =
    rw (entry_first {E = RingError} e es, entry_before-last {E = RingError} e es)

passes :
    (b : Bool) (x : RingError) (m : Run RingError (Unit {0}))
    → (fail_if b x >> m) ≡ ok tt
    → (b ≡ false) × (m ≡ ok tt)
passes true x m h = cc
passes false x m h = (refl, h)

check_entries-AreValid :
    (start end : ℕ) (es : List Entry) → check_entries start end es ≡ ok tt → AreValid start end es
unfolding check_entries first_or
check_entries-AreValid start end [] h = record { sorted = tt; below_end = tt; fits = tt }
check_entries-AreValid start end (e ∷ es) h =
    let (ordered, h1) =
      passes (not (is_sorted (e ∷ es))) not_sorted
        (fail_if (repeats (e ∷ es)) token_repeated >> check_range start end (e ∷ es)) h in
    let (distinct, h2) =
      passes (repeats (e ∷ es)) token_repeated (check_range start end (e ∷ es)) h1 in
    let (from, h3) = passes (ltb e.token start) _ _ (rw check_range-cons at h2) in
    let (upto, h4) = passes (leb end (last e es).token) _ _ h3 in
    let sorted = sorted-from e es (ground arith) distinct in
    record {
      sorted = (ltb→le _ _ from, sorted);
      below_end = below_end-last end e es sorted (leb→lt _ _ upto);
      fits = check_free-FreeFits start end e.token (e ∷ es) h4;
    }

AreValid-check_entries :
    (start end : ℕ) (es : List Entry) → AreValid start end es → check_entries start end es ≡ ok tt
unfolding check_entries first_or
AreValid-check_entries start end [] v = unfold check_range is_sorted repeats in refl
AreValid-check_entries start end (e ∷ es) v =
    let (ordered, distinct) = is_sorted-IsSorted e es v.sorted.1 in
    let from : ltb e.token start ≡ false = ground arith in
    let last_in = last-below_end end e es v.below_end in
    let upto : leb end (last e es).token ≡ false = ground arith in
    rw (ordered, distinct, check_range-cons, from, upto)
      (FreeFits-check_free start end e.token (e ∷ es) v.fits)

-- checkEntries accepts entries exactly if their tokens ascend without repetition inside [start, end) and no entry reports more free space than there is before the next token.
pub check_entries_iff :
    (start end : ℕ) (es : List Entry) → (check_entries start end es ≡ ok tt) ↔ AreValid start end es
check_entries_iff start end es =
    (check_entries-AreValid start end es, AreValid-check_entries start end es)
