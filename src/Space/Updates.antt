-- ===== src/Space/Updates.antt =====
-- Everything, OwnedRanges, AddRanges and UpdateRanges: whole slices added to one another.
use weave.Base.{
  ℕ, suc, ◌%◌, ◌≤◌, ◌<◌, ◌≡◌, refl, ◌∙◌, Bool, false, not, ◌&&◌, ◌||◌, List, [], ◌∷◌, ◌++◌, length,
  arith, All, word, ok, ap, sym, append_assoc, append-nil,
}
use weave.Address.{Range}
use weave.Boundaries
use weave.Boundaries.Cuts.{IsAscendingFrom}
use weave.Boundaries.Spans.{
  IsSpans, covers, contains-covers, add-IsSpans, subtract-IsSpans, contains-add, contains-subtract,
  []-IsSpans, contains-injective,
}
use weave.Space.{Space, fold_pairs, everything, owned_ranges, add_all, update_ranges}
use weave.Space.Invariant.{owned, is_free, IsValid}
use weave.Space.Counts.{within}

-- a well-formed slice that contains the addresses satisfying `p`
pub record Holds (p : ℕ → Bool) (xs : List ℕ) : Type 0 where
  pub spans : IsSpans xs
  pub members : (x : ℕ) → Boundaries.contains xs x ≡ p x

module _ {E : Type 0} where
  fold_add :
      (lo : ℕ) (acc xs : List ℕ)
      → IsAscendingFrom lo xs
      → length xs % 2 ≡ 0
      → All (λ x. x < word) xs
      → IsSpans acc
      → (ys : List ℕ) × (fold_pairs {E = E} (λ a start end. ok (Boundaries.add a start end)) acc xs
          ≡ ok ys)
        × Holds (λ x. covers xs x || Boundaries.contains acc x) ys
  unfolding fold_pairs covers
  fold_add lo acc [] asc even small v = (acc, refl, record { spans = v; members = λ x. refl })
  fold_add lo acc (a ∷ []) asc even small v = absurd (omega arith)
  fold_add lo acc (a ∷ b ∷ rest) asc even small v =
      let w = add-IsSpans acc a b v asc.1.0 small.1.0 in
      let (ys, e, h) =
        fold_add (suc b) (Boundaries.add acc a b) rest asc.1.1 (omega arith) small.1.1 w in
      (
        ys,
        e,
        record {
          spans = h.spans;
          members = λ x. ground (arith, h.members x, contains-add acc a b v asc.1.0 small.1.0 x);
        },
      )

  fold_subtract :
      (lo : ℕ) (acc xs : List ℕ)
      → IsAscendingFrom lo xs
      → length xs % 2 ≡ 0
      → All (λ x. x < word) xs
      → IsSpans acc
      → (ys : List ℕ) × (fold_pairs {E = E}
            (λ a start end. ok (Boundaries.subtract a start end))
            acc
            xs
          ≡ ok ys)
        × Holds (λ x. not (covers xs x) && Boundaries.contains acc x) ys
  unfolding fold_pairs covers
  fold_subtract lo acc [] asc even small v = (acc, refl, record { spans = v; members = λ x. refl })
  fold_subtract lo acc (a ∷ []) asc even small v = absurd (omega arith)
  fold_subtract lo acc (a ∷ b ∷ rest) asc even small v =
      let w = subtract-IsSpans acc a b v asc.1.0 small.1.0 in
      let (ys, e, h) =
        fold_subtract (suc b) (Boundaries.subtract acc a b) rest asc.1.1 (omega arith) small.1.1
          w in
      (
        ys,
        e,
        record {
          spans = h.spans;
          members =
              λ x. ground (arith, h.members x, contains-subtract acc a b v asc.1.0 small.1.0 x);
        },
      )

  everything-Holds :
      (s : Space)
      → IsValid s
      → (ys : List ℕ) × (everything {E = E} s ≡ ok ys) × Holds (λ x. owned s x || is_free s x) ys
  unfolding everything
  everything-Holds s v =
      let free = v.free_spans in
      let (ys, e, h) =
        fold_add 0 s.ours s.free free.ascending free.even free.bounded v.ours_spans in
      (
        ys,
        e,
        record {
          spans = h.spans;
          members = λ x. ground (arith, h.members x, contains-covers s.free x free);
        },
      )

-- whether one of the ranges contains the address
unfoldable pub covered : List Range → ℕ → Bool
covered [] x = false
covered (r ∷ rs) x = within r x || covered rs x

-- every range is non-empty and ends within 32 bits
abbrev pub AreRanges : List Range → Type 0
AreRanges = All (λ r. (r.start < r.end) × (r.end < word))

contains-nil : (x : ℕ) → Boundaries.contains [] x ≡ false
unfolding Boundaries.contains
contains-nil x = refl

pub add_all-Holds :
    (acc : List ℕ) (rs : List Range)
    → AreRanges rs
    → IsSpans acc
    → Holds (λ x. covered rs x || Boundaries.contains acc x) (add_all acc rs)
unfolding add_all covered
add_all-Holds acc [] h v = record { spans = v; members = λ x. refl }
add_all-Holds acc (r ∷ rs) h v =
    let ih =
      add_all-Holds (Boundaries.add acc r.start r.end) rs h.1
        (add-IsSpans acc r.start r.end v h.0.0 h.0.1) in
    record {
      spans = ih.spans;
      members = λ x. ground (arith, ih.members x, contains-add acc r.start r.end v h.0.0 h.0.1 x);
    }

-- UpdateRanges of a valid space with non-empty ranges keeps the addresses in use, and makes free exactly those that were free or that lie in a range and are not in use.
pub update_ranges_correct :
    {E : Type 0} (s : Space) (rs : List Range)
    → IsValid s
    → AreRanges rs
    → (t : Space) × (update_ranges {E = E} s rs ≡ ok t)
      × IsValid t
      × (t.ours ≡ s.ours)
      × ((x : ℕ) → is_free t x ≡ (is_free s x || (covered rs x && not (owned s x))))
unfolding update_ranges
update_ranges_correct {E} s rs v h =
    let (current, e, cur) = everything-Holds {E = E} s v in
    let wanted = add_all-Holds [] rs h []-IsSpans in
    let c = cur.spans in
    let (excess, e', exc) =
      fold_subtract {E = E} 0 (add_all [] rs) current c.ascending c.even c.bounded wanted.spans in
    let x = exc.spans in
    let (free, e'', f) =
      fold_add {E = E} 0 s.free excess x.ascending x.even x.bounded v.free_spans in
    let after : (y : ℕ)
        → Boundaries.contains free y ≡ (is_free s y || (covered rs y && not (owned s y))) =
      λ y. ground (
        arith,
        f.members y,
        exc.members y,
        contains-covers excess y x,
        cur.members y,
        contains-covers current y c,
        wanted.members y,
        contains-nil y,
      ) in
    (
      record s { free = free },
      rw (e, e', e''),
      record {
        ours_spans = v.ours_spans;
        free_spans = f.spans;
        disjoint = λ y. ground (arith, v.disjoint y, after y);
      },
      refl,
      after,
    )

-- the ranges of a slice, in order
unfoldable pub ranges_of : List ℕ → List Range
ranges_of [] = []
ranges_of (a ∷ []) = []
ranges_of (a ∷ b ∷ rest) = record { start = a; end = b } ∷ ranges_of rest

-- non-empty ranges in ascending order, with a gap between neighbours
abbrev pub AreSeparate : ℕ → List Range → Type 0
AreSeparate lo [] = Unit
AreSeparate lo (r ∷ rs) = (lo ≤ r.start) × (r.start < r.end) × AreSeparate (suc r.end) rs

module _ {E : Type 0} where
  fold_ranges :
      (acc : List Range) (xs : List ℕ)
      → length xs % 2 ≡ 0
      → fold_pairs {E = E} (λ result a b. ok (result ++ record { start = a; end = b } ∷ [])) acc xs
        ≡ ok (acc ++ ranges_of xs)
  unfolding fold_pairs ranges_of
  fold_ranges acc [] even = ap ok (sym (append-nil acc))
  fold_ranges acc (a ∷ []) even = absurd (omega arith)
  fold_ranges acc (a ∷ b ∷ rest) even =
      fold_ranges (acc ++ record { start = a; end = b } ∷ []) rest (omega arith)
      ∙ ap ok (append_assoc acc (record { start = a; end = b } ∷ []) (ranges_of rest))

ranges_of-AreSeparate :
    (lo : ℕ) (xs : List ℕ) → IsAscendingFrom lo xs → AreSeparate lo (ranges_of xs)
unfolding ranges_of
ranges_of-AreSeparate lo [] asc = tt
ranges_of-AreSeparate lo (a ∷ []) asc = tt
ranges_of-AreSeparate lo (a ∷ b ∷ rest) asc =
    (asc.0, asc.1.0, ranges_of-AreSeparate (suc b) rest asc.1.1)

covered-ranges_of : (xs : List ℕ) (x : ℕ) → covered (ranges_of xs) x ≡ covers xs x
unfolding ranges_of covered covers
covered-ranges_of [] x = refl
covered-ranges_of (a ∷ []) x = refl
covered-ranges_of (a ∷ b ∷ rest) x = ground (arith, covered-ranges_of rest x)

-- OwnedRanges of a valid space returns ranges in ascending order with a gap between neighbours, and an address lies in one of them exactly if it is in use or free.
pub owned_ranges_correct :
    {E : Type 0} (s : Space)
    → IsValid s
    → (rs : List Range) × (owned_ranges {E = E} s ≡ ok rs)
      × AreSeparate 0 rs
      × ((x : ℕ) → covered rs x ≡ (owned s x || is_free s x))
unfolding owned_ranges
owned_ranges_correct {E} s v =
    let (all, e, h) = everything-Holds {E = E} s v in
    (
      ranges_of all,
      rw (e, fold_ranges {E = E} [] all h.spans.even),
      ranges_of-AreSeparate 0 all h.spans.ascending,
      λ x. covered-ranges_of all x ∙ sym (contains-covers all x h.spans) ∙ h.members x,
    )

-- two valid spaces with the same addresses, in use or free, have the same ranges
pub owned_ranges-same :
    {E : Type 0} (s t : Space)
    → IsValid s
    → IsValid t
    → ((x : ℕ) → (owned s x || is_free s x) ≡ (owned t x || is_free t x))
    → (rs : List Range) × (owned_ranges {E = E} s ≡ ok rs) × (owned_ranges {E = E} t ≡ ok rs)
unfolding owned_ranges
owned_ranges-same {E} s t v w same =
    let (all, e, h) = everything-Holds {E = E} s v in
    let (every, f, k) = everything-Holds {E = E} t w in
    let one : every ≡ all =
      contains-injective every all k.spans h.spans
        (λ x. k.members x ∙ sym (same x) ∙ sym (h.members x)) in
    (
      ranges_of all,
      rw (e, fold_ranges {E = E} [] all h.spans.even),
      rw (f, one, fold_ranges {E = E} [] all h.spans.even),
    )
