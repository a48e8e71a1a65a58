-- ===== src/Ring/Pieces.antt =====
-- The ranges that OwnedRanges returns for a peer: one for each entry of the peer, and two for the last
-- entry where it goes on past the end of the ring.
use weave.Base.{
  ℕ, suc, ◌≤◌, ◌<◌, ◌≡◌, refl, ◌∙◌, ap, true, false, List, [], ◌∷◌, ◌++◌, leb, ◌==◌, if◌then◌else◌,
  arith, Bool-cases, inl, inr, All, append_assoc, append-nil,
}
use weave.Address.{Range}
use weave.Entries.{Entry}
use weave.Entries.Order.{IsSortedFrom}
use weave.Entries.Search.{last}
use weave.Ring.{next_token}
use weave.Ring.Ranges.{split_last, split_loop, split_ranges_over_zero, entry_ranges}

-- the ranges of the peer's entries but the last entry
unfoldable pub inner : ℕ → Entry → List Entry → List Range
inner p e [] = []
inner p e (f ∷ es) =
    let rest = inner p f es in
    if e.peer == p then record { start = e.token; end = f.token } ∷ rest else rest

unfoldable pub outer : ℕ → Entry → ℕ → List Range
outer p e end = if e.peer == p then record { start = e.token; end = end } ∷ [] else []

outer-mine :
    (p : ℕ) (e : Entry) (end : ℕ)
    → (e.peer == p) ≡ true
    → outer p e end ≡ record { start = e.token; end = end } ∷ []
unfolding outer
outer-mine p e end h = rw h refl

outer-other : (p : ℕ) (e : Entry) (end : ℕ) → (e.peer == p) ≡ false → outer p e end ≡ []
unfolding outer
outer-other p e end h = rw h refl

-- a range that ends at or before its start goes on at the start of the ring
split_last-wraps :
    (start end : ℕ) (before : List Range) (l : Range)
    → l.end ≤ l.start
    → split_last start end before l ≡ (
        if l.end == start
        then before ++ record { start = l.start; end = end } ∷ []
        else record { start = start; end = l.end }
          ∷ (before ++ record { start = l.start; end = end } ∷ []))
unfolding split_last
split_last-wraps start end before l h =
    let wraps : leb l.end l.start ≡ true = ground arith in rw wraps refl

entry_ranges-inner :
    (p first : ℕ) (e : Entry) (es : List Entry)
    → entry_ranges p first (e ∷ es) ≡ inner p e es ++ outer p (last e es) first
unfolding entry_ranges inner outer last next_token
entry_ranges-inner p first e [] = refl
entry_ranges-inner p first e (f ∷ es) = elim (Bool-cases (e.peer == p)) [
  | inl h ↦
      rw h (ap (◌∷◌ (record { start = e.token; end = f.token })) (entry_ranges-inner p first f es))
  | inr h ↦ rw h (entry_ranges-inner p first f es)
]

-- a range that ends past its start and past the ring's
abbrev pub IsInner : ℕ → Range → Type 0
IsInner start r = (start ≤ r.start) × (r.start < r.end)

pub inner-IsInner :
    (start p : ℕ) (e : Entry) (es : List Entry)
    → start ≤ e.token
    → IsSortedFrom (suc e.token) es
    → All (IsInner start) (inner p e es)
unfolding inner
inner-IsInner start p e [] h s = tt
inner-IsInner start p e (f ∷ es) h s = elim (Bool-cases (e.peer == p)) [
  | inl k ↦ rw k ((h, s.0), inner-IsInner start p f es (omega arith) s.1)
  | inr k ↦ rw k (inner-IsInner start p f es (omega arith) s.1)
]

split_loop-inner :
    (start end : ℕ) (before : List Range) (r : Range) (rs : List Range)
    → IsInner start r
    → All (IsInner start) rs
    → split_loop start end before r rs ≡ before ++ r ∷ rs
unfolding split_loop split_last
split_loop-inner start end before r [] h k =
    let a : (r.end == start) ≡ false = ground arith in
    let b : leb r.end r.start ≡ false = ground arith in rw (a, b) refl
split_loop-inner start end before r (s ∷ rs) h k =
    split_loop-inner start end (before ++ r ∷ []) s rs k.0 k.1
    ∙ append_assoc before (r ∷ []) (s ∷ rs)

split_loop-snoc :
    (start end : ℕ) (before : List Range) (r : Range) (rs : List Range) (l : Range)
    → split_loop start end before r (rs ++ l ∷ []) ≡ split_last start end (before ++ r ∷ rs) l
unfolding split_loop
split_loop-snoc start end before r [] l = refl
split_loop-snoc start end before r (s ∷ rs) l =
    split_loop-snoc start end (before ++ r ∷ []) s rs l
    ∙ ap (λ (b : List Range). split_last start end b l) (append_assoc before (r ∷ []) (s ∷ rs))

split-inner :
    (start end : ℕ) (rs : List Range)
    → All (IsInner start) rs
    → split_ranges_over_zero start end rs ≡ rs
unfolding split_ranges_over_zero
split-inner start end [] h = refl
split-inner start end (r ∷ rs) h = split_loop-inner start end [] r rs h.0 h.1

split-snoc :
    (start end : ℕ) (rs : List Range) (l : Range)
    → split_ranges_over_zero start end (rs ++ l ∷ []) ≡ split_last start end rs l
unfolding split_ranges_over_zero split_loop
split-snoc start end [] l = refl
split-snoc start end (r ∷ rs) l = split_loop-snoc start end [] r rs l

-- the pieces of a peer: those of its inner entries, and those of the last entry, if it is the peer's
unfoldable pub pieces : ℕ → ℕ → ℕ → Entry → List Entry → List Range
unfolding inner last
pieces start end p e es =
    let tail : Range = record { start = (last e es).token; end = end } in
    let head : Range = record { start = start; end = e.token } in
    if (last e es).peer == p
    then (if e.token == start
        then inner p e es ++ tail ∷ []
        else head ∷ (inner p e es ++ tail ∷ []))
    else inner p e es

pub last-token :
    (e : Entry) (es : List Entry) → IsSortedFrom (suc e.token) es → e.token ≤ (last e es).token
unfolding last
last-token e [] s = omega arith
last-token e (f ∷ es) s = omega (arith, last-token f es s.1)

pub entry_ranges-pieces :
    (start end p : ℕ) (e : Entry) (es : List Entry)
    → start ≤ e.token
    → IsSortedFrom (suc e.token) es
    → split_ranges_over_zero start end (entry_ranges p e.token (e ∷ es)) ≡ pieces start end p e es
unfolding pieces
entry_ranges-pieces start end p e es h s =
    let l : Range = record { start = (last e es).token; end = e.token } in
    let in_order = last-token e es s in
    elim (Bool-cases ((last e es).peer == p)) [
      | inl mine ↦
          ap (split_ranges_over_zero start end) (
            entry_ranges-inner p e.token e es
            ∙ ap (◌++◌ (inner p e es)) (outer-mine p (last e es) e.token mine))
          ∙ split-snoc start end (inner p e es) l
          ∙ rw mine (split_last-wraps start end (inner p e es) l in_order)
      | inr other ↦
          ap (split_ranges_over_zero start end) (
            entry_ranges-inner p e.token e es
            ∙ ap (◌++◌ (inner p e es)) (outer-other p (last e es) e.token other)
            ∙ append-nil (inner p e es))
          ∙ split-inner start end (inner p e es) (inner-IsInner start p e es h s)
          ∙ rw other refl
    ]

inner-bounded :
    (p end : ℕ) (e : Entry) (es : List Entry)
    → IsSortedFrom (suc e.token) es
    → All (λ x. x.token < end) (e ∷ es)
    → All (λ x. (x.start < x.end) × (x.end < end)) (inner p e es)
unfolding inner
inner-bounded p end e [] s h = tt
inner-bounded p end e (f ∷ es) s h =
    let rest = inner-bounded p end f es s.1 h.1 in
    elim (Bool-cases (e.peer == p)) [ inl k ↦ rw k ((s.0, h.1.0), rest) | inr k ↦ rw k rest ]

inner-to :
    (n end : ℕ) (xs : List Range) (last : Range)
    → end < n
    → All (λ x. (x.start < x.end) × (x.end < end)) xs
    → (last.start < last.end) × (last.end < n)
    → All (λ x. (x.start < x.end) × (x.end < n)) (xs ++ last ∷ [])
inner-to n end [] last l h k = (k, tt)
inner-to n end (x ∷ xs) last l h k = ((h.0.0, omega arith), inner-to n end xs last l h.1 k)

inner-alone :
    (n end : ℕ) (xs : List Range)
    → end < n
    → All (λ x. (x.start < x.end) × (x.end < end)) xs
    → All (λ x. (x.start < x.end) × (x.end < n)) xs
inner-alone n end [] l h = tt
inner-alone n end (x ∷ xs) l h = ((h.0.0, omega arith), inner-alone n end xs l h.1)

last-in :
    (end : ℕ) (e : Entry) (es : List Entry)
    → All (λ x. x.token < end) (e ∷ es)
    → (last e es).token < end
unfolding last
last-in end e [] h = h.0
last-in end e (f ∷ es) h = last-in end f es h.1

-- every piece is non-empty and ends by the end of the ring
pub pieces-bounded :
    (n start end p : ℕ) (e : Entry) (es : List Entry)
    → start ≤ e.token
    → IsSortedFrom (suc e.token) es
    → All (λ x. x.token < end) (e ∷ es)
    → end < n
    → All (λ x. (x.start < x.end) × (x.end < n)) (pieces start end p e es)
unfolding pieces
pieces-bounded n start end p e es h s below l =
    let in_order = last-token e es s in
    let within = last-in end e es below in
    let inside = inner-bounded p end e es s below in
    let tail : Range = record { start = (last e es).token; end = end } in
    let with_tail = inner-to n end (inner p e es) tail l inside (within, l) in
    elim (Bool-cases ((last e es).peer == p)) [
      | inr other ↦ rw other (inner-alone n end (inner p e es) l inside)
      | inl mine ↦ elim (Bool-cases (e.token == start)) [
        | inl first ↦ rw (mine, first) with_tail
        | inr past ↦ rw (mine, past) ((ground arith, omega arith), with_tail)
      ]
    ]
