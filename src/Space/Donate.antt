-- ===== src/Space/Donate.antt =====
-- Donate: a peer gives away a block of free space.
use native.Mathlib.Decide.{ℕ_discrete}
use weave.Base.{
  ℕ, suc, ◌+◌, ◌-◌, ◌/◌, ◌*◌, ◌%◌, ◌≤◌, ◌<◌, ◌≡◌, refl, ◌∙◌, Bool, true, false, not, ◌&&◌, List, [],
  ◌∷◌, ltb, leb, ◌==◌, if◌then◌else◌, length, arith, Bool-cases, inl, inr, All, word, Run, ok, ◌⊎◌,
  leb→lt, ltb→le,
}
use weave.Address
use weave.Address.{Range}
use weave.Address.Biggest.{biggest_cidr_range_correct}
use weave.Address.Bits.{power, power_pos}
use weave.Boundaries
use weave.Boundaries.Cuts.{IsAscendingFrom}
use weave.Boundaries.Spans.{
  covers, covers_below, contains-covers, subtract-IsSpans, contains-subtract,
}
use weave.Boundaries.Tally.{tally, tally_mono, tally_interval}
use weave.Space.{
  Space, SpaceError, walk_loop, walk_free, clip, keep_bigger, biggest_free_range, upper_half,
  donate,
}
use weave.Space.Invariant.{owned, is_free, IsValid}
use weave.Space.Counts.{within, num_free_addresses_in_range_correct}

-- a candidate for donation: a range of the given size, all of it in `r` and satisfying `p`
pub record IsCandidate (r : Range) (p : ℕ → Bool) (c : Range × ℕ) : Type 0 where
  pub width : c.0.end ≡ c.0.start + c.1
  pub small : c.0.end < word
  pub inside : (x : ℕ) → within c.0 x ≡ true → (within r x && p x) ≡ true

size-eq : {E : Type 0} (c : Range) (n : ℕ) → c.end ≡ c.start + n → Address.size {E = E} c ≡ ok n
unfolding Address.size Address.length
size-eq c n e =
    let fits : leb c.start c.end ≡ true = ground arith in
    let width : c.end - c.start ≡ n = omega arith in rw (fits, width)

-- one call of the callback, on a non-empty chunk
keep_bigger-IsCandidate :
    {E : Type 0} (r : Range) (p : ℕ → Bool) (chunk : Range) (c : Range × ℕ)
    → chunk.start < chunk.end
    → chunk.end < word
    → ((x : ℕ) → within chunk x ≡ true → (within r x && p x) ≡ true)
    → IsCandidate r p c
    → (d : Range × ℕ) × (keep_bigger {E = E} chunk c ≡ ok (false, d))
      × IsCandidate r p d
      × (0 < d.1)
unfolding keep_bigger
keep_bigger-IsCandidate {E} r p chunk (b, m) pos small inside v =
    let (d, e, big) = biggest_cidr_range_correct {E = E} chunk pos small in
    let n = chunk.end - chunk.start in
    let width : chunk.end ≡ chunk.start + n = omega arith in
    elim (Bool-cases (leb m n)) [
      | inl try_cidr ↦ elim (Bool-cases (leb m (power big.exponent))) [
        | inl bigger ↦ (
          (d, power big.exponent),
          rw (size-eq chunk n width, try_cidr, e, size-eq d _ big.width, bigger),
          record {
            width = big.width;
            small = omega (arith, big.block.upto, big.width);
            inside = λ x h. inside x (ground (arith, big.block.from, big.block.upto, big.width));
          },
          power_pos big.exponent,
        )
        | inr smaller ↦ (
          (b, m),
          rw (size-eq chunk n width, try_cidr, e, size-eq d _ big.width, smaller),
          v,
          omega (arith, leb→lt _ _ smaller),
        )
      ]
      | inr less ↦ ((b, m), rw (size-eq chunk n width, less), v, omega (arith, leb→lt _ _ less))
    ]

-- what the walk over the chunks `xs` makes of a candidate
abbrev Found :
    {E : Type 0} → Range → (ℕ → Bool) → List ℕ → Range × ℕ → Run E (Bool × (Range × ℕ)) → Type 0
Found {E} r p xs c run =
    (d : Range × ℕ) × (run ≡ ok (false, d))
    × IsCandidate r p d
    × (d.1 ≡ 0 → (c.1 ≡ 0) × ((x : ℕ) → within r x ≡ true → covers xs x ≡ false))

walk_bigger :
    {E : Type 0} (lo : ℕ) (r : Range) (p : ℕ → Bool) (xs : List ℕ) (c : Range × ℕ)
    → IsAscendingFrom lo xs
    → length xs % 2 ≡ 0
    → All (λ x. x < word) xs
    → r.start < r.end
    → ((x : ℕ) → covers xs x ≡ true → p x ≡ true)
    → IsCandidate r p c
    → Found {E = E} r p xs c (walk_loop r keep_bigger xs c)
unfolding walk_loop clip covers
walk_bigger lo r p [] c asc even small pos sub v = (c, refl, v, λ z. (z, λ x h. refl))
walk_bigger lo r p (a ∷ []) c asc even small pos sub v = absurd (omega arith)
walk_bigger {E} lo r p (a ∷ b ∷ rest) c asc even small pos sub v =
    let rest_sub : (x : ℕ) → covers rest x ≡ true → p x ≡ true = λ x h. sub x (ground arith) in
    let past : (x : ℕ) → x < suc b → covers rest x ≡ false =
      λ x h. covers_below (suc b) x rest asc.1.1 h in
    let go = λ (d : Range × ℕ).
      walk_bigger {E = E} (suc b) r p rest d asc.1.1 (omega arith) small.1.1 pos rest_sub in
    elim (Bool-cases (leb b r.start)) [
      | inl before ↦
          let (d, e, w, z) = go c v in
          rw before (d, e, w, λ h. ((z h).0, λ x q. ground (arith, (z h).1 x)))
      | inr reaches ↦ elim (Bool-cases (leb r.end a)) [
        | inl after ↦ rw (reaches, after) (c, refl, v, λ z. (z, λ x h. ground (arith, past x)))
        | inr meets ↦
            let chunk = clip r a b in
            let (d, e, w, grew) =
              keep_bigger-IsCandidate {E = E} r p chunk c (ground arith) (ground arith)
                (λ x h. ground (arith, sub x)) v in
            let (f, e', w', z) = go d w in
            rw (reaches, meets, e) (f, e', w', λ h. absurd (omega (arith, (z h).0)))
      ]
    ]

-- the addresses of `r` that are free in `s`
abbrev pub available : Space → Range → ℕ → Bool
available s r x = within r x && is_free s x

-- `t` is `s` without the donated range `g`
pub record Donated (s : Space) (r g : Range) (t : Space) : Type 0 where
  pub nonempty : g.start < g.end
  pub was_free : (x : ℕ) → within g x ≡ true → available s r x ≡ true
  pub at_most_half : 2 * (g.end - g.start) ≤ tally word (available s r) + 1
  pub valid : IsValid t
  pub owned_after : (x : ℕ) → owned t x ≡ owned s x
  pub free_after : (x : ℕ) → is_free t x ≡ (not (within g x) && is_free s x)

nothing : Range
nothing = record { start = 0; end = 0 }

start-IsCandidate : (r : Range) (p : ℕ → Bool) → IsCandidate r p (nothing, 0)
unfolding nothing
start-IsCandidate r p = record {
  width = refl;
  small = omega arith;
  inside = λ x h. absurd (ground arith);
}

module _ (s : Space) (r : Range) (v : IsValid s) where
  biggest_free_range_correct :
      {E : Type 0}
      → (c : Range × ℕ) × (biggest_free_range {E = E} s r ≡ ok c.0)
        × IsCandidate r (is_free s) c
        × (c.1 ≡ 0 → (x : ℕ) → within r x ≡ true → is_free s x ≡ false)
  unfolding biggest_free_range walk_free nothing
  biggest_free_range_correct {E} = elim (Bool-cases (leb r.end r.start)) [
    | inl empty ↦
        ((nothing, 0), rw empty, start-IsCandidate r (is_free s), λ z x h. absurd (ground arith))
    | inr some_range ↦
        let free = v.free_spans in
        let (c, e, w, z) =
          walk_bigger {E = E} 0 r (is_free s) s.free (nothing, 0) free.ascending free.even
            free.bounded (ground arith) (λ x h. contains-covers s.free x free ∙ h)
            (start-IsCandidate r (is_free s)) in
        (c, rw (some_range, e), w, λ n x h. contains-covers s.free x free ∙ (z n).1 x h)
  ]

  -- a candidate is no bigger than what is available
  candidate-le : (c : Range × ℕ) → IsCandidate r (is_free s) c → c.1 ≤ tally word (available s r)
  candidate-le c w = omega (
    arith,
    tally_mono word (within c.0) (available s r) w.inside,
    tally_interval word c.0.start c.0.end,
    w.width,
    w.small,
  )

  without : Range → Space
  without g = record {
    ours = Boundaries.subtract s.ours g.start g.end;
    free = Boundaries.subtract s.free g.start g.end;
  }

  without-Donated :
      (g : Range)
      → g.start < g.end
      → g.end < word
      → ((x : ℕ) → within g x ≡ true → available s r x ≡ true)
      → 2 * (g.end - g.start) ≤ tally word (available s r) + 1
      → Donated s r g (without g)
  unfolding without
  without-Donated g pos small inside half =
      let in_ours = contains-subtract s.ours g.start g.end v.ours_spans pos small in
      let in_free = contains-subtract s.free g.start g.end v.free_spans pos small in
      record {
        nonempty = pos;
        was_free = inside;
        at_most_half = half;
        valid = record {
          ours_spans = subtract-IsSpans s.ours g.start g.end v.ours_spans pos small;
          free_spans = subtract-IsSpans s.free g.start g.end v.free_spans pos small;
          disjoint = λ x. ground (arith, in_ours x, in_free x, v.disjoint x);
        };
        owned_after = λ x. ground (arith, in_ours x, v.disjoint x, inside x);
        free_after = λ x. in_free x;
      }

  -- the range that is given away, out of the biggest one
  given_of :
      (c : Range × ℕ)
      → IsCandidate r (is_free s) c
      → 0 < c.1
      → {E : Type 0}
      → (g : Range) × ((if ltb (tally word (available s r) / 2) c.1
            then upper_half {E = E} c.0
            else ok c.0)
          ≡ ok g)
        × Donated s r g (without g)
  unfolding upper_half
  given_of c w pos {E} = elim (Bool-cases (ltb (tally word (available s r) / 2) c.1)) [
    | inl too_much ↦
        let start : Address.add c.0.start (c.1 / 2) ≡ c.0.start + c.1 / 2 =
          unfold Address.add in (omega (arith, w.width, w.small)) in
        let g : Range = record { start = c.0.start + c.1 / 2; end = c.0.end } in
        (
          g,
          rw (too_much, size-eq {E = E} c.0 c.1 w.width, start),
          without-Donated g (omega (arith, w.width)) w.small (λ x h. w.inside x (ground arith))
              (omega (arith, w.width, candidate-le c w)),
        )
    | inr modest ↦ (
      c.0,
      rw modest,
      without-Donated c.0 (omega (arith, w.width)) w.small w.inside
          (omega (arith, w.width, ltb→le _ _ modest)),
    )
  ]

-- Donate on a valid space refuses, and changes nothing, exactly if no address of the range is free. Otherwise it gives away a non-empty range of free addresses of the range, no more than half of them rounded up, and exactly those addresses leave the space.
pub donate_correct :
    (s : Space) (r : Range)
    → IsValid s
    → ((donate s r ≡ ok (record { start = 0; end = 0 }, false, s))
        × ((x : ℕ) → within r x ≡ true → is_free s x ≡ false))
      ⊎ ((g : Range) × (t : Space) × (donate s r ≡ ok (g, true, t)) × Donated s r g t)
unfolding donate
donate_correct s r v =
    let (c, e, w, none_free) = biggest_free_range_correct s r v {E = SpaceError} in
    let count = num_free_addresses_in_range_correct {E = SpaceError} s r v in
    elim (ℕ_discrete c.1 0) [
      | yes z ↦ inl (rw (e, size-eq {E = SpaceError} c.0 c.1 w.width, z), none_free z)
      | no some_free ↦
          let nonzero : (c.1 == 0) ≡ false = ground arith in
          let (g, f, d) = given_of s r v c w (omega arith) {E = SpaceError} in
          inr (
            g,
            without s r v g,
            rw (e, size-eq {E = SpaceError} c.0 c.1 w.width, nonzero, count, f)
                (unfold without in refl),
            d,
          )
    ]
