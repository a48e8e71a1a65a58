-- ===== src/Boundaries/Tally.antt =====
-- How many addresses a slice contains.
use mathlib.Core.Path.{fun_ext}
use weave.Base.{
  ℕ, zero, suc, ◌+◌, ◌-◌, ◌%◌, ◌≤◌, ◌<◌, ◌≡◌, refl, ◌∙◌, Bool, true, false, ◌&&◌, ◌||◌, List, [],
  ◌∷◌, ap, sym, ltb, leb, if◌then◌else◌, length, arith, Bool-cases, inl, inr, All, word, min,
}
use weave.Boundaries.{contains}
use weave.Boundaries.Cuts.{IsAscendingFrom}
use weave.Boundaries.Spans.{IsSpans, covers, covers_below, contains-covers}

-- the number of addresses below `n` that satisfy `p`
pub tally : ℕ → (ℕ → Bool) → ℕ
tally zero p = 0
tally (suc n) p = if p n then suc (tally n p) else tally n p

pub tally-ext : (n : ℕ) (p q : ℕ → Bool) → ((x : ℕ) → p x ≡ q x) → tally n p ≡ tally n q
tally-ext n p q h = ap (tally n) (fun_ext h)

pub tally-le : (n : ℕ) (p : ℕ → Bool) → tally n p ≤ n
unfolding tally
tally-le zero p = omega arith
tally-le (suc n) p = ground (arith, tally-le n p)

pub tally_none : (n : ℕ) (p : ℕ → Bool) → ((x : ℕ) → p x ≡ false) → tally n p ≡ 0
unfolding tally
tally_none zero p h = refl
tally_none (suc n) p h = rw (h n) (tally_none n p h)

tally-or :
    (n : ℕ) (p q : ℕ → Bool)
    → ((x : ℕ) → (p x && q x) ≡ false)
    → tally n (λ x. p x || q x) ≡ tally n p + tally n q
unfolding tally
tally-or zero p q h = omega arith
tally-or (suc n) p q h = ground (arith, h n, tally-or n p q h)

pub tally_interval : (n a b : ℕ) → tally n (λ x. leb a x && ltb x b) ≡ min n b - min n a
unfolding tally
tally_interval zero a b = omega arith
tally_interval (suc n) a b = ground (arith, tally_interval n a b)

-- an interval and what lies past it
pub tally_past :
    (n a b : ℕ) (q : ℕ → Bool)
    → b ≤ n
    → ((x : ℕ) → x < b → q x ≡ false)
    → tally n (λ x. (leb a x && ltb x b) || q x) ≡ b - a + tally n q
tally_past n a b q h past =
    tally-or n (λ x. leb a x && ltb x b) q (λ x. apart x) ∙ omega (arith, tally_interval n a b)
  where
    apart : (x : ℕ) → ((leb a x && ltb x b) && q x) ≡ false
    apart x = elim (Bool-cases (ltb x b)) [
      | inl lt ↦ rw (past x (ground arith)) (ground arith)
      | inr ge ↦ ground arith
    ]

-- the sum that the counting loops compute
unfoldable pub spans_size : List ℕ → ℕ
spans_size [] = 0
spans_size (a ∷ []) = 0
spans_size (a ∷ b ∷ rest) = b - a + spans_size rest

pub spans_size-tally :
    (lo n : ℕ) (xs : List ℕ)
    → IsAscendingFrom lo xs
    → length xs % 2 ≡ 0
    → All (λ x. x < n) xs
    → spans_size xs ≡ tally n (covers xs)
unfolding spans_size covers
spans_size-tally lo n [] asc even h = sym (tally_none n _ (λ x. refl))
spans_size-tally lo n (a ∷ []) asc even h = absurd (omega arith)
spans_size-tally lo n (a ∷ b ∷ rest) asc even h =
    ap (◌+◌ (b - a)) (spans_size-tally (suc b) n rest asc.1.1 (omega arith) h.1.1)
    ∙ sym (
        tally_past n a b (covers rest) (omega arith)
          (λ x p. covers_below (suc b) x rest asc.1.1 (omega arith)))

pub spans_size-contains : (xs : List ℕ) → IsSpans xs → spans_size xs ≡ tally word (contains xs)
spans_size-contains xs v =
    spans_size-tally 0 word xs v.ascending v.even v.bounded
    ∙ tally-ext word (covers xs) (contains xs) (λ x. sym (contains-covers xs x v))

pub tally_mono :
    (n : ℕ) (p q : ℕ → Bool) → ((x : ℕ) → p x ≡ true → q x ≡ true) → tally n p ≤ tally n q
unfolding tally
tally_mono zero p q h = omega arith
tally_mono (suc n) p q h = ground (arith, h n, tally_mono n p q h)
