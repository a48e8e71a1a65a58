-- ===== src/Space/Invariant.antt =====
-- The well-formedness of a Space, and what it means to move an address between its slices.
use weave.Base.{ℕ, suc, ◌<◌, ◌≡◌, refl, Bool, true, false, not, ◌&&◌, ◌||◌, ◌==◌, arith, word}
use weave.Address
use weave.Boundaries
use weave.Boundaries.Spans.{
  IsSpans, contains-lt, add-IsSpans, subtract-IsSpans, contains-add, contains-subtract, []-IsSpans,
}
use weave.Space.{Space, new}

abbrev pub owned : Space → ℕ → Bool
owned s a = Boundaries.contains s.ours a

abbrev pub is_free : Space → ℕ → Bool
is_free s a = Boundaries.contains s.free a

-- both slices are well formed, and no address is in use and free
pub record IsValid (s : Space) : Type 0 where
  pub ours_spans : IsSpans s.ours
  pub free_spans : IsSpans s.free
  pub disjoint : (a : ℕ) → (owned s a && is_free s a) ≡ false

-- `t` is `s` with the free address `a` put in use
pub record Taken (s : Space) (a : ℕ) (t : Space) : Type 0 where
  pub was_free : is_free s a ≡ true
  pub valid : IsValid t
  pub owned_after : (b : ℕ) → owned t b ≡ ((b == a) || owned s b)
  pub free_after : (b : ℕ) → is_free t b ≡ (not (b == a) && is_free s b)

-- `t` is `s` with the address `a`, which was in use, given back
pub record Released (s : Space) (a : ℕ) (t : Space) : Type 0 where
  pub was_owned : owned s a ≡ true
  pub valid : IsValid t
  pub owned_after : (b : ℕ) → owned t b ≡ (not (b == a) && owned s b)
  pub free_after : (b : ℕ) → is_free t b ≡ ((b == a) || is_free s b)

next-eq : (a : ℕ) → suc a < word → Address.add a 1 ≡ suc a
unfolding Address.add
next-eq a h = omega arith

pub new-IsValid : IsValid new
unfolding new Boundaries.contains
new-IsValid = record { ours_spans = []-IsSpans; free_spans = []-IsSpans; disjoint = λ a. refl }

-- the steps of Claim and of Free
abbrev pub taken : Space → ℕ → Space
taken s a = record {
  ours = Boundaries.add s.ours a (Address.add a 1);
  free = Boundaries.subtract s.free a (Address.add a 1);
}

abbrev pub released : Space → ℕ → Space
released s a = record {
  ours = Boundaries.subtract s.ours a (Address.add a 1);
  free = Boundaries.add s.free a (Address.add a 1);
}

module _ (s : Space) (a : ℕ) (v : IsValid s) where
  pub taken-Taken : is_free s a ≡ true → Taken s a (taken s a)
  taken-Taken h =
      let lt = contains-lt s.free a v.free_spans h in
      let in_ours = contains-add s.ours a (suc a) v.ours_spans (omega arith) lt in
      let in_free = contains-subtract s.free a (suc a) v.free_spans (omega arith) lt in
      rw (next-eq a lt) (record {
        was_free = h;
        valid = record {
          ours_spans = add-IsSpans s.ours a (suc a) v.ours_spans (omega arith) lt;
          free_spans = subtract-IsSpans s.free a (suc a) v.free_spans (omega arith) lt;
          disjoint = λ b. ground (arith, v.disjoint b, in_ours b, in_free b);
        };
        owned_after = λ b. ground (arith, in_ours b);
        free_after = λ b. ground (arith, in_free b);
      })

  pub released-Released : owned s a ≡ true → Released s a (released s a)
  released-Released h =
      let lt = contains-lt s.ours a v.ours_spans h in
      let in_ours = contains-subtract s.ours a (suc a) v.ours_spans (omega arith) lt in
      let in_free = contains-add s.free a (suc a) v.free_spans (omega arith) lt in
      rw (next-eq a lt) (record {
        was_owned = h;
        valid = record {
          ours_spans = subtract-IsSpans s.ours a (suc a) v.ours_spans (omega arith) lt;
          free_spans = add-IsSpans s.free a (suc a) v.free_spans (omega arith) lt;
          disjoint = λ b. ground (arith, v.disjoint b, in_ours b, in_free b);
        };
        owned_after = λ b. ground (arith, in_ours b);
        free_after = λ b. ground (arith, in_free b);
      })
