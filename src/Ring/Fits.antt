-- ===== src/Ring/Fits.antt =====
-- Entries with the same tokens and owners, and reports of free addresses that fit.
use weave.Base.{
  ℕ, suc, ◌≤◌, ◌<◌, ◌≡◌, ◌⊎◌, refl, ◌∙◌, sym, ap, List, [], ◌∷◌, ◌++◌, length, arith, inl, inr, All,
}
use weave.Entries.{Entry}
use weave.Entries.Order.{IsSortedFrom}
use weave.Entries.Search.{count_below, count_below-zero}
use weave.Ring.{next_token, distance}
use weave.Ring.Ranges.{entry_ranges, first_token}
use weave.Ring.Valid.{FreeFits}

-- the same tokens and owners
pub data Same : List Entry → List Entry → Type 0 where
  none : Same [] []
  both :
      (e f : Entry) {es fs : List Entry}
      → e.token ≡ f.token
      → e.peer ≡ f.peer
      → Same es fs
      → Same (e ∷ es) (f ∷ fs)

pub Same-refl : (es : List Entry) → Same es es
Same-refl [] = none
Same-refl (e ∷ es) = both e e refl refl (Same-refl es)

pub Same-trans : {es fs gs : List Entry} → Same es fs → Same fs gs → Same es gs
Same-trans none none = none
Same-trans (both e f t p s) (both f' g u q r) = both e g (t ∙ u) (p ∙ q) (Same-trans s r)

pub Same-replace :
    (pre post : List Entry) (e f : Entry)
    → e.token ≡ f.token
    → e.peer ≡ f.peer
    → Same (pre ++ e ∷ post) (pre ++ f ∷ post)
Same-replace [] post e f t p = both e f t p (Same-refl post)
Same-replace (x ∷ pre) post e f t p = both x x refl refl (Same-replace pre post e f t p)

module _ (first : ℕ) where
  next_token-Same : {es fs : List Entry} → Same es fs → next_token first fs ≡ next_token first es
  unfolding next_token
  next_token-Same none = refl
  next_token-Same (both e f t p s) = sym t

  pub entry_ranges-Same :
      (peer : ℕ) {es fs : List Entry}
      → Same es fs
      → entry_ranges peer first fs ≡ entry_ranges peer first es
  unfolding entry_ranges
  entry_ranges-Same peer none = refl
  entry_ranges-Same peer (both e f t p s) =
      rw (entry_ranges-Same peer s, next_token-Same s, ← t, ← p) refl

pub first_token-Same : {es fs : List Entry} → Same es fs → first_token fs ≡ first_token es
unfolding first_token
first_token-Same none = refl
first_token-Same (both e f t p s) = sym t

pub IsSortedFrom-Same :
    (lo : ℕ) {es fs : List Entry} → Same es fs → IsSortedFrom lo es → IsSortedFrom lo fs
IsSortedFrom-Same lo none h = tt
IsSortedFrom-Same lo (both e f t p s) h =
    (omega arith, rw (← t) (IsSortedFrom-Same (suc e.token) s h.1))

pub below-Same :
    (end : ℕ) {es fs : List Entry}
    → Same es fs
    → All (λ e. e.token < end) es
    → All (λ e. e.token < end) fs
below-Same end none h = tt
below-Same end (both e f t p s) h = (omega arith, below-Same end s h.1)

module _ (start end peer first : ℕ) where
  -- a report of so many free addresses for the entry with this token fits
  abbrev pub Fits : List Entry → ℕ → ℕ → Type 0
  Fits [] k n = ⊥
  Fits (e ∷ es) k n =
      ((e.token ≡ k) × (e.peer ≡ peer) × (n ≤ distance start end e.token (next_token first es)))
      ⊎ Fits es k n

  pub Fits-Same : (k n : ℕ) {es fs : List Entry} → Same es fs → Fits es k n → Fits fs k n
  Fits-Same k n none h = h
  Fits-Same k n (both e f t p s) (inl h) =
      inl (sym t ∙ h.0, sym p ∙ h.1, rw (next_token-Same first s, ← t) h.2)
  Fits-Same k n (both e f t p s) (inr h) = inr (Fits-Same k n s h)

  pub Fits-mono : (es : List Entry) (k m n : ℕ) → n ≤ m → Fits es k m → Fits es k n
  Fits-mono [] k m n l h = h
  Fits-mono (e ∷ es) k m n l (inl h) = inl (h.0, h.1, omega (arith, h.2))
  Fits-mono (e ∷ es) k m n l (inr h) = inr (Fits-mono es k m n l h)

  -- where the entry is
  pub record At (es : List Entry) (lo k n : ℕ) : Type 0 where
    pub pre : List Entry
    pub e : Entry
    pub post : List Entry
    pub parts : es ≡ pre ++ e ∷ post
    pub place : count_below k es ≡ length pre
    pub token : e.token ≡ k
    pub owned : e.peer ≡ peer
    pub fits : n ≤ distance start end e.token (next_token first post)
    pub from : lo ≤ k

  pub at : (es : List Entry) (lo k n : ℕ) → IsSortedFrom lo es → Fits es k n → At es lo k n
  unfolding count_below
  at [] lo k n s h = absurd h
  at (e ∷ es) lo k n s (inl h) = record {
    pre = [];
    e = e;
    post = es;
    parts = refl;
    place = ground (arith, count_below-zero (suc e.token) k es s.1, h.0);
    token = h.0;
    owned = h.1;
    fits = h.2;
    from = omega (arith, h.0, s.0);
  }
  at (e ∷ es) lo k n s (inr h) =
      let a = at es (suc e.token) k n s.1 h in
      record {
        pre = e ∷ a.pre;
        e = a.e;
        post = a.post;
        parts = ap (◌∷◌ e) a.parts;
        place = ground (arith, a.place, a.from);
        token = a.token;
        owned = a.owned;
        fits = a.fits;
        from = omega (arith, a.from, s.0);
      }

  pub Fits-from : (es : List Entry) (lo k n : ℕ) → IsSortedFrom lo es → Fits es k n → lo ≤ k
  Fits-from es lo k n s h = (at es lo k n s h).from

  pub FreeFits-replace :
      (pre post : List Entry) (e f : Entry)
      → e.token ≡ f.token
      → f.free ≤ distance start end e.token (next_token first post)
      → FreeFits start end first (pre ++ e ∷ post)
      → FreeFits start end first (pre ++ f ∷ post)
  unfolding next_token
  FreeFits-replace [] post e f t h v = (rw (← t) h, v.1)
  FreeFits-replace (x ∷ []) post e f t h v = (rw (← t) v.0, FreeFits-replace [] post e f t h v.1)
  FreeFits-replace (x ∷ y ∷ pre) post e f t h v = (v.0, FreeFits-replace (y ∷ pre) post e f t h v.1)
