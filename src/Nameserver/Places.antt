-- ===== src/Nameserver/Places.antt =====
-- The binary searches of entry.go on strictly ascending entries.
use weave.Base.{
  ℕ, zero, suc, ◌≤◌, ◌<◌, ◌≡◌, refl, ap, Bool, true, false, arith, List, [], ◌∷◌, Bool-cases, inl,
  inr, if◌then◌else◌, length, take, drop,
}
use weave.Base.Search.{search-cut}
use weave.Nameserver.{Entry, insensitive_less, test_at, search_entries}
use weave.Nameserver.Order.{Above, IsStrict}

-- a test that stays true along the order
abbrev pub IsUpward : (Entry → Bool) → Type 0
IsUpward f = (x y : Entry) → f x ≡ true → insensitive_less x y ≡ true → f y ≡ true

module _ (f : Entry → Bool) where
  unfoldable pub below : List Entry → List Entry
  below [] = []
  below (x ∷ es) = if f x then [] else x ∷ below es

  unfoldable pub above : List Entry → List Entry
  above [] = []
  above (x ∷ es) = if f x then x ∷ es else above es

  length-below : (es : List Entry) → length (below es) ≤ length es
  unfolding below
  length-below [] = omega arith
  length-below (x ∷ es) = ground (arith, length-below es)

  test_at-below : (es : List Entry) (i : ℕ) → i < length (below es) → test_at f es i ≡ false
  unfolding below test_at
  test_at-below [] i h = refl
  test_at-below (x ∷ es) zero h = ground arith
  test_at-below (x ∷ es) (suc i) h = ground (arith, test_at-below es i)

  module _ (up : IsUpward f) where
    -- from an entry that passes on, all entries pass
    test_at-up :
        (x : Entry) (es : List Entry) (i : ℕ)
        → f x ≡ true
        → Above x es
        → IsStrict es
        → i < length es
        → test_at f es i ≡ true
    unfolding test_at
    test_at-up x [] i h a s l = absurd (omega arith)
    test_at-up x (y ∷ es) zero h a s l = up x y h a
    test_at-up x (y ∷ es) (suc i) h a s l = test_at-up y es i (up x y h a) s.0 s.1 (omega arith)

    test_at-above :
        (es : List Entry) (i : ℕ)
        → IsStrict es
        → length (below es) ≤ i
        → i < length es
        → test_at f es i ≡ true
    unfolding below test_at
    test_at-above [] i s h l = absurd (omega arith)
    test_at-above (x ∷ es) zero s h l = elim (Bool-cases (f x)) [
      | inl y ↦ y
      | inr n ↦ absurd (omega (arith, rw n at h))
    ]
    test_at-above (x ∷ es) (suc i) s h l = elim (Bool-cases (f x)) [
      | inl y ↦ test_at-up x es i y s.0 s.1 (omega arith)
      | inr n ↦ test_at-above es i s.1 (omega (arith, rw n at h)) (omega arith)
    ]

    search_entries-below : (es : List Entry) → IsStrict es → search_entries f es ≡ length (below es)
    unfolding search_entries
    search_entries-below es s =
        search-cut (test_at f es) (length (below es)) (length es) (test_at-below es)
          (λ i h l. test_at-above es i s h l) (length-below es)

  take-below : (es : List Entry) → take (length (below es)) es ≡ below es
  unfolding below
  take-below [] = refl
  take-below (x ∷ es) = elim (Bool-cases (f x)) [
    | inl y ↦ rw y refl
    | inr n ↦ rw n (ap (◌∷◌ x) (take-below es))
  ]

  drop-above : (es : List Entry) → drop (length (below es)) es ≡ above es
  unfolding below above
  drop-above [] = refl
  drop-above (x ∷ es) = elim (Bool-cases (f x)) [ inl y ↦ rw y refl | inr n ↦ rw n (drop-above es) ]

  -- a search cuts the entries in two
  module _ (up : IsUpward f) (es : List Entry) (s : IsStrict es) where
    pub take-search_entries : take (search_entries f es) es ≡ below es
    take-search_entries = rw (search_entries-below up es s) (take-below es)

    pub drop-search_entries : drop (search_entries f es) es ≡ above es
    drop-search_entries = rw (search_entries-below up es s) (drop-above es)
