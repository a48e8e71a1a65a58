-- ===== src/Allocator/Reporting.antt =====
-- reportFreeSpace: what it reports fits the entries of the ring, so that ReportFree accepts it.
use weave.Base.{
  ℕ, suc, ◌+◌, ◌-◌, ◌≤◌, ◌<◌, ◌≡◌, refl, true, false, ◌&&◌, List, [], ◌∷◌, ◌++◌, ◌==◌, arith,
  Bool-cases, inl, inr, All, word, ok, ◌>>=◌, some, ==_self, ==→eq,
}
use weave.Address.{Range}
use weave.Boundaries.Tally.{tally, tally_mono, tally_interval}
use weave.Space
use weave.Space.{Space}
use weave.Space.Invariant
use weave.Space.Invariant.{is_free}
use weave.Space.Counts.{within, num_free_addresses_in_range_correct}
use weave.Entries.{Entry}
use weave.Entries.Order.{IsSortedFrom}
use weave.Entries.Search.{last}
use weave.Ring.{distance, next_token}
use weave.Ring.Transfer.{find_free, set_free}
use weave.Ring.Pieces.{inner}
use weave.Ring.Fits.{Fits}
use weave.Ring.Reports.{All-map}
use weave.Allocator.Actor.{free_spaces}

-- a report of at most the size of a range fits
abbrev pub Covers : ℕ → ℕ → ℕ → ℕ → List Entry → Range → Type 0
Covers start end p first es x = Fits start end p first es x.start (x.end - x.start)

module _ (start end p first : ℕ) where
  pub inner-Covers :
      (e : Entry) (es : List Entry)
      → IsSortedFrom (suc e.token) es
      → All (Covers start end p first (e ∷ es)) (inner p e es)
  unfolding inner next_token distance
  inner-Covers e [] s = tt
  inner-Covers e (f ∷ es) s =
      let rest =
        All-map (Covers start end p first (f ∷ es)) (Covers start end p first (e ∷ f ∷ es))
          (inner p f es) (λ x h. inr h) (inner-Covers f es s.1) in
      elim (Bool-cases (e.peer == p)) [
        | inl h ↦ rw h (inl (refl, ==→eq e.peer p h, ground arith), rest)
        | inr h ↦ rw h rest
      ]

  pub last-Fits :
      (e : Entry) (es : List Entry) (n : ℕ)
      → ((last e es).peer == p) ≡ true
      → n ≤ distance start end (last e es).token first
      → Fits start end p first (e ∷ es) (last e es).token n
  unfolding last next_token
  last-Fits e [] n h l = inl (refl, ==→eq e.peer p h, l)
  last-Fits e (f ∷ es) n h l = inr (last-Fits f es n h l)

-- the size of the range across the origin
pub distance-wraps :
    (start end a b : ℕ)
    → start ≤ b
    → b ≤ a
    → a < end
    → end < word
    → distance start end a b ≡ end - a + (b - start)
unfolding distance
distance-wraps start end a b h k l m = ground arith

module _ (P : ℕ × ℕ → Type 0) where
  pub set_free-All : (k v : ℕ) (m : List (ℕ × ℕ)) → P (k, v) → All P m → All P (set_free k v m)
  unfolding set_free
  set_free-All k v [] h all = (h, tt)
  set_free-All k v ((a, n) ∷ m) h all = elim (Bool-cases (a == k)) [
    | inl e ↦ rw e (h, all.1)
    | inr e ↦ rw e (all.0, set_free-All k v m h all.1)
  ]

pub find_free-set_free_self : (k v : ℕ) (m : List (ℕ × ℕ)) → find_free k (set_free k v m) ≡ some v
unfolding find_free set_free
find_free-set_free_self k v [] = rw (==_self k) refl
find_free-set_free_self k v ((a, n) ∷ m) = elim (Bool-cases (a == k)) [
  | inl e ↦ rw e (rw (==_self k) refl)
  | inr e ↦ rw (e, e) (find_free-set_free_self k v m)
]

pub find_free-All :
    (P : ℕ × ℕ → Type 0) (k n : ℕ) (m : List (ℕ × ℕ)) → All P m → find_free k m ≡ some n → P (k, n)
unfolding find_free
find_free-All P k n [] all h = absurd cc
find_free-All P k n ((a, v) ∷ m) all h = elim (Bool-cases (a == k)) [
  | inl e ↦
      let s : some v ≡ some n = rw e at h in let t : v ≡ n = cc in rw (← ==→eq a k e, ← t) all.0
  | inr e ↦ find_free-All P k n m all.1 (rw e at h)
]

module _ {E : Type 0} (s : Space) (v : Invariant.IsValid s) where
  -- no more addresses of a range are free than it has
  pub num_free-le :
      (x : Range)
      → (n : ℕ) × (Space.num_free_addresses_in_range {E = E} s x ≡ ok n) × (n ≤ x.end - x.start)
  num_free-le x = (
    tally word (λ b. within x b && is_free s b),
    num_free_addresses_in_range_correct {E = E} s x v,
    omega (
      arith,
      tally_mono word (λ b. within x b && is_free s b) (within x) (λ b h. ground arith),
      tally_interval word x.start x.end,
    ),
  )

  pub free_spaces-All :
      (P : ℕ × ℕ → Type 0) (rs : List Range) (m : List (ℕ × ℕ))
      → All (λ x. (n : ℕ) → n ≤ x.end - x.start → P (x.start, n)) rs
      → All P m
      → (m' : List (ℕ × ℕ)) × (free_spaces {E = E} s rs m ≡ ok m') × All P m'
  unfolding free_spaces
  free_spaces-All P [] m h all = (m, refl, all)
  free_spaces-All P (x ∷ rs) m h all =
      let (n, e, le) = num_free-le x in
      let (m', f, all') =
        free_spaces-All P rs (set_free x.start n m) h.1
          (set_free-All P x.start n m (h.0 n le) all) in
      (m', rw (e, f) refl, all')

  pub free_spaces-append :
      (rs : List Range) (x : Range) (m : List (ℕ × ℕ))
      → free_spaces {E = E} s (rs ++ x ∷ []) m
        ≡ (free_spaces {E = E} s rs m >>= free_spaces {E = E} s (x ∷ []))
  unfolding free_spaces
  free_spaces-append [] x m = refl
  free_spaces-append (r ∷ rs) x m =
      let (n, e, le) = num_free-le r in rw e (free_spaces-append rs x (set_free r.start n m))

  pub free_spaces-cons :
      (a k : ℕ) (rs : List Range) (m : List (ℕ × ℕ))
      → All (λ x. (a == x.start) ≡ false) rs
      → free_spaces {E = E} s rs ((a, k) ∷ m)
        ≡ (free_spaces {E = E} s rs m >>= λ m'. ok ((a, k) ∷ m'))
  unfolding free_spaces set_free
  free_spaces-cons a k [] m h = refl
  free_spaces-cons a k (x ∷ rs) m h =
      let (n, e, le) = num_free-le x in
      rw (e, h.0) (free_spaces-cons a k rs (set_free x.start n m) h.1)

  pub free_spaces-head :
      (x : Range) (rs : List Range) (m : List (ℕ × ℕ)) (n : ℕ)
      → Space.num_free_addresses_in_range {E = E} s x ≡ ok n
      → free_spaces {E = E} s (x ∷ rs) m ≡ free_spaces s rs (set_free x.start n m)
  unfolding free_spaces
  free_spaces-head x rs m n e = rw e refl

  pub free_spaces-single :
      (x : Range) (m : List (ℕ × ℕ)) (n : ℕ)
      → Space.num_free_addresses_in_range {E = E} s x ≡ ok n
      → free_spaces {E = E} s (x ∷ []) m ≡ ok (set_free x.start n m)
  unfolding free_spaces
  free_spaces-single x m n e = rw e refl

pub set_free-nil : (k v : ℕ) → set_free k v [] ≡ (k, v) ∷ []
unfolding set_free
set_free-nil k v = refl
