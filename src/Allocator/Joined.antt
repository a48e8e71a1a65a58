-- ===== src/Allocator/Joined.antt =====
-- The reports of reportFreeSpace, joined across the origin, fit the entries of a valid ring.
use weave.Base.{
  ℕ, suc, ◌+◌, ◌-◌, ◌%◌, ◌≤◌, ◌<◌, ◌≡◌, refl, ◌∙◌, ap, true, false, List, [], ◌∷◌, ◌++◌, ◌==◌,
  arith, Bool-cases, inl, inr, All, word, ok, ◌>>=◌, Option, none, some, ==_self,
}
use weave.Address.{Range}
use weave.Space
use weave.Space.{Space}
use weave.Space.Invariant
use weave.Entries
use weave.Entries.{Entry}
use weave.Entries.Search.{last, entry_first, entry_before-last}
use weave.Ring.{Ring}
use weave.Ring.Valid.{AreValid}
use weave.Ring.Transfer.{find_free, set_free, join_origin}
use weave.Ring.Pieces.{inner, pieces, last-token, inner-IsInner, IsInner}
use weave.Ring.Fits.{Fits, Fits-mono, Fits-from}
use weave.Ring.Reports.{All-map}
use weave.Allocator.Actor.{free_spaces}
use weave.Allocator.Reporting.{
  Covers, inner-Covers, last-Fits, distance-wraps, set_free-All, find_free-set_free_self,
  free_spaces-All, free_spaces-append, free_spaces-cons, num_free-le, find_free-All,
  free_spaces-head, free_spaces-single, set_free-nil,
}

last-below :
    (end : ℕ) (e : Entry) (es : List Entry)
    → All (λ x. x.token < end) (e ∷ es)
    → (last e es).token < end
unfolding last
last-below end e [] h = h.0
last-below end e (f ∷ es) h = last-below end f es h.1

All-snoc {ℓ κ} :
    {A : Type ℓ} (P : A → Type κ) (xs : List A) (y : A) → All P xs → P y → All P (xs ++ y ∷ [])
All-snoc P [] y h k = (k, tt)
All-snoc P (x ∷ xs) y h k = (h.0, All-snoc P xs y h.1 k)

-- the reports that fit
abbrev pub AllFit : Ring → Entry → List Entry → List (ℕ × ℕ) → Type 0
AllFit r e es = All (λ k. Fits r.start r.end r.peer e.token (e ∷ es) k.0 k.1)

-- whatever is reported of a range of these fits, up to its size
abbrev Fitting : Ring → Entry → List Entry → List Range → Type 0
Fitting r e es =
    All (λ x. (n : ℕ) → n ≤ x.end - x.start → Fits r.start r.end r.peer e.token (e ∷ es) x.start n)

module _ (r : Ring) (e : Entry) (es : List Entry) where
  fitting :
      (rs : List Range) → All (Covers r.start r.end r.peer e.token (e ∷ es)) rs → Fitting r e es rs
  fitting [] h = tt
  fitting (x ∷ rs) h = (
    λ n le. Fits-mono r.start r.end r.peer e.token (e ∷ es) x.start (x.end - x.start) n le h.0,
    fitting rs h.1,
  )

  tail : Range
  tail = record { start = (last e es).token; end = r.end }

module _ (r : Ring) (e : Entry) (es : List Entry) (v : AreValid r.start r.end (e ∷ es))
    (small : r.end < word) where
  inner-Fitting : Fitting r e es (inner r.peer e es)
  inner-Fitting =
      fitting r e es (inner r.peer e es) (inner-Covers r.start r.end r.peer e.token e es v.sorted.1)

  -- the size of the last entry's range
  around :
      ((last e es).peer == r.peer) ≡ true
      → (n : ℕ) → n ≤ r.end - (last e es).token + (e.token - r.start)
      → Fits r.start r.end r.peer e.token (e ∷ es) (last e es).token n
  around mine n le =
      let below = last-below r.end e es v.below_end in
      let order = last-token e es v.sorted.1 in
      let size =
        distance-wraps r.start r.end (last e es).token e.token v.sorted.0 order below small in
      last-Fits r.start r.end r.peer e.token e es n mine (rw size le)

  in_tail :
      (k : ℕ)
      → k ≤ (tail r e es).end - (tail r e es).start
      → k ≤ r.end - (last e es).token + (e.token - r.start)
  unfolding tail
  in_tail k h = omega arith

  sizes :
      (k n : ℕ)
      → k ≤ (tail r e es).end - (tail r e es).start
      → n ≤ e.token - r.start
      → k + n ≤ r.end - (last e es).token + (e.token - r.start)
  unfolding tail
  sizes k n h l = omega arith

  at_most :
      (k n : ℕ)
      → k + n ≤ r.end - (last e es).token + (e.token - r.start)
      → (k + n) % word ≤ r.end - (last e es).token + (e.token - r.start)
  at_most k n h = omega arith

  -- after the start of the ring
  inner-apart :
      (e.token == r.start) ≡ false
      → All (λ x. (r.start == x.start) ≡ false) (inner r.peer e es ++ tail r e es ∷ [])
  unfolding tail
  inner-apart past =
      let start = v.sorted.0 in
      let order = last-token e es v.sorted.1 in
      let after : suc r.start ≤ e.token = ground arith in
      All-snoc _ (inner r.peer e es) (tail r e es)
        (All-map (IsInner (suc r.start)) (λ x. (r.start == x.start) ≡ false) (inner r.peer e es)
          (λ x h. ground arith) (inner-IsInner (suc r.start) r.peer e es after v.sorted.1))
        (ground arith)

module _ {E : Type 0} (r : Ring) (e : Entry) (es : List Entry) (entries : r.entries ≡ e ∷ es)
    (v : AreValid r.start r.end (e ∷ es)) (small : r.end < word) where
  first_is : Entries.entry {E = E} r.entries 0 ≡ ok e
  first_is = rw entries (entry_first {E = E} e es)

  last_is : Entries.entry_before {E = E} r.entries 0 ≡ ok (last e es)
  last_is = rw entries (entry_before-last {E = E} e es)

  -- with no report for the start of the ring but that of an entry nothing is joined
  join-same-at :
      (m : List (ℕ × ℕ)) (o : Option ℕ)
      → AllFit r e es m
      → find_free r.start m ≡ o
      → join_origin {E = E} r m ≡ ok m
  unfolding join_origin
  join-same-at m none all h = rw (first_is, h) refl
  join-same-at m (some f) all h =
      let fits = find_free-All _ r.start f m all h in
      let from =
        Fits-from r.start r.end r.peer e.token (e ∷ es) e.token r.start f (omega arith, v.sorted.1)
          fits in
      let start = v.sorted.0 in
      let test : (e.token == r.start) ≡ true = ground arith in rw (first_is, h, test) refl

  join-same : (m : List (ℕ × ℕ)) → AllFit r e es m → join_origin {E = E} r m ≡ ok m
  join-same m all = join-same-at m (find_free r.start m) all refl

  -- what is free at the start of the ring is added to what is free behind the last entry
  join-wraps :
      (n k : ℕ) (m : List (ℕ × ℕ))
      → (e.token == r.start) ≡ false
      → find_free (last e es).token m ≡ some k
      → join_origin {E = E} r ((r.start, n) ∷ m)
        ≡ ok (set_free (last e es).token ((k + n) % word) m)
  unfolding join_origin
  join-wraps n k m other found =
      let start = v.sorted.0 in
      let order = last-token e es v.sorted.1 in
      let apart : (r.start == (last e es).token) ≡ false = ground arith in
      rw (first_is, ==_self r.start, other, last_is, apart, found, ==_self r.start) refl

  module _ (s : Space) (w : Invariant.IsValid s) where
    all-fit :
        (rs : List Range)
        → Fitting r e es rs
        → (m : List (ℕ × ℕ)) × ((free_spaces {E = E} s rs [] >>= join_origin {E = E} r) ≡ ok m)
          × AllFit r e es m
    all-fit rs h =
        let (m, run, all) =
          free_spaces-All {E = E} s w (λ k. Fits r.start r.end r.peer e.token (e ∷ es) k.0 k.1) rs
            [] h tt in
        (m, rw run (join-same m all), all)

    tail_alone :
        (k : ℕ) (m : List (ℕ × ℕ))
        → Space.num_free_addresses_in_range {E = E} s (tail r e es) ≡ ok k
        → free_spaces {E = E} s (tail r e es ∷ []) m ≡ ok (set_free (last e es).token k m)
    unfolding tail
    tail_alone k m h = free_spaces-single {E = E} s w (tail r e es) m k h

    wraps :
        ((last e es).peer == r.peer) ≡ true
        → (e.token == r.start) ≡ false
        → (m : List (ℕ × ℕ)) × ((free_spaces {E = E} s
                (record { start = r.start; end = e.token }
                  ∷ (inner r.peer e es ++ tail r e es ∷ []))
                []
              >>= join_origin {E = E} r)
            ≡ ok m)
          × AllFit r e es m
    wraps mine past =
        let (n, head_free, head_le) =
          num_free-le {E = E} s w (record { start = r.start; end = e.token }) in
        let (k, tail_free, tail_le) = num_free-le {E = E} s w (tail r e es) in
        let (m, run, all) =
          free_spaces-All {E = E} s w (λ k. Fits r.start r.end r.peer e.token (e ∷ es) k.0 k.1)
            (inner r.peer e es) [] (inner-Fitting r e es v small) tt in
        let rs = inner r.peer e es ++ tail r e es ∷ [] in
        let m' = set_free (last e es).token k m in
        let filled : free_spaces {E = E} s rs [] ≡ ok m' =
          free_spaces-append {E = E} s w (inner r.peer e es) (tail r e es) []
          ∙ rw run (tail_alone k m tail_free) in
        let head : Range = record { start = r.start; end = e.token } in
        let with_head : free_spaces {E = E} s (head ∷ rs) [] ≡ ok ((r.start, n) ∷ m') =
          free_spaces-head {E = E} s w (record { start = r.start; end = e.token }) rs [] n head_free
          ∙ ap (free_spaces {E = E} s rs) (set_free-nil r.start n)
          ∙ free_spaces-cons {E = E} s w r.start n rs [] (inner-apart r e es v small past)
          ∙ rw filled in
        (
          set_free (last e es).token ((k + n) % word) m',
          rw with_head (join-wraps n k m' past (find_free-set_free_self (last e es).token k m)),
          set_free-All _ (last e es).token ((k + n) % word) m'
              (around r e es v small mine ((k + n) % word)
                (at_most r e es v small k n (sizes r e es v small k n tail_le head_le)))
              (set_free-All _ (last e es).token k m
                (around r e es v small mine k (in_tail r e es v small k tail_le)) all),
        )

    pub reports-fit :
        (m : List (ℕ × ℕ)) × ((free_spaces {E = E} s (pieces r.start r.end r.peer e es) []
            >>= join_origin {E = E} r)
          ≡ ok m)
        × AllFit r e es m
    unfolding pieces tail
    reports-fit = elim (Bool-cases ((last e es).peer == r.peer)) [
      | inr other ↦ rw other (all-fit (inner r.peer e es) (inner-Fitting r e es v small))
      | inl mine ↦ elim (Bool-cases (e.token == r.start)) [
        | inl at_start ↦
            rw (mine, at_start)
              (all-fit (inner r.peer e es ++ tail r e es ∷ []) (
                All-snoc _ (inner r.peer e es) (tail r e es) (inner-Fitting r e es v small)
                  (λ n le. around r e es v small mine n (omega arith))))
        | inr past ↦ rw (mine, past) (wraps mine past)
      ]
    ]
