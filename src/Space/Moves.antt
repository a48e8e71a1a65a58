-- ===== src/Space/Moves.antt =====
-- Claim, Free and Allocate: an address moves between the two slices.
use weave.Base.{
  ℕ, suc, ◌%◌, ◌≤◌, ◌<◌, ◌≡◌, refl, ◌∙◌, Bool, true, false, List, [], ◌∷◌, ltb, leb, if◌then◌else◌,
  length, arith, Bool-cases, inl, inr, Run, ok, err, ◌⊎◌, ap,
}
use weave.Address.{Range}
use weave.Boundaries.Cuts.{IsAscendingFrom}
use weave.Boundaries.Spans.{covers, covers_below, contains-covers, contains-injective}
use weave.Space.{
  Space, SpaceError, not_free, not_ours, claim, release, take_first, allocate, walk_loop, clip,
}
use weave.Space.Invariant.{
  owned, is_free, IsValid, Taken, Released, taken, released, taken-Taken, released-Released,
}

module _ (s : Space) (a : ℕ) (v : IsValid s) where
  -- Claim of a free address of a valid space succeeds and puts exactly that address in use; Claim of any other address fails.
  pub claim_correct :
      ((is_free s a ≡ true) × (t : Space) × (claim s a ≡ ok t) × Taken s a t)
      ⊎ ((is_free s a ≡ false) × (claim s a ≡ err (not_free a)))
  unfolding claim
  claim_correct = elim (Bool-cases (is_free s a)) [
    | inl h ↦ inl (h, taken s a, rw h, taken-Taken s a v h)
    | inr h ↦ inr (h, rw h)
  ]

  -- Free of an address that a valid space has in use succeeds and frees exactly that address; Free of any other fails.
  pub release_correct :
      ((owned s a ≡ true) × (t : Space) × (release s a ≡ ok t) × Released s a t)
      ⊎ ((owned s a ≡ false) × (release s a ≡ err (not_ours a)))
  unfolding release
  release_correct = elim (Bool-cases (owned s a)) [
    | inl h ↦
        let f : is_free s a ≡ false = ground (arith, v.disjoint a) in
        inl (h, released s a, rw (h, f), released-Released s a v h)
    | inr h ↦ inr (h, rw h)
  ]

Released-Taken : (s t u : Space) (a : ℕ) → IsValid s → Taken s a t → Released t a u → u ≡ s
Released-Taken s t u a v p q =
    let ours =
      contains-injective u.ours s.ours q.valid.ours_spans v.ours_spans
        (λ b. ground (arith, p.owned_after b, q.owned_after b, v.disjoint a, p.was_free)) in
    let free =
      contains-injective u.free s.free q.valid.free_spans v.free_spans
        (λ b. ground (arith, p.free_after b, q.free_after b, p.was_free)) in
    cc

release-Taken : (s t : Space) (a : ℕ) → IsValid s → Taken s a t → release t a ≡ ok s
release-Taken s t a v p = elim (release_correct t a p.valid) [
  | inl (_, u, e, q) ↦ e ∙ ap ok (Released-Taken s t u a v p q)
  | inr (f, _) ↦ absurd (ground (arith, p.owned_after a))
]

-- An address that was claimed from a valid space can be freed, which restores the space, both slices included.
pub release-claim : (s t : Space) (a : ℕ) → IsValid s → claim s a ≡ ok t → release t a ≡ ok s
release-claim s t a v h = elim (claim_correct s a v) [
  | inl (_, u, e, p) ↦ let same : u ≡ t = cc in rw (← same) (release-Taken s u a v p)
  | inr (_, e) ↦ cc
]

module _ (s : Space) (r : Range) where
  abbrev first : Range → ℕ × Space → Run SpaceError (Bool × (ℕ × Space))
  first chunk t = take_first chunk t.1

  -- nothing of the range is listed, or the least listed address of it is taken
  abbrev Walked : List ℕ → Run SpaceError (Bool × (ℕ × Space)) → Type 0
  Walked xs run =
      ((run ≡ ok (false, (0, s))) × ((b : ℕ) → r.start ≤ b → b < r.end → covers xs b ≡ false))
      ⊎ ((a : ℕ) × (run ≡ ok (true, (a, taken s a)))
          × (r.start ≤ a)
          × (a < r.end)
          × (covers xs a ≡ true)
          × ((b : ℕ) → r.start ≤ b → b < a → covers xs b ≡ false))

  walk_first :
      (lo : ℕ) (xs : List ℕ)
      → IsAscendingFrom lo xs
      → length xs % 2 ≡ 0
      → r.start < r.end
      → Walked xs (walk_loop r first xs (0, s))
  unfolding walk_loop take_first clip covers
  walk_first lo [] asc even h = inl (refl, λ b p q. refl)
  walk_first lo (a ∷ []) asc even h = absurd (omega arith)
  walk_first lo (a ∷ b ∷ rest) asc even h = elim (Bool-cases (leb b r.start)) [
    | inl before ↦ rw before (elim (walk_first (suc b) rest asc.1.1 (omega arith) h) [
      | inl (e, none_free) ↦ inl (e, λ x p q. ground (arith, none_free x))
      | inr (x, e, lo_x, x_hi, c, least) ↦
          inr (x, e, lo_x, x_hi, ground arith, λ y p q. ground (arith, least y))
    ])
    | inr reaches ↦ elim (Bool-cases (leb r.end a)) [
      | inl after ↦
          rw (reaches, after)
            (inl (refl, λ x p q. ground (arith, covers_below (suc b) x rest asc.1.1)))
      | inr meets ↦
          rw (reaches, meets)
            (inr (
              (if ltb a r.start then r.start else a),
              refl,
              ground arith,
              ground arith,
              ground arith,
              λ x p q. ground (arith, covers_below (suc b) x rest asc.1.1),
            ))
    ]
  ]

-- Allocate on a valid space takes the least free address of the range, and puts exactly that
-- address in use; it answers false, and changes nothing, exactly if no address of the range is free.
pub allocate_correct :
    (s : Space) (r : Range)
    → IsValid s
    → ((allocate s r ≡ ok (false, (0, s)))
        × ((b : ℕ) → r.start ≤ b → b < r.end → is_free s b ≡ false))
      ⊎ ((a : ℕ) × (t : Space) × (allocate s r ≡ ok (true, (a, t)))
          × (r.start ≤ a)
          × (a < r.end)
          × Taken s a t
          × ((b : ℕ) → r.start ≤ b → b < a → is_free s b ≡ false))
unfolding allocate
allocate_correct s r v = elim (Bool-cases (leb r.end r.start)) [
  | inl empty ↦ inl (rw empty, λ b p q. absurd (ground arith))
  | inr nonempty ↦
      let free = contains-covers s.free in
      elim (walk_first s r 0 s.free v.free_spans.ascending v.free_spans.even (ground arith)) [
        | inl (e, none_free) ↦ inl (rw nonempty e, λ b p q. free b v.free_spans ∙ none_free b p q)
        | inr (a, e, lo, hi, c, least) ↦ inr (
          a,
          taken s a,
          rw nonempty e,
          lo,
          hi,
          taken-Taken s a v (free a v.free_spans ∙ c),
          λ b p q. free b v.free_spans ∙ least b p q,
        )
      ]
]
