-- ===== src/Ring/Claim/Tiles.antt =====
-- ClaimForPeers divides the whole ring.
use weave.Base.{
  ℕ, zero, suc, ◌+◌, ◌-◌, ◌/◌, ◌%◌, ◌≤◌, ◌<◌, ◌≡◌, refl, ap, ◌∙◌, true, false, ◌||◌, List, [], ◌∷◌,
  ◌++◌, leb, ◌==◌, ok, arith, Bool-cases, inl, inr, none, length, All, word, append_assoc,
  length-drop, length-take,
}
use weave.Address
use weave.Entries
use weave.Entries.{Entry}
use weave.Entries.Order.{IsSortedFrom, IsSortedFrom-mono, lookup}
use weave.Entries.Search.{insert_correct, insert_sorted}
use weave.Ring.Claim.{left, right, subdivide, head_peer}

-- consecutive entries from `from` to `to`, none reaching into the next, the last reaching `to`
abbrev pub Tiles : ℕ → ℕ → List Entry → Type 0
Tiles from to [] = ⊥
Tiles from to (e ∷ []) = (e.token ≡ from) × (0 < e.free) × (e.token + e.free ≡ to)
Tiles from to (e ∷ f ∷ es) =
    (e.token ≡ from) × (0 < e.free) × (e.token + e.free ≤ f.token) × Tiles f.token to (f ∷ es)

Tiles-append :
    (a m n b : ℕ) (xs ys : List Entry) → Tiles a m xs → m ≤ n → Tiles n b ys → Tiles a b (xs ++ ys)
Tiles-append a m n b [] ys t h u = absurd t
Tiles-append a m n b (e ∷ []) [] t h u = absurd u
Tiles-append a m n b (e ∷ []) (f ∷ []) t h u = (t.0, t.1, omega arith, (refl, u.1, omega arith))
Tiles-append a m n b (e ∷ []) (f ∷ g ∷ ys) t h u = (t.0, t.1, omega arith, (refl, u.1, u.2, u.3))
Tiles-append a m n b (e ∷ f ∷ xs) ys t h u =
    (t.0, t.1, t.2, Tiles-append f.token m n b (f ∷ xs) ys t.3 h u)

Tiles-lt : (a b : ℕ) (xs : List Entry) → Tiles a b xs → a < b
Tiles-lt a b [] t = absurd t
Tiles-lt a b (e ∷ []) t = omega arith
Tiles-lt a b (e ∷ f ∷ xs) t = omega (arith, Tiles-lt f.token b (f ∷ xs) t.3)

pub Tiles-sorted :
    (a b : ℕ) (xs : List Entry) → Tiles a b xs → IsSortedFrom a xs × All (λ e. e.token < b) xs
Tiles-sorted a b [] t = absurd t
Tiles-sorted a b (e ∷ []) t = ((omega arith, tt), (omega arith, tt))
Tiles-sorted a b (e ∷ f ∷ xs) t =
    let (s, h) = Tiles-sorted f.token b (f ∷ xs) t.3 in
    ((omega arith, (omega arith, s.1)), (omega (arith, Tiles-lt f.token b (f ∷ xs) t.3), h))

-- sorted entries whose tokens all lie below `from`
pub record AreBelow (from : ℕ) (es : List Entry) : Type 0 where
  pub sorted : IsSortedFrom 0 es
  pub below : All (λ e. e.token < from) es

append-sorted :
    (lo from : ℕ) (es xs : List Entry)
    → lo ≤ from
    → IsSortedFrom lo es
    → All (λ e. e.token < from) es
    → IsSortedFrom from xs
    → IsSortedFrom lo (es ++ xs)
append-sorted lo from [] xs h s b t = IsSortedFrom-mono xs h t
append-sorted lo from (e ∷ es) xs h s b t =
    (s.0, append-sorted (suc e.token) from es xs b.0 s.1 b.1 t)

append-below :
    (from to : ℕ) (es xs : List Entry)
    → from ≤ to
    → All (λ e. e.token < from) es
    → All (λ e. e.token < to) xs
    → All (λ e. e.token < to) (es ++ xs)
append-below from to [] xs h b c = c
append-below from to (e ∷ es) xs h b c = (omega arith, append-below from to es xs h b.1 c)

All-mono :
    (m n : ℕ) (es : List Entry) → m ≤ n → All (λ e. e.token < m) es → All (λ e. e.token < n) es
All-mono m n [] h a = tt
All-mono m n (e ∷ es) h a = (omega arith, All-mono m n es h a.1)

AreBelow-Tiles :
    (from to n : ℕ) (es xs : List Entry)
    → AreBelow from es
    → Tiles from to xs
    → to ≤ n
    → AreBelow n (es ++ xs)
AreBelow-Tiles from to n es xs b t h =
    let (s, c) = Tiles-sorted from to xs t in
    let lt = Tiles-lt from to xs t in
    record {
      sorted = append-sorted 0 from es xs (omega arith) b.sorted b.below s;
      below = append-below from n es xs (omega arith) b.below (All-mono to n xs h c);
    }

insert_last :
    (e : Entry) (es : List Entry)
    → All (λ x. x.token < e.token) es
    → (insert_sorted e es ≡ es ++ e ∷ []) × (lookup e.token es ≡ none)
unfolding insert_sorted lookup
insert_last e [] h = (refl, refl)
insert_last e (x ∷ es) h =
    let (p, q) = insert_last e es h.1 in (ground (arith, p), ground (arith, q))

insert-last :
    {E : Type 0} (e : Entry) (es : List Entry)
    → AreBelow e.token es
    → Entries.insert {E = E} es e ≡ ok (es ++ e ∷ [])
insert-last {E} e es b =
    let (p, q) = insert_last e es b.below in insert_correct {E = E} 0 e es b.sorted ∙ rw (q, p)

-- two halves, for at least two addresses and two peers
subdivide_halves :
    {E : Type 0} (k : ℕ) (es es' res : List Entry) (from to : ℕ) (peers : List ℕ)
    → from + 2 ≤ to
    → to < word
    → 2 ≤ length peers
    → let mid = from + (to - from) / 2 in
      subdivide {E = E} k es from mid (left peers) ≡ ok es'
      → subdivide {E = E} k es' (mid + (to - from) % 2) to (right peers) ≡ ok res
      → subdivide {E = E} (suc k) es from to peers ≡ ok res
unfolding subdivide Address.length Address.add
subdivide_halves k es es' res from to peers big w many e f =
    let n = to - from in
    let mid = from + n / 2 in
    let fits : leb from to ≡ true = ground arith in
    let nonzero : (n == 0) ≡ false = ground arith in
    let split : (n == 1 || length peers == 1) ≡ false = ground arith in
    let mid-eq : (from + n / 2) % word ≡ mid = omega arith in
    let next-eq : (mid + n % 2) % word ≡ mid + n % 2 = omega arith in
    rw (fits, nonzero, split, mid-eq, e, next-eq, f)

-- what subdivide adds for a non-empty range and at least one peer
pub subdivide-Tiles :
    {E : Type 0} (k : ℕ) (es : List Entry) (from to : ℕ) (peers : List ℕ)
    → AreBelow from es
    → from < to
    → to < word
    → 0 < length peers
    → length peers ≤ k
    → (new : List Entry) × (subdivide {E = E} k es from to peers ≡ ok (es ++ new))
      × Tiles from to new
unfolding subdivide Address.length Address.add head_peer
subdivide-Tiles zero es from to peers b lt w p q = absurd (omega arith)
subdivide-Tiles (suc k) es from to [] b lt w p q = absurd (omega arith)
subdivide-Tiles {E} (suc k) es from to (peer ∷ peers) b lt w p q =
    let fits : leb from to ≡ true = ground arith in
    let share = to - from in
    let nonzero : (to - from == 0) ≡ false = ground arith in
    elim (Bool-cases (to - from == 1 || suc (length peers) == 1)) [
      | inl base ↦
          let e : Entry = record { token = from; peer = peer; version = 0; free = to - from } in
          (
            e ∷ [],
            rw (fits, nonzero, base) (insert-last {E = E} e es b),
            (refl, omega arith, omega arith),
          )
      | inr split ↦
          let n = to - from in
          let mid = from + n / 2 in
          let next = mid + n % 2 in
          let all = peer ∷ peers in
          let big : 2 ≤ n = ground arith in
          let many : 2 ≤ length all = ground arith in
          let size_left = length-take (length all / 2) all (omega arith) in
          let size_right = length-drop (length all / 2) all in
          let (xs, e, t) =
            subdivide-Tiles {E = E} k es from mid (left all) b (omega arith) (omega arith)
              (omega (arith, size_left)) (omega (arith, size_left)) in
          let (ys, f, u) =
            subdivide-Tiles {E = E} k (es ++ xs) next to (right all)
              (AreBelow-Tiles from mid next es xs b t (omega arith)) (omega arith) w
              (omega (arith, size_right)) (omega (arith, size_right)) in
          (
            xs ++ ys,
            subdivide_halves {E = E} k es (es ++ xs) ((es ++ xs) ++ ys) from to all (omega arith) w
                  many e f
                ∙ ap ok (append_assoc es xs ys),
            Tiles-append from mid next to xs ys t (omega arith) u,
          )
    ]
