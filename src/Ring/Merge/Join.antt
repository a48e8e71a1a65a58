-- ===== src/Ring/Merge/Join.antt =====
-- What a successful merge computes: the join of the two rings, entry by entry.
use weave.Base.{
  ℕ, suc, ◌≡◌, refl, Bool, List, [], ◌∷◌, leb, if◌then◌else◌, ok, Option, none, some, arith,
  Bool-cases, inl, inr, sym,
}
use weave.Entries.{Entry}
use weave.Entries.Order.{IsSortedFrom, IsSortedFrom-mono, lookup, lookup_below}
use weave.Ring.Merge.{merge_entries}
use weave.Ring.Merge.Steps.{
  Merges, done, rest_mine, rest_theirs, mine_first, theirs_first, not_newer, newer,
  merge_entries-Merges,
}

-- of two entries with one token the newer one, and ours if neither is
unfoldable pub join : Option Entry → Option Entry → Option Entry
join none t = t
join (some m) none = some m
join (some m) (some t) = some (if leb t.version m.version then m else t)

Merges-IsSorted :
    {our : ℕ} {prev : Option ℕ} {es other res : List Entry} {u : Bool}
    → Merges our prev es other res u
    → (lo : ℕ) → IsSortedFrom lo es
    → IsSortedFrom lo other
    → IsSortedFrom lo res
Merges-IsSorted done lo p q = tt
Merges-IsSorted (rest_mine m es) lo p q = p
Merges-IsSorted (rest_theirs t ns run) lo p q = (q.0, Merges-IsSorted run (suc t.token) tt q.1)
Merges-IsSorted (mine_first m t lt run) lo p q =
    (p.0, Merges-IsSorted run (suc m.token) p.1 (omega arith, q.1))
Merges-IsSorted (theirs_first m t lt ns run) lo p q =
    (q.0, Merges-IsSorted run (suc t.token) (omega arith, p.1) q.1)
Merges-IsSorted (not_newer m t {other = other} e v agree run) lo p q =
    (p.0, Merges-IsSorted run (suc m.token) p.1 (IsSortedFrom-mono other (omega arith) q.1))
Merges-IsSorted (newer m t {es = es} e v theirs run) lo p q =
    (q.0, Merges-IsSorted run (suc t.token) (IsSortedFrom-mono es (omega arith) p.1) q.1)

join-none : (o : Option Entry) → join o none ≡ o
unfolding join
join-none none = refl
join-none (some m) = refl

Merges-lookup :
    {our : ℕ} {prev : Option ℕ} {es other res : List Entry} {u : Bool}
    → Merges our prev es other res u
    → (lo k : ℕ) → IsSortedFrom lo es
    → IsSortedFrom lo other
    → lookup k res ≡ join (lookup k es) (lookup k other)
unfolding lookup join
Merges-lookup done lo k p q = refl
Merges-lookup (rest_mine m es) lo k p q = sym (join-none _)
Merges-lookup (rest_theirs t ns run) lo k p q =
    ground (arith, Merges-lookup run (suc t.token) k tt q.1)
Merges-lookup (mine_first m t {es = es} {other = other} lt run) lo k p q = ground (
  arith,
  Merges-lookup run (suc m.token) k p.1 (omega arith, q.1),
  lookup_below (suc t.token) k other q.1,
)
Merges-lookup (theirs_first m t {es = es} {other = other} lt ns run) lo k p q = ground (
  arith,
  Merges-lookup run (suc t.token) k (omega arith, p.1) q.1,
  lookup_below (suc m.token) k es p.1,
)
Merges-lookup (not_newer m t {es = es} {other = other} e v agree run) lo k p q =
    ground
      (arith, Merges-lookup run (suc m.token) k p.1 (IsSortedFrom-mono other (omega arith) q.1))
Merges-lookup (newer m t {es = es} {other = other} e v theirs run) lo k p q =
    ground (arith, Merges-lookup run (suc t.token) k (IsSortedFrom-mono es (omega arith) p.1) q.1)

-- entries with one token and one version agree on the owner
Merges-agree :
    {our : ℕ} {prev : Option ℕ} {es other res : List Entry} {u : Bool}
    → Merges our prev es other res u
    → (lo k : ℕ) (m t : Entry) → IsSortedFrom lo es
    → IsSortedFrom lo other
    → lookup k es ≡ some m
    → lookup k other ≡ some t
    → m.version ≡ t.version
    → m.peer ≡ t.peer
unfolding lookup
Merges-agree done lo k x y p q f g v = cc
Merges-agree (rest_mine m es) lo k x y p q f g v = cc
Merges-agree (rest_theirs t ns run) lo k x y p q f g v = cc
Merges-agree (mine_first m t {es = es} {other = other} lt run) lo k x y p q f g v = ground (
  arith,
  Merges-agree run (suc m.token) k x y p.1 (omega arith, q.1),
  lookup_below (suc t.token) k other q.1,
)
Merges-agree (theirs_first m t {es = es} {other = other} lt ns run) lo k x y p q f g v = ground (
  arith,
  Merges-agree run (suc t.token) k x y (omega arith, p.1) q.1,
  lookup_below (suc m.token) k es p.1,
)
Merges-agree (not_newer m t {es = es} {other = other} e w agree run) lo k x y p q f g v =
    ground
      (arith, Merges-agree run (suc m.token) k x y p.1 (IsSortedFrom-mono other (omega arith) q.1))
Merges-agree (newer m t {es = es} {other = other} e w theirs run) lo k x y p q f g v =
    ground
      (arith, Merges-agree run (suc t.token) k x y (IsSortedFrom-mono es (omega arith) p.1) q.1)

-- A successful merge of sorted entries is sorted, and holds for each token the newer of the two sides' entries, and ours where neither is newer.
pub merge_entries-join :
    (our : ℕ) (prev : Option ℕ) (es other res : List Entry) (u : Bool)
    → IsSortedFrom 0 es
    → IsSortedFrom 0 other
    → merge_entries our prev es other ≡ ok (res, u)
    → IsSortedFrom 0 res × ((k : ℕ) → lookup k res ≡ join (lookup k es) (lookup k other))
merge_entries-join our prev es other res u p q h =
    let run = merge_entries-Merges our prev es other h in
    (Merges-IsSorted run 0 p q, λ k. Merges-lookup run 0 k p q)

-- two entries, or their absence, that agree but for the free space, which merge does not compare
unfoldable pub Agrees : Option Entry → Option Entry → Type 0
Agrees none none = Unit
Agrees none (some t) = ⊥
Agrees (some m) none = ⊥
Agrees (some m) (some t) = (m.token ≡ t.token) × (m.peer ≡ t.peer) × (m.version ≡ t.version)

lookup-token : (k : ℕ) (es : List Entry) (m : Entry) → lookup k es ≡ some m → m.token ≡ k
unfolding lookup
lookup-token k [] m h = cc
lookup-token k (e ∷ es) m h = ground (arith, lookup-token k es m)

join-Agrees :
    (k : ℕ) (a b : Option Entry)
    → ((m : Entry) → a ≡ some m → m.token ≡ k)
    → ((t : Entry) → b ≡ some t → t.token ≡ k)
    → ((m t : Entry) → a ≡ some m → b ≡ some t → m.version ≡ t.version → m.peer ≡ t.peer)
    → Agrees (join a b) (join b a)
unfolding Agrees join
join-Agrees k none none p q h = tt
join-Agrees k none (some t) p q h = (refl, refl, refl)
join-Agrees k (some m) none p q h = (refl, refl, refl)
join-Agrees k (some m) (some t) p q h =
    let e : m.token ≡ t.token = omega (arith, p m refl, q t refl) in
    let f = h m t refl refl in
    elim (Bool-cases (leb t.version m.version)) [
      | inl a ↦ elim (Bool-cases (leb m.version t.version)) [
        | inl b ↦ rw (a, b) (e, f (ground arith), ground arith)
        | inr b ↦ rw (a, b) (refl, refl, refl)
      ]
      | inr a ↦ elim (Bool-cases (leb m.version t.version)) [
        | inl b ↦ rw (a, b) (refl, refl, refl)
        | inr b ↦ absurd (ground arith)
      ]
    ]

-- Two peers with sorted entries that merge each other's and both succeed end with the same tokens, owners and versions.
pub merge_entries_converge :
    (a b : ℕ) (es other res res' : List Entry) (u u' : Bool)
    → IsSortedFrom 0 es
    → IsSortedFrom 0 other
    → merge_entries a none es other ≡ ok (res, u)
    → merge_entries b none other es ≡ ok (res', u')
    → (k : ℕ) → Agrees (lookup k res) (lookup k res')
merge_entries_converge a b es other res res' u u' p q f g k =
    let run = merge_entries-Merges a none es other f in
    rw (Merges-lookup run 0 k p q, Merges-lookup (merge_entries-Merges b none other es g) 0 k q p)
      (join-Agrees k (lookup k es) (lookup k other) (lookup-token k es) (lookup-token k other)
        (λ m t. Merges-agree run 0 k m t p q))
