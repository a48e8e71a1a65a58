-- ===== src/Entries/Search.antt =====
-- The binary searches of entry.go on sorted entries.
use weave.Base.{
  ℕ, zero, suc, ◌-◌, ◌%◌, ◌≤◌, ◌<◌, ◌≡◌, refl, Bool, true, false, List, [], ◌∷◌, ◌++◌, ltb, leb,
  ◌==◌, if◌then◌else◌, Option, none, some, arith, ok, panic, length, get_elem?, take, drop,
  Bool-cases, inl, inr, ap, ◌∙◌, or_panic, ltb→lt,
}
use native.Mathlib.Nat.{mod-eq_of_lt}
use weave.Base.Search.{search-cut}
use weave.Entries.{
  Entry, token_at, position, position_after, is_at, insert, get, entry, entry_before,
}
use weave.Entries.Order.{IsSortedFrom, lookup, lookup_below, owner_from}

-- how many entries have a token below `k`
unfoldable pub count_below : ℕ → List Entry → ℕ
count_below k [] = 0
count_below k (e ∷ es) = if ltb e.token k then suc (count_below k es) else count_below k es

pub count_below-zero :
    (lo k : ℕ) (es : List Entry) → IsSortedFrom lo es → k ≤ lo → count_below k es ≡ 0
unfolding count_below
count_below-zero lo k [] s h = refl
count_below-zero lo k (e ∷ es) s h = ground (arith, count_below-zero (suc e.token) k es s.1)

pub count_below-le-length : (k : ℕ) (es : List Entry) → count_below k es ≤ length es
unfolding count_below
count_below-le-length k [] = omega arith
count_below-le-length k (e ∷ es) = ground (arith, count_below-le-length k es)

token_at-lt :
    (lo k : ℕ) (es : List Entry) (i : ℕ)
    → IsSortedFrom lo es
    → i < count_below k es
    → token_at es i < k
unfolding count_below token_at
token_at-lt lo k [] i s h = absurd (omega arith)
token_at-lt lo k (e ∷ es) zero s h = ground (arith, count_below-zero (suc e.token) k es s.1)
token_at-lt lo k (e ∷ es) (suc i) s h =
    ground (arith, token_at-lt (suc e.token) k es i s.1, count_below-zero (suc e.token) k es s.1)

token_at-ge :
    (lo k : ℕ) (es : List Entry) (i : ℕ)
    → IsSortedFrom lo es
    → count_below k es ≤ i
    → i < length es
    → k ≤ token_at es i
unfolding count_below token_at
token_at-ge lo k [] i s h l = absurd (omega arith)
token_at-ge lo k (e ∷ es) zero s h l = ground arith
token_at-ge lo k (e ∷ es) (suc i) s h l =
    ground (arith, token_at-ge (suc e.token) k es i s.1, count_below-zero (suc e.token) k es s.1)

pub position-eq :
    (lo k : ℕ) (es : List Entry) → IsSortedFrom lo es → position es k ≡ count_below k es
unfolding position
position-eq lo k es s =
    search-cut (λ j. leb k (token_at es j)) (count_below k es) (length es)
      (λ i h. ground (arith, token_at-lt lo k es i s))
      (λ i h l. ground (arith, token_at-ge lo k es i s)) (count_below-le-length k es)

pub position_after-eq :
    (lo k : ℕ) (es : List Entry) → IsSortedFrom lo es → position_after es k ≡ count_below (suc k) es
unfolding position_after
position_after-eq lo k es s =
    search-cut (λ j. ltb k (token_at es j)) (count_below (suc k) es) (length es)
      (λ i h. ground (arith, token_at-lt lo (suc k) es i s))
      (λ i h l. ground (arith, token_at-ge lo (suc k) es i s)) (count_below-le-length (suc k) es)

get_at :
    (lo k : ℕ) (es : List Entry)
    → IsSortedFrom lo es
    → (if is_at es (count_below k es) k then get_elem? es (count_below k es) else none)
      ≡ lookup k es
unfolding is_at count_below token_at lookup
get_at lo k [] s = refl
get_at lo k (e ∷ es) s = ground (
  arith,
  get_at (suc e.token) k es s.1,
  count_below-zero (suc e.token) k es s.1,
  lookup_below (suc e.token) k es s.1,
)

-- get on sorted entries finds the entry with the token, and nothing if there is none.
pub get-lookup : (lo k : ℕ) (es : List Entry) → IsSortedFrom lo es → get es k ≡ lookup k es
unfolding get
get-lookup lo k es s = rw (position-eq lo k es s) (get_at lo k es s)

-- the entries with `e` at its place
unfoldable pub insert_sorted : Entry → List Entry → List Entry
insert_sorted e [] = e ∷ []
insert_sorted e (x ∷ es) = if ltb x.token e.token then x ∷ insert_sorted e es else e ∷ (x ∷ es)

insert_at :
    (lo : ℕ) (e : Entry) (es : List Entry)
    → IsSortedFrom lo es
    → take (count_below e.token es) es ++ (e ∷ drop (count_below e.token es) es)
      ≡ insert_sorted e es
unfolding count_below insert_sorted
insert_at lo e [] s = refl
insert_at lo e (x ∷ es) s =
    ground (arith, insert_at (suc x.token) e es s.1, count_below-zero (suc x.token) e.token es s.1)

abbrev pub found : Option Entry → Bool
found none = false
found (some e) = true

is_at-found :
    (lo k : ℕ) (es : List Entry)
    → IsSortedFrom lo es
    → is_at es (count_below k es) k ≡ found (lookup k es)
unfolding is_at count_below token_at lookup
is_at-found lo k [] s = refl
is_at-found lo k (e ∷ es) s = ground (
  arith,
  is_at-found (suc e.token) k es s.1,
  count_below-zero (suc e.token) k es s.1,
  lookup_below (suc e.token) k es s.1,
)

-- insert into sorted entries puts an entry with a new token at its place, and panics on a token that is there.
pub insert_correct :
    {E : Type 0} (lo : ℕ) (e : Entry) (es : List Entry)
    → IsSortedFrom lo es
    → insert {E = E} es e ≡ (if found (lookup e.token es) then panic else ok (insert_sorted e es))
unfolding insert
insert_correct lo e es s =
    rw (position-eq lo e.token es s, is_at-found lo e.token es s, insert_at lo e es s)

pub insert_sorted-IsSorted :
    (lo : ℕ) (e : Entry) (es : List Entry)
    → IsSortedFrom lo es
    → lo ≤ e.token
    → lookup e.token es ≡ none
    → IsSortedFrom lo (insert_sorted e es)
unfolding insert_sorted lookup
insert_sorted-IsSorted lo e [] s h n = (h, tt)
insert_sorted-IsSorted lo e (x ∷ es) s h n = elim (Bool-cases (ltb x.token e.token)) [
  | inl lt ↦
      rw lt (s.0, insert_sorted-IsSorted (suc x.token) e es s.1 (ltb→lt _ _ lt) (ground arith))
  | inr ge ↦ let lt : e.token < x.token = ground arith in rw ge (h, (lt, s.1))
]

pub lookup-insert_sorted :
    (lo k : ℕ) (e : Entry) (es : List Entry)
    → IsSortedFrom lo es
    → lookup e.token es ≡ none
    → lookup k (insert_sorted e es) ≡ (if e.token == k then some e else lookup k es)
unfolding insert_sorted lookup
lookup-insert_sorted lo k e [] s n = refl
lookup-insert_sorted lo k e (x ∷ es) s n =
    ground (arith, lookup-insert_sorted (suc x.token) k e es s.1)

-- the last entry
unfoldable pub last : Entry → List Entry → Entry
last e [] = e
last e (x ∷ es) = last x es

get_elem?-last : (e : Entry) (es : List Entry) → get_elem? (e ∷ es) (length es) ≡ some (last e es)
unfolding last
get_elem?-last e [] = refl
get_elem?-last e (x ∷ es) = get_elem?-last x es

pub entry-in :
    {E : Type 0} (es : List Entry) (i : ℕ)
    → i < length es
    → entry {E = E} es i ≡ or_panic (get_elem? es i)
unfolding entry
entry-in es i h =
    let nonempty : (length es == 0) ≡ false = ground arith in
    let small : i % length es ≡ i = mod-eq_of_lt h in rw (nonempty, small)

pub entry_first : {E : Type 0} (e : Entry) (es : List Entry) → entry {E = E} (e ∷ es) 0 ≡ ok e
entry_first e es = entry-in (e ∷ es) 0 (omega arith)

-- es.entry(-1) is the last entry
pub entry_before-last :
    {E : Type 0} (e : Entry) (es : List Entry) → entry_before {E = E} (e ∷ es) 0 ≡ ok (last e es)
unfolding entry_before
entry_before-last e es =
    let pos : suc (length es) - 1 ≡ length es = omega arith in
    rw pos (entry-in (e ∷ es) (length es) (omega arith) ∙ ap or_panic (get_elem?-last e es))

-- the last entry at or before an address
before_count :
    (x : ℕ) (e : Entry) (es : List Entry)
    → IsSortedFrom (suc e.token) es
    → (y : Entry) × (get_elem? (e ∷ es) (count_below (suc x) es) ≡ some y)
      × (owner_from (some e.peer) es x ≡ some y.peer)
unfolding count_below owner_from
before_count x e [] s = (e, refl, refl)
before_count x e (f ∷ es) s = elim (Bool-cases (ltb x f.token)) [
  | inl past ↦
      let none_left = count_below-zero (suc f.token) (suc x) es s.1 (ground arith) in
      (e, ground (arith, none_left), ground arith)
  | inr at_least ↦
      let (y, p, q) = before_count x f es s.1 in (y, ground (arith, p), ground (arith, q))
]

entry_before-suc :
    {E : Type 0} (es : List Entry) (n : ℕ) → entry_before {E = E} es (suc n) ≡ entry es n
unfolding entry_before
entry_before-suc es n =
    let nonzero : (suc n == 0) ≡ false = ground arith in
    let back : suc n - 1 ≡ n = omega arith in rw (nonzero, back)

-- es.entry(p - 1), where p is the position after an address, is the entry that owns the address
pub entry_before-owner :
    {E : Type 0} (x : ℕ) (e : Entry) (es : List Entry)
    → IsSortedFrom 0 (e ∷ es)
    → (y : Entry) × (entry_before {E = E} (e ∷ es) (position_after (e ∷ es) x) ≡ ok y)
      × (owner_from (some (last e es).peer) (e ∷ es) x ≡ some y.peer)
unfolding owner_from
entry_before-owner {E} x e es s = elim (Bool-cases (ltb x e.token)) [
  | inl before ↦
      let zero_position : position_after (e ∷ es) x ≡ 0 =
        position_after-eq 0 x (e ∷ es) s
        ∙ count_below-zero e.token (suc x) (e ∷ es) (omega arith, s.1) (ltb→lt _ _ before) in
      (last e es, rw zero_position (entry_before-last e es), rw before)
  | inr at_least ↦
      let (y, p, q) = before_count x e es s.1 in
      let position : position_after (e ∷ es) x ≡ suc (count_below (suc x) es) =
        position_after-eq 0 x (e ∷ es) s ∙ unfold count_below in (ground arith) in
      (
        y,
        rw position (
            entry_before-suc (e ∷ es) (count_below (suc x) es)
            ∙ entry-in {E = E} (e ∷ es) (count_below (suc x) es)
                (omega (arith, count_below-le-length (suc x) es))
            ∙ ap or_panic p),
        rw at_least q,
      )
]
