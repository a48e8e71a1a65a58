-- ===== src/MacCache/Table.antt =====
-- The table of the MAC cache.
use weave.Base.{
  ℕ, ◌+◌, ◌/◌, ◌≤◌, ◌≡◌, refl, ap, ◌∙◌, Bool, true, false, not, ◌&&◌, ◌||◌, ==→eq, ltb→le, arith,
  List, [], ◌∷◌, ltb, ◌==◌, if◌then◌else◌, Option, none, some, Bool-cases, inl, inr, All,
}
use weave.MacCache.{
  MacCache, MacCacheEntry, Table, Answer, find, put, is_fresh, refresh, add, add_found, add_locked,
  lookup, macint, peer_of, delete, delete_peer, expire, expire_all, is_expired,
}

find_nil : (k : ℕ) → find k [] ≡ none
unfolding find
find_nil k = refl

pub find-put :
    (k j : ℕ) (e : MacCacheEntry) (t : Table)
    → find j (put k e t) ≡ (if k == j then some e else find j t)
unfolding find put
find-put k j e [] = refl
find-put k j e ((i, d) ∷ t) = ground (arith, find-put k j e t)

-- the keys of a map are distinct
abbrev pub IsMap : Table → Type 0
IsMap [] = Unit
IsMap ((k, e) ∷ t) = (find k t ≡ none) × IsMap t

find-same : (j k : ℕ) (t : Table) → (j == k) ≡ true → find j t ≡ find k t
find-same j k t h = ap (λ (i : ℕ). find i t) (==→eq j k h)

-- the entry of a table, unless the test rejects it
unfoldable pub unless : (MacCacheEntry → Bool) → Option MacCacheEntry → Option MacCacheEntry
unless f none = none
unless f (some e) = if f e then none else some e

unless-none : (f : MacCacheEntry → Bool) → unless f none ≡ none
unfolding unless
unless-none f = refl

find-delete_peer :
    (peer k : ℕ) (t : Table)
    → IsMap t
    → find k (delete_peer peer t).0 ≡ unless (λ (e : MacCacheEntry). e.peer == peer) (find k t)
unfolding find delete_peer unless
find-delete_peer peer k [] m = refl
find-delete_peer peer k ((j, e) ∷ t) m =
    ground (arith, find-delete_peer peer k t m.1, find-same j k t, m.0)

find-expire_all :
    (max_age now k : ℕ) (t : Table)
    → IsMap t
    → find k (expire_all max_age now t).0 ≡ unless (is_expired max_age now) (find k t)
unfolding find expire_all unless
find-expire_all max_age now k [] m = refl
find-expire_all max_age now k ((j, e) ∷ t) m =
    ground (arith, find-expire_all max_age now k t m.1, find-same j k t, m.0)

IsMap-put : (k : ℕ) (e : MacCacheEntry) (t : Table) → IsMap t → IsMap (put k e t)
unfolding put
IsMap-put k e [] m = (find_nil k, tt)
IsMap-put k e ((j, d) ∷ t) m = elim (Bool-cases (j == k)) [
  | inl h ↦ rw h m
  | inr h ↦ rw h (ground (arith, find-put k j e t), IsMap-put k e t m.1)
]

IsMap-delete_peer : (peer : ℕ) (t : Table) → IsMap t → IsMap (delete_peer peer t).0
unfolding delete_peer
IsMap-delete_peer peer [] m = tt
IsMap-delete_peer peer ((k, e) ∷ t) m = elim (Bool-cases (e.peer == peer)) [
  | inl h ↦ rw h (IsMap-delete_peer peer t m.1)
  | inr h ↦ rw h (
    find-delete_peer peer k t m.1 ∙ rw m.0 (unless-none (λ e'. e'.peer == peer)),
    IsMap-delete_peer peer t m.1,
  )
]

IsMap-expire_all : (max_age now : ℕ) (t : Table) → IsMap t → IsMap (expire_all max_age now t).0
unfolding expire_all
IsMap-expire_all max_age now [] m = tt
IsMap-expire_all max_age now ((k, e) ∷ t) m = elim (Bool-cases (is_expired max_age now e)) [
  | inl h ↦ rw h (IsMap-expire_all max_age now t m.1)
  | inr h ↦ rw h (
    find-expire_all max_age now k t m.1 ∙ rw m.0 (unless-none (is_expired max_age now)),
    IsMap-expire_all max_age now t m.1,
  )
]

-- what add should answer, and behind whom the address is then, by what Lookup said before
unfoldable pub answer : Bool → ℕ → Option ℕ → Answer
answer force peer none = (true, none)
answer force peer (some p) = (false, if p == peer || force then none else some p)

unfoldable pub holder : Bool → ℕ → Option ℕ → ℕ
holder force peer none = peer
holder force peer (some p) = if force then peer else p

-- add, on the entry that is found
abbrev added : MacCache → ℕ → ℕ → ℕ → Bool → Option MacCacheEntry → MacCache × Answer
added cache now k peer force o =
    if is_fresh cache.max_age now peer o
    then (cache, (false, none))
    else add_found cache now k peer force o

module _ (cache : MacCache) (now k : ℕ) where
  added-answer :
      (peer : ℕ) (force : Bool) (o : Option MacCacheEntry)
      → (added cache now k peer force o).1 ≡ answer force peer (peer_of o)
  unfolding is_fresh add_found answer peer_of
  added-answer peer force none = refl
  added-answer peer force (some e) = ground arith

  added-IsMap :
      (peer : ℕ) (force : Bool) (o : Option MacCacheEntry)
      → IsMap cache.table
      → IsMap (added cache now k peer force o).0.table
  unfolding is_fresh add_found
  added-IsMap peer force none m = IsMap-put k _ cache.table m
  added-IsMap peer force (some e) m =
      elim (Bool-cases (e.peer == peer && ltb now (e.last_seen + cache.max_age / 10))) [
        | inl h ↦ rw h m
        | inr h ↦ elim (Bool-cases (not (e.peer == peer) && not force)) [
          | inl g ↦ rw (h, g) m
          | inr g ↦ rw (h, g) (IsMap-put k _ cache.table m)
        ]
      ]

  peer_of-added :
      (j peer : ℕ) (force : Bool) (o : Option MacCacheEntry)
      → find k cache.table ≡ o
      → peer_of (find j (added cache now k peer force o).0.table)
        ≡ (if k == j then some (holder force peer (peer_of o)) else peer_of (find j cache.table))
  unfolding is_fresh add_found holder peer_of refresh
  peer_of-added j peer force none h =
      ground (arith, find-put k j (record { last_seen = now; peer = peer }) cache.table)
  peer_of-added j peer force (some e) h =
      let stamped = record e { peer = peer } in
      ground (
        arith,
        find-put k j (refresh cache.max_age now stamped) cache.table,
        find-same k j cache.table,
      )

-- Where no one changes the cache in between, Add and AddForced say that an address is new exactly if
-- Lookup did not find it, and name the other peer that it is behind unless forced. Afterwards Lookup finds
-- the address behind that other peer if there is one and the call was not forced, and behind the new
-- peer otherwise; all other addresses are where they were, and the keys stay distinct.
pub add_cache_correct :
    (cache : MacCache) (now : ℕ) (mac : List ℕ) (peer : ℕ) (force : Bool)
    → IsMap cache.table
    → ((add cache cache now mac peer force).1 ≡ answer force peer (lookup cache mac))
      × IsMap (add cache cache now mac peer force).0.table
      × ((other : List ℕ)
          → lookup (add cache cache now mac peer force).0 other ≡ (
              if macint mac == macint other
              then some (holder force peer (lookup cache mac))
              else lookup cache other))
unfolding add add_locked lookup
add_cache_correct cache now mac peer force m =
    let k = macint mac in
    let o = find k cache.table in
    (
      added-answer cache now k peer force o,
      added-IsMap cache now k peer force o m,
      λ other. peer_of-added cache now k (macint other) peer force o refl,
    )

unfoldable pub dismiss : ℕ → Option ℕ → Option ℕ
dismiss peer none = none
dismiss peer (some p) = if p == peer then none else some p

peer_of-unless :
    (peer : ℕ) (o : Option MacCacheEntry)
    → peer_of (unless (λ (e : MacCacheEntry). e.peer == peer) o) ≡ dismiss peer (peer_of o)
unfolding peer_of unless dismiss
peer_of-unless peer none = refl
peer_of-unless peer (some e) = ground arith

kept_all : (peer : ℕ) (t : Table) → (delete_peer peer t).1 ≡ false → (delete_peer peer t).0 ≡ t
unfolding delete_peer
kept_all peer [] h = refl
kept_all peer ((k, e) ∷ t) h = elim (Bool-cases (e.peer == peer)) [
  | inl g ↦ cc (rw g at h)
  | inr g ↦ rw g (ap (◌∷◌ (k, e)) (kept_all peer t (rw g at h)))
]

-- Delete of a peer, on a table with distinct keys, removes exactly the addresses behind that peer: Lookup
-- finds all others where they were. If it reports that it found none, the table is unchanged.
pub delete_correct :
    (cache : MacCache) (peer : ℕ)
    → IsMap cache.table
    → IsMap (delete cache peer).0.table
      × ((mac : List ℕ) → lookup (delete cache peer).0 mac ≡ dismiss peer (lookup cache mac))
      × ((delete cache peer).1 ≡ false → (delete cache peer).0.table ≡ cache.table)
unfolding delete lookup
delete_correct cache peer m = (
  IsMap-delete_peer peer cache.table m,
  λ mac.
      ap peer_of (find-delete_peer peer (macint mac) cache.table m)
      ∙ peer_of-unless peer (find (macint mac) cache.table),
  kept_all peer cache.table,
)

all_fresh :
    (max_age now : ℕ) (t : Table)
    → All (λ (e : ℕ × MacCacheEntry). now ≤ e.1.last_seen + max_age) (expire_all max_age now t).0
unfolding expire_all
all_fresh max_age now [] = tt
all_fresh max_age now ((k, e) ∷ t) = elim (Bool-cases (ltb (e.last_seen + max_age) now)) [
  | inl h ↦ rw h (all_fresh max_age now t)
  | inr h ↦ rw h (ltb→le (e.last_seen + max_age) now h, all_fresh max_age now t)
]

-- expire, on a table with distinct keys, removes exactly the entries that were last seen longer ago than
-- the maximal age; none of those is left.
pub expire_correct :
    (cache : MacCache) (now : ℕ)
    → IsMap cache.table
    → IsMap (expire cache now).0.table
      × ((k : ℕ)
          → find k (expire cache now).0.table
            ≡ unless
                (λ (e : MacCacheEntry). ltb (e.last_seen + cache.max_age) now)
                (find k cache.table))
      × All
          (λ (e : ℕ × MacCacheEntry). now ≤ e.1.last_seen + cache.max_age)
          (expire cache now).0.table
unfolding expire is_expired
expire_correct cache now m = (
  IsMap-expire_all cache.max_age now cache.table m,
  λ k. find-expire_all cache.max_age now k cache.table m,
  all_fresh cache.max_age now cache.table,
)
