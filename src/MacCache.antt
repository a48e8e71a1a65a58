-- ===== src/MacCache.antt =====
-- router/mac_cache.go: behind which peer a MAC address was last seen.
-- The table is an association list from macint to entries; a loop over it in Go's arbitrary order is
-- one over the list. Times and durations are numbers of nanoseconds, a *mesh.Peer is a number, and
-- `now` is an argument. The timer that calls expire again is left out.
pub mod Bytes
pub mod Table
use weave.Base.{
  ℕ, zero, suc, ◌+◌, ◌*◌, ◌/◌, ◌%◌, ◌^◌, Bool, true, false, not, ◌&&◌, List, [], ◌∷◌, ltb, ◌==◌,
  if◌then◌else◌, Option, none, some,
}

pub record MacCacheEntry : Type 0 where
  pub last_seen : ℕ
  pub peer : ℕ

abbrev pub Table : Type 0
Table = List (ℕ × MacCacheEntry)

pub record MacCache : Type 0 where
  pub table : Table
  pub max_age : ℕ

unfoldable pub new_mac_cache : ℕ → MacCache
new_mac_cache max_age = record { table = []; max_age = max_age }

-- macint: the low byte is 0 after the shift, so that `|=` adds; an address longer than eight bytes loses
-- its first ones
unfoldable pub macint_loop : ℕ → List ℕ → ℕ
macint_loop r [] = r
macint_loop r (b ∷ mac) = macint_loop (r * 256 % 2 ^ 64 + b) mac

unfoldable pub macint : List ℕ → ℕ
unfolding macint_loop
macint mac = macint_loop 0 mac

-- intmac: the bytes from the last one down, in front of those that are done
unfoldable pub intmac_loop : ℕ → ℕ → List ℕ → List ℕ
intmac_loop zero key done = done
intmac_loop (suc n) key done = intmac_loop n (key / 256) (key % 256 ∷ done)

unfoldable pub intmac : ℕ → List ℕ
unfolding intmac_loop
intmac key = intmac_loop 6 key []

-- `table[key]` and `table[key] = e`
unfoldable pub find : ℕ → Table → Option MacCacheEntry
find k [] = none
find k ((j, e) ∷ t) = if j == k then some e else find k t

unfoldable pub put : ℕ → MacCacheEntry → Table → Table
put k e [] = (k, e) ∷ []
put k e ((j, d) ∷ t) = if j == k then (j, e) ∷ t else (j, d) ∷ put k e t

-- what the read lock is taken for: has the entry been seen lately, behind this peer?
unfoldable pub is_fresh : ℕ → ℕ → ℕ → Option MacCacheEntry → Bool
is_fresh max_age now peer none = false
is_fresh max_age now peer (some e) = e.peer == peer && ltb now (e.last_seen + max_age / 10)

unfoldable pub refresh : ℕ → ℕ → MacCacheEntry → MacCacheEntry
refresh max_age now e =
    if ltb (e.last_seen + max_age / 10) now then record e { last_seen = now } else e

-- what add returns: whether the address is new, and the peer that is in the way
abbrev pub Answer : Type 0
Answer = Bool × Option ℕ

-- the part of add under the write lock, on the entry that is found then
unfoldable pub add_found : MacCache → ℕ → ℕ → ℕ → Bool → Option MacCacheEntry → MacCache × Answer
unfolding put refresh
add_found cache now key peer force none =
    let e : MacCacheEntry = record { last_seen = now; peer = peer } in
    (record cache { table = put key e cache.table }, (true, none))
add_found cache now key peer force (some e) =
    let e' = refresh cache.max_age now (record e { peer = peer }) in
    let kept = record cache { table = put key e' cache.table } in
    if not (e.peer == peer) && not force
    then (cache, (false, some e.peer))
    else (kept, (false, none))

unfoldable pub add_locked : MacCache → ℕ → ℕ → ℕ → Bool → MacCache × Answer
add_locked cache now key peer force = add_found cache now key peer force (find key cache.table)

-- add: between the read lock, at `seen`, and the write lock, at `cache`, others may have changed the cache
unfoldable pub add : MacCache → MacCache → ℕ → List ℕ → ℕ → Bool → MacCache × Answer
add seen cache now mac peer force =
    if is_fresh seen.max_age now peer (find (macint mac) seen.table)
    then (cache, (false, none))
    else add_locked cache now (macint mac) peer force

unfoldable pub peer_of : Option MacCacheEntry → Option ℕ
peer_of none = none
peer_of (some e) = some e.peer

unfoldable pub lookup : MacCache → List ℕ → Option ℕ
lookup cache mac = peer_of (find (macint mac) cache.table)

-- the loop of Delete: what is left, and whether something was found
unfoldable pub delete_peer : ℕ → Table → Table × Bool
delete_peer peer [] = ([], false)
delete_peer peer ((k, e) ∷ t) =
    let (left, found) = delete_peer peer t in
    if e.peer == peer then (left, true) else ((k, e) ∷ left, found)

unfoldable pub delete : MacCache → ℕ → MacCache × Bool
unfolding delete_peer
delete cache peer =
    let (left, found) = delete_peer peer cache.table in (record cache { table = left }, found)

unfoldable pub is_expired : ℕ → ℕ → MacCacheEntry → Bool
is_expired max_age now e = ltb (e.last_seen + max_age) now

-- the loop of expire: what is left, and the calls of onExpiry
unfoldable pub expire_all : ℕ → ℕ → Table → Table × List (List ℕ × ℕ)
unfolding is_expired intmac
expire_all max_age now [] = ([], [])
expire_all max_age now ((k, e) ∷ t) =
    let (left, calls) = expire_all max_age now t in
    if is_expired max_age now e then (left, (intmac k, e.peer) ∷ calls) else ((k, e) ∷ left, calls)

unfoldable pub expire : MacCache → ℕ → MacCache × List (List ℕ × ℕ)
unfolding expire_all
expire cache now =
    let (left, calls) = expire_all cache.max_age now cache.table in
    (record cache { table = left }, calls)
