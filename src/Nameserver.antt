-- ===== src/Nameserver.antt =====
-- nameserver/entry.go: the entries of the name server, sorted case insensitively.
-- A container id or host name is the list of its bytes, a peer name or address a number. Versions
-- and timestamps, which are 64-bit, are taken to stay below their bounds. A method that changes
-- the slice returns the new one; a panic is that of checkAndPanic, before or after.
pub mod Order
pub mod Union
pub mod Merging
pub mod News
pub mod Places
pub mod Variants
pub mod Received
pub mod Authority
pub mod Keys
pub mod Answers
pub mod Server
pub mod Adding
pub mod Lookups
use weave.Base.{
  ℕ, zero, suc, ◌+◌, Bool, true, false, not, ◌&&◌, List, [], ◌∷◌, ◌++◌, ltb, ◌==◌, if◌then◌else◌,
  Run, ok, ◌>>=◌, ◌>>◌, assert, length, take, drop, Option, none, some,
}
use weave.Base.Search.{search}
use weave.Base.Texts.{Text, text_eq, text_lt, to_lower}

pub record Entry : Type 0 where
  pub container_id : Text
  pub origin : ℕ
  pub addr : ℕ
  pub hostname : Text
  pub l_hostname : Text
  pub version : ℕ
  -- when it was deleted, 0 while it is there
  pub tombstone : ℕ

unfoldable pub equal : Entry → Entry → Bool
equal e1 e2 =
    text_eq e1.container_id e2.container_id
    && (e1.origin == e2.origin && (e1.addr == e2.addr && text_eq e1.hostname e2.hostname))

-- the order of both kinds, below the host name
unfoldable pub less_below : Entry → Entry → Bool
less_below e1 e2 =
    if not (e1.origin == e2.origin)
    then ltb e1.origin e2.origin
    else if not (text_eq e1.container_id e2.container_id)
    then text_lt e1.container_id e2.container_id
    else ltb e1.addr e2.addr

unfoldable pub less : Entry → Entry → Bool
unfolding less_below
less e1 e2 =
    if not (text_eq e1.hostname e2.hostname)
    then text_lt e1.hostname e2.hostname
    else less_below e1 e2

unfoldable pub insensitive_less : Entry → Entry → Bool
unfolding less_below
insensitive_less e1 e2 =
    if not (text_eq e1.l_hostname e2.l_hostname)
    then text_lt e1.l_hostname e2.l_hostname
    else less_below e1 e2

-- Entry.merge: the merged entry, and whether it has changed
unfoldable pub merge_entry : Entry → Entry → Entry × Bool
merge_entry e1 e2 =
    if ltb e1.version e2.version
    then (record e1 { version = e2.version; tombstone = e2.tombstone }, true)
    else if e2.version == e1.version && ltb e1.tombstone e2.tombstone
    then (record e1 { tombstone = e2.tombstone }, true)
    else (e1, false)

unfoldable pub add_lowercase : Entry → Entry
add_lowercase e = record e { l_hostname = to_lower e.hostname }

-- Entry.tombstone at the time `now`
unfoldable pub bury : ℕ → Entry → Entry × Bool
bury now e =
    if ltb 0 e.tombstone
    then (e, false)
    else (record e { tombstone = now; version = e.version + 1 }, true)

-- check: sorted, and no two neighbours are equal
unfoldable pub check : List Entry → Bool
check [] = true
check (x ∷ []) = true
check (x ∷ y ∷ es) = not (insensitive_less y x) && (not (equal y x) && check (y ∷ es))

unfoldable pub check_and_panic : {E : Type 0} → List Entry → Run E (Unit {0})
unfolding check
check_and_panic es = assert (check es)

-- sort.Search over the entries: the first position from which the test holds
unfoldable pub test_at : (Entry → Bool) → List Entry → ℕ → Bool
test_at f [] i = false
test_at f (e ∷ es) zero = f e
test_at f (e ∷ es) (suc i) = test_at f es i

unfoldable pub search_entries : (Entry → Bool) → List Entry → ℕ
unfolding search test_at
search_entries f es = search (length es) (test_at f es)

-- the first position whose entry is not less than `e`
unfoldable pub place_of : Entry → List Entry → ℕ
place_of e es = search_entries (λ x. not (insensitive_less x e)) es

-- what add does at an equal entry
unfoldable pub revive : Entry → Entry
revive e = if ltb 0 e.tombstone then record e { tombstone = 0; version = e.version + 1 } else e

unfoldable pub new_entry : Text → Text → ℕ → ℕ → Entry
new_entry hostname containerid origin addr = record {
  container_id = containerid;
  origin = origin;
  addr = addr;
  hostname = hostname;
  l_hostname = to_lower hostname;
  version = 0;
  tombstone = 0;
}

-- the middle of add, at the tail that starts at the place found: the new tail, and its first entry
unfoldable pub add_here : Entry → List Entry → List Entry × Entry
unfolding revive
add_here e [] = (e ∷ [], e)
add_here e (x ∷ es) = if equal x e then (revive x ∷ es, revive x) else (e ∷ (x ∷ es), e)

unfoldable pub add : {E : Type 0} → List Entry → Text → Text → ℕ → ℕ → Run E (List Entry × Entry)
unfolding check_and_panic add_here
add es hostname containerid origin addr =
    let e = new_entry hostname containerid origin addr in
    let i = place_of e es in
    let (tail, at) = add_here e (drop i es) in
    let es' = take i es ++ tail in check_and_panic es >> (check_and_panic es' >> ok (es', at))

abbrev pub Merged : Type 0
Merged = List Entry × List Entry

-- an entry of ours passed by, and one of theirs that is news
abbrev pub passing : Entry → Merged → Merged
passing x r = (x ∷ r.0, r.1)

abbrev pub telling : Bool → Entry → Merged → Merged
telling b e r = (r.0, if b then e ∷ r.1 else r.1)

-- the loop of merge, on the incoming entries left and on es[i:]: the new es[i:], and the entries
-- that were news
unfoldable pub merge_from : List Entry → List Entry → Merged
merge_from [] es = (es, [])
merge_from (e ∷ incoming) [] = telling true e (merge_from incoming (e ∷ []))
merge_from (e ∷ incoming) (x ∷ es) =
    let skip = passing x (merge_from (e ∷ incoming) es) in
    let same = telling (merge_entry x e).1 e (merge_from incoming ((merge_entry x e).0 ∷ es)) in
    let insert = telling true e (merge_from incoming (e ∷ (x ∷ es))) in
    if insensitive_less x e then skip else if equal x e then same else insert

unfoldable pub merge : {E : Type 0} → List Entry → List Entry → Run E (List Entry × List Entry)
unfolding check_and_panic merge_from
merge es incoming =
    check_and_panic es
    >> (check_and_panic incoming
        >> (check_and_panic (merge_from incoming es).0 >> ok (merge_from incoming es)))

-- the loop of Entries.tombstone; `f` selects
unfoldable pub bury_all : ℕ → ℕ → (Entry → Bool) → List Entry → List Entry × List Entry
unfolding bury
bury_all now ourname f [] = ([], [])
bury_all now ourname f (e ∷ es) =
    let (es', buried) = bury_all now ourname f es in
    let (e', changed) = bury now e in
    if f e && (e.origin == ourname && changed) then (e' ∷ es', e' ∷ buried) else (e ∷ es', buried)

unfoldable pub tombstone_all :
    {E : Type 0} → ℕ → ℕ → (Entry → Bool) → List Entry → Run E (List Entry × List Entry)
unfolding check_and_panic bury_all
tombstone_all now ourname f es =
    check_and_panic es
    >> (check_and_panic (bury_all now ourname f es).0 >> ok (bury_all now ourname f es))

-- the loop of filter
unfoldable pub filter : (Entry → Bool) → List Entry → List Entry
filter f [] = []
filter f (e ∷ es) = if f e then e ∷ filter f es else filter f es

unfoldable pub filter_all : {E : Type 0} → (Entry → Bool) → List Entry → Run E (List Entry)
unfolding check_and_panic filter
filter_all f es = check_and_panic es >> (check_and_panic (filter f es) >> ok (filter f es))

unfoldable pub equal_first : Entry → List Entry → Option Entry
unfolding equal
equal_first e [] = none
equal_first e (x ∷ es) = if equal x e then some x else none

unfoldable pub find_equal : List Entry → Entry → Option Entry
unfolding equal_first
find_equal es e = equal_first e (drop (place_of e es) es)

unfoldable pub starts_with : Text → List Entry → Bool
starts_with lower [] = false
starts_with lower (x ∷ es) = text_eq x.l_hostname lower

unfoldable pub lookup : {E : Type 0} → List Entry → Text → Run E (List Entry)
unfolding check_and_panic search_entries starts_with
lookup es hostname =
    let lower = to_lower hostname in
    let rest = drop (search_entries (λ x. not (text_lt x.l_hostname lower)) es) es in
    let j = search_entries (λ x. text_lt lower x.l_hostname) rest in
    check_and_panic es >> ok (if starts_with lower rest then take j rest else [])

-- the loop of first
unfoldable pub first_where : (Entry → Bool) → List Entry → Option Entry
first_where f [] = none
first_where f (e ∷ es) = if f e then some e else first_where f es

unfoldable pub first : {E : Type 0} → List Entry → (Entry → Bool) → Run E (Option Entry)
unfolding check_and_panic first_where
first es f = check_and_panic es >> ok (first_where f es)

-- GossipData, its entries kept in the insensitive order; the wire format is not modelled
pub record GossipData : Type 0 where
  pub timestamp : ℕ
  pub entries : List Entry

unfoldable pub merge_gossip : {E : Type 0} → GossipData → GossipData → Run E GossipData
unfolding merge
merge_gossip g other = merge g.entries other.entries >>= λ r. ok (record {
  timestamp = if ltb g.timestamp other.timestamp then other.timestamp else g.timestamp;
  entries = r.0;
})
