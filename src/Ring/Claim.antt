-- ===== src/Ring/Claim.antt =====
-- ipam/ring/ring.go: ClaimForPeers, the first division of an empty ring.
pub mod Tiles
pub mod Whole
use weave.Base.{
  ℕ, zero, suc, ◌/◌, ◌%◌, ◌||◌, List, [], ◌∷◌, ◌==◌, if◌then◌else◌, Run, ok, panic, ◌>>=◌, ◌>>◌,
  assert, length, take, drop,
}
use weave.Address
use weave.Entries
use weave.Entries.{Entry}
use weave.Ring.{Ring, Update, assert_invariants}
use weave.Ring.Ranges.{ranges_before, updates_after}

-- half of a list of peers: peers[:len(peers)/2] and peers[len(peers)/2:]
abbrev pub left : List ℕ → List ℕ
left peers = take (length peers / 2) peers

abbrev pub right : List ℕ → List ℕ
right peers = drop (length peers / 2) peers

-- peers[0]
unfoldable pub head_peer : {E : Type 0} → List ℕ → Run E ℕ
head_peer [] = panic
head_peer (p ∷ ps) = ok p

-- subdivide, on the entries so far. The fuel is the number of peers: it falls with every call until
-- one peer is left. With no peers at all the code halves the range until peers[0] panics
unfoldable pub subdivide : {E : Type 0} → ℕ → List Entry → ℕ → ℕ → List ℕ → Run E (List Entry)
unfolding Address.length Address.add Entries.insert head_peer
subdivide zero es from to peers =
    Address.length to from >>= λ share. if share == 0 then ok es else panic
subdivide (suc k) es from to peers = Address.length to from >>= λ share.
    let mid = Address.add from (share / 2) in
    let whole = head_peer peers >>= λ p.
    Entries.insert es (record { token = from; peer = p; version = 0; free = share }) in
    let halves = subdivide k es from mid (left peers) >>= λ es'.
    subdivide k es' (Address.add mid (share % 2)) to (right peers) in
    if share == 0 then ok es else if share == 1 || length peers == 1 then whole else halves

-- the deferred assertion on the last entry
unfoldable pub assert_last : {E : Type 0} → ℕ → List Entry → Run E (Unit {0})
unfolding Address.add
assert_last end [] = panic
assert_last end (e ∷ []) = assert (Address.add e.token e.free == end)
assert_last end (e ∷ f ∷ es) = assert_last end (f ∷ es)

-- the deferred calls run in reverse order: the last entry, the invariants, the update
unfoldable pub claim_for_peers : {E : Type 0} → Ring → List ℕ → Run E (Ring × List Update)
claim_for_peers r peers = do
  assert (length r.entries == 0)
  prev ← ranges_before r r.peer
  es ← subdivide (length peers) r.entries r.start r.end peers
  let r' = record r { entries = es; seeds = peers }
  assert_last r.end es
  assert_invariants r'
  updates ← updates_after r' r'.peer prev
  ok (r', updates)
