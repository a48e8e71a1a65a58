-- ===== src/Ring/Transfer.antt =====
-- ipam/ring/ring.go: Owner, Transfer, ReportFree and the queries.
use weave.Base.{
  ℕ, ◌+◌, ◌%◌, Bool, true, false, not, ◌&&◌, ◌||◌, List, [], ◌∷◌, ◌++◌, ltb, leb, ◌==◌,
  if◌then◌else◌, word, Run, ok, ◌>>=◌, ◌>>◌, assert, or_panic, length, take, drop, Option, none,
  some,
}
use weave.Address.{Range}
use weave.Entries
use weave.Entries.{Entry}
use weave.Ring.{Ring, Update, distance, next_token, assert_invariants}
use weave.Ring.Ranges.{ranges_before, updates_after, split_ranges_over_zero}

unfoldable pub contains : Ring → ℕ → Bool
contains r addr = leb r.start addr && ltb addr r.end

-- `none` is mesh.UnknownPeerName
unfoldable pub owner : {E : Type 0} → Ring → ℕ → Run E (Option ℕ)
unfolding assert_invariants Entries.position_after Entries.entry_before
owner r token = do
  assert (leb r.start token && ltb token r.end)
  assert_invariants r
  let found = Entries.entry_before r.entries (Entries.position_after r.entries token)
  if length r.entries == 0 then ok none else (found >>= λ e. ok (some e.peer))

unfoldable pub pick_peer : ℕ → (ℕ → Bool) → List Entry → Option ℕ
pick_peer ours is_valid [] = none
pick_peer ours is_valid (e ∷ es) =
    if not (e.peer == ours) && is_valid e.peer then some e.peer else pick_peer ours is_valid es

unfoldable pub pick_peer_for_transfer : Ring → (ℕ → Bool) → Option ℕ
unfolding pick_peer
pick_peer_for_transfer r is_valid = pick_peer r.peer is_valid r.entries

-- the loop of Transfer: the entries after it, and the ranges that change hands
unfoldable pub hand_over : ℕ → ℕ → ℕ → List Entry → List Entry × List Range
unfolding next_token
hand_over from to first [] = ([], [])
hand_over from to first (e ∷ es) =
    let (es', ranges) = hand_over from to first es in
    if e.peer == from
    then (
      record e { peer = to; version = (e.version + 1) % word } ∷ es',
      record { start = e.token; end = next_token first es } ∷ ranges,
    )
    else (e ∷ es', ranges)

unfoldable pub transfer : {E : Type 0} → Ring → ℕ → ℕ → Run E (List Range × Ring × List Update)
transfer r from to = do
  assert_invariants r
  prev ← ranges_before r r.peer
  prev_from ← ranges_before r from
  let (es, ranges) = hand_over from to (Entries.token_at r.entries 0) r.entries
  let r' = record r { entries = es }
  assert_invariants r'
  updates_from ← updates_after r' from prev_from
  updates ← updates_after r' r.peer prev
  ok (split_ranges_over_zero r.start r.end ranges, r', updates_from ++ updates)

-- the lookup of one freespace report: its entry must be there, ours, and long enough. The entries
-- after it, and whether any changed
unfoldable pub report_one : {E : Type 0} → Ring → ℕ → ℕ → List Entry → Run E (List Entry × Bool)
unfolding Entries.position Entries.is_at Entries.entry distance
report_one r start free es = do
  let i = Entries.position es start
  assert (Entries.is_at es i start)
  e ← Entries.entry es i
  assert (e.peer == r.peer)
  next ← Entries.entry es (i + 1)
  assert (leb free (distance r.start r.end e.token next.token))
  let changed = record e { free = free; version = (e.version + 1) % word }
  ok (if e.free == free then (es, false) else (take i es ++ (changed ∷ drop (i + 1) es), true))

-- the loop of ReportFree over the map, in any order
unfoldable pub report_all :
    {E : Type 0} → Ring → List (ℕ × ℕ) → List Entry → Run E (List Entry × Bool)
unfolding report_one
report_all r [] es = ok (es, false)
report_all r ((start, free) ∷ reports) es = do
  one ← report_one r start free es
  rest ← report_all r reports one.0
  ok (rest.0, one.1 || rest.1)

unfoldable pub find_free : ℕ → List (ℕ × ℕ) → Option ℕ
find_free k [] = none
find_free k ((a, n) ∷ m) = if a == k then some n else find_free k m

unfoldable pub drop_free : ℕ → List (ℕ × ℕ) → List (ℕ × ℕ)
drop_free k [] = []
drop_free k ((a, n) ∷ m) = if a == k then m else (a, n) ∷ drop_free k m

unfoldable pub set_free : ℕ → ℕ → List (ℕ × ℕ) → List (ℕ × ℕ)
set_free k v [] = (k, v) ∷ []
set_free k v ((a, n) ∷ m) = if a == k then (k, v) ∷ m else (a, n) ∷ set_free k v m

-- a report for the ring's start, which OwnedRanges makes for a range that spans the origin, counts
-- for the last entry
unfoldable pub join_origin : {E : Type 0} → Ring → List (ℕ × ℕ) → Run E (List (ℕ × ℕ))
unfolding find_free drop_free set_free Entries.entry Entries.entry_before
join_origin r reports = do
  first ← Entries.entry r.entries 0
  elim (find_free r.start reports) [
    | none ↦ ok reports
    | some free ↦
        if first.token == r.start
        then ok reports
        else (Entries.entry_before r.entries 0 >>= λ last.
            or_panic (find_free last.token reports) >>= λ prev_free.
            ok (drop_free r.start (set_free last.token ((prev_free + free) % word) reports)))
  ]

unfoldable pub report_free : {E : Type 0} → Ring → List (ℕ × ℕ) → Run E (Bool × Ring)
report_free r reports = do
  assert_invariants r
  assert (not (length r.entries == 0))
  reports' ← join_origin r reports
  done ← report_all r reports' r.entries
  let r' = record r { entries = done.0 }
  assert_invariants r'
  ok (done.1, r')
