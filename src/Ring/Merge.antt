-- ===== src/Ring/Merge.antt =====
-- ipam/ring/ring.go: Merge.
pub mod Steps
pub mod Join
pub mod Changes
pub mod Whole
use weave.Base.{
  ℕ, Bool, true, false, not, ◌&&◌, List, [], ◌∷◌, ltb, leb, ◌==◌, if◌then◌else◌, Run, ok, err,
  panic, ◌>>=◌, ◌>>◌, fail_if, length, Option, none, some,
}
use weave.Address.{Range}
use weave.Entries
use weave.Entries.{Entry}
use weave.Ring.{
  Ring, RingError, Update, different_seeds, different_range, inconsistent_entry, newer_version,
  entry_in_my_range, merge_causes, check_entries, check_invariants, assert_invariants,
}
use weave.Ring.Ranges.{ranges_before, updates_after}

-- errEntryInMyRange: would their entry split a range that is ours?
unfoldable pub splits : ℕ → Option ℕ → Entry → Bool
splits our_peer none theirs = false
splits our_peer (some owner) theirs = owner == our_peer && not (theirs.peer == our_peer)

abbrev Merged : Type 0
Merged = Run RingError (List Entry × Bool)

-- one more entry in front of the result, unchanged or new
unfoldable pub keeping : Entry → Merged → Merged
keeping e m = m >>= λ r. ok (e ∷ r.0, r.1)

unfoldable pub adding : Entry → Merged → Merged
adding e m = m >>= λ r. ok (e ∷ r.0, true)

-- entries.merge, from the state (previousOwner, es[i:], other[j:]) on; a returned error drops the
-- result so far, so the result is built from the back
unfoldable pub merge_entries : ℕ → Option ℕ → List Entry → List Entry → Merged
unfolding splits keeping adding Entries.equal
merge_entries our prev [] [] = ok ([], false)
merge_entries our prev (mine ∷ es) [] = ok (mine ∷ es, false)
merge_entries our prev [] (theirs ∷ other) =
    fail_if (splits our prev theirs) (entry_in_my_range theirs)
    >> adding theirs (merge_entries our none [] other)
merge_entries our prev (mine ∷ es) (theirs ∷ other) =
    let before = keeping mine (merge_entries our (some mine.peer) es (theirs ∷ other)) in
    let after =
      fail_if (splits our prev theirs) (entry_in_my_range theirs)
      >> adding theirs (merge_entries our none (mine ∷ es) other) in
    let not_newer =
      fail_if (mine.version == theirs.version && not (Entries.equal mine theirs))
        (inconsistent_entry mine theirs)
      >> keeping mine (merge_entries our (some mine.peer) es other) in
    let newer =
      fail_if (mine.peer == our) (newer_version mine theirs)
      >> adding theirs (merge_entries our none es other) in
    if ltb mine.token theirs.token
    then before
    else if ltb theirs.token mine.token
    then after
    else if leb theirs.version mine.version
    then not_newer
    else newer

unfoldable pub same_seeds : List ℕ → List ℕ → Bool
same_seeds [] [] = true
same_seeds [] (y ∷ ys) = false
same_seeds (x ∷ xs) [] = false
same_seeds (x ∷ xs) (y ∷ ys) = x == y && same_seeds xs ys

unfoldable pub seeds_differ : List ℕ → List ℕ → Bool
unfolding same_seeds
seeds_differ gossip ours =
    ltb 0 (length gossip) && ltb 0 (length ours) && not (same_seeds gossip ours)

-- an error of the check of the result, wrapped
unfoldable pub merge_causing : Run RingError (Unit {0}) → Run RingError (Unit {0})
merge_causing (ok u) = ok u
merge_causing (err e) = err (merge_causes e)
merge_causing panic = panic

-- the middle of Merge, between the two halves of the update tracking
unfoldable pub merge_checked : Ring → Ring → Run RingError (Bool × Ring)
unfolding check_invariants seeds_differ merge_entries check_entries merge_causing
merge_checked r gossip = do
  check_invariants gossip
  fail_if (seeds_differ gossip.seeds r.seeds) different_seeds
  fail_if (not (r.start == gossip.start && r.end == gossip.end)) different_range
  merged ← merge_entries r.peer none r.entries gossip.entries
  merge_causing (check_entries r.start r.end merged.0)
  ok (
    merged.1,
    record r { seeds = if length r.seeds == 0 then gossip.seeds else r.seeds; entries = merged.0 },
  )

-- what Merge returns
pub data Outcome : Type 0 where
  updated : Bool → Outcome
  failed : RingError → Outcome

-- the deferred call of onUpdate, which is made on errors too
unfoldable pub conclude :
    {E : Type 0}
    → Ring
    → List Range
    → Run RingError (Bool × Ring)
    → Run E (Outcome × Ring × List Update)
unfolding updates_after
conclude r prev (ok (u, r')) = updates_after r' r'.peer prev >>= λ us. ok (updated u, r', us)
conclude r prev (err e) = updates_after r r.peer prev >>= λ us. ok (failed e, r, us)
conclude r prev panic = panic

unfoldable pub merge : {E : Type 0} → Ring → Ring → Run E (Outcome × Ring × List Update)
merge r gossip = do
  assert_invariants r
  prev ← ranges_before r r.peer
  conclude r prev (merge_checked r gossip)
