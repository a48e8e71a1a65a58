-- ===== src/Ring/Ranges.antt =====
-- ipam/ring/ring.go: OwnedRanges, and the tracking of what a method changes of them.
use weave.Base.{ℕ, List, [], ◌∷◌, ◌++◌, leb, ◌==◌, if◌then◌else◌, Run, ok, ◌>>=◌, ◌>>◌}
use weave.Address.{Range}
use weave.Entries.{Entry}
use weave.Ring.{Ring, Update, next_token, assert_invariants}

-- the ranges are in order except that the last one may span zero
unfoldable pub split_last : ℕ → ℕ → List Range → Range → List Range
split_last start end before last =
    if last.end == start
    then before ++ record last { end = end } ∷ []
    else if leb last.end last.start
    then record { start = start; end = last.end } ∷ (before ++ record last { end = end } ∷ [])
    else before ++ last ∷ []

unfoldable pub split_loop : ℕ → ℕ → List Range → Range → List Range → List Range
unfolding split_last
split_loop start end before last [] = split_last start end before last
split_loop start end before last (x ∷ rest) = split_loop start end (before ++ last ∷ []) x rest

unfoldable pub split_ranges_over_zero : ℕ → ℕ → List Range → List Range
unfolding split_loop
split_ranges_over_zero start end [] = []
split_ranges_over_zero start end (x ∷ ranges) = split_loop start end [] x ranges

-- the ranges of a peer's entries, before the last one is split
unfoldable pub entry_ranges : ℕ → ℕ → List Entry → List Range
unfolding next_token
entry_ranges peer first [] = []
entry_ranges peer first (e ∷ es) =
    let rest = entry_ranges peer first es in
    if e.peer == peer then record { start = e.token; end = next_token first es } ∷ rest else rest

unfoldable pub first_token : List Entry → ℕ
first_token [] = 0
first_token (e ∷ es) = e.token

unfoldable pub owned_ranges_of_peer : {E : Type 0} → Ring → ℕ → Run E (List Range)
unfolding assert_invariants split_ranges_over_zero entry_ranges first_token
owned_ranges_of_peer r peer =
    assert_invariants r
    >> ok
        (split_ranges_over_zero r.start r.end (entry_ranges peer (first_token r.entries) r.entries))

unfoldable pub owned_ranges : {E : Type 0} → Ring → Run E (List Range)
unfolding owned_ranges_of_peer
owned_ranges r = owned_ranges_of_peer r r.peer

-- trackUpdatesOfPeer: the first half runs at once, the second when the tracked method returns
unfoldable pub ranges_before : {E : Type 0} → Ring → ℕ → Run E (List Range)
unfolding owned_ranges_of_peer
ranges_before r peer = if r.tracked then owned_ranges_of_peer r peer else ok []

unfoldable pub updates_after : {E : Type 0} → Ring → ℕ → List Range → Run E (List Update)
unfolding owned_ranges_of_peer
updates_after r peer prev =
    if r.tracked
    then (do
      curr ← owned_ranges_of_peer r peer
      ok (record { prev = prev; curr = curr; local = peer == r.peer } ∷ []))
    else ok []

-- the other ring in place of this one; the callback stays
unfoldable pub restore : {E : Type 0} → Ring → Ring → Run E (Ring × List Update)
restore r other = do
  prev ← ranges_before r r.peer
  let r' = record other { tracked = r.tracked }
  updates ← updates_after r' r.peer prev
  ok (r', updates)
