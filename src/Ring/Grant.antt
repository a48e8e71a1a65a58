-- ===== src/Ring/Grant.antt =====
-- ipam/ring/ring.go: GrantRangeToHost.
use weave.Base.{
  ℕ, zero, suc, ◌+◌, ◌-◌, ◌&&◌, List, [], ◌∷◌, ◌++◌, ltb, leb, ◌==◌, if◌then◌else◌, Run, ok, ◌>>=◌,
  ◌>>◌, assert, length, take, drop, none, some,
}
use weave.Address
use weave.Entries
use weave.Entries.{Entry}
use weave.Ring.{Ring, Update, distance, assert_invariants}
use weave.Ring.Ranges.{ranges_before, updates_after}

-- the check that all tokens up to `end` are ours; `i` is pos + 1, which begins at the position
-- after `start`, and the fuel counts the positions left
unfoldable pub check_owned : {E : Type 0} → ℕ → List Entry → ℕ → ℕ → ℕ → Run E (Unit {0})
unfolding Entries.entry_before
check_owned zero es ours end i = ok tt
check_owned (suc k) es ours end i =
    let rest = check_owned k es ours end (i + 1) in
    Entries.entry_before es i >>= λ e.
    if ltb e.token end then assert (e.peer == ours) >> rest else ok tt

-- `es[i].update(peer, free)`
unfoldable pub update_at : List Entry → ℕ → ℕ → ℕ → List Entry
unfolding Entries.update
update_at [] i peer free = []
update_at (e ∷ es) zero peer free = Entries.update e peer free ∷ es
update_at (e ∷ es) (suc i) peer free = e ∷ update_at es i peer free

-- the intervening entries, from es[pos:] on, go to the other peer; with how many they are
unfoldable pub give_away : ℕ → ℕ → ℕ → ℕ → List Entry → List Entry × ℕ
unfolding Entries.update Address.min distance
give_away ring_start ring_end peer end [] = ([], 0)
give_away ring_start ring_end peer end (e ∷ es) =
    let (es', n) = give_away ring_start ring_end peer end es in
    let free = Address.min e.free (distance ring_start ring_end e.token end) in
    if ltb e.token end then (Entries.update e peer free ∷ es', n + 1) else (e ∷ es, 0)

-- an entry for `start`, where the token before it is `prev` at position `i - 1`: the entries, and
-- the position after that of `start`
unfoldable pub place_start : {E : Type 0} → Ring → ℕ → ℕ → ℕ → ℕ → Entry → Run E (List Entry × ℕ)
unfolding update_at Entries.insert distance
place_start r start peer start_free i prev =
    let es = r.entries in
    let at = if i == 0 then length es else i in
    let inserted =
      Entries.insert es (record { token = start; peer = peer; version = 0; free = start_free })
      >>= λ es'. ok (
        update_at es' (if i == 0 then length es else i - 1) r.peer
            (distance r.start r.end prev.token start),
        i + 1,
      ) in
    if prev.token == start then ok (update_at es (at - 1) peer start_free, i) else inserted

-- an entry for the end of the range, unless there is one
unfoldable pub place_end : {E : Type 0} → Ring → ℕ → List Entry → ℕ → Run E (List Entry)
unfolding Entries.get Entries.entry Entries.insert distance
place_end r end es pos =
    let missing = Entries.entry es pos >>= λ next. Entries.insert es (record {
      token = end;
      peer = r.peer;
      version = 0;
      free = distance r.start r.end end next.token;
    }) in
    elim (Entries.get es end) [ none ↦ missing | some e ↦ ok es ]

-- the entries after the checks
unfoldable pub grant_entries : {E : Type 0} → Ring → ℕ → ℕ → ℕ → ℕ → Run E (List Entry)
unfolding Entries.entry Entries.entry_before place_start give_away place_end distance
grant_entries r start end peer i = do
  next ← Entries.entry r.entries i
  let start_free =
      Address.min (distance r.start r.end start next.token) (distance r.start r.end start end)
  prev ← Entries.entry_before r.entries i
  placed ← place_start r start peer start_free i prev
  let (es, pos) = placed
  let (given, n) = give_away r.start r.end peer end (drop pos es)
  let end' = if end == r.end then r.start else end
  place_end r end' (take pos es ++ given) (pos + n)

unfoldable pub grant_range_to_host : {E : Type 0} → Ring → ℕ → ℕ → ℕ → Run E (Ring × List Update)
grant_range_to_host r start end peer = do
  assert_invariants r
  prev ← ranges_before r r.peer
  assert (ltb start end)
  assert (leb r.start start && ltb start r.end)
  assert (ltb r.start end && leb end r.end)
  assert (ltb 0 (length r.entries))
  let i = Entries.position_after r.entries start
  check_owned (length r.entries + 1 - i) r.entries r.peer end i
  es ← grant_entries r start end peer i
  let r' = record r { entries = es }
  assert_invariants r'
  updates ← updates_after r' r'.peer prev
  ok (r', updates)
