-- ===== src/Entries.antt =====
-- ipam/ring/entry.go: the entries of a ring, sorted by token. A peer name is a uint64, a number here.
-- A pointer to an entry is the entry; the code never shares one between two rings that it changes.
pub mod Order
pub mod Search
use weave.Base.{
  ℕ, zero, suc, ◌+◌, ◌-◌, ◌%◌, Bool, true, not, ◌&&◌, ◌||◌, List, [], ◌∷◌, ◌++◌, ltb, leb, ◌==◌,
  if◌then◌else◌, word, Run, ok, panic, ◌>>=◌, ◌>>◌, assert, or_panic, length, get_elem?, take, drop,
  Option, none,
}
use weave.Base.Search.{search}

pub record Entry : Type 0 where
  -- the start of this range
  pub token : ℕ
  -- who owns it
  pub peer : ℕ
  pub version : ℕ
  -- the number of free addresses in it
  pub free : ℕ

unfoldable pub equal : Entry → Entry → Bool
equal e e2 = e.token == e2.token && e.peer == e2.peer && e.version == e2.version

-- the version is a uint32 and wraps around
unfoldable pub update : Entry → ℕ → ℕ → Entry
update e peer free = record e { peer = peer; version = (e.version + 1) % word; free = free }

-- sort.IsSorted: no entry is less than the one before it
unfoldable pub is_sorted : List Entry → Bool
is_sorted [] = true
is_sorted (x ∷ []) = true
is_sorted (x ∷ y ∷ es) = not (ltb y.token x.token) && is_sorted (y ∷ es)

-- es.entry(i) for i from 0 on; on no entries the remainder panics
unfoldable pub entry : {E : Type 0} → List Entry → ℕ → Run E Entry
entry es i = if length es == 0 then panic else or_panic (get_elem? es (i % length es))

-- es.entry(i - 1), where i = 0 means the last entry
unfoldable pub entry_before : {E : Type 0} → List Entry → ℕ → Run E Entry
unfolding entry
entry_before es i = if i == 0 then entry es (length es - 1) else entry es (i - 1)

-- the token of the entry at `i`; the search asks only for positions inside the slice
unfoldable pub token_at : List Entry → ℕ → ℕ
token_at [] i = 0
token_at (e ∷ es) zero = e.token
token_at (e ∷ es) (suc i) = token_at es i

-- the position of the first entry whose token is not below `token`
unfoldable pub position : List Entry → ℕ → ℕ
unfolding search token_at
position es token = search (length es) (λ j. leb token (token_at es j))

-- the position of the first entry whose token is above `token`
unfoldable pub position_after : List Entry → ℕ → ℕ
unfolding search token_at
position_after es token = search (length es) (λ j. ltb token (token_at es j))

-- whether there is an entry at `i`, and its token is `token`
unfoldable pub is_at : List Entry → ℕ → ℕ → Bool
unfolding token_at
is_at es i token = ltb i (length es) && token_at es i == token

unfoldable pub insert : {E : Type 0} → List Entry → Entry → Run E (List Entry)
unfolding position is_at
insert es e =
    let i = position es e.token in
    if is_at es i e.token then panic else ok (take i es ++ (e ∷ drop i es))

unfoldable pub get : List Entry → ℕ → Option Entry
unfolding position is_at
get es token = let i = position es token in if is_at es i token then get_elem? es i else none

-- the switch of between, on the two tokens
unfoldable pub lies_between : ℕ → ℕ → ℕ → Bool
lies_between token first second =
    if first == second
    then not (token == first)
    else if ltb first second
    then leb first token && ltb token second
    else leb first token || ltb token second

-- Is the token between the entries at i and j?
unfoldable pub between : {E : Type 0} → List Entry → ℕ → ℕ → ℕ → Run E Bool
unfolding entry lies_between
between es token i j = do
  assert (ltb i j)
  first ← entry es i
  second ← entry es j
  ok (lies_between token first.token second.token)
