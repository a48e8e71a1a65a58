-- ===== src/Ring/Owner.antt =====
-- Owner, and the assertions of a valid ring.
use weave.Base.{
  ℕ, ◌≤◌, ◌<◌, ◌≡◌, refl, Bool, true, false, ◌&&◌, List, [], ◌∷◌, ltb, leb, ◌==◌, if◌then◌else◌,
  Run, ok, ◌>>=◌, arith, Option, none, some, length,
}
use weave.Address.{Range}
use weave.Entries
use weave.Entries.{Entry}
use weave.Entries.Order.{IsSortedFrom, IsSortedFrom-mono, owner_from}
use weave.Entries.Search.{last, entry_before-owner}
use weave.Ring.{Ring, Update, assert_invariants}
use weave.Ring.Ranges.{
  split_ranges_over_zero, entry_ranges, first_token, owned_ranges_of_peer, ranges_before,
  updates_after,
}
use weave.Ring.Transfer.{owner}
use weave.Ring.Valid.{AreValid, check_entries_iff}

abbrev pub IsValid : Ring → Type 0
IsValid r = AreValid r.start r.end r.entries

pub assert_invariants-ok : {E : Type 0} (r : Ring) → IsValid r → assert_invariants {E = E} r ≡ ok tt
unfolding assert_invariants
assert_invariants-ok r v = rw ((check_entries_iff r.start r.end r.entries).1 v)

-- the owner of an address: of the last entry at or before it, or of the last entry of all
unfoldable pub owner_of : List Entry → ℕ → Option ℕ
owner_of [] x = none
owner_of (e ∷ es) x = owner_from (some (last e es).peer) (e ∷ es) x

owner_found :
    {E : Type 0} (x : ℕ) (es : List Entry) (lo : ℕ)
    → IsSortedFrom lo es
    → (if length es == 0
        then ok none
        else (Entries.entry_before {E = E} es (Entries.position_after es x) >>= λ e.
            ok (some e.peer)))
      ≡ ok (owner_of es x)
unfolding owner_of
owner_found x [] lo s = refl
owner_found {E} x (e ∷ es) lo s =
    let (y, p, q) =
      entry_before-owner {E = E} x e es (IsSortedFrom-mono {m = 0} (e ∷ es) (omega arith) s) in
    let nonempty : (length (e ∷ es) == 0) ≡ false = ground arith in rw (nonempty, p, q)

-- On a valid ring Owner of an address of the ring returns the owner of the last entry at or before the address, and of the last entry of all where none is before it; on a ring with no entries it returns the unknown peer. It does not panic.
pub owner_correct :
    {E : Type 0} (r : Ring) (x : ℕ)
    → IsValid r
    → r.start ≤ x
    → x < r.end
    → owner {E = E} r x ≡ ok (owner_of r.entries x)
unfolding owner
owner_correct {E} r x v lo hi =
    let inside : (leb r.start x && ltb x r.end) ≡ true = ground arith in
    rw (inside, assert_invariants-ok {E = E} r v) (owner_found x r.entries r.start v.sorted)

-- the ranges of a peer
abbrev pub peer_ranges : Ring → ℕ → List Range
peer_ranges r peer =
    split_ranges_over_zero r.start r.end (entry_ranges peer (first_token r.entries) r.entries)

pub owned_ranges_of_peer-ok :
    {E : Type 0} (r : Ring) (peer : ℕ)
    → IsValid r
    → owned_ranges_of_peer {E = E} r peer ≡ ok (peer_ranges r peer)
unfolding owned_ranges_of_peer
owned_ranges_of_peer-ok {E} r peer v = rw (assert_invariants-ok {E = E} r v)

if-ok :
    {E A : Type 0} (b : Bool) (x y : A)
    → ◌≡◌ {A = Run E A} (if b then ok x else ok y) (ok (if b then x else y))
if-ok true x y = refl
if-ok false x y = refl

pub ranges_before-ok :
    {E : Type 0} (r : Ring) (peer : ℕ)
    → IsValid r
    → (rs : List Range) × (ranges_before {E = E} r peer ≡ ok rs)
unfolding ranges_before
ranges_before-ok {E} r peer v = (
  (if r.tracked then peer_ranges r peer else []),
  rw (owned_ranges_of_peer-ok {E = E} r peer v) (if-ok r.tracked (peer_ranges r peer) []),
)

-- the call of onUpdate that a tracked method makes, if there is a callback
abbrev pub updates_of : Ring → ℕ → List Range → List Update
updates_of r peer prev =
    if r.tracked
    then record { prev = prev; curr = peer_ranges r peer; local = peer == r.peer } ∷ []
    else []

pub updates_after-ok :
    {E : Type 0} (r : Ring) (peer : ℕ) (prev : List Range)
    → IsValid r
    → updates_after {E = E} r peer prev ≡ ok (updates_of r peer prev)
unfolding updates_after
updates_after-ok {E} r peer prev v = rw (owned_ranges_of_peer-ok {E = E} r peer v) (
    if-ok r.tracked (record { prev = prev; curr = peer_ranges r peer; local = peer == r.peer } ∷ [])
      [])
