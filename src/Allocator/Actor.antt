-- ===== src/Allocator/Actor.antt =====
-- ipam/allocator.go: the allocator's goroutine, with its ring and its pending operations. The ring has
-- entries, so that no consensus is awaited, and the allocator is not shutting down. What a caller has decided (has it gone away?), whether
-- a message could be sent, and the time are arguments. The result channels are the answers of the
-- operations, which are dropped here but for their effect on a claim's channel.
use weave.Base.{
  ℕ, Bool, true, false, not, ◌&&◌, List, [], ◌∷◌, ◌++◌, ◌==◌, if◌then◌else◌, length, Run, ok, ◌>>=◌,
  ◌>>◌, assert, Option, none, some,
}
use weave.Address.{Range}
use weave.Space
use weave.Space.{Space, SpaceError}
use weave.Ring.{Ring}
use weave.Ring.Ranges
use weave.Ring.Transfer
use weave.Ring.Transfer.{set_free}
use weave.Allocator.{
  Allocator, delete, free, prune_owned, container_died, container_destroyed, container_started,
  remove_dead_containers,
}
use weave.Allocator.Try.{
  Allocate, Claim, Answer, request, allocated, claimed, out_of_bounds, cancelled, space_error,
  in_use, owned_by_peer, ask_donors, RingOwner, us, unknown, other, try_allocate, try_claim,
}

pub record Actor : Type 0 where
  pub alloc : Allocator
  pub ring : Ring
  pub pending_claims : List Claim
  pub pending_allocates : List Allocate

-- a method that is called, or a tick of the clock. A tick has the time and says of each pending claim
-- and allocation whether it has been cancelled, and of each claim whether its request can be sent.
pub data Event : Type 0 where
  allocating : Bool → Allocate → Event
  claiming : Bool → Bool → Claim → Event
  deleting destroyed started : ℕ → Event
  freeing died : ℕ → ℕ → Event
  pruning : List ℕ → Event
  tick : ℕ → (Claim → Bool) → (Claim → Bool) → (Allocate → Bool) → Event

-- the loop of assertInvariants
unfoldable pub compare_ranges : {E : Type 0} → List Range → List Range → Run E (Unit {0})
compare_ranges (r ∷ rs) (s ∷ ss) =
    assert (s.start == r.start && s.end == r.end) >> compare_ranges rs ss
compare_ranges _ _ = ok tt

-- assertInvariants: the space has the ranges that the ring gives this peer
unfoldable pub assert_invariants : {E : Type 0} → Ring → Allocator → Run E (Unit {0})
unfolding compare_ranges Ranges.owned_ranges Space.add_ranges Space.new Space.owned_ranges
assert_invariants ring alloc = do
  of_ring ← Ranges.owned_ranges ring
  ranges ← Space.owned_ranges (Space.add_ranges Space.new of_ring)
  spaces ← Space.owned_ranges alloc.space
  assert (length ranges == length spaces)
  compare_ranges ranges spaces

-- the loop of reportFreeSpace, which fills the map
unfoldable pub free_spaces : {E : Type 0} → Space → List Range → List (ℕ × ℕ) → Run E (List (ℕ × ℕ))
unfolding set_free Space.num_free_addresses_in_range
free_spaces space [] freespace = ok freespace
free_spaces space (r ∷ ranges) freespace = Space.num_free_addresses_in_range space r >>= λ n.
    free_spaces space ranges (set_free r.start n freespace)

unfoldable pub report_free_space : {E : Type 0} → Ring → Allocator → Run E Ring
report_free_space ring alloc = do
  ranges ← Ranges.owned_ranges ring
  let report = do
    freespace ← free_spaces alloc.space ranges []
    reported ← Transfer.report_free ring freespace
    ok reported.1
  if length ranges == 0 then ok ring else report

-- what claim.Try learns of an address inside the ring
unfoldable pub owner_word : Ring → Option ℕ → RingOwner
owner_word ring none = unknown
owner_word ring (some p) = if p == ring.peer then us else other p

unfoldable pub ring_owner : {E : Type 0} → Ring → ℕ → Run E RingOwner
ring_owner ring a =
    if Transfer.contains ring a
    then (Transfer.owner ring a >>= λ o. ok (owner_word ring o))
    else ok unknown

-- has a result been sent to the claim's caller?
unfoldable pub is_told : List Answer → Bool
is_told [] = false
is_told (request p r ∷ answers) = is_told answers
is_told (allocated a ∷ answers) = true
is_told (claimed ∷ answers) = true
is_told (out_of_bounds ∷ answers) = true
is_told (cancelled ∷ answers) = true
is_told (space_error e ∷ answers) = true
is_told (in_use o ∷ answers) = true
is_told (owned_by_peer p ∷ answers) = true
is_told (ask_donors r ∷ answers) = true

module _ (string : ℕ → ℕ) where
  -- Try of a claim: the allocator, the claim afterwards, and whether it is done
  unfoldable pub attempt_claim :
      Bool → Bool → Ring → Claim → Allocator → Run SpaceError (Allocator × (Claim × Bool))
  unfolding ring_owner try_claim is_told
  attempt_claim has_been_cancelled sent ring c x = do
    owner ← ring_owner ring c.cidr.addr
    t ← try_claim string has_been_cancelled sent owner c x
    ok (t.0, (record c { waiting = c.waiting && not (is_told t.1.0) }, t.1.1))

  -- tryOps on the two queues: what is left of them
  unfoldable pub try_claims :
      (Claim → Bool)
      → (Claim → Bool)
      → Ring
      → List Claim
      → Allocator
      → Run SpaceError (Allocator × List Claim)
  unfolding attempt_claim
  try_claims gone sent ring [] x = ok (x, [])
  try_claims gone sent ring (c ∷ cs) x = do
    t ← attempt_claim (gone c) (sent c) ring c x
    rest ← try_claims gone sent ring cs t.0
    ok (rest.0, if t.1.1 then rest.1 else t.1.0 ∷ rest.1)

  unfoldable pub try_allocates :
      (Allocate → Bool) → List Allocate → Allocator → Run SpaceError (Allocator × List Allocate)
  unfolding try_allocate
  try_allocates gone [] x = ok (x, [])
  try_allocates gone (g ∷ gs) x = do
    t ← try_allocate string (gone g) g x
    rest ← try_allocates gone gs t.0
    ok (rest.0, if t.1.1 then rest.1 else g ∷ rest.1)

  -- cancelOpsFor on the two queues
  unfoldable pub cancel_claims : ℕ → List Claim → List Claim
  cancel_claims ident [] = []
  cancel_claims ident (c ∷ cs) =
      let rest = cancel_claims ident cs in if c.ident == ident then rest else c ∷ rest

  unfoldable pub cancel_allocates : ℕ → List Allocate → List Allocate
  cancel_allocates ident [] = []
  cancel_allocates ident (g ∷ gs) =
      let rest = cancel_allocates ident gs in if g.ident == ident then rest else g ∷ rest

  -- the action of a method, or of a tick
  unfoldable pub action : Event → Actor → Run SpaceError Actor
  unfolding try_allocate attempt_claim try_claims try_allocates cancel_claims cancel_allocates
      delete free prune_owned container_died container_destroyed container_started
      remove_dead_containers
  action (allocating gone g) a = do
    t ← try_allocate string gone g a.alloc
    let waiting = if t.1.1 then a.pending_allocates else a.pending_allocates ++ (g ∷ [])
    ok (record a { alloc = t.0; pending_allocates = waiting })
  action (claiming gone sent c) a = do
    t ← attempt_claim gone sent a.ring c a.alloc
    let waiting = if t.1.1 then a.pending_claims else a.pending_claims ++ (t.1.0 ∷ [])
    ok (record a { alloc = t.0; pending_claims = waiting })
  action (deleting ident) a = ok (record a { alloc = (delete ident a.alloc).0 })
  action (destroyed ident) a = ok (record a { alloc = container_destroyed ident a.alloc })
  action (started ident) a = ok (record a { alloc = container_started ident a.alloc })
  action (freeing ident b) a = ok (record a { alloc = (free ident b a.alloc).0 })
  action (died now ident) a = ok (record a {
    alloc = container_died now ident a.alloc;
    pending_claims = cancel_claims ident a.pending_claims;
    pending_allocates = cancel_allocates ident a.pending_allocates;
  })
  action (pruning ids) a = ok (record a { alloc = prune_owned ids a.alloc })
  action (tick now claims_gone sent allocates_gone) a = do
    s ← try_claims claims_gone sent a.ring a.pending_claims a.alloc
    t ← try_allocates allocates_gone a.pending_allocates s.0
    ok (record a {
      alloc = remove_dead_containers now t.0;
      pending_claims = s.1;
      pending_allocates = t.1;
    })

  -- one round of actorLoop: the action, and what follows it
  unfoldable pub event : Event → Actor → Run SpaceError Actor
  event e a = do
    b ← action e a
    assert_invariants b.ring b.alloc
    ring ← report_free_space b.ring b.alloc
    ok (record b { ring = ring })

  unfoldable pub events : List Event → Actor → Run SpaceError Actor
  unfolding event
  events [] a = ok a
  events (e ∷ es) a = event e a >>= events es
