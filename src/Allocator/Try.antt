-- ===== src/Allocator/Try.antt =====
-- ipam/allocate.go and ipam/claim.go: the two operations on the allocator, and all operations in turn.
-- The ring is established already, so that establishRing returns at once. What the ring says of the
-- owner of an address, and whether a message could be sent, are arguments, as are `string`, the text of
-- an address, and whether the caller has gone away. What is sent to other peers is part of the answer.
use weave.Base.{
  ℕ, ◌+◌, ◌-◌, ◌%◌, ◌^◌, Bool, true, false, not, ◌&&◌, ◌||◌, List, [], ◌∷◌, ◌==◌, if◌then◌else◌,
  Run, ok, err, panic, Option, none, some, word, ◌>>=◌,
}
use weave.Address
use weave.Address.{Range, Cidr}
use weave.Space
use weave.Space.{Space, SpaceError}
use weave.Allocator.{
  Allocator, owned_in_range, find_owner, add_owned, remove_owned, time_of_death, drop_dead,
}

-- CIDR.Size, a uint32 shift; no prefix is longer than 32
unfoldable pub cidr_size : Cidr → ℕ
cidr_size c = 2 ^ (32 - c.prefix_len) % word

-- CIDR.Range and CIDR.HostRange
unfoldable pub cidr_range : Cidr → Range
unfolding cidr_size Address.new_range
cidr_range c = Address.new_range c.addr (cidr_size c)

unfoldable pub host_range : Cidr → Range
unfolding cidr_size Address.new_range
host_range c = Address.new_range ((c.addr + 1) % word) ((cidr_size c + word - 2) % word)

unfoldable pub make_cidr : Cidr → ℕ → Cidr
make_cidr subnet a = record { addr = a; prefix_len = subnet.prefix_len }

-- api.NoContainerID
abbrev pub no_container_id : ℕ
no_container_id = 0

-- what the caller is told, and the requests for space; `ask_donors` is the loop that asks the peers which
-- the ring chooses at random, up to the first that can be reached
pub data Answer : Type 0 where
  allocated : ℕ → Answer
  claimed out_of_bounds cancelled : Answer
  space_error : SpaceError → Answer
  in_use : Option ℕ → Answer
  owned_by_peer : ℕ → Answer
  ask_donors : Range → Answer
  request : ℕ → Range → Answer

-- the allocator afterwards, the answers, and whether the operation is done; `panic` if Go panics
abbrev pub Outcome : Type 0
Outcome = Run SpaceError (Allocator × (List Answer × Bool))

-- what the ring says of an address: its owner is this peer, another one, or there is none
pub data RingOwner : Type 0 where
  us unknown : RingOwner
  other : ℕ → RingOwner

pub record Allocate : Type 0 where
  pub ident : ℕ
  pub r : Cidr
  pub is_container : Bool

pub record Claim : Type 0 where
  pub ident : ℕ
  pub cidr : Cidr
  pub is_container : Bool
  pub no_error_on_unknown : Bool
  -- is resultChan there? It is not once a result has been sent
  pub waiting : Bool

pub record PreClaim : Type 0 where
  pub ident : ℕ
  pub is_container : Bool
  pub cidr : Cidr

-- the claims that NewAllocator makes of the pre-claims; nobody waits for them
unfoldable pub pending_claims : List PreClaim → List Claim
pending_claims [] = []
pending_claims (c ∷ cs) =
    record {
      ident = c.ident;
      cidr = c.cidr;
      is_container = false;
      no_error_on_unknown = false;
      waiting = false;
    }
    ∷ pending_claims cs

-- `alloc.dead` without the container, which lives
unfoldable pub resurrect : ℕ → Allocator → Allocator
unfolding drop_dead
resurrect ident alloc = record alloc { dead = drop_dead ident alloc.dead }

-- `!alloc.dead[ident].IsZero()`
unfoldable pub is_dead : Option ℕ → Bool
is_dead none = false
is_dead (some t) = true

-- sendResult: only the first result is sent
unfoldable pub send_result : Claim → Answer → List Answer
send_result c answer = if c.waiting then answer ∷ [] else []

module _ (string : ℕ → ℕ) where
  unfoldable pub filed_under : ℕ → ℕ → ℕ
  filed_under ident a = if ident == no_container_id then string a else ident

  -- the end of allocate.Try, on what space.Allocate answered
  unfoldable pub allocate_found : Allocate → Allocator → Bool × (ℕ × Space) → Outcome
  unfolding filed_under add_owned make_cidr cidr_range
  allocate_found g alloc (true, (a, s)) =
      let alloc' : Allocator = record alloc { space = s } in
      ok (
        add_owned (filed_under g.ident a) (make_cidr g.r a) g.is_container alloc',
        (allocated a ∷ [], true),
      )
  allocate_found g alloc (false, (a, s)) =
      ok (record alloc { space = s }, (ask_donors (cidr_range g.r) ∷ [], false))

  -- allocate.Try from `if addrs := alloc.ownedInRange(...)` on
  unfoldable pub allocate_owned : Allocate → Allocator → List Cidr → Outcome
  unfolding resurrect allocate_found host_range Space.allocate Address.overlaps cidr_range
  allocate_owned g alloc (c ∷ cs) = ok (resurrect g.ident alloc, (allocated c.addr ∷ [], true))
  allocate_owned g alloc [] =
      let try_space = Space.allocate alloc.space (host_range g.r) >>= allocate_found g alloc in
      if not (Address.overlaps alloc.universe (cidr_range g.r))
      then ok (alloc, (out_of_bounds ∷ [], true))
      else try_space

  unfoldable pub try_allocate : Bool → Allocate → Allocator → Outcome
  unfolding allocate_owned owned_in_range cidr_range
  try_allocate has_been_cancelled g alloc =
      if has_been_cancelled
      then ok (alloc, (cancelled ∷ [], true))
      else allocate_owned g alloc (owned_in_range g.ident (cidr_range g.r) alloc)

  -- the function addOwned of claim.Try
  unfoldable pub claim_owned : Claim → Allocator → Allocator
  unfolding filed_under add_owned
  claim_owned c alloc = add_owned (filed_under c.ident c.cidr.addr) c.cidr c.is_container alloc

  -- the address is outside the universe, and this is its previous owner
  unfoldable pub claim_outside : Claim → Allocator → Option ℕ → Allocator × (List Answer × Bool)
  unfolding claim_owned send_result remove_owned time_of_death is_dead
  claim_outside c alloc none = (claim_owned c alloc, (send_result c claimed, true))
  claim_outside c alloc (some previous) =
      let taken_over = claim_owned c (remove_owned previous c.cidr.addr alloc).0 in
      if previous == c.ident || c.ident == no_container_id
      then (alloc, (send_result c claimed, true))
      else if is_dead (time_of_death previous alloc.dead)
      then (taken_over, (send_result c claimed, true))
      else (alloc, (send_result c (in_use (some previous)), true))

  -- the end of claim.Try: we own the address, and this is the container that has it
  unfoldable pub claim_unused : Claim → Allocator → Run SpaceError Space → Outcome
  unfolding claim_owned send_result
  claim_unused c alloc (ok s) =
      ok (claim_owned c (record alloc { space = s }), (send_result c claimed, true))
  claim_unused c alloc (err e) = ok (alloc, (send_result c (space_error e), true))
  claim_unused c alloc panic = panic

  unfoldable pub claim_ours : Claim → Allocator → Option ℕ → Outcome
  unfolding claim_unused send_result Space.claim
  claim_ours c alloc none = claim_unused c alloc (Space.claim alloc.space c.cidr.addr)
  claim_ours c alloc (some existing) =
      let text = string c.cidr.addr in
      let anonymous = c.ident == no_container_id in
      let again = existing == c.ident || (anonymous && existing == text) in
      let answer =
        if again
        then claimed
        else if existing == text
        then in_use none
        else if anonymous
        then claimed
        else in_use (some existing) in
      ok (alloc, (send_result c answer, true))

  -- the switch on the ring's owner; `sent` is whether the request for space could be sent
  unfoldable pub claim_owner : Bool → Claim → Allocator → RingOwner → Outcome
  unfolding claim_ours send_result find_owner Address.new_range
  claim_owner sent c alloc us = claim_ours c alloc (find_owner c.cidr.addr alloc)
  claim_owner sent c alloc unknown =
      ok (alloc, (if c.no_error_on_unknown then send_result c claimed else [], false))
  claim_owner sent c alloc (other peer) =
      let failed = send_result c (if c.no_error_on_unknown then claimed else owned_by_peer peer) in
      let asked = request peer (Address.new_range c.cidr.addr 1) in
      ok (alloc, (asked ∷ (if sent then [] else failed), false))

  unfoldable pub try_claim : Bool → Bool → RingOwner → Claim → Allocator → Outcome
  unfolding claim_outside claim_owner resurrect find_owner send_result Address.contains
  try_claim has_been_cancelled sent owner c alloc =
      let outside = claim_outside c alloc (find_owner c.cidr.addr alloc) in
      let inside = claim_owner sent c (resurrect c.ident alloc) owner in
      if has_been_cancelled
      then ok (alloc, (send_result c cancelled, true))
      else if not (Address.contains alloc.universe c.cidr.addr)
      then ok outside
      else inside
