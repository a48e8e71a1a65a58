-- ===== src/Allocator/Claimed.antt =====
-- claim.Try: the ways in which it ends.
use weave.Base.{
  ℕ, ◌+◌, ◌≡◌, Bool, true, false, ◌&&◌, ◌||◌, List, [], ◌∷◌, ◌==◌, if◌then◌else◌, none, some,
}
use weave.Address
use weave.Address.{Cidr, Range}
use weave.Space.{not_free}
use weave.Space.Invariant.{is_free, Taken}
use weave.Allocator.{Allocator, Owned, owned_data, has_addr, time_of_death}
use weave.Allocator.Owned.{filed}
use weave.Allocator.Try.{
  Claim, Answer, claimed, in_use, cancelled, space_error, owned_by_peer, request, RingOwner, us,
  unknown, other, resurrect, filed_under, no_container_id,
}

-- the answer, if the caller is still waiting for one
abbrev pub Hears : Claim → Answer → List Answer → Type 0
Hears c answer answers =
    (c.waiting ≡ true → answers ≡ answer ∷ []) × (c.waiting ≡ false → answers ≡ [])

-- the identifier has the address
abbrev pub Has : ℕ → ℕ → Owned → Type 0
Has i a t = has_addr a (owned_data i t).cidrs ≡ true

-- the answer to a claim of an address that the identifier `i` has: success if it claims the address itself or
-- if the claim names no container
unfoldable pub verdict : (ℕ → ℕ) → Claim → Bool → ℕ → Answer
verdict string c inside i =
    if i == c.ident || c.ident == no_container_id
    then claimed
    else if inside && i == string c.cidr.addr
    then in_use none
    else in_use (some i)

-- the address is the claimant's, and nothing else is filed otherwise than before
pub record Newly (string : ℕ → ℕ) (c : Claim) (x y : Allocator) : Type 0 where
  pub has : Has (filed_under string c.ident c.cidr.addr) c.cidr.addr y.owned
  pub once_more : (b : ℕ) → filed b y.owned ≡ filed b x.owned + (if c.cidr.addr == b then 1 else 0)

-- how claim.Try ends: the allocator afterwards, the answers, and whether it is done
pub data Claimed (string : ℕ → ℕ) (has_been_cancelled sent : Bool) (owner : RingOwner) (c : Claim)
    (x : Allocator) : Allocator → List Answer → Bool → Type 0 where
  -- the caller has gone away
  gone :
      (answers : List Answer)
      → has_been_cancelled ≡ true
      → Hears c cancelled answers
      → Claimed string has_been_cancelled sent owner c x x answers true
  -- outside the universe: an address that nobody had is the claimant's now
  filed_outside :
      (y : Allocator) (answers : List Answer)
      → has_been_cancelled ≡ false
      → Address.contains x.universe c.cidr.addr ≡ false
      → filed c.cidr.addr x.owned ≡ 0
      → Newly string c x y
      → y.space ≡ x.space
      → Hears c claimed answers
      → Claimed string has_been_cancelled sent owner c x y answers true
  -- outside: it is taken over from a dead container that is not the claimant
  taken_over :
      (y : Allocator) (answers : List Answer) (i died : ℕ)
      → has_been_cancelled ≡ false
      → Address.contains x.universe c.cidr.addr ≡ false
      → Has i c.cidr.addr x.owned
      → (i == c.ident || c.ident == no_container_id) ≡ false
      → time_of_death i x.dead ≡ some died
      → Has (filed_under string c.ident c.cidr.addr) c.cidr.addr y.owned
      → ((b : ℕ) → filed b y.owned ≡ filed b x.owned)
      → y.space ≡ x.space
      → Hears c claimed answers
      → Claimed string has_been_cancelled sent owner c x y answers true
  -- outside: who has it keeps it, and is alive if this is refused
  kept_outside :
      (answers : List Answer) (i : ℕ)
      → has_been_cancelled ≡ false
      → Address.contains x.universe c.cidr.addr ≡ false
      → Has i c.cidr.addr x.owned
      → ((i == c.ident || c.ident == no_container_id) ≡ false → time_of_death i x.dead ≡ none)
      → Hears c (verdict string c false i) answers
      → Claimed string has_been_cancelled sent owner c x x answers true
  -- the ring gives the address to us, nobody has it and it is free: it is the claimant's now
  filed_inside :
      (y : Allocator) (answers : List Answer)
      → has_been_cancelled ≡ false
      → Address.contains x.universe c.cidr.addr ≡ true
      → owner ≡ us
      → filed c.cidr.addr x.owned ≡ 0
      → Newly string c x y
      → Taken x.space c.cidr.addr y.space
      → Hears c claimed answers
      → Claimed string has_been_cancelled sent owner c x y answers true
  -- nobody has it, and it is not free either
  not_there :
      (answers : List Answer)
      → has_been_cancelled ≡ false
      → Address.contains x.universe c.cidr.addr ≡ true
      → owner ≡ us
      → filed c.cidr.addr x.owned ≡ 0
      → is_free x.space c.cidr.addr ≡ false
      → Hears c (space_error (not_free c.cidr.addr)) answers
      → Claimed string has_been_cancelled sent owner c x (resurrect c.ident x) answers true
  -- who has it keeps it
  kept_inside :
      (answers : List Answer) (i : ℕ)
      → has_been_cancelled ≡ false
      → Address.contains x.universe c.cidr.addr ≡ true
      → owner ≡ us
      → Has i c.cidr.addr x.owned
      → Hears c (verdict string c true i) answers
      → Claimed string has_been_cancelled sent owner c x (resurrect c.ident x) answers true
  -- the ring is empty: the claim waits, and its caller only if it asked for that
  unsettled :
      (answers : List Answer)
      → has_been_cancelled ≡ false
      → Address.contains x.universe c.cidr.addr ≡ true
      → owner ≡ unknown
      → (c.no_error_on_unknown ≡ true → Hears c claimed answers)
      → (c.no_error_on_unknown ≡ false → answers ≡ [])
      → Claimed string has_been_cancelled sent owner c x (resurrect c.ident x) answers false
  -- another peer has the address: it is asked, and the claim waits
  elsewhere :
      (answers : List Answer) (peer : ℕ)
      → has_been_cancelled ≡ false
      → Address.contains x.universe c.cidr.addr ≡ true
      → owner ≡ other peer
      → (sent ≡ true → answers ≡ [])
      → (sent ≡ false → c.no_error_on_unknown ≡ true → Hears c claimed answers)
      → (sent ≡ false → c.no_error_on_unknown ≡ false → Hears c (owned_by_peer peer) answers)
      → Claimed string has_been_cancelled sent owner c x
          (resurrect c.ident x)
          (request peer (Address.new_range c.cidr.addr 1) ∷ answers)
          false
