-- ===== src/Allocator/Events.antt =====
-- The rounds of the allocator's goroutine, one after the other.
use mathlib.Core.Path.{subst}
use weave.Base.{
  ℕ, ◌<◌, ◌≡◌, refl, ◌∙◌, sym, arith, Bool, not, ◌&&◌, List, [], ◌∷◌, ◌++◌, leb, ltb, if◌then◌else◌,
  Bool-cases, inl, inr, word, ok,
}
use weave.Address.{Range}
use weave.Boundaries
use weave.Space
use weave.Space.{SpaceError}
use weave.Space.Invariant.{new-IsValid}
use weave.Space.Updates.{AreRanges}
use weave.Entries.{Entry}
use weave.Ring.{Ring}
use weave.Ring.Owner
use weave.Ring.Owner.{owner_of, owner_correct, peer_ranges}
use weave.Ring.Transfer
use weave.Ring.Valid.{AreValid}
use weave.Ring.Ranges.{first_token}
use weave.Ring.Pieces.{pieces-bounded}
use weave.Ring.Fits.{Same, both, entry_ranges-Same, first_token-Same}
use weave.Allocator.Owned.{filed, entries}
use weave.Allocator.{Allocator, new_allocator, container_started, remove_dead_containers}
use weave.Allocator.Backed.{IsBacked, delete-IsBacked, free-IsBacked}
use weave.Allocator.Prune.{
  prune_owned-IsBacked, remove_dead_containers-IsBacked, container_destroyed-IsBacked,
  container_died-IsBacked, container_started-IsBacked,
}
use weave.Allocator.Try.{Allocate, Claim, RingOwner, unknown}
use weave.Allocator.Requests.{try_allocate_correct}
use weave.Allocator.Claims.{try_claim_correct}
use weave.Allocator.Actor.{
  Actor, Event, allocating, claiming, deleting, destroyed, started, freeing, died, pruning, tick,
  owner_word, ring_owner, is_told, attempt_claim, try_claims, try_allocates, action, event, events,
}
use weave.Allocator.Kept.{
  Kept, Allocated-Kept, Claimed-Kept, delete-Kept, free-Kept, prune_owned-Kept,
  container_destroyed-Kept, container_died-Kept, remove_dead_containers-Kept,
}
use weave.Allocator.Checks
use weave.Allocator.Checks.{Has}
use weave.Allocator.Reported.{report_free_space-ok, peer_ranges-pieces}

-- the allocator is backed; its ring has entries, is valid, and ends within 32 bits; and the space has, in use
-- or free, the addresses of the ranges that the ring gives the peer
pub record IsSound (a : Actor) : Type 0 where
  pub backed : IsBacked a.alloc
  pub valid : Owner.IsValid a.ring
  pub small : a.ring.end < word
  pub first : Entry
  pub rest : List Entry
  pub established : a.ring.entries ≡ first ∷ rest
  pub ranges : Has (peer_ranges a.ring a.ring.peer) a.alloc.space

-- what an operation may do to the allocator
abbrev Follows : Allocator → Allocator → Type 0
Follows x y = IsBacked y × Kept x.space y.space

ring_owner-ok :
    {E : Type 0} (r : Ring) (a : ℕ)
    → Owner.IsValid r
    → (owner : RingOwner) × (ring_owner {E = E} r a ≡ ok owner)
unfolding ring_owner Transfer.contains
ring_owner-ok {E} r a v = elim (Bool-cases (leb r.start a && ltb a r.end)) [
  | inl inside ↦ (
    owner_word r (owner_of r.entries a),
    rw (inside, owner_correct {E = E} r a v (ground arith) (ground arith)) refl,
  )
  | inr outside ↦ (unknown, rw outside refl)
]

module _ (string : ℕ → ℕ) where
  attempt_claim-Follows :
      (gone sent : Bool) (r : Ring) (c : Claim) (x : Allocator)
      → Owner.IsValid r
      → IsBacked x
      → (t : Allocator × (Claim × Bool)) × (attempt_claim string gone sent r c x ≡ ok t)
        × Follows x t.0
  unfolding attempt_claim
  attempt_claim-Follows gone sent r c x v b =
      let (owner, e) = ring_owner-ok {E = SpaceError} r c.cidr.addr v in
      let (y, answers, done, run, how, w) = try_claim_correct string c x b gone sent owner in
      (
        (y, (record c { waiting = c.waiting && not (is_told answers) }, done)),
        rw (e, run) refl,
        (w, Claimed-Kept how),
      )

  try_claims-Follows :
      (gone sent : Claim → Bool) (r : Ring) (cs : List Claim) (x : Allocator)
      → Owner.IsValid r
      → IsBacked x
      → (t : Allocator × List Claim) × (try_claims string gone sent r cs x ≡ ok t) × Follows x t.0
  unfolding try_claims
  try_claims-Follows gone sent r [] x v b = ((x, []), refl, (b, λ a. refl))
  try_claims-Follows gone sent r (c ∷ cs) x v b =
      let (t, e, (w, k)) = attempt_claim-Follows (gone c) (sent c) r c x v b in
      let (u, f, (w', k')) = try_claims-Follows gone sent r cs t.0 v w in
      ((u.0, if t.1.1 then u.1 else t.1.0 ∷ u.1), rw (e, f) refl, (w', λ a. k' a ∙ k a))

  try_allocates-Follows :
      (gone : Allocate → Bool) (gs : List Allocate) (x : Allocator)
      → IsBacked x
      → (t : Allocator × List Allocate) × (try_allocates string gone gs x ≡ ok t) × Follows x t.0
  unfolding try_allocates
  try_allocates-Follows gone [] x b = ((x, []), refl, (b, λ a. refl))
  try_allocates-Follows gone (g ∷ gs) x b =
      let (y, answers, done, e, how, w) = try_allocate_correct string x b (gone g) g in
      let (u, f, (w', k')) = try_allocates-Follows gone gs y w in
      ((u.0, if done then u.1 else g ∷ u.1), rw (e, f) refl, (w', λ a. k' a ∙ Allocated-Kept how a))

  -- an action ends without a panic, and leaves the ring and the addresses of the space as they are
  action-Follows :
      (e : Event) (a : Actor)
      → IsSound a
      → (b : Actor) × (action string e a ≡ ok b) × (b.ring ≡ a.ring) × Follows a.alloc b.alloc
  unfolding action
  action-Follows (allocating gone g) a s =
      let (y, answers, done, run, how, w) = try_allocate_correct string a.alloc s.backed gone g in
      let waiting = if done then a.pending_allocates else a.pending_allocates ++ (g ∷ []) in
      (
        record a { alloc = y; pending_allocates = waiting },
        rw run refl,
        refl,
        (w, Allocated-Kept how),
      )
  action-Follows (claiming gone sent c) a s =
      let (t, run, (w, k)) = attempt_claim-Follows gone sent a.ring c a.alloc s.valid s.backed in
      let waiting = if t.1.1 then a.pending_claims else a.pending_claims ++ (t.1.0 ∷ []) in
      (record a { alloc = t.0; pending_claims = waiting }, rw run refl, refl, (w, k))
  action-Follows (deleting ident) a s =
      (_, refl, refl, (delete-IsBacked ident a.alloc s.backed, delete-Kept a.alloc s.backed ident))
  action-Follows (destroyed ident) a s = (
    _,
    refl,
    refl,
    (
      container_destroyed-IsBacked a.alloc s.backed ident,
      container_destroyed-Kept a.alloc s.backed ident,
    ),
  )
  action-Follows (started ident) a s = (
    _,
    refl,
    refl,
    (container_started-IsBacked a.alloc s.backed ident, λ b. unfold container_started in refl),
  )
  action-Follows (freeing ident x) a s =
      (_, refl, refl, (free-IsBacked ident x a.alloc s.backed, free-Kept a.alloc s.backed ident x))
  action-Follows (died now ident) a s = (
    _,
    refl,
    refl,
    (
      container_died-IsBacked a.alloc s.backed now ident,
      container_died-Kept a.alloc s.backed now ident,
    ),
  )
  action-Follows (pruning ids) a s = (
    _,
    refl,
    refl,
    (prune_owned-IsBacked ids a.alloc s.backed, prune_owned-Kept a.alloc s.backed ids),
  )
  action-Follows (tick now claims_gone sent allocates_gone) a s =
      let (t, e, (w, k)) =
        try_claims-Follows claims_gone sent a.ring a.pending_claims a.alloc s.valid s.backed in
      let (u, f, (w', k')) = try_allocates-Follows allocates_gone a.pending_allocates t.0 w in
      (
        record a {
          alloc = remove_dead_containers now u.0;
          pending_claims = t.1;
          pending_allocates = u.1;
        },
        rw (e, f) refl,
        refl,
        (
          remove_dead_containers-IsBacked u.0 w' now,
          λ b. remove_dead_containers-Kept u.0 w' now b ∙ k' b ∙ k b,
        ),
      )

ranges-AreRanges : (a : Actor) → IsSound a → AreRanges (peer_ranges a.ring a.ring.peer)
ranges-AreRanges a s =
    let v : AreValid a.ring.start a.ring.end (s.first ∷ s.rest) =
      subst (λ (l : List Entry). AreValid a.ring.start a.ring.end l) s.established s.valid in
    rw (peer_ranges-pieces a.ring s.first s.rest s.established v) (
      pieces-bounded word a.ring.start a.ring.end a.ring.peer s.first s.rest v.sorted.0 v.sorted.1
        v.below_end s.small)

-- the ranges depend on the tokens and owners of the entries only
peer_ranges-Same :
    (r : Ring) (fs : List Entry)
    → Same r.entries fs
    → peer_ranges (record r { entries = fs }) r.peer ≡ peer_ranges r r.peer
peer_ranges-Same r fs same =
    rw (first_token-Same same, entry_ranges-Same (first_token r.entries) r.peer same) refl

Same-cons :
    (e : Entry) (es fs : List Entry)
    → Same (e ∷ es) fs
    → (g : Entry) × (gs : List Entry) × (fs ≡ g ∷ gs)
Same-cons e es fs (both f g {fs = gs} t p s) = (g, gs, refl)

module _ (string : ℕ → ℕ) where
  event-IsSound :
      (e : Event) (a : Actor) → IsSound a → (b : Actor) × (event string e a ≡ ok b) × IsSound b
  unfolding event
  event-IsSound e a s =
      let (b, run, same_ring, (w, kept)) = action-Follows string e a s in
      let has : Has (peer_ranges a.ring a.ring.peer) b.alloc.space =
        λ x. s.ranges x ∙ sym (kept x) in
      let checked =
        Checks.assert_invariants-ok {E = SpaceError} a.ring b.alloc s.valid (ranges-AreRanges a s)
          w.valid has in
      let (fs, report, same, valid) =
        report_free_space-ok {E = SpaceError} a.ring b.alloc s.first s.rest s.established s.valid
          s.small w.valid in
      let (g, gs, some_entry) =
        Same-cons s.first s.rest fs (subst (λ (l : List Entry). Same l fs) s.established same) in
      (
        record b { ring = record a.ring { entries = fs } },
        rw (run, same_ring, checked, report) refl,
        record {
          backed = w;
          valid = valid;
          small = s.small;
          first = g;
          rest = gs;
          established = some_entry;
          ranges = rw (peer_ranges-Same a.ring fs same) has;
        },
      )

  -- Whatever rounds the goroutine of an allocator makes in whatever order, for allocations, claims, deletions, frees, prunings, container events and ticks, with the pending operations that they queue, cancel and retry, and with assertInvariants and reportFreeSpace after each: if the allocator was sound, it does not panic and is sound afterwards. It is sound if an identifier has one entry at most, no address is owned twice, every address in use in the space is owned by somebody, no owned address is free, the space lies in the universe, the ring has entries, is valid and ends within 32 bits, and the space has, in use or free, exactly the addresses of the ranges that the ring gives this peer.
  pub events-IsSound :
      (es : List Event) (a : Actor)
      → IsSound a
      → (b : Actor) × (events string es a ≡ ok b) × IsSound b
  unfolding events
  events-IsSound [] a s = (a, refl, s)
  events-IsSound (e ∷ es) a s =
      let (b, run, t) = event-IsSound e a s in
      let (c, rest, u) = events-IsSound es b t in (c, rw run rest, u)

-- a new allocator is backed
pub new_allocator-IsBacked : (universe : Range) → IsBacked (new_allocator universe)
unfolding new_allocator Space.new filed entries Boundaries.contains
new_allocator-IsBacked universe = record {
  valid = new-IsValid;
  keyed = λ i. omega arith;
  once = λ b. omega arith;
  used_filed = λ b e. absurd cc;
  filed_used = λ b e. refl;
  within = λ b e. absurd cc;
}
