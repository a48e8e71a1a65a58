-- ===== src/Allocator/Claims.antt =====
-- claim.Try: what it answers, and that it keeps the allocator backed.
use weave.Base.{
  ℕ, ◌≡◌, refl, sym, ◌∙◌, Bool, true, false, ◌||◌, List, ◌==◌, arith, Bool-cases, inl, inr, Option,
  none, some, ok,
}
use weave.Address
use weave.Address.{Cidr, Range}
use weave.Space
use weave.Space.{Space, not_free}
use weave.Space.Invariant.{is_free}
use weave.Space.Moves.{claim_correct}
use weave.Allocator.{Allocator, remove_owned, holder, find_owner, time_of_death, drop_dead}
use weave.Allocator.Owned.{holder-none, holder-has_addr}
use weave.Allocator.Backed.{IsBacked, forget_dead, remove_owned-cases}
use weave.Allocator.Try.{
  Claim, Answer, claimed, in_use, cancelled, space_error, owned_by_peer, RingOwner, us, unknown,
  other, resurrect, claim_owned, send_result, is_dead, claim_outside, claim_unused, claim_ours,
  claim_owner, try_claim, no_container_id,
}
use weave.Allocator.Claimed.{
  Claimed, Has, Newly, gone, filed_outside, taken_over, kept_outside, filed_inside, not_there,
  kept_inside, unsettled, elsewhere,
}
use weave.Allocator.Handover.{
  send_result-Hears, filed-claim_owned, claim_owned-Has, claim_owned-Taken, claim_owned-outside,
  claim_owned-space, removed-IsBacked, Hears-verdict, verdict-again, verdict-outside,
  verdict-inside,
}

module _ (string : ℕ → ℕ) (c : Claim) (x : Allocator) (v : IsBacked x) where
  holder-Has : (i : ℕ) → holder c.cidr.addr x.owned ≡ some i → Has i c.cidr.addr x.owned
  holder-Has i h = holder-has_addr c.cidr.addr i x.owned (v.keyed i) h

  module _ (sent : Bool) (owner : RingOwner)
      (out : Address.contains x.universe c.cidr.addr ≡ false) where
    -- an address outside the universe changes hands from a dead container
    take_over :
        (i died : ℕ)
        → holder c.cidr.addr x.owned ≡ some i
        → (i == c.ident || c.ident == no_container_id) ≡ false
        → time_of_death i x.dead ≡ some died
        → Claimed string false sent owner c x
            (claim_owned string c (remove_owned i c.cidr.addr x).0)
            (send_result c claimed)
            true
          × IsBacked (claim_owned string c (remove_owned i c.cidr.addr x).0)
    take_over i died h e d = elim (remove_owned-cases i c.cidr.addr x) [
      | inl (absent, r) ↦ let there = holder-Has i h in absurd (ground arith)
      | inr (t, r, n, f) ↦
          let x' : Allocator = record x { owned = t } in
          let w = removed-IsBacked x c.cidr.addr t v out n f in
          let g = filed-claim_owned string c x' in
          rw r (
            taken_over (claim_owned string c x') (send_result c claimed) i died refl out
                (holder-Has i h) e d (claim_owned-Has string c x') (λ b. ground (arith, f b, g b))
                (claim_owned-space string c x') (send_result-Hears c claimed),
            claim_owned-outside string c x' w out
                (ground (arith, f c.cidr.addr, v.once c.cidr.addr)),
          )
    ]

    -- it stays with a container that is not the claimant and that is alive
    claim_outside-foreign :
        (o : Option ℕ) (i : ℕ)
        → holder c.cidr.addr x.owned ≡ some i
        → (i == c.ident || c.ident == no_container_id) ≡ false
        → time_of_death i x.dead ≡ o
        → Claimed string false sent owner c x
            (claim_outside string c x (some i)).0
            (claim_outside string c x (some i)).1.0
            (claim_outside string c x (some i)).1.1
          × IsBacked (claim_outside string c x (some i)).0
    unfolding claim_outside is_dead
    claim_outside-foreign (some died) i h e d = rw (e, d) (take_over i died h e d)
    claim_outside-foreign none i h e d =
        rw (e, d)
          (
            kept_outside (send_result c (in_use (some i))) i refl out (holder-Has i h) (λ n. d)
                (Hears-verdict string c false i (in_use (some i)) (verdict-outside string c i e)),
            v,
          )

    claim_outside-Claimed :
        (o : Option ℕ)
        → holder c.cidr.addr x.owned ≡ o
        → Claimed string false sent owner c x
            (claim_outside string c x o).0
            (claim_outside string c x o).1.0
            (claim_outside string c x o).1.1
          × IsBacked (claim_outside string c x o).0
    unfolding claim_outside is_dead
    claim_outside-Claimed none h =
        let z = holder-none c.cidr.addr x.owned h in
        let news : Newly string c x (claim_owned string c x) = record {
          has = claim_owned-Has string c x;
          once_more = filed-claim_owned string c x;
        } in
        (
          filed_outside (claim_owned string c x) (send_result c claimed) refl out z news
              (claim_owned-space string c x) (send_result-Hears c claimed),
          claim_owned-outside string c x v out z,
        )
    claim_outside-Claimed (some i) h =
        elim (Bool-cases (i == c.ident || c.ident == no_container_id)) [
          | inl e ↦ rw e (
            kept_outside (send_result c claimed) i refl out (holder-Has i h)
                (λ n. absurd (let m : true ≡ false = sym e ∙ n in cc))
                (Hears-verdict string c false i claimed (verdict-again string c false i e)),
            v,
          )
          | inr e ↦ claim_outside-foreign (time_of_death i x.dead) i h e refl
        ]

-- the ring gives the address to us; `x` is the allocator before the container is resurrected
module _ (string : ℕ → ℕ) (c : Claim) (x : Allocator) (v : IsBacked x) (sent : Bool)
    (inside : Address.contains x.universe c.cidr.addr ≡ true) where
  claim_unused-Claimed :
      holder c.cidr.addr x.owned ≡ none
      → (y : Allocator) × (answers : List Answer) × (claim_unused string c
            (resurrect c.ident x)
            (Space.claim x.space c.cidr.addr)
          ≡ ok (y, (answers, true)))
        × Claimed string false sent us c x y answers true
        × IsBacked y
  unfolding claim_unused resurrect
  claim_unused-Claimed h =
      let alive = resurrect c.ident x in
      let w = forget_dead x (drop_dead c.ident x.dead) v in
      let z = holder-none c.cidr.addr x.owned h in
      elim (claim_correct x.space c.cidr.addr v.valid) [
        | inl (is_free, t, e, taken) ↦
            let x' : Allocator = record alive { space = t } in
            let y = claim_owned string c x' in
            let news : Newly string c x y = record {
              has = claim_owned-Has string c x';
              once_more = filed-claim_owned string c x';
            } in
            (
              y,
              send_result c claimed,
              rw e refl,
              filed_inside y (send_result c claimed) refl inside refl z news
                  (rw (claim_owned-space string c x') taken) (send_result-Hears c claimed),
              claim_owned-Taken string c alive w t taken,
            )
        | inr (no_space, e) ↦
            let refusal = space_error (not_free c.cidr.addr) in
            (
              alive,
              send_result c refusal,
              rw e refl,
              not_there (send_result c refusal) refl inside refl z no_space
                  (send_result-Hears c refusal),
              w,
            )
      ]

  claim_ours-Claimed :
      (o : Option ℕ)
      → holder c.cidr.addr x.owned ≡ o
      → (y : Allocator) × (answers : List Answer) × (claim_ours string c (resurrect c.ident x) o
          ≡ ok (y, (answers, true)))
        × Claimed string false sent us c x y answers true
        × IsBacked y
  unfolding claim_ours resurrect
  claim_ours-Claimed none h = claim_unused-Claimed h
  claim_ours-Claimed (some i) h = (
    resurrect c.ident x,
    _,
    refl,
    kept_inside _ i refl inside refl (holder-Has string c x v i h)
        (Hears-verdict string c true i _ (verdict-inside string c i)),
    forget_dead x (drop_dead c.ident x.dead) v,
  )

  claim_owner-Claimed :
      (owner : RingOwner)
      → (y : Allocator) × (answers : List Answer) × (done : Bool) × (claim_owner string sent c
            (resurrect c.ident x)
            owner
          ≡ ok (y, (answers, done)))
        × Claimed string false sent owner c x y answers done
        × IsBacked y
  unfolding claim_owner find_owner resurrect
  claim_owner-Claimed us =
      let (y, answers, e, h, w) = claim_ours-Claimed (holder c.cidr.addr x.owned) refl in
      (y, answers, true, e, h, w)
  claim_owner-Claimed unknown = (
    resurrect c.ident x,
    _,
    false,
    refl,
    unsettled _ refl inside refl (λ e. rw e (send_result-Hears c claimed)) (λ e. rw e refl),
    forget_dead x (drop_dead c.ident x.dead) v,
  )
  claim_owner-Claimed (other peer) = (
    resurrect c.ident x,
    _,
    false,
    refl,
    elsewhere _ peer refl inside refl (λ e. rw e refl)
        (λ e n. rw (e, n) (send_result-Hears c claimed))
        (λ e n. rw (e, n) (send_result-Hears c (owned_by_peer peer))),
    forget_dead x (drop_dead c.ident x.dead) v,
  )

-- Claim on a backed allocator always ends without a panic, keeps the allocator backed, and ends in one of these ways; a caller that no longer waits hears nothing. It is cancelled, only if its caller has gone away, and changes nothing. Outside the universe: an address that nobody has is filed under the claimant; one that a dead container has, which is not the claimant, is filed under the claimant in its place; otherwise who has it keeps it, and the answer is success if that is the claimant or the claim names no container, and else that the address is in use. Inside, where the ring gives the address to this peer: an address that nobody has is taken out of the free ones and filed under the claimant, or is refused with the space's error if it is not free; one that somebody has stays theirs, with the same answers. Inside otherwise, the claim waits: for the ring, or after asking the peer that has the address; its caller is told of success if it allows that, and else only that the other peer has it, if that peer could not be asked. Where something is filed, no other address is filed more or less often than before.
pub try_claim_correct :
    (string : ℕ → ℕ) (c : Claim) (x : Allocator)
    → IsBacked x
    → (has_been_cancelled sent : Bool) (owner : RingOwner)
    → (y : Allocator) × (answers : List Answer) × (done : Bool) × (try_claim string
          has_been_cancelled sent owner c x
        ≡ ok (y, (answers, done)))
      × Claimed string has_been_cancelled sent owner c x y answers done
      × IsBacked y
unfolding try_claim find_owner
try_claim_correct string c x v true sent owner =
    (x, _, true, refl, gone _ refl (send_result-Hears c cancelled), v)
try_claim_correct string c x v false sent owner =
    elim (Bool-cases (Address.contains x.universe c.cidr.addr)) [
      | inl h ↦ rw h (claim_owner-Claimed string c x v sent h owner)
      | inr h ↦
          let (how, w) =
            claim_outside-Claimed string c x v sent owner h (holder c.cidr.addr x.owned) refl in
          rw h (_, _, _, refl, how, w)
    ]
