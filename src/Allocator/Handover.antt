-- ===== src/Allocator/Handover.antt =====
-- What a claim files, and when the allocator stays backed.
use weave.Base.{
  ℕ, sym, ◌+◌, ◌≤◌, ◌≡◌, refl, ◌∙◌, ap, Bool, true, false, ◌==◌, if◌then◌else◌, ◌&&◌, ◌||◌, arith,
  none, some, ==→eq,
}
use weave.Address
use weave.Address.{Cidr, Range}
use weave.Space.{Space}
use weave.Space.Invariant.{Taken}
use weave.Allocator.{Allocator, Owned, add_owned}
use weave.Allocator.Owned.{entries, filed}
use weave.Allocator.Backed.{IsBacked}
use weave.Allocator.Try.{
  Claim, Answer, claimed, in_use, no_container_id, filed_under, claim_owned, send_result,
}
use weave.Allocator.Claimed.{Hears, Has, verdict}
use weave.Allocator.Filing.{
  filed-add_owned, has_addr-add_owned, entries-add_owned, Taken-IsBacked, outside-IsBacked,
}

pub send_result-Hears : (c : Claim) (answer : Answer) → Hears c answer (send_result c answer)
unfolding send_result
send_result-Hears c answer = (λ e. rw e refl, λ e. rw e refl)

module _ (string : ℕ → ℕ) (c : Claim) where
  pub Hears-verdict :
      (inside : Bool) (i : ℕ) (answer : Answer)
      → verdict string c inside i ≡ answer
      → Hears c (verdict string c inside i) (send_result c answer)
  Hears-verdict inside i answer e = rw e (send_result-Hears c answer)

  pub verdict-again :
      (inside : Bool) (i : ℕ)
      → (i == c.ident || c.ident == no_container_id) ≡ true
      → verdict string c inside i ≡ claimed
  unfolding verdict
  verdict-again inside i e = rw e refl

  pub verdict-outside :
      (i : ℕ)
      → (i == c.ident || c.ident == no_container_id) ≡ false
      → verdict string c false i ≡ in_use (some i)
  unfolding verdict
  verdict-outside i e = rw e refl

  -- the code's tests in claim_ours
  pub verdict-inside :
      (i : ℕ)
      → verdict string c true i ≡ (
          if i == c.ident || ((c.ident == no_container_id) && (i == string c.cidr.addr))
          then claimed
          else if i == string c.cidr.addr
          then in_use none
          else if c.ident == no_container_id
          then claimed
          else in_use (some i))
  unfolding verdict
  verdict-inside i = ground arith

module _ (string : ℕ → ℕ) (c : Claim) (x : Allocator) where
  pub filed-claim_owned :
      (b : ℕ)
      → filed b (claim_owned string c x).owned
        ≡ filed b x.owned + (if c.cidr.addr == b then 1 else 0)
  unfolding claim_owned
  filed-claim_owned =
      filed-add_owned x (filed_under string c.ident c.cidr.addr) c.cidr c.is_container

  pub claim_owned-space : (claim_owned string c x).space ≡ x.space
  unfolding claim_owned add_owned
  claim_owned-space = refl

  pub claim_owned-Has :
      Has (filed_under string c.ident c.cidr.addr) c.cidr.addr (claim_owned string c x).owned
  unfolding claim_owned
  claim_owned-Has =
      has_addr-add_owned x (filed_under string c.ident c.cidr.addr) c.cidr c.is_container

module _ (string : ℕ → ℕ) (c : Claim) (x : Allocator) (v : IsBacked x) where
  pub claim_owned-Taken :
      (t : Space)
      → Taken x.space c.cidr.addr t
      → IsBacked (claim_owned string c (record x { space = t }))
  unfolding claim_owned add_owned
  claim_owned-Taken t h =
      let ident = filed_under string c.ident c.cidr.addr in
      let x' : Allocator = record x { space = t } in
      let y = add_owned ident c.cidr c.is_container x' in
      let n = entries-add_owned x' ident c.cidr c.is_container in
      let f = filed-add_owned x' ident c.cidr c.is_container in
      Taken-IsBacked x c.cidr.addr v y refl n f h

  pub claim_owned-outside :
      Address.contains x.universe c.cidr.addr ≡ false
      → filed c.cidr.addr x.owned ≡ 0
      → IsBacked (claim_owned string c x)
  unfolding claim_owned add_owned
  claim_owned-outside out unfiled =
      let ident = filed_under string c.ident c.cidr.addr in
      let y = add_owned ident c.cidr c.is_container x in
      let n = entries-add_owned x ident c.cidr c.is_container in
      let f = filed-add_owned x ident c.cidr c.is_container in
      outside-IsBacked x c.cidr.addr v y refl n f refl out unfiled

-- an address outside the universe may be filed no longer without a change of the space
pub removed-IsBacked :
    (x : Allocator) (a : ℕ) (t : Owned)
    → IsBacked x
    → Address.contains x.universe a ≡ false
    → ((i : ℕ) → entries i x.owned ≤ 1 → entries i t ≤ 1)
    → ((b : ℕ) → filed b t + (if a == b then 1 else 0) ≡ filed b x.owned)
    → IsBacked (record x { owned = t })
removed-IsBacked x a t v out n f =
    let out_at : (b : ℕ) → (a == b) ≡ true → Address.contains x.universe b ≡ false =
      λ b e. ap (Address.contains x.universe) (sym (==→eq a b e)) ∙ out in
    record {
      valid = v.valid;
      keyed = λ i. n i (v.keyed i);
      once = λ b. omega (arith, v.once b, f b);
      used_filed = λ b e. ground (arith, v.used_filed b, f b, v.within b, out_at b);
      filed_used = λ b e. ground (arith, v.once b, v.filed_used b, f b);
      within = v.within;
    }
