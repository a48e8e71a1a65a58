-- ===== src/Allocator/Filing.antt =====
-- addOwned: what is filed afterwards, and when the allocator stays backed.
use weave.Base.{
  ℕ, sym, ◌+◌, ◌≤◌, ◌≡◌, ◌∙◌, ap, Bool, true, false, [], ◌∷◌, ◌++◌, ◌==◌, if◌then◌else◌, arith,
  ==→eq,
}
use weave.Address
use weave.Address.{Range, Cidr}
use weave.Space.{Space}
use weave.Space.Invariant.{owned, is_free, Taken}
use weave.Allocator.{Allocator, OwnedData, owned_data, add_owned, has_addr}
use weave.Allocator.Owned.{
  count, filed, entries, entries-put_owned, count-append, filed-put_owned, owned_data-put_owned,
  has_addr-append,
}
use weave.Allocator.Backed.{IsBacked}

module _ (x : Allocator) (ident : ℕ) (c : Cidr) (is_container : Bool) where
  pub entries-add_owned :
      (i : ℕ) → entries i x.owned ≤ 1 → entries i (add_owned ident c is_container x).owned ≤ 1
  unfolding add_owned
  entries-add_owned i h = entries-put_owned i ident _ x.owned h

  -- addOwned files the address once more
  pub filed-add_owned :
      (b : ℕ)
      → filed b (add_owned ident c is_container x).owned
        ≡ filed b x.owned + (if c.addr == b then 1 else 0)
  unfolding add_owned count
  filed-add_owned b =
      let d = owned_data ident x.owned in
      let d' : OwnedData = record { is_container = is_container; cidrs = d.cidrs ++ (c ∷ []) } in
      omega (arith, filed-put_owned b ident d' x.owned, count-append b d.cidrs (c ∷ []))

module _ (x : Allocator) (a : ℕ) (v : IsBacked x) (y : Allocator) (u : y.universe ≡ x.universe)
    (n : (i : ℕ) → entries i x.owned ≤ 1 → entries i y.owned ≤ 1)
    (f : (b : ℕ) → filed b y.owned ≡ filed b x.owned + (if a == b then 1 else 0)) where
  at : (b : ℕ) (s : Space) → (a == b) ≡ true → is_free s b ≡ is_free s a
  at b s e = ap (is_free s) (sym (==→eq a b e))

  -- an address may be filed when it is taken from the space
  pub Taken-IsBacked : Taken x.space a y.space → IsBacked y
  Taken-IsBacked h = record {
    valid = h.valid;
    keyed = λ i. n i (v.keyed i);
    once = λ b. ground (arith, v.once b, v.filed_used b, f b, at b x.space, h.was_free);
    used_filed = λ b e. ground (
      arith,
      v.once b,
      v.filed_used b,
      v.used_filed b,
      f b,
      at b x.space,
      h.was_free,
      h.owned_after b,
    );
    filed_used = λ b e. ground (arith, v.once b, v.filed_used b, f b, h.free_after b);
    within = λ b e.
        rw u
          (v.within b (ground (arith, h.owned_after b, h.free_after b, at b x.space, h.was_free)));
  }

  -- an address outside the universe may be filed if it is not filed yet
  pub outside-IsBacked :
      y.space ≡ x.space → Address.contains x.universe a ≡ false → filed a x.owned ≡ 0 → IsBacked y
  outside-IsBacked s out unfiled =
      let filed_at : (b : ℕ) → (a == b) ≡ true → filed b x.owned ≡ 0 =
        λ b e. ap (λ (c : ℕ). filed c x.owned) (sym (==→eq a b e)) ∙ unfiled in
      let o : (b : ℕ) → owned y.space b ≡ owned x.space b = λ b. ap (λ (t : Space). owned t b) s in
      let r : (b : ℕ) → is_free y.space b ≡ is_free x.space b =
        λ b. ap (λ (t : Space). is_free t b) s in
      let out_at : (b : ℕ) → (a == b) ≡ true → Address.contains x.universe b ≡ false =
        λ b e. ap (Address.contains x.universe) (sym (==→eq a b e)) ∙ out in
      record {
        valid = rw s v.valid;
        keyed = λ i. n i (v.keyed i);
        once = λ b. ground (arith, v.once b, f b, filed_at b);
        used_filed = λ b e. ground (arith, v.used_filed b, f b, o b, filed_at b);
        filed_used = λ b e. ground (arith, v.filed_used b, f b, r b, v.within b, out_at b);
        within = λ b e. rw u (v.within b (ground (arith, o b, r b)));
      }

-- addOwned puts the address under the identifier
pub has_addr-add_owned :
    (x : Allocator) (ident : ℕ) (c : Cidr) (k : Bool)
    → has_addr c.addr (owned_data ident (add_owned ident c k x).owned).cidrs ≡ true
unfolding add_owned
has_addr-add_owned x ident c k =
    let cs = (owned_data ident x.owned).cidrs in
    let d : OwnedData = record { is_container = k; cidrs = cs ++ (c ∷ []) } in
    ap (λ (e : OwnedData). has_addr c.addr e.cidrs) (owned_data-put_owned ident d x.owned)
    ∙ has_addr-append c cs

pub free-filed :
    (x : Allocator) → IsBacked x → (a : ℕ) → is_free x.space a ≡ true → filed a x.owned ≡ 0
free-filed x v a h = ground (arith, v.once a, v.filed_used a)
