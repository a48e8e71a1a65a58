-- ===== src/Allocator/Requests.antt =====
-- allocate.Try: what it answers, and that it keeps the allocator backed.
use mathlib.Core.Path.{subst}
use weave.Base.{
  ℕ, sym, ◌>>=◌, ◌+◌, ◌≤◌, ◌<◌, ◌≡◌, refl, ◌∙◌, ap, Bool, true, false, List, [], ◌∷◌, ◌==◌,
  if◌then◌else◌, arith, Bool-cases, ==→eq, inl, inr, ok,
}
use weave.Address
use weave.Address.{Range, Cidr}
use weave.Space
use weave.Space.{Space}
use weave.Space.Invariant.{is_free, Taken}
use weave.Space.Moves.{allocate_correct}
use weave.Allocator.{
  Allocator, owned_data, add_owned, has_addr, owned_in_range, cidrs_in_range, drop_dead,
}
use weave.Allocator.Owned.{filed}
use weave.Allocator.Backed.{IsBacked, forget_dead}
use weave.Allocator.Try.{
  Allocate, Answer, allocated, out_of_bounds, cancelled, ask_donors, cidr_range, host_range,
  filed_under, resurrect, allocate_found, allocate_owned, try_allocate, make_cidr,
}
use weave.Allocator.Filing.{
  filed-add_owned, entries-add_owned, Taken-IsBacked, has_addr-add_owned, free-filed,
}

-- the container owns no address of the range
abbrev pub OwnsNone : Allocator → Allocate → Type 0
OwnsNone x g =
    (b : ℕ)
    → Address.contains (cidr_range g.r) b ≡ true
    → has_addr b (owned_data g.ident x.owned).cidrs ≡ false

-- how allocate.Try ends: the allocator afterwards, the answers, and whether it is done
pub data Allocated (string : ℕ → ℕ) (has_been_cancelled : Bool) (x : Allocator) (g : Allocate)
    : Allocator → List Answer → Bool → Type 0 where
  -- the caller has gone away
  gone : has_been_cancelled ≡ true → Allocated string has_been_cancelled x g x (cancelled ∷ []) true
  -- the container owns an address of the range already
  again :
      (a : ℕ)
      → has_been_cancelled ≡ false
      → Address.contains (cidr_range g.r) a ≡ true
      → has_addr a (owned_data g.ident x.owned).cidrs ≡ true
      → Allocated string has_been_cancelled x g (resurrect g.ident x) (allocated a ∷ []) true
  -- the range has nothing to do with the universe
  outside :
      has_been_cancelled ≡ false
      → OwnsNone x g
      → Address.overlaps x.universe (cidr_range g.r) ≡ false
      → Allocated string has_been_cancelled x g x (out_of_bounds ∷ []) true
  -- the least free host address of the range, which nobody had, is the container's now
  fresh :
      (a : ℕ) (y : Allocator)
      → has_been_cancelled ≡ false
      → OwnsNone x g
      → Address.overlaps x.universe (cidr_range g.r) ≡ true
      → (host_range g.r).start ≤ a
      → a < (host_range g.r).end
      → ((b : ℕ) → (host_range g.r).start ≤ b → b < a → is_free x.space b ≡ false)
      → filed a x.owned ≡ 0
      → Taken x.space a y.space
      → has_addr a (owned_data (filed_under string g.ident a) y.owned).cidrs ≡ true
      → ((b : ℕ) → filed b y.owned ≡ filed b x.owned + (if a == b then 1 else 0))
      → y.dead ≡ x.dead
      → Allocated string has_been_cancelled x g y (allocated a ∷ []) true
  -- no host address of the range is free: peers are asked, and the operation waits
  full :
      has_been_cancelled ≡ false
      → OwnsNone x g
      → Address.overlaps x.universe (cidr_range g.r) ≡ true
      → ((b : ℕ)
          → (host_range g.r).start ≤ b
          → b < (host_range g.r).end
          → is_free x.space b ≡ false)
      → Allocated string has_been_cancelled x g x (ask_donors (cidr_range g.r) ∷ []) false

cidrs_in_range-first :
    (r : Range) (cs : List Cidr) (c : Cidr) (ds : List Cidr)
    → cidrs_in_range r cs ≡ c ∷ ds
    → (Address.contains r c.addr ≡ true) × (has_addr c.addr cs ≡ true)
unfolding cidrs_in_range has_addr
cidrs_in_range-first r [] c ds h = cc
cidrs_in_range-first r (d ∷ cs) c ds h = elim (Bool-cases (Address.contains r d.addr)) [
  | inl e ↦
      let same : d ≡ c = cc in
      (
        ap (λ (z : Cidr). Address.contains r z.addr) (sym same) ∙ e,
        subst (λ (z : Cidr). has_addr z.addr (d ∷ cs) ≡ true) same (ground arith),
      )
  | inr e ↦ let (p, q) = cidrs_in_range-first r cs c ds (rw e at h) in (p, ground (arith, q))
]

cidrs_in_range-none :
    (r : Range) (cs : List Cidr)
    → cidrs_in_range r cs ≡ []
    → (b : ℕ) → Address.contains r b ≡ true
    → has_addr b cs ≡ false
unfolding cidrs_in_range has_addr
cidrs_in_range-none r [] h b k = refl
cidrs_in_range-none r (c ∷ cs) h b k = elim (Bool-cases (Address.contains r c.addr)) [
  | inl e ↦ absurd (let l : c ∷ cidrs_in_range r cs ≡ [] = (rw e at h) in cc)
  | inr e ↦
      let rest = cidrs_in_range-none r cs (rw e at h) b k in
      let other : (c.addr == b) ≡ false = elim (Bool-cases (c.addr == b)) [
        | inl same ↦ absurd (
            let l = ap (Address.contains r) (==→eq c.addr b same) in
            let m : false ≡ true = sym e ∙ l ∙ k in cc)
        | inr differs ↦ differs
      ] in
      rw (other, rest) refl
]

module _ (string : ℕ → ℕ) (x : Allocator) (v : IsBacked x) where
  allocate_space_correct :
      (g : Allocate)
      → OwnsNone x g
      → Address.overlaps x.universe (cidr_range g.r) ≡ true
      → (y : Allocator) × (answers : List Answer) × (done : Bool) × (Space.allocate x.space
              (host_range g.r)
            >>= allocate_found string g x
          ≡ ok (y, (answers, done)))
        × Allocated string false x g y answers done
        × IsBacked y
  unfolding allocate_found make_cidr add_owned
  allocate_space_correct g n o = elim (allocate_correct x.space (host_range g.r) v.valid) [
    | inl (e, no_free) ↦
        (x, ask_donors (cidr_range g.r) ∷ [], false, rw e refl, full refl n o no_free, v)
    | inr (a, t, e, lo, hi, h, least) ↦
        let x' : Allocator = record x { space = t } in
        let c = make_cidr g.r a in
        let ident = filed_under string g.ident a in
        let y = add_owned ident c g.is_container x' in
        let f = filed-add_owned x' ident c g.is_container in
        let unfiled = free-filed x v a h.was_free in
        (
          y,
          allocated a ∷ [],
          true,
          rw e refl,
          fresh a y refl n o lo hi least unfiled h (has_addr-add_owned x' ident c g.is_container) f
              refl,
          Taken-IsBacked x a v y refl (entries-add_owned x' ident c g.is_container) f h,
        )
  ]

  none_owned : (g : Allocate) → owned_in_range g.ident (cidr_range g.r) x ≡ [] → OwnsNone x g
  unfolding owned_in_range
  none_owned g e = cidrs_in_range-none (cidr_range g.r) (owned_data g.ident x.owned).cidrs e

  allocate_owned_correct :
      (g : Allocate) (cs : List Cidr)
      → owned_in_range g.ident (cidr_range g.r) x ≡ cs
      → (y : Allocator) × (answers : List Answer) × (done : Bool) × (allocate_owned string g x cs
          ≡ ok (y, (answers, done)))
        × Allocated string false x g y answers done
        × IsBacked y
  unfolding allocate_owned owned_in_range resurrect
  allocate_owned_correct g (c ∷ cs) e =
      let (inside, there) =
        cidrs_in_range-first (cidr_range g.r) (owned_data g.ident x.owned).cidrs c cs e in
      (
        resurrect g.ident x,
        allocated c.addr ∷ [],
        true,
        refl,
        again c.addr refl inside there,
        forget_dead x (drop_dead g.ident x.dead) v,
      )
  allocate_owned_correct g [] e = elim (Bool-cases (Address.overlaps x.universe (cidr_range g.r))) [
    | inl h ↦ rw h (allocate_space_correct g (none_owned g e) h)
    | inr h ↦ (x, out_of_bounds ∷ [], true, rw h refl, outside refl (none_owned g e) h, v)
  ]

  -- Allocate of a container on a backed allocator always ends without a panic, keeps it backed, and ends in one of five ways: it is cancelled, only if its caller has gone away; otherwise it answers an address of the range that the container owns already; or, only if it owns none of the range, the range does not overlap the universe, and this is the answer; or it takes the least free host address of the range, which nobody owned, out of the space's free ones, and files under the container this address and nothing else; or no host address of the range is free, and it waits after asking other peers. A container counts as dead no longer only where it owned an address already.
  pub try_allocate_correct :
      (has_been_cancelled : Bool) (g : Allocate)
      → (y : Allocator) × (answers : List Answer) × (done : Bool) × (try_allocate string
            has_been_cancelled g x
          ≡ ok (y, (answers, done)))
        × Allocated string has_been_cancelled x g y answers done
        × IsBacked y
  unfolding try_allocate
  try_allocate_correct true g = (x, cancelled ∷ [], true, refl, gone refl, v)
  try_allocate_correct false g = allocate_owned_correct g _ refl
