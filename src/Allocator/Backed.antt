-- ===== src/Allocator/Backed.antt =====
-- What the owned addresses and the space have to do with each other, and that giving addresses back
-- keeps it.
use weave.Base.{
  ℕ, sym, ◌+◌, ◌≤◌, ◌≡◌, refl, ◌∙◌, ap, true, false, not, ◌&&◌, ◌||◌, List, [], ◌∷◌, ◌++◌, ◌==◌,
  if◌then◌else◌, length, arith, Bool-cases, inl, inr, ◌⊎◌, ==→eq,
}
use weave.Address
use weave.Address.{Range, Cidr}
use weave.Space.{Space}
use weave.Space.Invariant.{owned, is_free, IsValid}
use weave.Space.Moves.{release_correct}
use weave.Allocator.{
  Allocator, Owned, OwnedData, Dead, owned_data, put_owned, drop_owned, has_addr, without_addr,
  give_back, give_back_all, remove_all_owned, remove_owned, delete, free,
}
use weave.Allocator.Owned.{
  count, filed, count-without_addr, count-single, filed-put_owned, filed-drop_owned, entries,
  entries-put_owned, entries-drop_owned,
}

-- an identifier has one entry at most, and no address is filed twice; an address in use is filed, and an address that is filed is not free; the
-- space lies in the universe
pub record IsBacked (alloc : Allocator) : Type 0 where
  pub valid : IsValid alloc.space
  pub keyed : (i : ℕ) → entries i alloc.owned ≤ 1
  pub once : (b : ℕ) → filed b alloc.owned ≤ 1
  pub used_filed : (b : ℕ) → owned alloc.space b ≡ true → filed b alloc.owned ≡ 1
  pub filed_used : (b : ℕ) → filed b alloc.owned ≡ 1 → is_free alloc.space b ≡ false
  pub within :
      (b : ℕ)
      → (owned alloc.space b || is_free alloc.space b) ≡ true
      → Address.contains alloc.universe b ≡ true

-- `t` is `s` with the addresses of the list given back that are in use
pub record GivenBack (s : Space) (cs : List Cidr) (t : Space) : Type 0 where
  pub valid : IsValid t
  pub owned_after : (b : ℕ) → owned t b ≡ (owned s b && (count b cs == 0))
  pub free_after : (b : ℕ) → is_free t b ≡ (is_free s b || (owned s b && not (count b cs == 0)))

give_back-GivenBack : (c : Cidr) (s : Space) → IsValid s → GivenBack s (c ∷ []) (give_back c.addr s)
unfolding give_back count
give_back-GivenBack c s v = elim (release_correct s c.addr v) [
  | inl (o, t, e, r) ↦ rw e (record {
    valid = r.valid;
    owned_after = λ b. r.owned_after b ∙ ground arith;
    free_after = λ b. r.free_after b ∙ ground (arith, owned_at b c.addr);
  })
  | inr (o, e) ↦ rw e (record {
    valid = v;
    owned_after = λ b. ground (arith, owned_at b c.addr);
    free_after = λ b. ground (arith, owned_at b c.addr);
  })
]
  where
    owned_at : (b a : ℕ) → (a == b) ≡ true → owned s b ≡ owned s a
    owned_at b a h = ap (owned s) (sym (==→eq a b h))

pub give_back_all-GivenBack :
    (cs : List Cidr) (s : Space) → IsValid s → GivenBack s cs (give_back_all cs s)
unfolding give_back_all count
give_back_all-GivenBack [] s v = record {
  valid = v;
  owned_after = λ b. ground arith;
  free_after = λ b. ground arith;
}
give_back_all-GivenBack (c ∷ cs) s v =
    let first = give_back-GivenBack c s v in
    let rest = give_back_all-GivenBack cs (give_back c.addr s) first.valid in
    record {
      valid = rest.valid;
      owned_after = λ b. rest.owned_after b ∙ ground (arith, first.owned_after b);
      free_after = λ b. rest.free_after b ∙ ground (arith, first.owned_after b, first.free_after b);
    }

-- filing the addresses of the list no longer, and giving them back
pub given_back-IsBacked :
    (cs : List Cidr) (x y : Allocator)
    → IsBacked x
    → y.universe ≡ x.universe
    → y.space ≡ give_back_all cs x.space
    → ((i : ℕ) → entries i x.owned ≤ 1 → entries i y.owned ≤ 1)
    → ((b : ℕ) → filed b y.owned + count b cs ≡ filed b x.owned)
    → IsBacked y
given_back-IsBacked cs x y v u e n f =
    let g : GivenBack x.space cs y.space = rw e (give_back_all-GivenBack cs x.space v.valid) in
    record {
      valid = g.valid;
      keyed = λ i. n i (v.keyed i);
      once = λ b. omega (arith, v.once b, f b);
      used_filed = λ b h. ground (arith, v.used_filed b, f b, g.owned_after b);
      filed_used =
          λ b h. ground (arith, v.once b, v.used_filed b, v.filed_used b, f b, g.free_after b);
      within = λ b h. rw u (v.within b (ground (arith, g.owned_after b, g.free_after b)));
    }

pub give_back_all-none : (cs : List Cidr) (s : Space) → length cs ≡ 0 → give_back_all cs s ≡ s
unfolding give_back_all
give_back_all-none [] s h = refl
give_back_all-none (c ∷ cs) s h = absurd (omega arith)

pub give_back_all-append :
    (cs ds : List Cidr) (s : Space)
    → give_back_all (cs ++ ds) s ≡ give_back_all ds (give_back_all cs s)
unfolding give_back_all
give_back_all-append [] ds s = refl
give_back_all-append (c ∷ cs) ds s = give_back_all-append cs ds (give_back c.addr s)

-- whom the addresses are filed under when they are in use is all that matters
pub forget_dead : (x : Allocator) (d : Dead) → IsBacked x → IsBacked (record x { dead = d })
forget_dead x d v = record {
  valid = v.valid;
  keyed = v.keyed;
  once = v.once;
  used_filed = v.used_filed;
  filed_used = v.filed_used;
  within = v.within;
}

entries-below :
    (t u : Owned) (i : ℕ) → entries i t ≤ entries i u → entries i u ≤ 1 → entries i t ≤ 1
entries-below t u i h k = omega arith

pub delete-IsBacked : (ident : ℕ) (x : Allocator) → IsBacked x → IsBacked (delete ident x).0
unfolding delete remove_all_owned
delete-IsBacked ident x v =
    let cs = (owned_data ident x.owned).cidrs in
    let n = λ (i : ℕ) (h : entries i x.owned ≤ 1).
      entries-below (drop_owned ident x.owned) x.owned i (entries-drop_owned i ident x.owned) h in
    let f = λ (b : ℕ). filed-drop_owned b ident x.owned in
    elim (Bool-cases (length cs == 0)) [
      | inl e ↦ rw e (
          given_back-IsBacked cs x (record x { owned = drop_owned ident x.owned }) v refl
            (sym (give_back_all-none cs x.space (==→eq (length cs) 0 e))) n f)
      | inr e ↦ rw e (
          given_back-IsBacked cs x
            (record x { owned = drop_owned ident x.owned; space = give_back_all cs x.space }) v refl
            refl n f)
    ]

-- removeOwned of an address that is there files it once less, and nothing else changes
pub remove_owned-cases :
    (ident a : ℕ) (x : Allocator)
    → ((has_addr a (owned_data ident x.owned).cidrs ≡ false)
        × (remove_owned ident a x ≡ (x, false)))
      ⊎ ((t : Owned) × (remove_owned ident a x ≡ (record x { owned = t }, true))
          × ((i : ℕ) → entries i x.owned ≤ 1 → entries i t ≤ 1)
          × ((b : ℕ) → filed b t + (if a == b then 1 else 0) ≡ filed b x.owned))
unfolding remove_owned
remove_owned-cases ident a x =
    let d = owned_data ident x.owned in
    let d' : OwnedData = record d { cidrs = without_addr a d.cidrs } in
    elim (Bool-cases (has_addr a d.cidrs)) [
      | inr h ↦ inl (h, rw h refl)
      | inl h ↦ elim (Bool-cases (length d.cidrs == 1)) [
        | inl l ↦ inr (
          drop_owned ident x.owned,
          rw (h, l) refl,
          λ i k. omega (arith, entries-drop_owned i ident x.owned),
          λ b. omega (
            arith,
            filed-drop_owned b ident x.owned,
            count-single a b d.cidrs h (==→eq (length d.cidrs) 1 l),
          ),
        )
        | inr l ↦ inr (
          put_owned ident d' x.owned,
          rw (h, l) refl,
          λ i k. entries-put_owned i ident d' x.owned k,
          λ b. omega (arith, filed-put_owned b ident d' x.owned, count-without_addr a b d.cidrs h),
        )
      ]
    ]

pub free-IsBacked : (ident a : ℕ) (x : Allocator) → IsBacked x → IsBacked (free ident a x).0
unfolding free give_back_all count
free-IsBacked ident a x v = elim (remove_owned-cases ident a x) [
  | inl (absent, e) ↦ rw e v
  | inr (t, e, n, f) ↦
      let c : Cidr = record { addr = a; prefix_len = 0 } in
      rw e (
        given_back-IsBacked (c ∷ []) x (record x { owned = t; space = give_back a x.space }) v refl
          refl n (λ b. omega (arith, f b)))
]
