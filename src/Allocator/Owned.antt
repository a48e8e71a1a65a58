-- ===== src/Allocator/Owned.antt =====
-- The map of owned addresses: how often an address is filed, and under whom.
use weave.Base.{
  ℕ, ◌+◌, ◌≤◌, ◌≡◌, refl, true, false, ◌&&◌, List, [], ◌∷◌, ◌++◌, ◌==◌, leb, if◌then◌else◌, length,
  arith, Bool-cases, inl, inr, none, some, ==_self,
}
use weave.Address.{Cidr}
use weave.Allocator.{
  Owned, OwnedData, owned_data, put_owned, drop_owned, has_addr, without_addr, holder,
}

-- how often the address is in the list
unfoldable pub count : ℕ → List Cidr → ℕ
count b [] = 0
count b (c ∷ cs) = (if c.addr == b then 1 else 0) + count b cs

-- how often the address is filed
unfoldable pub filed : ℕ → Owned → ℕ
unfolding count
filed b [] = 0
filed b ((i, d) ∷ t) = count b d.cidrs + filed b t

pub count-append : (b : ℕ) (cs ds : List Cidr) → count b (cs ++ ds) ≡ count b cs + count b ds
unfolding count
count-append b [] ds = omega arith
count-append b (c ∷ cs) ds = omega (arith, count-append b cs ds)

pub count-without_addr :
    (a b : ℕ) (cs : List Cidr)
    → has_addr a cs ≡ true
    → count b (without_addr a cs) + (if a == b then 1 else 0) ≡ count b cs
unfolding count without_addr has_addr
count-without_addr a b [] h = cc
count-without_addr a b (c ∷ cs) h = ground (arith, count-without_addr a b cs)

pub has_addr-count : (a : ℕ) (cs : List Cidr) → has_addr a cs ≡ leb 1 (count a cs)
unfolding count has_addr
has_addr-count a [] = refl
has_addr-count a (c ∷ cs) = ground (arith, has_addr-count a cs)

pub length-count : (b : ℕ) (cs : List Cidr) → length cs ≡ 0 → count b cs ≡ 0
unfolding count
length-count b [] h = refl
length-count b (c ∷ cs) h = absurd (omega arith)

pub count-single :
    (a b : ℕ) (cs : List Cidr)
    → has_addr a cs ≡ true
    → length cs ≡ 1
    → count b cs ≡ (if a == b then 1 else 0)
unfolding count has_addr
count-single a b [] h l = cc
count-single a b (c ∷ cs) h l =
    ground (arith, length-count b cs, length-count a cs, has_addr-count a cs)

pub filed-put_owned :
    (b ident : ℕ) (d : OwnedData) (t : Owned)
    → filed b (put_owned ident d t) + count b (owned_data ident t).cidrs
      ≡ filed b t + count b d.cidrs
unfolding filed put_owned owned_data count
filed-put_owned b ident d [] = omega arith
filed-put_owned b ident d ((i, e) ∷ t) = ground (arith, filed-put_owned b ident d t)

pub filed-drop_owned :
    (b ident : ℕ) (t : Owned)
    → filed b (drop_owned ident t) + count b (owned_data ident t).cidrs ≡ filed b t
unfolding filed drop_owned owned_data count
filed-drop_owned b ident [] = omega arith
filed-drop_owned b ident ((i, e) ∷ t) = ground (arith, filed-drop_owned b ident t)

-- findOwner finds nobody only if the address is not filed
pub holder-none : (a : ℕ) (t : Owned) → holder a t ≡ none → filed a t ≡ 0
unfolding filed holder
holder-none a [] h = refl
holder-none a ((i, d) ∷ t) h = ground (arith, holder-none a t, has_addr-count a d.cidrs)

pub owned_data-put_owned :
    (ident : ℕ) (d : OwnedData) (t : Owned) → owned_data ident (put_owned ident d t) ≡ d
unfolding owned_data put_owned
owned_data-put_owned ident d [] = rw (==_self ident) refl
owned_data-put_owned ident d ((i, e) ∷ t) = elim (Bool-cases (i == ident)) [
  | inl h ↦ rw (h, h) refl
  | inr h ↦ rw (h, h) (owned_data-put_owned ident d t)
]

pub has_addr-append : (c : Cidr) (cs : List Cidr) → has_addr c.addr (cs ++ (c ∷ [])) ≡ true
unfolding has_addr
has_addr-append c [] = ground arith
has_addr-append c (d ∷ cs) = ground (arith, has_addr-append c cs)

-- how many entries an identifier has
unfoldable pub entries : ℕ → Owned → ℕ
entries i [] = 0
entries i ((j, d) ∷ t) = (if j == i then 1 else 0) + entries i t

-- put_owned makes an entry only where there is none
entries-new :
    (i ident : ℕ) (d : OwnedData) (t : Owned)
    → entries i (put_owned ident d t)
      ≡ entries i t + (if ident == i && entries i t == 0 then 1 else 0)
unfolding entries put_owned
entries-new i ident d [] = ground arith
entries-new i ident d ((j, e) ∷ t) = ground (arith, entries-new i ident d t)

pub entries-put_owned :
    (i ident : ℕ) (d : OwnedData) (t : Owned)
    → entries i t ≤ 1
    → entries i (put_owned ident d t) ≤ 1
entries-put_owned i ident d t h = ground (arith, entries-new i ident d t)

pub entries-drop_owned : (i ident : ℕ) (t : Owned) → entries i (drop_owned ident t) ≤ entries i t
unfolding entries drop_owned
entries-drop_owned i ident [] = omega arith
entries-drop_owned i ident ((j, e) ∷ t) = ground (arith, entries-drop_owned i ident t)

holder-entries : (a i : ℕ) (t : Owned) → holder a t ≡ some i → 1 ≤ entries i t
unfolding holder entries
holder-entries a i [] h = cc
holder-entries a i ((j, d) ∷ t) h = elim (Bool-cases (has_addr a d.cidrs)) [
  | inl e ↦ let k : some j ≡ some i = (rw e at h) in let same : j ≡ i = cc in ground arith
  | inr e ↦ ground (arith, holder-entries a i t (rw e at h))
]

-- whom findOwner names has the address
pub holder-has_addr :
    (a i : ℕ) (t : Owned)
    → entries i t ≤ 1
    → holder a t ≡ some i
    → has_addr a (owned_data i t).cidrs ≡ true
unfolding holder owned_data entries
holder-has_addr a i [] u h = cc
holder-has_addr a i ((j, d) ∷ t) u h = elim (Bool-cases (has_addr a d.cidrs)) [
  | inl e ↦
      let k : some j ≡ some i = (rw e at h) in
      let same : j ≡ i = cc in let test : (j == i) ≡ true = ground arith in rw test e
  | inr e ↦
      let h' : holder a t ≡ some i = (rw e at h) in
      let some_entry = holder-entries a i t h' in
      let test : (j == i) ≡ false = ground arith in
      rw test (holder-has_addr a i t (ground arith) h')
]
