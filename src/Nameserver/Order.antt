-- ===== src/Nameserver/Order.antt =====
-- The case insensitive order of entries.
use weave.Base.{All, ◌≡◌, ap, true, false, not, ◌&&◌, arith, List, [], ◌∷◌}
use weave.Base.Texts.{
  text_eq, text_eq_self, text_eq-eq, text_eq_comm, text_lt_irrefl, text_lt_trans, text_lt_connected,
  to_lower,
}
use weave.Nameserver.{Entry, equal, insensitive_less, less_below}

less_below_trans :
    (a b c : Entry) → less_below a b ≡ true → less_below b c ≡ true → less_below a c ≡ true
unfolding less_below
less_below_trans a b c h k = ground (
  arith,
  text_eq-eq a.container_id b.container_id,
  text_eq-eq b.container_id c.container_id,
  text_eq_self c.container_id,
  text_eq_self b.container_id,
  text_eq-eq a.container_id c.container_id,
  text_lt_trans a.container_id b.container_id c.container_id,
  text_lt_irrefl a.container_id c.container_id,
)

pub insensitive_less_trans :
    (a b c : Entry)
    → insensitive_less a b ≡ true
    → insensitive_less b c ≡ true
    → insensitive_less a c ≡ true
unfolding insensitive_less
insensitive_less_trans a b c h k = ground (
  arith,
  text_eq-eq a.l_hostname b.l_hostname,
  text_eq-eq b.l_hostname c.l_hostname,
  text_eq_self c.l_hostname,
  text_eq_self b.l_hostname,
  text_eq-eq a.l_hostname c.l_hostname,
  text_lt_trans a.l_hostname b.l_hostname c.l_hostname,
  text_lt_irrefl a.l_hostname c.l_hostname,
  text_eq_comm b.l_hostname a.l_hostname,
  text_lt_irrefl b.l_hostname a.l_hostname,
  less_below_trans a b c,
)

-- Two host names are the same exactly if their lower-case forms are.
abbrev pub Coherent : Entry → Entry → Type 0
Coherent a b = text_eq a.hostname b.hostname ≡ text_eq a.l_hostname b.l_hostname

pub insensitive_less_asym :
    (a b : Entry) → insensitive_less a b ≡ true → insensitive_less b a ≡ false
unfolding insensitive_less less_below
insensitive_less_asym a b h = ground (
  arith,
  text_eq_comm a.l_hostname b.l_hostname,
  text_eq_comm a.container_id b.container_id,
  text_lt_trans a.l_hostname b.l_hostname a.l_hostname,
  text_lt_irrefl a.l_hostname a.l_hostname,
  text_eq_self a.l_hostname,
  text_lt_trans a.container_id b.container_id a.container_id,
  text_lt_irrefl a.container_id a.container_id,
  text_eq_self a.container_id,
)

-- On coherent host names, entries are equal where neither is less.
pub equal-less :
    (a b : Entry)
    → Coherent a b
    → equal a b ≡ not (insensitive_less a b) && not (insensitive_less b a)
unfolding equal insensitive_less less_below
equal-less a b c = ground (
  arith,
  text_eq_comm a.l_hostname b.l_hostname,
  text_eq_comm a.container_id b.container_id,
  text_lt_connected a.l_hostname b.l_hostname,
  text_lt_connected a.container_id b.container_id,
)

-- an entry and one in its place are before the same entries
pub insensitive_less_same :
    (x e f : Entry)
    → insensitive_less x e ≡ false
    → insensitive_less e x ≡ false
    → insensitive_less x f ≡ insensitive_less e f
unfolding insensitive_less less_below
insensitive_less_same x e f h k = ground (
  arith,
  text_eq-eq x.l_hostname e.l_hostname,
  text_eq-eq x.container_id e.container_id,
  text_eq_comm x.l_hostname e.l_hostname,
  text_eq_comm x.container_id e.container_id,
  text_lt_connected x.l_hostname e.l_hostname,
  text_lt_connected x.container_id e.container_id,
)

pub insensitive_less_irrefl : (a : Entry) → insensitive_less a a ≡ false
unfolding insensitive_less less_below
insensitive_less_irrefl a = ground (arith, text_eq_self a.l_hostname, text_eq_self a.container_id)

pub equal_self : (a : Entry) → equal a a ≡ true
unfolding equal
equal_self a = ground (arith, text_eq_self a.hostname, text_eq_self a.container_id)

-- the lower-case host name is that of the host name
abbrev pub IsLowered : Entry → Type 0
IsLowered e = e.l_hostname ≡ to_lower e.hostname

-- ascending, no two entries in the same place
abbrev pub Above : Entry → List Entry → Type 0
Above x [] = Unit
Above x (y ∷ ys) = insensitive_less x y ≡ true

abbrev pub IsStrict : List Entry → Type 0
IsStrict [] = Unit
IsStrict (x ∷ xs) = Above x xs × IsStrict xs

pub record IsValid (es : List Entry) : Type 0 where
  pub strict : IsStrict es
  pub lowered : All IsLowered es

l_hostname_same :
    (x y : Entry)
    → IsLowered x
    → IsLowered y
    → text_eq y.hostname x.hostname ≡ true
    → text_eq x.l_hostname y.l_hostname ≡ true
l_hostname_same x y l m h =
    let same = ap to_lower (text_eq-eq y.hostname x.hostname h) in
    rw (l, m, same) (text_eq_self (to_lower x.hostname))

pub equal-less_lowered :
    (x y : Entry) → IsLowered x → IsLowered y → insensitive_less x y ≡ true → equal y x ≡ false
unfolding equal insensitive_less less_below
equal-less_lowered x y l m h = ground (
  arith,
  text_eq_comm x.l_hostname y.l_hostname,
  text_eq_comm x.container_id y.container_id,
  text_eq_self x.l_hostname,
  l_hostname_same x y l m,
)
