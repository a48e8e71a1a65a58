-- ===== src/Nameserver/Keys.antt =====
-- Changes of entries that leave their names and addresses alone.
use weave.Base.{◌≡◌, refl, sym, ap, ◌∙◌, List, [], ◌∷◌, All}
use weave.Base.Texts.{to_lower}
use weave.Nameserver.{Entry, insensitive_less, less_below}
use weave.Nameserver.Order.{Above, IsStrict, IsLowered, IsValid}

-- all but the version and the tombstone agree
pub record SamePlace (x y : Entry) : Type 0 where
  pub container_id : x.container_id ≡ y.container_id
  pub origin : x.origin ≡ y.origin
  pub addr : x.addr ≡ y.addr
  pub hostname : x.hostname ≡ y.hostname
  pub l_hostname : x.l_hostname ≡ y.l_hostname

abbrev pub SamePlaces : List Entry → List Entry → Type 0
SamePlaces [] [] = Unit
SamePlaces [] (y ∷ ys) = ⊥
SamePlaces (x ∷ xs) [] = ⊥
SamePlaces (x ∷ xs) (y ∷ ys) = SamePlace x y × SamePlaces xs ys

pub SamePlace-refl : (x : Entry) → SamePlace x x
SamePlace-refl x = record {
  container_id = refl;
  origin = refl;
  addr = refl;
  hostname = refl;
  l_hostname = refl;
}

pub less-SamePlace :
    (x x' y y' : Entry)
    → SamePlace x x'
    → SamePlace y y'
    → insensitive_less x y ≡ insensitive_less x' y'
unfolding insensitive_less less_below
less-SamePlace x x' y y' p q =
    rw
      (
        p.container_id, p.origin, p.addr, p.l_hostname, q.container_id, q.origin, q.addr,
        q.l_hostname,
      )
      refl

Above-SamePlaces :
    (x y : Entry) (xs ys : List Entry) → SamePlace x y → SamePlaces xs ys → Above x xs → Above y ys
Above-SamePlaces x y [] [] p q a = tt
Above-SamePlaces x y [] (w ∷ ys) p q a = absurd q
Above-SamePlaces x y (z ∷ xs) [] p q a = absurd q
Above-SamePlaces x y (z ∷ xs) (w ∷ ys) p q a = sym (less-SamePlace x y z w p q.0) ∙ a

IsStrict-SamePlaces : (xs ys : List Entry) → SamePlaces xs ys → IsStrict xs → IsStrict ys
IsStrict-SamePlaces [] [] p s = tt
IsStrict-SamePlaces [] (y ∷ ys) p s = absurd p
IsStrict-SamePlaces (x ∷ xs) [] p s = absurd p
IsStrict-SamePlaces (x ∷ xs) (y ∷ ys) p s =
    (Above-SamePlaces x y xs ys p.0 p.1 s.0, IsStrict-SamePlaces xs ys p.1 s.1)

IsLowered-SamePlaces : (xs ys : List Entry) → SamePlaces xs ys → All IsLowered xs → All IsLowered ys
IsLowered-SamePlaces [] [] p l = tt
IsLowered-SamePlaces [] (y ∷ ys) p l = absurd p
IsLowered-SamePlaces (x ∷ xs) [] p l = absurd p
IsLowered-SamePlaces (x ∷ xs) (y ∷ ys) p l =
    (sym p.0.l_hostname ∙ l.0 ∙ ap to_lower p.0.hostname, IsLowered-SamePlaces xs ys p.1 l.1)

pub IsValid-SamePlaces : (xs ys : List Entry) → SamePlaces xs ys → IsValid xs → IsValid ys
IsValid-SamePlaces xs ys p v = record {
  strict = IsStrict-SamePlaces xs ys p v.strict;
  lowered = IsLowered-SamePlaces xs ys p v.lowered;
}
