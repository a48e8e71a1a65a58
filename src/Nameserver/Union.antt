-- ===== src/Nameserver/Union.antt =====
-- Entries.merge against the plain union of two sorted lists.
use weave.Base.{
  ◌≡◌, refl, sym, ap, ◌∙◌, ◌==◌, ◌&&◌, ◌||◌, ltb, false, arith, List, [], ◌∷◌, All, Bool-cases, inl,
  inr, if◌then◌else◌,
}
use weave.Base.Texts.{text_eq-eq, text_lt_connected, text_eq_comm}
use weave.Nameserver.{Entry, insensitive_less, less_below, merge_entry, merge_from, Merged, passing}
use weave.Nameserver.Order.{
  Coherent, insensitive_less_asym, insensitive_less_same, equal-less, Above, IsStrict,
}

abbrev pub AreCoherent : List Entry → List Entry → Type 0
AreCoherent xs ys = All (λ (x : Entry). All (λ (y : Entry). Coherent x y) ys) xs

-- the newer of two entries in one place: by version, then by tombstone
unfoldable pub newer : Entry → Entry → Entry
newer x y =
    if ltb x.version y.version || (x.version == y.version && ltb x.tombstone y.tombstone)
    then record x { version = y.version; tombstone = y.tombstone }
    else x

pub merge_entry-newer : (x y : Entry) → (merge_entry x y).0 ≡ newer x y
unfolding merge_entry newer
merge_entry-newer x y = ground arith

unfoldable pub union : List Entry → List Entry → List Entry
unfolding newer
union [] ys = ys
union (x ∷ xs) [] = x ∷ xs
union (x ∷ xs) (y ∷ ys) =
    let left = x ∷ union xs (y ∷ ys) in
    let right = y ∷ union (x ∷ xs) ys in
    let both = newer x y ∷ union xs ys in
    if insensitive_less x y then left else if insensitive_less y x then right else both

pub less-newer : (x y f : Entry) → insensitive_less (newer x y) f ≡ insensitive_less x f
unfolding newer insensitive_less less_below
less-newer x y f = ground arith

pub less-newer_right : (x y f : Entry) → insensitive_less f (newer x y) ≡ insensitive_less f x
unfolding newer insensitive_less less_below
less-newer_right x y f = ground arith

-- what lies before all incoming entries is passed by
pub merge_from-passing :
    (x : Entry) (es incoming : List Entry)
    → Above x incoming
    → merge_from incoming (x ∷ es) ≡ passing x (merge_from incoming es)
unfolding merge_from
merge_from-passing x es [] a = refl
merge_from-passing x es (e ∷ incoming) a = rw a refl

pub Above-newer :
    (x e : Entry) (incoming : List Entry)
    → insensitive_less x e ≡ false
    → insensitive_less e x ≡ false
    → Above e incoming
    → Above (newer x e) incoming
Above-newer x e [] h k a = tt
Above-newer x e (f ∷ incoming) h k a = less-newer x e f ∙ insensitive_less_same x e f h k ∙ a

pub AreCoherent-tail :
    (xs : List Entry) (y : Entry) (ys : List Entry) → AreCoherent xs (y ∷ ys) → AreCoherent xs ys
AreCoherent-tail [] y ys c = tt
AreCoherent-tail (x ∷ xs) y ys c = (c.0.1, AreCoherent-tail xs y ys c.1)

pub merge_from-union :
    (incoming es : List Entry)
    → IsStrict incoming
    → AreCoherent es incoming
    → (merge_from incoming es).0 ≡ union es incoming
unfolding merge_from union
merge_from-union [] [] s c = refl
merge_from-union [] (x ∷ es) s c = refl
merge_from-union (e ∷ incoming) [] s c =
    ap (λ (r : Merged). r.0) (merge_from-passing e [] incoming s.0)
    ∙ ap (◌∷◌ e) (merge_from-union incoming [] s.1 tt)
merge_from-union (e ∷ incoming) (x ∷ es) s c = elim (Bool-cases (insensitive_less x e)) [
  | inl h ↦ rw h (ap (◌∷◌ x) (merge_from-union (e ∷ incoming) es s c.1))
  | inr h ↦ elim (Bool-cases (insensitive_less e x)) [
    | inl k ↦
        rw (h, k, equal-less x e c.0.0, h, k)
          (ap (λ (r : Merged). r.0) (merge_from-passing e (x ∷ es) incoming s.0)
            ∙ ap (◌∷◌ e)
                (merge_from-union incoming (x ∷ es) s.1 (AreCoherent-tail (x ∷ es) e incoming c)))
    | inr k ↦
        rw (h, k, equal-less x e c.0.0, h, k, merge_entry-newer x e)
          (ap (λ (r : Merged). r.0)
              (merge_from-passing (newer x e) es incoming (Above-newer x e incoming h k s.0))
            ∙ ap (◌∷◌ (newer x e))
                (merge_from-union incoming es s.1 (AreCoherent-tail es e incoming c.1)))
  ]
]

pub union-nil : (ys : List Entry) → union ys [] ≡ ys
unfolding union
union-nil [] = refl
union-nil (y ∷ ys) = refl

newer_comm :
    (x y : Entry)
    → Coherent x y
    → insensitive_less x y ≡ false
    → insensitive_less y x ≡ false
    → newer x y ≡ newer y x
unfolding newer insensitive_less less_below
newer_comm x y c h k = ground (
  arith,
  text_eq-eq x.l_hostname y.l_hostname,
  text_eq-eq x.hostname y.hostname,
  text_eq-eq x.container_id y.container_id,
  text_eq_comm x.l_hostname y.l_hostname,
  text_eq_comm x.container_id y.container_id,
  text_lt_connected x.l_hostname y.l_hostname,
  text_lt_connected x.container_id y.container_id,
)

pub union_comm : (xs ys : List Entry) → AreCoherent xs ys → union xs ys ≡ union ys xs
unfolding union
union_comm [] ys c = sym (union-nil ys)
union_comm (x ∷ xs) [] c = refl
union_comm (x ∷ xs) (y ∷ ys) c = elim (Bool-cases (insensitive_less x y)) [
  | inl h ↦ rw (h, insensitive_less_asym x y h) (ap (◌∷◌ x) (union_comm xs (y ∷ ys) c.1))
  | inr h ↦ elim (Bool-cases (insensitive_less y x)) [
    | inl k ↦ rw (h, k) (ap (◌∷◌ y) (union_comm (x ∷ xs) ys (AreCoherent-tail (x ∷ xs) y ys c)))
    | inr k ↦
        rw (h, k, newer_comm x y c.0.0 h k)
          (ap (◌∷◌ (newer y x)) (union_comm xs ys (AreCoherent-tail xs y ys c.1)))
  ]
]
