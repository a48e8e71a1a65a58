-- ===== src/Nameserver/Merging.antt =====
-- Entries.merge: validity, news, and merging again.
use weave.Base.{◌≡◌, refl, ap, ◌∙◌, true, arith, List, [], ◌∷◌, All, Bool-cases, inl, inr, ok}
use weave.Nameserver.{Entry, insensitive_less, merge_entry, merge_from, merge, check}
use weave.Nameserver.Order.{
  insensitive_less_asym, equal-less_lowered, Above, IsStrict, IsLowered, IsValid,
}
use weave.Nameserver.Union.{
  AreCoherent, newer, union, less-newer, less-newer_right, Above-newer, merge_from-union,
}

Above-union : (z : Entry) (xs ys : List Entry) → Above z xs → Above z ys → Above z (union xs ys)
unfolding union
Above-union z [] ys a b = b
Above-union z (x ∷ xs) [] a b = a
Above-union z (x ∷ xs) (y ∷ ys) a b = elim (Bool-cases (insensitive_less x y)) [
  | inl h ↦ rw h a
  | inr h ↦ elim (Bool-cases (insensitive_less y x)) [
    | inl k ↦ rw (h, k) b
    | inr k ↦ rw (h, k, less-newer_right x y z) a
  ]
]

Above-self : (x y : Entry) (xs : List Entry) → Above x xs → Above (newer x y) xs
Above-self x y [] a = tt
Above-self x y (z ∷ xs) a = less-newer x y z ∙ a

IsStrict-union : (xs ys : List Entry) → IsStrict xs → IsStrict ys → IsStrict (union xs ys)
unfolding union
IsStrict-union [] ys s t = t
IsStrict-union (x ∷ xs) [] s t = s
IsStrict-union (x ∷ xs) (y ∷ ys) s t = elim (Bool-cases (insensitive_less x y)) [
  | inl h ↦ rw h (Above-union x xs (y ∷ ys) s.0 h, IsStrict-union xs (y ∷ ys) s.1 t)
  | inr h ↦ elim (Bool-cases (insensitive_less y x)) [
    | inl k ↦ rw (h, k) (Above-union y (x ∷ xs) ys k t.0, IsStrict-union (x ∷ xs) ys s t.1)
    | inr k ↦
        rw (h, k)
          (
            Above-union (newer x y) xs ys (Above-self x y xs s.0) (Above-newer x y ys h k t.0),
            IsStrict-union xs ys s.1 t.1,
          )
  ]
]

IsLowered-newer : (x y : Entry) → IsLowered x → IsLowered (newer x y)
unfolding newer merge_entry
IsLowered-newer x y l = ground arith

IsLowered-union :
    (xs ys : List Entry) → All IsLowered xs → All IsLowered ys → All IsLowered (union xs ys)
unfolding union
IsLowered-union [] ys s t = t
IsLowered-union (x ∷ xs) [] s t = s
IsLowered-union (x ∷ xs) (y ∷ ys) s t = elim (Bool-cases (insensitive_less x y)) [
  | inl h ↦ rw h (s.0, IsLowered-union xs (y ∷ ys) s.1 t)
  | inr h ↦ elim (Bool-cases (insensitive_less y x)) [
    | inl k ↦ rw (h, k) (t.0, IsLowered-union (x ∷ xs) ys s t.1)
    | inr k ↦ rw (h, k) (IsLowered-newer x y s.0, IsLowered-union xs ys s.1 t.1)
  ]
]

pub IsValid-union : (xs ys : List Entry) → IsValid xs → IsValid ys → IsValid (union xs ys)
IsValid-union xs ys v w = record {
  strict = IsStrict-union xs ys v.strict w.strict;
  lowered = IsLowered-union xs ys v.lowered w.lowered;
}

check_strict : (es : List Entry) → IsStrict es → All IsLowered es → check es ≡ true
unfolding check
check_strict [] s l = refl
check_strict (x ∷ []) s l = refl
check_strict (x ∷ y ∷ es) s l =
    rw (insensitive_less_asym x y s.0, equal-less_lowered x y l.0 l.1.0 s.0)
      (check_strict (y ∷ es) s.1 l.1)

pub check-IsValid : (es : List Entry) → IsValid es → check es ≡ true
check-IsValid es v = check_strict es v.strict v.lowered

pub merge-ok :
    {E : Type 0} (es incoming : List Entry)
    → IsValid es
    → IsValid incoming
    → AreCoherent es incoming
    → merge {E = E} es incoming ≡ ok (union es incoming, (merge_from incoming es).1)
unfolding merge
merge-ok es incoming v w c =
    let whole = merge_from-union incoming es w.strict c in
    let fine = check-IsValid (union es incoming) (IsValid-union es incoming v w) in
    rw (check-IsValid es v, check-IsValid incoming w, whole, fine)
      (ap (λ (l : List Entry). ok (l, (merge_from incoming es).1)) whole)
