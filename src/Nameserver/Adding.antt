-- ===== src/Nameserver/Adding.antt =====
-- Entries.add.
use weave.Base.{
  ℕ, ◌≡◌, refl, ap, ◌∙◌, Bool, true, not, arith, List, [], ◌∷◌, ◌++◌, All, Bool-cases, inl, inr,
  if◌then◌else◌, ok, some, take, drop,
}
use weave.Base.Texts.{Text}
use weave.Nameserver.{
  Entry, equal, insensitive_less, less_below, place_of, add_here, add, new_entry, revive,
  find_equal, equal_first,
}
use weave.Nameserver.Order.{
  Coherent, Above, IsStrict, IsLowered, IsValid, equal-less, equal_self, insensitive_less_irrefl,
  insensitive_less_trans,
}
use weave.Nameserver.Merging.{check-IsValid}
use weave.Nameserver.Places.{IsUpward, below, above, take-search_entries, drop-search_entries}

-- the entries with a new one in its place, or with the one that is there brought back
unfoldable pub with_entry : Entry → List Entry → List Entry
unfolding revive
with_entry e [] = e ∷ []
with_entry e (x ∷ es) =
    if insensitive_less x e
    then x ∷ with_entry e es
    else if insensitive_less e x
    then e ∷ (x ∷ es)
    else revive x ∷ es

abbrev pub AllCoherent : List Entry → Entry → Type 0
AllCoherent es e = All (λ (x : Entry). Coherent x e) es

module _ (e : Entry) where
  abbrev pub from : Entry → Bool
  from x = not (insensitive_less x e)

  from-IsUpward : IsUpward from
  from-IsUpward x y h l = elim (Bool-cases (insensitive_less y e)) [
    | inl k ↦ cc (insensitive_less_trans x y e l k, h)
    | inr k ↦ rw k refl
  ]

  less-revive : (x f : Entry) → insensitive_less (revive x) f ≡ insensitive_less x f
  unfolding revive insensitive_less less_below
  less-revive x f = ground arith

  less-revive_right : (x f : Entry) → insensitive_less f (revive x) ≡ insensitive_less f x
  unfolding revive insensitive_less less_below
  less-revive_right x f = ground arith

  equal-revive : (x : Entry) → equal (revive x) e ≡ equal x e
  unfolding revive equal
  equal-revive x = ground arith

  with_entry-add :
      (es : List Entry)
      → AllCoherent es e
      → below from es ++ (add_here e (above from es)).0 ≡ with_entry e es
  unfolding below above add_here with_entry
  with_entry-add [] c = refl
  with_entry-add (x ∷ es) c = elim (Bool-cases (insensitive_less x e)) [
    | inl h ↦ rw h (ap (◌∷◌ x) (with_entry-add es c.1))
    | inr h ↦ elim (Bool-cases (insensitive_less e x)) [
      | inl k ↦ rw (h, equal-less x e c.0, h, k) refl
      | inr k ↦ rw (h, equal-less x e c.0, h, k) refl
    ]
  ]

  found_entry :
      (es : List Entry)
      → AllCoherent es e
      → equal_first e (above from (with_entry e es)) ≡ some (add_here e (above from es)).1
  unfolding above add_here with_entry equal_first
  found_entry [] c = rw (insensitive_less_irrefl e, equal_self e) refl
  found_entry (x ∷ es) c = elim (Bool-cases (insensitive_less x e)) [
    | inl h ↦ rw (h, h) (found_entry es c.1)
    | inr h ↦ elim (Bool-cases (insensitive_less e x)) [
      | inl k ↦ rw (h, equal-less x e c.0, h, k, insensitive_less_irrefl e, equal_self e) refl
      | inr k ↦
          rw
            (
              h,
              k,
              equal-less x e c.0,
              h,
              k,
              less-revive x e,
              h,
              equal-revive x,
              equal-less x e c.0,
              h,
              k,
            )
            refl
    ]
  ]

  Above-with_entry :
      (z : Entry) (es : List Entry)
      → insensitive_less z e ≡ true
      → Above z es
      → Above z (with_entry e es)
  unfolding with_entry
  Above-with_entry z [] l a = l
  Above-with_entry z (x ∷ es) l a = elim (Bool-cases (insensitive_less x e)) [
    | inl h ↦ rw h a
    | inr h ↦ elim (Bool-cases (insensitive_less e x)) [
      | inl k ↦ rw (h, k) l
      | inr k ↦ rw (h, k, less-revive_right x z) a
    ]
  ]

  Above-revive : (x : Entry) (es : List Entry) → Above x es → Above (revive x) es
  Above-revive x [] a = tt
  Above-revive x (y ∷ es) a = less-revive x y ∙ a

  IsStrict-with_entry : (es : List Entry) → IsStrict es → IsStrict (with_entry e es)
  unfolding with_entry
  IsStrict-with_entry [] s = (tt, tt)
  IsStrict-with_entry (x ∷ es) s = elim (Bool-cases (insensitive_less x e)) [
    | inl h ↦ rw h (Above-with_entry x es h s.0, IsStrict-with_entry es s.1)
    | inr h ↦ elim (Bool-cases (insensitive_less e x)) [
      | inl k ↦ rw (h, k) (k, s)
      | inr k ↦ rw (h, k) (Above-revive x es s.0, s.1)
    ]
  ]

  IsLowered-revive : (x : Entry) → IsLowered x → IsLowered (revive x)
  unfolding revive
  IsLowered-revive x l = ground arith

  IsLowered-with_entry :
      (es : List Entry) → IsLowered e → All IsLowered es → All IsLowered (with_entry e es)
  unfolding with_entry
  IsLowered-with_entry [] l s = (l, tt)
  IsLowered-with_entry (x ∷ es) l s = elim (Bool-cases (insensitive_less x e)) [
    | inl h ↦ rw h (s.0, IsLowered-with_entry es l s.1)
    | inr h ↦ elim (Bool-cases (insensitive_less e x)) [
      | inl k ↦ rw (h, k) (l, s)
      | inr k ↦ rw (h, k) (IsLowered-revive x s.0, s.1)
    ]
  ]

  tombstone-added : (es : List Entry) → e.tombstone ≡ 0 → (add_here e es).1.tombstone ≡ 0
  unfolding add_here revive
  tombstone-added [] h = h
  tombstone-added (x ∷ es) h = ground arith

  take-place_of : (es : List Entry) → IsStrict es → take (place_of e es) es ≡ below from es
  unfolding place_of
  take-place_of es s = take-search_entries from from-IsUpward es s

  drop-place_of : (es : List Entry) → IsStrict es → drop (place_of e es) es ≡ above from es
  unfolding place_of
  drop-place_of es s = drop-search_entries from from-IsUpward es s

  pub find_equal-above :
      (es : List Entry) → IsStrict es → find_equal es e ≡ equal_first e (above from es)
  unfolding find_equal
  find_equal-above es s = ap (equal_first e) (drop-place_of es s)

  pub find_equal-with_entry :
      (es : List Entry)
      → IsStrict es
      → AllCoherent es e
      → find_equal (with_entry e es) e ≡ some (add_here e (above from es)).1
  find_equal-with_entry es s c =
      find_equal-above (with_entry e es) (IsStrict-with_entry es s) ∙ found_entry es c

IsLowered-new : (h c : Text) (o a : ℕ) → IsLowered (new_entry h c o a)
unfolding new_entry
IsLowered-new h c o a = refl

tombstone_new : (h c : Text) (o a : ℕ) → (new_entry h c o a).tombstone ≡ 0
unfolding new_entry
tombstone_new h c o a = refl

-- add to valid entries, with whose host names the new one is coherent, does not panic. It puts the new
-- entry in its place, or brings back the one that is there, and the result is valid. The entry it
-- returns is the one found there afterwards, and is not deleted.
pub add_correct :
    {E : Type 0} (es : List Entry) (hostname containerid : Text) (origin addr : ℕ)
    → IsValid es
    → AllCoherent es (new_entry hostname containerid origin addr)
    → (at : Entry) × (add {E = E} es hostname containerid origin addr
        ≡ ok (with_entry (new_entry hostname containerid origin addr) es, at))
      × IsValid (with_entry (new_entry hostname containerid origin addr) es)
      × (find_equal
            (with_entry (new_entry hostname containerid origin addr) es)
            (new_entry hostname containerid origin addr)
          ≡ some at)
      × (at.tombstone ≡ 0)
unfolding add
add_correct es hostname containerid origin addr v c =
    let e = new_entry hostname containerid origin addr in
    let valid : IsValid (with_entry e es) = record {
      strict = IsStrict-with_entry e es v.strict;
      lowered =
          IsLowered-with_entry e es (IsLowered-new hostname containerid origin addr) v.lowered;
    } in
    let placed = with_entry-add e es c in
    (
      (add_here e (above (from e) es)).1,
      rw
          (
            check-IsValid es v,
            take-place_of e es v.strict,
            drop-place_of e es v.strict,
            placed,
            check-IsValid (with_entry e es) valid,
          )
          refl,
      valid,
      find_equal-with_entry e es v.strict c,
      tombstone-added e (above (from e) es) (tombstone_new hostname containerid origin addr),
    )
