-- ===== src/Nameserver/Lookups.antt =====
-- Entries.lookup: the two searches find the entries of a host name.
use weave.Base.{
  ◌≡◌, refl, sym, ap, Bool, true, false, not, arith, List, [], ◌∷◌, Bool-cases, inl, inr,
  if◌then◌else◌, ok,
}
use weave.Base.Texts.{
  Text, text_eq, text_lt, to_lower, text_eq-eq, text_eq_comm, text_lt_irrefl, text_lt_trans,
  text_lt_connected,
}
use weave.Nameserver.{Entry, insensitive_less, filter, starts_with, lookup}
use weave.Nameserver.Order.{Above, IsStrict, IsValid}
use weave.Nameserver.Merging.{check-IsValid}
use weave.Nameserver.Places.{IsUpward, below, above, take-search_entries, drop-search_entries}

module _ (t : Text) where
  abbrev reaches : Entry → Bool
  reaches x = not (text_lt x.l_hostname t)

  abbrev passes : Entry → Bool
  passes x = text_lt t x.l_hostname

  abbrev has_name : Entry → Bool
  has_name x = text_eq x.l_hostname t

  reaches-IsUpward : IsUpward reaches
  unfolding insensitive_less
  reaches-IsUpward x y h l =
      ground
        (arith, text_eq-eq x.l_hostname y.l_hostname, text_lt_trans x.l_hostname y.l_hostname t)

  passes-IsUpward : IsUpward passes
  unfolding insensitive_less
  passes-IsUpward x y h l =
      ground
        (arith, text_eq-eq x.l_hostname y.l_hostname, text_lt_trans t x.l_hostname y.l_hostname)

  name_of-reaches : (x : Entry) → reaches x ≡ false → has_name x ≡ false
  name_of-reaches x h = ground (arith, text_lt_irrefl x.l_hostname t)

  name_of-passes : (x : Entry) → passes x ≡ true → has_name x ≡ false
  name_of-passes x h = ground (arith, text_lt_irrefl t x.l_hostname, text_eq_comm t x.l_hostname)

  name_between : (x : Entry) → reaches x ≡ true → passes x ≡ false → has_name x ≡ true
  name_between x h k = ground (arith, text_lt_connected x.l_hostname t)

  name_past : (x : Entry) → reaches x ≡ true → has_name x ≡ false → passes x ≡ true
  name_past x h k = ground (arith, text_lt_connected x.l_hostname t)

  filter-past :
      (x : Entry) (es : List Entry)
      → passes x ≡ true
      → Above x es
      → IsStrict es
      → filter has_name (x ∷ es) ≡ []
  unfolding filter
  filter-past x [] h a s = rw (name_of-passes x h) refl
  filter-past x (y ∷ es) h a s =
      rw (name_of-passes x h) (filter-past y es (passes-IsUpward x y h a) s.0 s.1)

  filter-below :
      (x : Entry) (es : List Entry)
      → reaches x ≡ true
      → Above x es
      → IsStrict es
      → below passes (x ∷ es) ≡ filter has_name (x ∷ es)
  unfolding below filter
  filter-below x [] h a s = elim (Bool-cases (passes x)) [
    | inl y ↦ rw (y, filter-past x [] y tt s) refl
    | inr n ↦ rw (n, name_between x h n) refl
  ]
  filter-below x (z ∷ es) h a s = elim (Bool-cases (passes x)) [
    | inl y ↦ rw y (sym (filter-past x (z ∷ es) y a s))
    | inr n ↦
        rw (n, name_between x h n)
          (ap (◌∷◌ x) (filter-below z es (reaches-IsUpward x z h a) s.0 s.1))
  ]

  -- the first entry that reaches the name decides
  cut-filter :
      (x : Entry) (es : List Entry)
      → reaches x ≡ true
      → Above x es
      → IsStrict es
      → (if starts_with t (x ∷ es) then below passes (x ∷ es) else []) ≡ filter has_name (x ∷ es)
  unfolding starts_with
  cut-filter x es h a s = elim (Bool-cases (has_name x)) [
    | inl y ↦ rw y (filter-below x es h a s)
    | inr n ↦ rw n (sym (filter-past x es (name_past x h n) a s))
  ]

  cut_above :
      (es : List Entry)
      → IsStrict es
      → (if starts_with t (above reaches es) then below passes (above reaches es) else [])
        ≡ filter has_name es
  unfolding above starts_with filter
  cut_above [] s = refl
  cut_above (x ∷ es) s = elim (Bool-cases (reaches x)) [
    | inl y ↦ rw y (cut-filter x es y s.0 s.1)
    | inr n ↦ rw (n, name_of-reaches x n) (cut_above es s.1)
  ]

IsStrict-above : (f : Entry → Bool) (es : List Entry) → IsStrict es → IsStrict (above f es)
unfolding above
IsStrict-above f [] s = tt
IsStrict-above f (x ∷ es) s = elim (Bool-cases (f x)) [
  | inl y ↦ rw y s
  | inr n ↦ rw n (IsStrict-above f es s.1)
]

-- lookup of valid entries does not panic, and returns the entries whose host name is the same but for
-- case, in order.
pub lookup_correct :
    {E : Type 0} (es : List Entry) (hostname : Text)
    → IsValid es
    → lookup {E = E} es hostname
      ≡ ok (filter (λ (x : Entry). text_eq x.l_hostname (to_lower hostname)) es)
unfolding lookup
lookup_correct es hostname v =
    let t = to_lower hostname in
    let rest = above (reaches t) es in
    rw
      (
        check-IsValid es v,
        drop-search_entries (reaches t) (reaches-IsUpward t) es v.strict,
        take-search_entries (passes t) (passes-IsUpward t) rest
            (IsStrict-above (reaches t) es v.strict),
      )
      (ap ok (cut_above t es v.strict))
