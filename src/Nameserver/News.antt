-- ===== src/Nameserver/News.antt =====
-- What merge reports as news, and merging the same entries again.
use weave.Base.{
  ◌≤◌, ◌≡◌, ◌↔◌, refl, sym, ap, ◌∙◌, Bool, true, false, arith, List, [], ◌∷◌, Bool-cases, inl, inr,
  ok, length, ◌>>=◌,
}
use weave.Nameserver.{
  Entry, insensitive_less, merge_entry, merge_from, merge, Merged, passing, telling,
}
use weave.Nameserver.Order.{Coherent, insensitive_less_irrefl, equal-less, Above, IsStrict, IsValid}
use weave.Nameserver.Union.{
  AreCoherent, AreCoherent-tail, newer, union, less-newer, less-newer_right, Above-newer,
  merge_entry-newer, merge_from-passing, union_comm, union-nil,
}
use weave.Base.Texts.{text_eq_self}
use weave.Nameserver.Merging.{check-IsValid, merge-ok, IsValid-union}

newer-same : (x e : Entry) → (merge_entry x e).1 ≡ false → newer x e ≡ x
unfolding newer merge_entry
newer-same x e h = ground arith

newer-changed : (x e : Entry) → (merge_entry x e).1 ≡ true → newer x e ≡ x → false ≡ true
unfolding newer merge_entry
newer-changed x e h k = ground arith

length-union : (xs ys : List Entry) → length xs ≤ length (union xs ys)
unfolding union
length-union [] ys = omega arith
length-union (x ∷ xs) [] = omega arith
length-union (x ∷ xs) (y ∷ ys) =
    ground (arith, length-union xs (y ∷ ys), length-union (x ∷ xs) ys, length-union xs ys)

-- The steps of merge and of the union.
module _ (e x : Entry) (incoming es : List Entry) where
  merge_from-before :
      insensitive_less x e ≡ true
      → merge_from (e ∷ incoming) (x ∷ es) ≡ passing x (merge_from (e ∷ incoming) es)
  unfolding merge_from
  merge_from-before h = rw h refl

  pub union-before :
      insensitive_less x e ≡ true → union (x ∷ es) (e ∷ incoming) ≡ x ∷ union es (e ∷ incoming)
  unfolding union
  union-before h = rw h refl

  module _ (h : insensitive_less x e ≡ false) where
    merge_from-new :
        insensitive_less e x ≡ true
        → Coherent x e
        → Above e incoming
        → merge_from (e ∷ incoming) (x ∷ es)
          ≡ telling true e (passing e (merge_from incoming (x ∷ es)))
    unfolding merge_from
    merge_from-new k c a =
        rw (h, equal-less x e c, h, k)
          (ap (telling true e) (merge_from-passing e (x ∷ es) incoming a))

    pub union-new :
        insensitive_less e x ≡ true → union (x ∷ es) (e ∷ incoming) ≡ e ∷ union (x ∷ es) incoming
    unfolding union
    union-new k = rw (h, k) refl

    merge_from-both :
        insensitive_less e x ≡ false
        → Coherent x e
        → Above e incoming
        → merge_from (e ∷ incoming) (x ∷ es)
          ≡ telling (merge_entry x e).1 e (passing (newer x e) (merge_from incoming es))
    unfolding merge_from newer
    merge_from-both k c a =
        rw (h, equal-less x e c, h, k, merge_entry-newer x e)
          (ap (telling (merge_entry x e).1 e)
            (merge_from-passing (newer x e) es incoming (Above-newer x e incoming h k a)))

    pub union-both :
        insensitive_less e x ≡ false → union (x ∷ es) (e ∷ incoming) ≡ newer x e ∷ union es incoming
    unfolding union
    union-both k = rw (h, k) refl

no_news :
    (incoming es : List Entry)
    → IsStrict incoming
    → AreCoherent es incoming
    → (merge_from incoming es).1 ≡ []
    → union es incoming ≡ es
unfolding merge_from
no_news [] es s c h = union-nil es
no_news (e ∷ incoming) [] s c h = cc
no_news (e ∷ incoming) (x ∷ es) s c h = elim (Bool-cases (insensitive_less x e)) [
  | inl l ↦
      let told = sym (ap (λ (r : Merged). r.1) (merge_from-before e x incoming es l)) ∙ h in
      union-before e x incoming es l ∙ ap (◌∷◌ x) (no_news (e ∷ incoming) es s c.1 told)
  | inr l ↦ elim (Bool-cases (insensitive_less e x)) [
    | inl k ↦
        let told =
          sym (ap (λ (r : Merged). r.1) (merge_from-new e x incoming es l k c.0.0 s.0)) ∙ h in
        cc told
    | inr k ↦ elim (Bool-cases (merge_entry x e).1) [
      | inl y ↦ cc (ap (λ (r : Merged). r.1) (merge_from-both e x incoming es l k c.0.0 s.0), y, h)
      | inr y ↦
          let both =
            sym (ap (λ (r : Merged). r.1) (merge_from-both e x incoming es l k c.0.0 s.0)) ∙ h in
          let told = rw y at both in
          let rest = no_news incoming es s.1 (AreCoherent-tail es e incoming c.1) told in
          union-both e x incoming es l k ∙ rw (newer-same x e y) (ap (◌∷◌ x) rest)
    ]
  ]
]

union-nil_left : (ys : List Entry) → union [] ys ≡ ys
unfolding union
union-nil_left ys = refl

no_change :
    (incoming es : List Entry)
    → IsStrict incoming
    → AreCoherent es incoming
    → union es incoming ≡ es
    → (merge_from incoming es).1 ≡ []
unfolding merge_from
no_change [] es s c h = refl
no_change (e ∷ incoming) [] s c h = cc (union-nil_left (e ∷ incoming), h)
no_change (e ∷ incoming) (x ∷ es) s c h = elim (Bool-cases (insensitive_less x e)) [
  | inl l ↦
      let rest : union es (e ∷ incoming) ≡ es = cc (union-before e x incoming es l, h) in
      ap (λ (r : Merged). r.1) (merge_from-before e x incoming es l)
      ∙ no_change (e ∷ incoming) es s c.1 rest
  | inr l ↦ elim (Bool-cases (insensitive_less e x)) [
    | inl k ↦
        let longer = ap (length {A = Entry}) (sym (union-new e x incoming es l k) ∙ h) in
        absurd (omega (arith, longer, length-union (x ∷ es) incoming))
    | inr k ↦
        let whole = sym (union-both e x incoming es l k) ∙ h in
        let same : newer x e ≡ x = cc whole in
        let rest : union es incoming ≡ es = cc whole in
        let told = no_change incoming es s.1 (AreCoherent-tail es e incoming c.1) rest in
        elim (Bool-cases (merge_entry x e).1) [
          | inl y ↦ cc (newer-changed x e y same)
          | inr y ↦
              ap (λ (r : Merged). r.1) (merge_from-both e x incoming es l k c.0.0 s.0) ∙ rw y told
        ]
  ]
]

newest : (x e : Entry) → merge_entry (newer x e) e ≡ (newer x e, false)
unfolding newer merge_entry
newest x e = ground arith

newest_self : (e : Entry) → merge_entry e e ≡ (e, false)
unfolding merge_entry
newest_self e = ground arith

Coherent-newer : (x e : Entry) → Coherent x e → Coherent (newer x e) e
unfolding newer merge_entry
Coherent-newer x e c = ground arith

Coherent-self : (e : Entry) → Coherent e e
Coherent-self e = text_eq_self e.hostname ∙ sym (text_eq_self e.l_hostname)

newer-there : (x e : Entry) → merge_entry x e ≡ (x, false) → newer x e ≡ x
newer-there x e h = sym (merge_entry-newer x e) ∙ ap (λ (r : Entry × Bool). r.0) h

-- an entry that is there already is no news
merge_from-there :
    (e x : Entry) (incoming u : List Entry)
    → insensitive_less x e ≡ false
    → insensitive_less e x ≡ false
    → Coherent x e
    → Above e incoming
    → merge_entry x e ≡ (x, false)
    → merge_from incoming u ≡ (u, [])
    → merge_from (e ∷ incoming) (x ∷ u) ≡ (x ∷ u, [])
merge_from-there e x incoming u l k c a there rest =
    merge_from-both e x incoming u l k c a ∙ rw (newer-there x e there, there, rest) refl

again :
    (incoming es : List Entry)
    → IsStrict incoming
    → AreCoherent es incoming
    → merge_from incoming (union es incoming) ≡ (union es incoming, [])
unfolding merge_from union
again [] es s c = refl
again (e ∷ incoming) [] s c =
    merge_from-there e e incoming incoming (insensitive_less_irrefl e) (insensitive_less_irrefl e)
      (Coherent-self e) s.0 (newest_self e) (again incoming [] s.1 tt)
again (e ∷ incoming) (x ∷ es) s c = elim (Bool-cases (insensitive_less x e)) [
  | inl l ↦ rw (union-before e x incoming es l) (
      merge_from-before e x incoming (union es (e ∷ incoming)) l
      ∙ ap (passing x) (again (e ∷ incoming) es s c.1))
  | inr l ↦ elim (Bool-cases (insensitive_less e x)) [
    | inl k ↦ rw (union-new e x incoming es l k) (
        merge_from-there e e incoming (union (x ∷ es) incoming) (insensitive_less_irrefl e)
          (insensitive_less_irrefl e) (Coherent-self e) s.0 (newest_self e)
          (again incoming (x ∷ es) s.1 (AreCoherent-tail (x ∷ es) e incoming c)))
    | inr k ↦ rw (union-both e x incoming es l k) (
        merge_from-there e (newer x e) incoming (union es incoming) (less-newer x e e ∙ l)
          (less-newer_right x e e ∙ k) (Coherent-newer x e c.0.0) s.0 (newest x e)
          (again incoming es s.1 (AreCoherent-tail es e incoming c.1)))
  ]
]

-- Entries.merge of valid entries with coherent host names does not panic: it leaves the union of the
-- two sides, with the newer of two entries in one place, which is valid. It reports no news exactly
-- if it changes nothing, and merging the same entries again changes and reports nothing.
pub entries_merge_correct :
    {E : Type 0} (es incoming : List Entry)
    → IsValid es
    → IsValid incoming
    → AreCoherent es incoming
    → (news : List Entry) × (merge {E = E} es incoming ≡ ok (union es incoming, news))
      × IsValid (union es incoming)
      × ((news ≡ []) ↔ (union es incoming ≡ es))
      × (merge {E = E} (union es incoming) incoming ≡ ok (union es incoming, []))
unfolding merge
entries_merge_correct es incoming v w c =
    let valid = IsValid-union es incoming v w in
    let fine = check-IsValid (union es incoming) valid in
    (
      (merge_from incoming es).1,
      merge-ok es incoming v w c,
      valid,
      (no_news incoming es w.strict c, no_change incoming es w.strict c),
      rw (again incoming es w.strict c, fine, check-IsValid incoming w) refl,
    )

-- Two name servers with valid and coherent entries that merge each other's end with the same entries.
pub entries_merge_converge :
    {E : Type 0} (es es' : List Entry)
    → IsValid es
    → IsValid es'
    → AreCoherent es es'
    → AreCoherent es' es
    → (merge {E = E} es es' >>= λ r. ok r.0) ≡ (merge {E = E} es' es >>= λ r. ok r.0)
entries_merge_converge es es' v w c d =
    rw (merge-ok es es' v w c, merge-ok es' es w v d) (ap ok (union_comm es es' c))
