-- ===== src/Nameserver/Variants.antt =====
-- Two spellings of one host name.
use weave.Base.{ℕ, zero, suc, ◌≡◌, refl, ap, ◌∙◌, arith, true, false, List, [], ◌∷◌, Run, ok, ◌>>=◌}
use weave.Base.Texts.{text_eq_comm}
use weave.Nameserver.{Entry, equal, insensitive_less, merge, merge_entry, merge_from, check}
use weave.Nameserver.Order.{insensitive_less_irrefl, equal_self}

equal_comm : (a b : Entry) → equal a b ≡ equal b a
unfolding equal
equal_comm a b =
    ground (arith, text_eq_comm a.container_id b.container_id, text_eq_comm a.hostname b.hostname)

-- `n` messages with the same entries, one after the other: the entries, and the news of the last
abbrev pub merge_again :
    {E : Type 0} → List Entry → ℕ → List Entry → Run E (List Entry × List Entry)
merge_again incoming zero es = ok (es, [])
merge_again incoming (suc n) es = merge_again incoming n es >>= λ t. merge t.0 incoming

-- three entries, and two more for each message after the first
abbrev pub stack : Entry → Entry → ℕ → List Entry
stack a b zero = b ∷ a ∷ b ∷ []
stack a b (suc n) = b ∷ a ∷ stack a b n

abbrev pub news : Entry → Entry → ℕ → List Entry
news a b zero = b ∷ []
news a b (suc n) = a ∷ b ∷ []

module _ (a b : Entry) (h : insensitive_less a b ≡ false) (k : insensitive_less b a ≡ false)
    (d : equal a b ≡ false) where
  merge_from-variants : merge_from (a ∷ b ∷ []) (a ∷ b ∷ []) ≡ (b ∷ a ∷ b ∷ [], b ∷ [])
  unfolding merge_from merge_entry
  merge_from-variants = ground (arith, insensitive_less_irrefl a, equal_self a)

  check-before : check (a ∷ b ∷ []) ≡ true
  unfolding check
  check-before = ground (arith, equal_comm a b)

  check-stack : (n : ℕ) → check (stack a b n) ≡ true
  unfolding check
  check-stack zero = ground (arith, equal_comm a b)
  check-stack (suc zero) = ground (arith, equal_comm a b)
  check-stack (suc (suc n)) = ground (arith, equal_comm a b, check-stack (suc n))

  merge_from-stack :
      (es : List Entry) → merge_from (a ∷ b ∷ []) (b ∷ es) ≡ (b ∷ a ∷ b ∷ es, a ∷ b ∷ [])
  unfolding merge_from
  merge_from-stack es = ground (arith, equal_comm a b)

  merge-variants : {E : Type 0} → merge {E = E} (a ∷ b ∷ []) (a ∷ b ∷ []) ≡ ok (stack a b 0, b ∷ [])
  unfolding merge
  merge-variants = rw (check-before, merge_from-variants, check-stack 0) refl

  merge-stack :
      {E : Type 0} (n : ℕ)
      → merge {E = E} (stack a b n) (a ∷ b ∷ []) ≡ ok (stack a b (suc n), a ∷ b ∷ [])
  unfolding merge
  merge-stack zero =
      rw (check-stack 0, check-before, merge_from-stack (a ∷ b ∷ []), check-stack 1) refl
  merge-stack (suc n) =
      rw
        (
          check-stack (suc n),
          check-before,
          merge_from-stack (a ∷ stack a b n),
          check-stack (suc (suc n)),
        )
        refl

-- Where two entries differ in nothing but the case of the host name, a name server that has the two and merges the same two once and again never settles: no merge panics; the first inserts the second entry once more, and every later one inserts both once more and reports both as news, so that the entries grow by two with each.
pub merge_variants :
    {E : Type 0} (a b : Entry)
    → insensitive_less a b ≡ false
    → insensitive_less b a ≡ false
    → equal a b ≡ false
    → (n : ℕ) → merge_again {E = E} (a ∷ b ∷ []) (suc n) (a ∷ b ∷ []) ≡ ok (stack a b n, news a b n)
merge_variants a b h k d zero = merge-variants a b h k d
merge_variants {E} a b h k d (suc n) =
    ap (λ (m : Run E (List Entry × List Entry)). m >>= λ t. merge t.0 (a ∷ b ∷ []))
      (merge_variants {E = E} a b h k d n)
    ∙ merge-stack a b h k d n
