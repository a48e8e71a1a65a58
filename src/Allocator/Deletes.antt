-- ===== src/Allocator/Deletes.antt =====
-- Delete: what becomes of the container's addresses.
use weave.Base.{
  ℕ, ◌≤◌, ◌≡◌, refl, ◌∙◌, not, ◌&&◌, ◌||◌, [], ◌∷◌, ◌==◌, length, arith, Bool-cases, inl, inr,
  ==→eq,
}
use weave.Space.Invariant.{owned, is_free}
use weave.Allocator.{Allocator, Owned, owned_data, drop_owned, has_addr, delete, remove_all_owned}
use weave.Allocator.Owned.{entries, has_addr-count}
use weave.Allocator.Backed.{IsBacked, GivenBack, give_back_all-GivenBack, give_back_all-none}

owned_data-absent : (i : ℕ) (t : Owned) → entries i t ≡ 0 → (owned_data i t).cidrs ≡ []
unfolding owned_data entries
owned_data-absent i [] h = refl
owned_data-absent i ((j, d) ∷ t) h = elim (Bool-cases (j == i)) [
  | inl e ↦ absurd (ground arith)
  | inr e ↦ rw e (owned_data-absent i t (ground arith))
]

owned_data-drop_owned :
    (i : ℕ) (t : Owned) → entries i t ≤ 1 → (owned_data i (drop_owned i t)).cidrs ≡ []
unfolding owned_data drop_owned entries
owned_data-drop_owned i [] h = refl
owned_data-drop_owned i ((j, d) ∷ t) h = elim (Bool-cases (j == i)) [
  | inl e ↦ rw e (owned_data-absent i t (ground arith))
  | inr e ↦ rw (e, e) (owned_data-drop_owned i t (ground arith))
]

module _ (ident : ℕ) (x : Allocator) (v : IsBacked x) where
  pub delete-GivenBack : GivenBack x.space (owned_data ident x.owned).cidrs (delete ident x).0.space
  unfolding delete remove_all_owned
  delete-GivenBack =
      let cs = (owned_data ident x.owned).cidrs in
      let all = give_back_all-GivenBack cs x.space v.valid in
      elim (Bool-cases (length cs == 0)) [
        | inl e ↦
            let none = give_back_all-none cs x.space (==→eq (length cs) 0 e) in
            let unchanged : GivenBack x.space cs x.space = (rw none at all) in rw e unchanged
        | inr e ↦ rw e all
      ]

  -- Delete on a backed allocator answers an error exactly if the container owns no address; afterwards it owns none, each address that it owned and that was in use is free, and every other address is in use or free as before.
  pub deletion_correct :
      ((delete ident x).1 ≡ not (length (owned_data ident x.owned).cidrs == 0))
      × ((owned_data ident (delete ident x).0.owned).cidrs ≡ [])
      × ((b : ℕ)
          → owned (delete ident x).0.space b
            ≡ (owned x.space b && not (has_addr b (owned_data ident x.owned).cidrs)))
      × ((b : ℕ)
          → is_free (delete ident x).0.space b ≡ (
              is_free x.space b
              || (owned x.space b && has_addr b (owned_data ident x.owned).cidrs)))
  unfolding delete remove_all_owned
  deletion_correct =
      let cs = (owned_data ident x.owned).cidrs in
      let gone = owned_data-drop_owned ident x.owned (v.keyed ident) in
      let g = delete-GivenBack in
      let answers : (delete ident x).1 ≡ not (length cs == 0) = elim (Bool-cases (length cs == 0)) [
        | inl e ↦ rw e refl
        | inr e ↦ rw e refl
      ] in
      let none_left : (owned_data ident (delete ident x).0.owned).cidrs ≡ [] =
        elim (Bool-cases (length cs == 0)) [ inl e ↦ rw e gone | inr e ↦ rw e gone ] in
      (
        answers,
        none_left,
        λ b. g.owned_after b ∙ ground (arith, has_addr-count b cs),
        λ b. g.free_after b ∙ ground (arith, has_addr-count b cs),
      )
