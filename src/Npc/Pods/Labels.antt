-- ===== src/Npc/Pods/Labels.antt =====
-- equals of npc/namespace.go, by which updatePod decides whether a pod's labels have changed.
use weave.Base.{ℕ, ◌≡◌, refl, true, [], ◌∷◌, arith}
use weave.Npc.Pods.{Labels, label_of, has_values_of, equals}

-- Labels that equals finds equal need not have the same values: a label whose value is the empty string can go
-- while another one comes.
pub equals_confuses : ¬ ((a b : Labels) → equals a b ≡ true → (k : ℕ) → label_of k a ≡ label_of k b)
unfolding equals has_values_of label_of
equals_confuses h =
    let same : 0 ≡ 1 = h ((0, 0) ∷ []) ((1, 1) ∷ []) refl 1 in absurd (omega (arith, same))
