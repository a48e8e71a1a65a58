-- ===== src/Npc/Pods/Effects.antt =====
-- What the handlers do to who uses which entry of which set, if there is no error.
use weave.Base.{
  ℕ, ◌≡◌, refl, sym, ap, ◌∙◌, Bool, true, false, not, ◌&&◌, ◌||◌, ◌==◌, if◌then◌else◌, arith,
  Bool-cases, inl, inr, length, ==→eq,
}
use weave.Ipset.{
  Kernel, Users, add_entry, del_entry, exist_user, call, add_user, del_user, users_of, is_user,
  with_user, without_user, do_exec,
}
use weave.Ipset.Users.{users_of-put_users, users_of-drop_users}
use weave.Npc.Users.{is_user-with_user, is_user-without_user, is_user-none}
use weave.Npc.Pods.{Action, and_then, nothing, if_so, do_call}

-- which user uses which entry of which set: user, set, entry
abbrev pub Uses : Type 0
Uses = ℕ → ℕ → ℕ → Bool

unfoldable pub uses : Users → Uses
unfolding exist_user
uses t v m f = exist_user v m f t

unfoldable pub with_use : ℕ → ℕ → ℕ → Uses → Uses
with_use u n e h v m f = (v == u && (n == m && e == f)) || h v m f

unfoldable pub without_use : ℕ → ℕ → ℕ → Uses → Uses
without_use u n e h v m f = not (v == u && (n == m && e == f)) && h v m f

module _ (u n e : ℕ) (t : Users) (v m f : ℕ) where
  users_of-same : (n == m && e == f) ≡ true → users_of n e t ≡ users_of m f t
  users_of-same h =
      let set : n ≡ m = ground (arith, h) in
      let entry : e ≡ f = ground (arith, h) in
      ap (λ (i : ℕ). users_of i e t) set ∙ ap (λ (i : ℕ). users_of m i t) entry

  pub uses-add_user : uses (add_user u n e t).0 v m f ≡ with_use u n e (uses t) v m f
  unfolding uses exist_user with_use add_user
  uses-add_user = elim (Bool-cases (n == m && e == f)) [
    | inr a ↦ rw (users_of-put_users n e m f (with_user u (users_of n e t)) t, a) (ground arith)
    | inl a ↦
        rw (users_of-put_users n e m f (with_user u (users_of n e t)) t, a, users_of-same a)
          (is_user-with_user v u (users_of m f t) ∙ ground arith)
  ]

  pub uses-del_user : uses (del_user u n e t).0 v m f ≡ without_use u n e (uses t) v m f
  unfolding uses exist_user without_use del_user is_user
  uses-del_user =
      let left = without_user u (users_of n e t) in
      elim (Bool-cases (length left == 0)) [
        | inl z ↦ elim (Bool-cases (n == m && e == f)) [
          | inr a ↦ rw (z, users_of-drop_users n e m f t, a) (ground arith)
          | inl a ↦
              let nobody : (not (v == u) && is_user v (users_of m f t)) ≡ false =
                rw (sym (users_of-same a)) (
                  sym (is_user-without_user v u (users_of n e t))
                  ∙ is_user-none v left (==→eq (length left) 0 z)) in
              rw (z, users_of-drop_users n e m f t, a) (sym nobody ∙ ground arith)
        ]
        | inr z ↦ elim (Bool-cases (n == m && e == f)) [
          | inr a ↦ rw (z, users_of-put_users n e m f left t, a) (ground arith)
          | inl a ↦
              rw (z, users_of-put_users n e m f left t, a, users_of-same a)
                (is_user-without_user v u (users_of m f t) ∙ ground arith)
        ]
      ]

module _ (kernel : Kernel) where
  open kernel use {State}

  -- the action changes the uses so, if there is no error
  unfoldable pub Does : Action kernel → (Uses → Uses) → Type 0
  Does act change =
      (t : Users) (k : State)
      → (act t k).2 ≡ true
      → (v m f : ℕ) → uses (act t k).0 v m f ≡ change (uses t) v m f

  pub Does-add : (u n e : ℕ) → Does (do_call kernel (add_entry u n e)) (with_use u n e)
  unfolding Does do_call call do_exec
  Does-add u n e t k h v m f = elim (Bool-cases (add_user u n e t).1) [
    | inl z ↦ rw z (uses-add_user u n e t v m f)
    | inr z ↦ rw z (uses-add_user u n e t v m f)
  ]

  pub Does-del : (u n e : ℕ) → Does (do_call kernel (del_entry u n e)) (without_use u n e)
  unfolding Does do_call call do_exec
  Does-del u n e t k h v m f = elim (Bool-cases (del_user u n e t).1) [
    | inl z ↦ rw z (uses-del_user u n e t v m f)
    | inr z ↦ rw z (uses-del_user u n e t v m f)
  ]

  pub Does-nothing : Does (nothing kernel) (λ h. h)
  unfolding Does nothing
  Does-nothing t k h v m f = refl

  -- the change depends on the uses point by point only
  abbrev pub IsPointwise : (Uses → Uses) → Type 0
  IsPointwise change =
      (g h : Uses)
      → ((v m f : ℕ) → g v m f ≡ h v m f)
      → (v m f : ℕ) → change g v m f ≡ change h v m f

  pub Does-and_then :
      (act next : Action kernel) (change change' : Uses → Uses)
      → Does act change
      → Does next change'
      → IsPointwise change'
      → Does (and_then kernel act next) (λ h. change' (change h))
  unfolding Does and_then
  Does-and_then act next change change' first second pointwise t k h v m f =
      elim (Bool-cases (act t k).2) [
        | inr bad ↦ absurd (let b : false ≡ true = (rw bad at h) in cc)
        | inl fine ↦
            let (t', k', b) = act t k in
            rw fine (
              second t' k' (rw fine at h) v m f
              ∙ pointwise (uses t') (change (uses t)) (first t k fine) v m f)
      ]

  pub Does-if_so :
      (b : Bool) (act : Action kernel) (change : Uses → Uses)
      → Does act change
      → Does (if_so kernel b act) (λ h v m f. if b then change h v m f else h v m f)
  unfolding Does if_so nothing
  Does-if_so true act change does t k h v m f = does t k h v m f
  Does-if_so false act change does t k h v m f = refl

  pub Does-same :
      (act : Action kernel) (change change' : Uses → Uses)
      → Does act change
      → ((h : Uses) (v m f : ℕ) → change h v m f ≡ change' h v m f)
      → Does act change'
  unfolding Does
  Does-same act change change' does same t k h v m f = does t k h v m f ∙ same (uses t) v m f
