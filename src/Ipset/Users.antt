-- ===== src/Ipset/Users.antt =====
-- The map of users.
use weave.Base.{
  ℕ, ◌+◌, ◌<◌, ◌≡◌, refl, ap, true, false, arith, List, [], ◌∷◌, ◌==◌, if◌then◌else◌, length,
  Bool-cases, inl, inr, ==→eq,
}
use weave.Ipset.{
  Users, same_entry, users_of, put_users, drop_users, is_user, with_user, without_user,
  remove_set_from_users,
}

module _ (n e m f : ℕ) where
  pub users_of-put_users :
      (us : List ℕ) (t : Users)
      → users_of m f (put_users n e us t) ≡ (if same_entry n e m f then us else users_of m f t)
  unfolding users_of put_users
  users_of-put_users us [] = refl
  users_of-put_users us ((i, j, vs) ∷ t) = ground (arith, users_of-put_users us t)

  pub users_of-drop_users :
      (t : Users)
      → users_of m f (drop_users n e t) ≡ (if same_entry n e m f then [] else users_of m f t)
  unfolding users_of drop_users
  users_of-drop_users [] = ground arith
  users_of-drop_users ((i, j, vs) ∷ t) = ground (arith, users_of-drop_users t)

pub users_of-remove_set :
    (n m f : ℕ) (t : Users)
    → users_of m f (remove_set_from_users n t) ≡ (if n == m then [] else users_of m f t)
unfolding users_of remove_set_from_users
users_of-remove_set n m f [] = ground arith
users_of-remove_set n m f ((i, j, vs) ∷ t) = ground (arith, users_of-remove_set n m f t)

-- no user is there twice
abbrev pub IsUnique : List ℕ → Type 0
IsUnique [] = Unit
IsUnique (u ∷ us) = (is_user u us ≡ false) × IsUnique us

is_user-without_user :
    (u v : ℕ) (us : List ℕ) → is_user v us ≡ false → is_user v (without_user u us) ≡ false
unfolding is_user without_user
is_user-without_user u v [] h = refl
is_user-without_user u v (w ∷ us) h = ground (arith, is_user-without_user u v us)

pub IsUnique-with_user : (u : ℕ) (us : List ℕ) → IsUnique us → IsUnique (with_user u us)
unfolding with_user
IsUnique-with_user u us s = elim (Bool-cases (is_user u us)) [
  | inl h ↦ rw h s
  | inr h ↦ rw h (h, s)
]

pub IsUnique-without_user : (u : ℕ) (us : List ℕ) → IsUnique us → IsUnique (without_user u us)
unfolding without_user
IsUnique-without_user u [] s = tt
IsUnique-without_user u (v ∷ us) s = elim (Bool-cases (u == v)) [
  | inl h ↦ rw h (IsUnique-without_user u us s.1)
  | inr h ↦ rw h (is_user-without_user u v us s.0, IsUnique-without_user u us s.1)
]

is_user-same : (u v : ℕ) (us : List ℕ) → (u == v) ≡ true → is_user u us ≡ is_user v us
is_user-same u v us h = ap (λ (w : ℕ). is_user w us) (==→eq u v h)

without_user-absent : (u : ℕ) (us : List ℕ) → is_user u us ≡ false → without_user u us ≡ us
unfolding is_user without_user
without_user-absent u [] h = refl
without_user-absent u (v ∷ us) h = ground (arith, without_user-absent u us)

-- taking out the last user leaves none only where there was one
pub length-without_user :
    (u : ℕ) (us : List ℕ)
    → IsUnique us
    → length (without_user u us) + (if is_user u us then 1 else 0) ≡ length us
unfolding without_user is_user
length-without_user u [] s = omega arith
length-without_user u (v ∷ us) s =
    ground (arith, length-without_user u us s.1, without_user-absent u us, is_user-same u v us)

pub length-with_user : (u : ℕ) (us : List ℕ) → 0 < length (with_user u us)
unfolding with_user is_user
length-with_user u [] = omega arith
length-with_user u (v ∷ us) = ground arith
