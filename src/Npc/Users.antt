-- ===== src/Npc/Users.antt =====
-- The map from keys to their users.
use weave.Base.{
  ℕ, ◌+◌, ◌<◌, ◌≡◌, refl, sym, ap, ◌∙◌, true, false, not, ◌&&◌, ◌||◌, List, [], ◌∷◌, ◌==◌,
  if◌then◌else◌, length, arith, Bool-cases, inl, inr, none, some, ==→eq,
}
use weave.Ipset.{is_user, with_user, without_user}
use weave.Npc.{Users, find_users, put_users, drop_users}

pub find-put :
    (k j : ℕ) (us : List ℕ) (t : Users)
    → find_users j (put_users k us t) ≡ (if k == j then some us else find_users j t)
unfolding find_users put_users
find-put k j us [] = refl
find-put k j us ((i, vs) ∷ t) = ground (arith, find-put k j us t)

-- the keys are distinct
abbrev pub IsKeyed : Users → Type 0
IsKeyed [] = Unit
IsKeyed ((k, us) ∷ t) = (find_users k t ≡ none) × IsKeyed t

find-same : (k j : ℕ) (t : Users) → (k == j) ≡ true → find_users j t ≡ find_users k t
find-same k j t h = ap (λ (i : ℕ). find_users i t) (sym (==→eq k j h))

pub find-drop :
    (k j : ℕ) (t : Users)
    → IsKeyed t
    → find_users j (drop_users k t) ≡ (if k == j then none else find_users j t)
unfolding find_users drop_users
find-drop k j [] h = ground arith
find-drop k j ((i, vs) ∷ t) h = ground (arith, find-drop k j t h.1, find-same i j t, h.0)

pub put-IsKeyed : (k : ℕ) (us : List ℕ) (t : Users) → IsKeyed t → IsKeyed (put_users k us t)
unfolding put_users find_users
put-IsKeyed k us [] h = (refl, tt)
put-IsKeyed k us ((i, vs) ∷ t) h = elim (Bool-cases (i == k)) [
  | inl e ↦ rw e h
  | inr e ↦
      let apart : (k == i) ≡ false = ground arith in
      let unfound : find_users i (put_users k us t) ≡ none = rw (find-put k i us t, apart) h.0 in
      rw e (unfound, put-IsKeyed k us t h.1)
]

pub drop-IsKeyed : (k : ℕ) (t : Users) → IsKeyed t → IsKeyed (drop_users k t)
unfolding drop_users
drop-IsKeyed k [] h = tt
drop-IsKeyed k ((i, vs) ∷ t) h = elim (Bool-cases (i == k)) [
  | inl e ↦ rw e h.1
  | inr e ↦
      let apart : (k == i) ≡ false = ground arith in
      let unfound : find_users i (drop_users k t) ≡ none = rw (find-drop k i t h.1, apart) h.0 in
      rw e (unfound, drop-IsKeyed k t h.1)
]

-- the sum over the keys that are there
unfoldable pub total : (ℕ → ℕ) → Users → ℕ
total w [] = 0
total w ((k, us) ∷ t) = w k + total w t

pub total-put :
    (w : ℕ → ℕ) (k : ℕ) (us : List ℕ) (t : Users)
    → total w (put_users k us t) ≡ (elim (find_users k t) [ none ↦ w k | some vs ↦ 0 ]) + total w t
unfolding total put_users find_users
total-put w k us [] = omega arith
total-put w k us ((i, vs) ∷ t) = elim (Bool-cases (i == k)) [
  | inl e ↦ rw e (omega arith)
  | inr e ↦ rw e (omega (arith, total-put w k us t))
]

pub total-drop :
    (w : ℕ → ℕ) (k : ℕ) (us : List ℕ) (t : Users)
    → find_users k t ≡ some us
    → total w (drop_users k t) + w k ≡ total w t
unfolding total drop_users find_users
total-drop w k us [] h = cc
total-drop w k us ((i, vs) ∷ t) h = elim (Bool-cases (i == k)) [
  | inl e ↦ rw e (omega (arith, ap w (==→eq i k e)))
  | inr e ↦ rw e (omega (arith, total-drop w k us t (rw e at h)))
]

pub is_user-with_user :
    (v u : ℕ) (us : List ℕ) → is_user v (with_user u us) ≡ ((v == u) || is_user v us)
unfolding with_user is_user
is_user-with_user v u us = elim (Bool-cases (is_user u us)) [
  | inr e ↦ rw e refl
  | inl e ↦ elim (Bool-cases (v == u)) [
    | inl same ↦ rw (e, same) (ap (λ (i : ℕ). is_user i us) (==→eq v u same) ∙ e)
    | inr apart ↦ rw (e, apart) refl
  ]
]

pub is_user-without_user :
    (v u : ℕ) (us : List ℕ) → is_user v (without_user u us) ≡ (not (v == u) && is_user v us)
unfolding without_user is_user
is_user-without_user v u [] = ground arith
is_user-without_user v u (i ∷ us) = ground (arith, is_user-without_user v u us)

pub length-with_user : (u : ℕ) (us : List ℕ) → 0 < length (with_user u us)
unfolding with_user is_user
length-with_user u [] = omega arith
length-with_user u (v ∷ us) = ground arith

-- nobody is in an empty list
pub is_user-none : (v : ℕ) (us : List ℕ) → length us ≡ 0 → is_user v us ≡ false
unfolding is_user
is_user-none v [] h = refl
is_user-none v (u ∷ us) h = absurd (omega arith)
