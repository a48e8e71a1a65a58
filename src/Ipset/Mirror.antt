-- ===== src/Ipset/Mirror.antt =====
-- The kernel's sets hold exactly the entries that have users.
use weave.Base.{
  ℕ, ◌≡◌, refl, sym, ◌∙◌, Bool, true, false, not, ◌&&◌, arith, List, [], ◌∷◌, ltb, ◌==◌,
  if◌then◌else◌, length, Bool-cases, inl, inr, ==→eq, ==_self,
}
use weave.Ipset.{
  Kernel, Users, Call, create_set, add_entry, del_entry, flush_set, destroy_set, flush_sets,
  destroy_sets, same_entry, users_of, put_users, drop_users, with_user, without_user,
  remove_set_from_users, call, calls, add_to, do_exec,
}
use weave.Ipset.Users.{
  users_of-put_users, users_of-drop_users, users_of-remove_set, IsUnique, IsUnique-with_user,
  IsUnique-without_user, length-without_user, length-with_user,
}

IsUnique-if :
    (b : Bool) (us vs : List ℕ) → IsUnique us → IsUnique vs → IsUnique (if b then us else vs)
IsUnique-if true us vs s t = s
IsUnique-if false us vs s t = t

abbrev pub in_use : ℕ → ℕ → Users → Bool
in_use n e t = ltb 0 (length (users_of n e t))

module _ (kernel : Kernel) where
  open kernel use {State, has}

  pub record Mirrors (t : Users) (k : State) : Type 0 where
    pub unique : (n e : ℕ) → IsUnique (users_of n e t)
    pub same : (n e : ℕ) → has k n e ≡ in_use n e t

  pub Mirrors-empty : (k : State) → ((n e : ℕ) → has k n e ≡ false) → Mirrors [] k
  unfolding users_of
  Mirrors-empty k h = record { unique = λ n e. tt; same = λ n e. h n e }

  module _ (t : Users) (k : State) (m : Mirrors t k) where
    Mirrors-drop_set :
        (n : ℕ) (k' : State)
        → ((i f : ℕ) → has k' i f ≡ not (n == i) && has k i f)
        → Mirrors (remove_set_from_users n t) k'
    Mirrors-drop_set n k' law = record {
      unique =
          λ i f. rw (users_of-remove_set n i f t) (IsUnique-if (n == i) [] _ tt (m.unique i f));
      same = λ i f. ground (arith, law i f, m.same i f, users_of-remove_set n i f t);
    }

    Mirrors-put :
        (n e : ℕ) (us : List ℕ) (k' : State)
        → IsUnique us
        → ((i f : ℕ) → has k' i f ≡ (if same_entry n e i f then ltb 0 (length us) else has k i f))
        → Mirrors (put_users n e us t) k'
    Mirrors-put n e us k' s law = record {
      unique = λ i f.
          rw (users_of-put_users n e i f us t)
            (IsUnique-if (same_entry n e i f) us _ s (m.unique i f));
      same = λ i f. ground (arith, law i f, m.same i f, users_of-put_users n e i f us t);
    }

    Mirrors-drop :
        (n e : ℕ) (k' : State)
        → ((i f : ℕ) → has k' i f ≡ not (same_entry n e i f) && has k i f)
        → Mirrors (drop_users n e t) k'
    Mirrors-drop n e k' law = record {
      unique = λ i f.
          rw (users_of-drop_users n e i f t)
            (IsUnique-if (same_entry n e i f) [] _ tt (m.unique i f));
      same = λ i f. ground (arith, law i f, m.same i f, users_of-drop_users n e i f t);
    }

    has-same : (n e i f : ℕ) → same_entry n e i f ≡ true → has k i f ≡ in_use n e t
    has-same n e i f h =
        m.same i f ∙ rw (sym (==→eq n i (ground arith)), sym (==→eq e f (ground arith))) refl

    Mirrors-add_entry :
        (u n e : ℕ)
        → (call kernel (add_entry u n e) t k).2 ≡ true
        → Mirrors (call kernel (add_entry u n e) t k).0 (call kernel (add_entry u n e) t k).1
    unfolding call
    Mirrors-add_entry u n e fine =
        let us = users_of n e t in
        let s = IsUnique-with_user u us (m.unique n e) in
        let some_user = length-with_user u us in
        elim (Bool-cases (length us == 0)) [
          | inl h ↦ rw h (
              Mirrors-put n e (with_user u us) _ s
                λ i f. ground (arith, kernel.add_law n e k (rw h at fine) i f))
          | inr h ↦
              rw h (Mirrors-put n e (with_user u us) k s λ i f. ground (arith, has-same n e i f))
        ]

    Mirrors-del_entry :
        (u n e : ℕ)
        → (call kernel (del_entry u n e) t k).2 ≡ true
        → Mirrors (call kernel (del_entry u n e) t k).0 (call kernel (del_entry u n e) t k).1
    unfolding call
    Mirrors-del_entry u n e fine =
        let us = users_of n e t in
        let left = without_user u us in
        let s = IsUnique-without_user u us (m.unique n e) in
        let size = length-without_user u us (m.unique n e) in
        elim (Bool-cases (length left == 0)) [
          | inl h ↦ elim (Bool-cases (length us == 1)) [
            | inl g ↦
                rw (h, g) (Mirrors-drop n e _ λ i f. kernel.del_law n e k (rw (h, g) at fine) i f)
            | inr g ↦ rw (h, g) (Mirrors-drop n e k λ i f. ground (arith, has-same n e i f, size))
          ]
          | inr h ↦
              let kept = Mirrors-put n e left k s λ i f. ground (arith, has-same n e i f, size) in
              elim (Bool-cases (length us == 1)) [ inl g ↦ rw (h, g) kept | inr g ↦ rw (h, g) kept ]
        ]

    Mirrors-call :
        (c : Call)
        → (call kernel c t k).2 ≡ true
        → Mirrors (call kernel c t k).0 (call kernel c t k).1
    unfolding call do_exec
    Mirrors-call (create_set n type) fine = record {
      unique = m.unique;
      same = λ i f. kernel.create_law n type k fine i f ∙ m.same i f;
    }
    Mirrors-call (add_entry u n e) fine = Mirrors-add_entry u n e fine
    Mirrors-call (del_entry u n e) fine = Mirrors-del_entry u n e fine
    Mirrors-call (flush_set n) fine = Mirrors-drop_set n _ (kernel.flush_law n k fine)
    Mirrors-call (destroy_set n) fine = Mirrors-drop_set n _ (kernel.destroy_law n k fine)
    Mirrors-call flush_sets fine = Mirrors-empty _ (kernel.flush_all_law k fine)
    Mirrors-call destroy_sets fine = Mirrors-empty _ (kernel.destroy_all_law k fine)

  -- Calls of the ipset methods that all succeed keep the users without repetition and the kernel's sets the
  -- mirror of them: an entry is in the kernel's set exactly if it has a user.
  pub calls-Mirrors :
      (cs : List Call) (t : Users) (k : State)
      → Mirrors t k
      → (calls kernel cs t k).2 ≡ true
      → Mirrors (calls kernel cs t k).0 (calls kernel cs t k).1
  unfolding calls
  calls-Mirrors [] t k m fine = m
  calls-Mirrors (c ∷ cs) t k m fine = elim (Bool-cases (call kernel c t k).2) [
    | inl h ↦ rw h (
        calls-Mirrors cs (call kernel c t k).0 (call kernel c t k).1 (Mirrors-call t k m c h)
          (rw h at fine))
    | inr h ↦ cc (rw h at fine)
  ]

users_of-put_self : (n e u : ℕ) (t : Users) → users_of n e (put_users n e (u ∷ []) t) ≡ u ∷ []
users_of-put_self n e u t = users_of-put_users n e n e (u ∷ []) t ∙ rw (==_self n, ==_self e) refl

with_user-nil : (u : ℕ) → with_user u [] ≡ u ∷ []
unfolding with_user
with_user-nil u = refl

-- An AddEntry that fails in the kernel leaves its user recorded: a second AddEntry of the same entry, by
-- whichever user, then reports success and runs no command.
pub add_entry_failed :
    (kernel : Kernel) (u v n e : ℕ) (t : Users) (k : Kernel.State kernel)
    → users_of n e t ≡ []
    → (kernel.exec (add_to n e) k).1 ≡ false
    → ((call kernel (add_entry u n e) t k).2 ≡ false)
      × ((call kernel
            (add_entry v n e)
            (call kernel (add_entry u n e) t k).0
            (call kernel (add_entry u n e) t k).1).2
          ≡ true)
      × ((call kernel
            (add_entry v n e)
            (call kernel (add_entry u n e) t k).0
            (call kernel (add_entry u n e) t k).1).1
          ≡ (kernel.exec (add_to n e) k).0)
unfolding call do_exec
add_entry_failed kernel u v n e t k free fails =
    rw (free, with_user-nil u, users_of-put_self n e u t) (fails, refl, refl)
