-- ===== src/Tests/Ipsets.antt =====
-- net/ipset at a kernel that keeps its sets as a list.
use weave.Base.{
  ℕ, ◌≡◌, refl, Bool, true, false, not, ◌&&◌, ◌||◌, List, [], ◌∷◌, arith, ◌==◌, if◌then◌else◌,
}
use weave.Ipset.{
  Kernel, Command, create, add_to, del_from, flush, destroy, flush_all, destroy_all, same_entry,
  users_of, put_users, drop_users, Call, add_entry, del_entry, call, calls,
}
use weave.Ipset.Mirror.{Mirrors, Mirrors-empty, calls-Mirrors, add_entry_failed}

abbrev pub Sets : Type 0
Sets = List (ℕ × ℕ)

unfoldable pub has : Sets → ℕ → ℕ → Bool
has [] m f = false
has ((n, e) ∷ k) m f = same_entry n e m f || has k m f

unfoldable pub without : (ℕ → ℕ → Bool) → Sets → Sets
without p [] = []
without p ((n, e) ∷ k) = let rest = without p k in if p n e then rest else (n, e) ∷ rest

-- an entry 666 cannot be added
abbrev pub exec : Command → Sets → Sets × Bool
exec (create n t) k = (k, true)
exec (add_to n e) k = if e == 666 then (k, false) else ((n, e) ∷ k, true)
exec (del_from n e) k = (without (same_entry n e) k, true)
exec (flush n) k = (without (λ m f. n == m) k, true)
exec (destroy n) k = (without (λ m f. n == m) k, true)
exec flush_all k = ([], true)
exec destroy_all k = ([], true)

pub has-without_entry :
    (n e : ℕ) (k : Sets) (m f : ℕ)
    → has (without (same_entry n e) k) m f ≡ not (same_entry n e m f) && has k m f
unfolding has without
has-without_entry n e [] m f = ground arith
has-without_entry n e ((i, j) ∷ k) m f = ground (arith, has-without_entry n e k m f)

pub has-without_set :
    (n : ℕ) (k : Sets) (m f : ℕ) → has (without (λ i j. n == i) k) m f ≡ not (n == m) && has k m f
unfolding has without
has-without_set n [] m f = ground arith
has-without_set n ((i, j) ∷ k) m f = ground (arith, has-without_set n k m f)

pub add_law :
    (n e : ℕ) (k : Sets)
    → (exec (add_to n e) k).1 ≡ true
    → (m f : ℕ) → has (exec (add_to n e) k).0 m f ≡ same_entry n e m f || has k m f
unfolding has
add_law n e k h m f = ground arith

pub nothing : (m f : ℕ) → has [] m f ≡ false
unfolding has
nothing m f = refl

abbrev pub kernel : Kernel
kernel = record {
  State = Sets;
  exec = exec;
  has = has;
  create_law = λ n t k h m f. refl;
  add_law = add_law;
  del_law = λ n e k h. has-without_entry n e k;
  flush_law = λ n k h. has-without_set n k;
  destroy_law = λ n k h. has-without_set n k;
  flush_all_law = λ k h m f. nothing m f;
  destroy_all_law = λ k h m f. nothing m f;
}

-- two users share an entry, one leaves it
abbrev shared : List Call
shared =
    add_entry 1 4 10
    ∷ add_entry 2 4 10
    ∷ add_entry 1 4 11
    ∷ del_entry 1 4 10
    ∷ del_entry 1 4 11
    ∷ []

calls-shared : calls kernel shared [] [] ≡ ((4, 10, 2 ∷ []) ∷ [], (4, 10) ∷ [], true)
unfolding calls without users_of put_users drop_users
calls-shared = refl

fine : (calls kernel shared [] []).2 ≡ true
unfolding calls users_of put_users
fine = refl

calls-Mirrors_example : Mirrors kernel (calls kernel shared [] []).0 (calls kernel shared [] []).1
calls-Mirrors_example = calls-Mirrors kernel shared [] [] (Mirrors-empty kernel [] nothing) fine

free : users_of 4 666 [] ≡ []
unfolding users_of
free = refl

add_entry_failed_example :
    ((call kernel (add_entry 1 4 666) [] []).2 ≡ false)
    × ((call kernel
          (add_entry 2 4 666)
          (call kernel (add_entry 1 4 666) [] []).0
          (call kernel (add_entry 1 4 666) [] []).1).2
        ≡ true)
    × ((call kernel
          (add_entry 2 4 666)
          (call kernel (add_entry 1 4 666) [] []).0
          (call kernel (add_entry 1 4 666) [] []).1).1
        ≡ (kernel.exec (add_to 4 666) []).0)
add_entry_failed_example = add_entry_failed kernel 1 2 4 666 [] [] free refl
