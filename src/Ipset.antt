-- ===== src/Ipset.antt =====
-- net/ipset/ipset.go: sets of addresses in the kernel, whose entries several users may share.
-- The code only compares set names, entries and UIDs, which are numbers here. The map of users is an
-- association list, and a set of users a list without repetition. The program `ipset` that doExec runs
-- is an argument, the record Kernel: its laws are what the tool's manual says of a command that
-- succeeds. A method returns the new users, the new kernel and whether there was no error.
pub mod Users
pub mod Mirror
use weave.Base.{
  ℕ, ◌≡◌, Bool, true, false, not, ◌&&◌, ◌||◌, List, [], ◌∷◌, ◌==◌, if◌then◌else◌, length,
}

-- ListSet, HashIP and HashNet
pub data SetType : Type 0 where
  list_set hash_ip hash_net : SetType

-- the command lines that doExec is given; a comment or size changes nothing else
pub data Command : Type 0 where
  create : ℕ → SetType → Command
  add_to del_from : ℕ → ℕ → Command
  flush destroy : ℕ → Command
  flush_all destroy_all : Command

abbrev pub same_entry : ℕ → ℕ → ℕ → ℕ → Bool
same_entry n e m f = n == m && e == f

pub record Kernel : Type 1 where
  pub State : Type 0
  -- the state after a command, and whether it succeeded
  pub exec : Command → State → State × Bool
  -- is the entry in the set?
  pub has : State → ℕ → ℕ → Bool
  pub create_law :
      (n : ℕ) (t : SetType) (k : State)
      → (exec (create n t) k).1 ≡ true
      → (m f : ℕ) → has (exec (create n t) k).0 m f ≡ has k m f
  pub add_law :
      (n e : ℕ) (k : State)
      → (exec (add_to n e) k).1 ≡ true
      → (m f : ℕ) → has (exec (add_to n e) k).0 m f ≡ same_entry n e m f || has k m f
  pub del_law :
      (n e : ℕ) (k : State)
      → (exec (del_from n e) k).1 ≡ true
      → (m f : ℕ) → has (exec (del_from n e) k).0 m f ≡ not (same_entry n e m f) && has k m f
  pub flush_law :
      (n : ℕ) (k : State)
      → (exec (flush n) k).1 ≡ true
      → (m f : ℕ) → has (exec (flush n) k).0 m f ≡ not (n == m) && has k m f
  pub destroy_law :
      (n : ℕ) (k : State)
      → (exec (destroy n) k).1 ≡ true
      → (m f : ℕ) → has (exec (destroy n) k).0 m f ≡ not (n == m) && has k m f
  pub flush_all_law :
      (k : State) → (exec flush_all k).1 ≡ true → (m f : ℕ) → has (exec flush_all k).0 m f ≡ false
  pub destroy_all_law :
      (k : State)
      → (exec destroy_all k).1 ≡ true
      → (m f : ℕ) → has (exec destroy_all k).0 m f ≡ false

-- the users of each set name and entry
abbrev pub Users : Type 0
Users = List (ℕ × ℕ × List ℕ)

unfoldable pub users_of : ℕ → ℕ → Users → List ℕ
users_of n e [] = []
users_of n e ((m, f, us) ∷ t) = if same_entry m f n e then us else users_of n e t

unfoldable pub put_users : ℕ → ℕ → List ℕ → Users → Users
put_users n e us [] = (n, e, us) ∷ []
put_users n e us ((m, f, vs) ∷ t) =
    if same_entry m f n e then (m, f, us) ∷ t else (m, f, vs) ∷ put_users n e us t

-- `delete(i.users, k)`
unfoldable pub drop_users : ℕ → ℕ → Users → Users
drop_users n e [] = []
drop_users n e ((m, f, vs) ∷ t) =
    let rest = drop_users n e t in if same_entry m f n e then rest else (m, f, vs) ∷ rest

unfoldable pub is_user : ℕ → List ℕ → Bool
is_user u [] = false
is_user u (v ∷ vs) = u == v || is_user u vs

unfoldable pub with_user : ℕ → List ℕ → List ℕ
unfolding is_user
with_user u us = if is_user u us then us else u ∷ us

unfoldable pub without_user : ℕ → List ℕ → List ℕ
without_user u [] = []
without_user u (v ∷ vs) = let rest = without_user u vs in if u == v then rest else v ∷ rest

-- addUser: whether the entry has to be put into the set
unfoldable pub add_user : ℕ → ℕ → ℕ → Users → Users × Bool
unfolding with_user
add_user u n e t = let us = users_of n e t in (put_users n e (with_user u us) t, length us == 0)

-- delUser: whether the entry has to be taken out of the set
unfoldable pub del_user : ℕ → ℕ → ℕ → Users → Users × Bool
unfolding without_user
del_user u n e t =
    let us = users_of n e t in
    let left = without_user u us in
    (
      if length left == 0 then drop_users n e t else put_users n e left t,
      length us == 1 && length left == 0,
    )

unfoldable pub exist_user : ℕ → ℕ → ℕ → Users → Bool
unfolding users_of is_user
exist_user u n e t = is_user u (users_of n e t)

unfoldable pub remove_set_from_users : ℕ → Users → Users
remove_set_from_users n [] = []
remove_set_from_users n ((m, f, us) ∷ t) =
    let rest = remove_set_from_users n t in if m == n then rest else (m, f, us) ∷ rest

-- the methods of the interface that change something
pub data Call : Type 0 where
  create_set : ℕ → SetType → Call
  add_entry del_entry : ℕ → ℕ → ℕ → Call
  flush_set destroy_set : ℕ → Call
  flush_sets destroy_sets : Call

module _ (kernel : Kernel) where
  open kernel use {State, exec}

  -- users, kernel, no error
  abbrev pub Ended : Type 0
  Ended = Users × State × Bool

  unfoldable pub do_exec : Command → Users → State → Ended
  do_exec c t k = (t, (exec c k).0, (exec c k).1)

  unfoldable pub call : Call → Users → State → Ended
  unfolding do_exec add_user del_user
  call (create_set n type) t k = do_exec (create n type) t k
  call (add_entry u n e) t k =
      let t' = (add_user u n e t).0 in
      if not (add_user u n e t).1 then (t', k, true) else do_exec (add_to n e) t' k
  call (del_entry u n e) t k =
      let t' = (del_user u n e t).0 in
      if not (del_user u n e t).1 then (t', k, true) else do_exec (del_from n e) t' k
  call (flush_set n) t k = do_exec (flush n) (remove_set_from_users n t) k
  call (destroy_set n) t k = do_exec (destroy n) (remove_set_from_users n t) k
  call flush_sets t k = do_exec flush_all [] k
  call destroy_sets t k = do_exec destroy_all [] k

  -- calls one after the other, up to the first error
  unfoldable pub calls : List Call → Users → State → Ended
  unfolding call
  calls [] t k = (t, k, true)
  calls (c ∷ cs) t k =
      let (t', k', fine) = call c t k in
      let rest = calls cs t' k' in if fine then rest else (t', k', false)
