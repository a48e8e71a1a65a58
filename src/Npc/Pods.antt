-- ===== src/Npc/Pods.antt =====
-- npc/namespace.go: the pods of a namespace, whose addresses are in the sets of the selectors that match them
-- and, if no policy selects them, in the two default-allow sets. selector.go: addToMatching, delFromMatching and
-- targetSelectorExist. Names of sets, addresses, UIDs and selectors are numbers, 0 the empty string. The sets are
-- those of net/ipset, in Ipset; whether a selector of the library of Kubernetes matches labels is an argument.
-- A Go map is a list, whose order is that of the loops over it.
pub mod Handlers
pub mod Effects
pub mod Matching
pub mod Labels
pub mod Targets
pub mod Allowing
pub mod Moving
use weave.Base.{
  ℕ, ◌+◌, ◌≡◌, Bool, true, false, not, ◌&&◌, ◌||◌, List, [], ◌∷◌, ◌==◌, if◌then◌else◌, length, ltb,
}
use weave.Ipset.{Kernel, Users, Call, Ended, add_entry, del_entry, call, exist_user}
use weave.Npc.{PolicyType, ingress, egress}

pub data Phase : Type 0 where
  succeeded failed other_phase : Phase

abbrev pub Labels : Type 0
Labels = List (ℕ × ℕ)

-- what the handlers read of a pod
pub record Pod : Type 0 where
  pub uid : ℕ
  pub labels : Labels
  pub pod_ip : ℕ
  pub phase : Phase
  pub host_network : Bool

-- a selector with the fields of its selectorSpec that the handlers read
pub record Selector : Type 0 where
  pub key : ℕ
  pub ipset_name : ℕ

-- the fields of ns, and of its podSelectors, that the handlers of pods read and write; of
-- targetSelectorsCount, how many target selectors of a key there are for ingress and for egress
pub record Ns : Type 0 where
  pub pods : List Pod
  pub entries : List Selector
  pub targets : List (ℕ × (ℕ × ℕ))
  pub ingress_default_allow : ℕ
  pub egress_default_allow : ℕ

unfoldable pub is_running : Phase → Bool
is_running succeeded = false
is_running failed = false
is_running other_phase = true

unfoldable pub has_ip : Pod → Bool
unfolding is_running
has_ip pod = is_running pod.phase && (ltb 0 pod.pod_ip && not pod.host_network)

-- `b[ak]`, which is the empty string if the key is missing
unfoldable pub label_of : ℕ → Labels → ℕ
label_of k [] = 0
label_of k ((j, v) ∷ ls) = if j == k then v else label_of k ls

unfoldable pub has_values_of : Labels → Labels → Bool
unfolding label_of
has_values_of [] b = true
has_values_of ((k, v) ∷ a) b = (label_of k b == v) && has_values_of a b

unfoldable pub equals : Labels → Labels → Bool
unfolding has_values_of
equals a b = if length a == length b then has_values_of a b else false

unfoldable pub default_allow : PolicyType → Ns → ℕ
default_allow ingress ns = ns.ingress_default_allow
default_allow egress ns = ns.egress_default_allow

unfoldable pub count_of : PolicyType → ℕ × ℕ → ℕ
count_of ingress n = n.0
count_of egress n = n.1

-- the count of a missing key is 0
unfoldable pub target_count : PolicyType → ℕ → List (ℕ × (ℕ × ℕ)) → ℕ
unfolding count_of
target_count type k [] = 0
target_count type k ((j, n) ∷ ts) = if j == k then count_of type n else target_count type k ts

unfoldable pub target_selector_exist : PolicyType → Selector → Ns → Bool
unfolding target_count
target_selector_exist type s ns = ltb 0 (target_count type s.key ns.targets)

-- `delete(ns.pods, uid)`
unfoldable pub drop_pod : ℕ → List Pod → List Pod
drop_pod u [] = []
drop_pod u (p ∷ ps) = let rest = drop_pod u ps in if p.uid == u then rest else p ∷ rest

unfoldable pub put_pod : Pod → Ns → Ns
unfolding drop_pod
put_pod pod ns = record ns { pods = pod ∷ drop_pod pod.uid ns.pods }

unfoldable pub delete_pod_of : ℕ → Ns → Ns
unfolding drop_pod
delete_pod_of u ns = record ns { pods = drop_pod u ns.pods }

module _ (kernel : Kernel) where
  open kernel use {State}

  -- what a function that calls the sets does to them
  abbrev pub Action : Type 0
  Action = Users → State → Ended kernel

  -- `if err := …; err != nil { return err }`, and then the rest
  unfoldable pub and_then : Action → Action → Action
  and_then f g t k =
      let (t', k', fine) = f t k in let rest = g t' k' in if fine then rest else (t', k', false)

  unfoldable pub nothing : Action
  nothing t k = (t, k, true)

  unfoldable pub if_so : Bool → Action → Action
  unfolding nothing
  if_so b f t k = if b then f t k else nothing t k

  -- a loop that returns at an error
  unfoldable pub each {ℓ} : {A : Type ℓ} → (A → Action) → List A → Action
  unfolding and_then nothing
  each f [] = nothing
  each f (x ∷ xs) = and_then (f x) (each f xs)

  unfoldable pub do_call : Call → Action
  unfolding call
  do_call c = call kernel c

-- `matches s labels`: does the selector match the labels?
module _ (matches : Selector → Labels → Bool) where
  -- does a selector of the list that is a target for the type match?
  unfoldable pub is_targeted : PolicyType → Labels → Ns → List Selector → Bool
  unfolding target_selector_exist
  is_targeted type ls ns [] = false
  is_targeted type ls ns (s ∷ ss) =
      (target_selector_exist type s ns && matches s ls) || is_targeted type ls ns ss

module _ (kernel : Kernel) (matches : Selector → Labels → Bool) where
  -- addToMatching but for its two flags, which are is_targeted of the two types if there is no error
  unfoldable pub add_to_matching : ℕ → Labels → ℕ → Ns → Action kernel
  unfolding each if_so do_call
  add_to_matching user ls entry ns =
      each kernel
        (λ s. if_so kernel (matches s ls) (do_call kernel (add_entry user s.ipset_name entry)))
        ns.entries

  unfoldable pub del_from_matching : ℕ → Labels → ℕ → Ns → Action kernel
  unfolding each if_so do_call
  del_from_matching user ls entry ns =
      each kernel
        (λ s. if_so kernel (matches s ls) (do_call kernel (del_entry user s.ipset_name entry)))
        ns.entries
