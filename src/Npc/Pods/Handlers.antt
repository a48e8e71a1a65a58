-- ===== src/Npc/Pods/Handlers.antt =====
-- npc/namespace.go: the handlers of pods and of new and destroyed selectors.
use weave.Base.{ℕ, Bool, not, ◌&&◌, ◌||◌, ◌==◌, if◌then◌else◌}
use weave.Ipset.{Kernel, add_entry, del_entry, exist_user}
use weave.Npc.{PolicyType, ingress, egress}
use weave.Npc.Pods.{
  Pod, Labels, Selector, Ns, has_ip, equals, default_allow, target_selector_exist, put_pod,
  delete_pod_of, Action, and_then, nothing, if_so, each, do_call, is_targeted, add_to_matching,
  del_from_matching,
}

module _ (kernel : Kernel) (matches : Selector → Labels → Bool) where
  open kernel use {State}

  -- AddEntry and DelEntry of a pod's address
  abbrev adds : Pod → ℕ → Action kernel
  adds pod set = do_call kernel (add_entry pod.uid set pod.pod_ip)

  abbrev deletes : Pod → ℕ → Action kernel
  deletes pod set = do_call kernel (del_entry pod.uid set pod.pod_ip)

  unfoldable pub on_new_pod_selector : Selector → Ns → Action kernel
  unfolding each if_so do_call has_ip
  on_new_pod_selector s ns =
      each kernel (λ pod. if_so kernel (has_ip pod && matches s pod.labels) (adds pod s.ipset_name))
        ns.pods

  unfoldable pub on_new_target_pod_selector : Selector → PolicyType → Ns → Action kernel
  unfolding each if_so do_call has_ip default_allow
  on_new_target_pod_selector s type ns =
      each kernel
        (λ pod.
          if_so kernel (has_ip pod && matches s pod.labels) (deletes pod (default_allow type ns)))
        ns.pods

  unfoldable pub add_to_default_allow_if_no_matching : Pod → PolicyType → Ns → Action kernel
  unfolding if_so do_call is_targeted default_allow
  add_to_default_allow_if_no_matching pod type ns =
      if_so kernel (not (is_targeted matches type pod.labels ns ns.entries))
        (adds pod (default_allow type ns))

  unfoldable pub on_destroy_target_pod_selector : Selector → PolicyType → Ns → Action kernel
  unfolding each if_so has_ip add_to_default_allow_if_no_matching
  on_destroy_target_pod_selector s type ns =
      each kernel
        (λ pod.
          if_so kernel (has_ip pod && matches s pod.labels)
            (add_to_default_allow_if_no_matching pod type ns))
        ns.pods

  -- addPod, and updatePod's case of a new address, but for ns.pods
  unfoldable pub add_pod_entries : Pod → Ns → Action kernel
  unfolding and_then if_so do_call add_to_matching is_targeted
  add_pod_entries pod ns =
      and_then kernel (add_to_matching kernel matches pod.uid pod.labels pod.pod_ip ns) (
        and_then kernel
          (if_so kernel (not (is_targeted matches ingress pod.labels ns ns.entries))
            (adds pod ns.ingress_default_allow))
          (if_so kernel (not (is_targeted matches egress pod.labels ns ns.entries))
            (adds pod ns.egress_default_allow)))

  -- deletePod, and updatePod's case of an address that goes, but for ns.pods
  unfoldable pub delete_pod_entries : Pod → Ns → Action kernel
  unfolding and_then do_call del_from_matching
  delete_pod_entries pod ns = and_then kernel (deletes pod ns.ingress_default_allow) (
      and_then kernel (deletes pod ns.egress_default_allow)
        (del_from_matching kernel matches pod.uid pod.labels pod.pod_ip ns))

  -- a handler's new ns, and what it does to the sets
  unfoldable pub add_pod : Pod → Ns → Ns × Action kernel
  unfolding put_pod if_so has_ip add_pod_entries
  add_pod pod ns =
      let ns' = put_pod pod ns in (ns', if_so kernel (has_ip pod) (add_pod_entries pod ns'))

  unfoldable pub delete_pod : Pod → Ns → Ns × Action kernel
  unfolding delete_pod_of if_so has_ip delete_pod_entries
  delete_pod pod ns =
      let ns' = delete_pod_of pod.uid ns in
      (ns', if_so kernel (has_ip pod) (delete_pod_entries pod ns'))

  unfoldable pub update_default_allow_ipset_entry : Pod → Pod → ℕ → Action kernel
  unfolding and_then if_so do_call exist_user
  update_default_allow_ipset_entry old new set t k =
      if_so kernel (exist_user old.uid set old.pod_ip t)
        (and_then kernel (deletes old set) (adds new set)) t k

  unfoldable pub add_or_remove_to_default_allow_ipset :
      Selector → Pod → Pod → Bool → Bool → PolicyType → Ns → Action kernel
  unfolding if_so do_call nothing target_selector_exist default_allow
      add_to_default_allow_if_no_matching
  add_or_remove_to_default_allow_ipset s old new old_match new_match type ns t k =
      if target_selector_exist type s ns
      then (if not old_match && new_match
          then deletes old (default_allow type ns) t k
          else if_so kernel (old_match && not new_match)
              (add_to_default_allow_if_no_matching new type ns) t k)
      else nothing kernel t k

  -- the body of updatePod's loop over the selectors
  unfoldable pub update_selector : Pod → Pod → Ns → Selector → Action kernel
  unfolding and_then if_so do_call nothing add_or_remove_to_default_allow_ipset
  update_selector old new ns s =
      let old_match = matches s old.labels in
      let new_match = matches s new.labels in
      let same =
        ((old_match && new_match) || (not old_match && not new_match))
        && old.pod_ip == new.pod_ip in
      if_so kernel (not same) (
        and_then kernel (if_so kernel old_match (deletes old s.ipset_name)) (
          and_then kernel (if_so kernel new_match (adds new s.ipset_name)) (
            and_then kernel
              (add_or_remove_to_default_allow_ipset s old new old_match new_match ingress ns)
              (add_or_remove_to_default_allow_ipset s old new old_match new_match egress ns))))

  unfoldable pub update_pod_entries : Pod → Pod → Ns → Action kernel
  unfolding and_then if_so each equals update_default_allow_ipset_entry update_selector
  update_pod_entries old new ns =
      let moved = not (old.pod_ip == new.pod_ip) in
      and_then kernel
        (if_so kernel moved (
          and_then kernel (update_default_allow_ipset_entry old new ns.ingress_default_allow)
            (update_default_allow_ipset_entry old new ns.egress_default_allow)))
        (if_so kernel (not (equals old.labels new.labels) || moved)
          (each kernel (update_selector old new ns) ns.entries))

  unfoldable pub update_pod : Pod → Pod → Ns → Ns × Action kernel
  unfolding put_pod delete_pod_of has_ip nothing add_pod_entries delete_pod_entries
      update_pod_entries
  update_pod old new ns =
      let ns' = put_pod new (delete_pod_of old.uid ns) in
      (
        ns',
        λ t k.
            if has_ip old
            then (if has_ip new
                then update_pod_entries old new ns' t k
                else delete_pod_entries old ns' t k)
            else (if has_ip new then add_pod_entries new ns' t k else nothing kernel t k),
      )
