-- ===== src/Npc/Pods/Matching.antt =====
-- The entries that addPod makes and deletePod takes away.
use weave.Base.{
  ℕ, refl, ap, Bool, false, not, ◌&&◌, ◌||◌, List, [], ◌∷◌, ◌==◌, if◌then◌else◌, arith,
}
use weave.Ipset.{Kernel, add_entry, del_entry}
use weave.Npc.{ingress, egress}
use weave.Npc.Pods.{
  Pod, Labels, Selector, Ns, Action, and_then, nothing, if_so, each, do_call, is_targeted,
  add_to_matching, del_from_matching,
}
use weave.Npc.Pods.Handlers.{add_pod_entries, delete_pod_entries}
use weave.Npc.Pods.Effects.{
  Uses, with_use, without_use, Does, Does-add, Does-del, Does-nothing, Does-and_then, Does-if_so,
  Does-same,
}

module _ (kernel : Kernel) (matches : Selector → Labels → Bool) where
  open kernel use {State}

  -- is it the set of a selector that matches?
  unfoldable pub in_matching : Labels → List Selector → ℕ → Bool
  in_matching ls [] m = false
  in_matching ls (s ∷ ss) m = (matches s ls && s.ipset_name == m) || in_matching ls ss m

  -- the sets that a pod's address is to be in
  unfoldable pub in_sets : Pod → Ns → ℕ → Bool
  unfolding in_matching is_targeted
  in_sets pod ns m =
      in_matching pod.labels ns.entries m
      || ((not (is_targeted matches ingress pod.labels ns ns.entries)
            && ns.ingress_default_allow == m)
          || (not (is_targeted matches egress pod.labels ns ns.entries)
              && ns.egress_default_allow == m))

  -- the sets that a pod's address is taken out of
  unfoldable pub in_any_set : Pod → Ns → ℕ → Bool
  unfolding in_matching
  in_any_set pod ns m =
      ns.ingress_default_allow == m
      || (ns.egress_default_allow == m || in_matching pod.labels ns.entries m)

  -- the pod's user also uses its address in some sets, or no more
  unfoldable pub with_sets : ℕ → ℕ → (ℕ → Bool) → Uses → Uses
  with_sets u e among h v m f = (v == u && (e == f && among m)) || h v m f

  unfoldable pub without_sets : ℕ → ℕ → (ℕ → Bool) → Uses → Uses
  without_sets u e among h v m f = not (v == u && (e == f && among m)) && h v m f

  module _ (u e : ℕ) (ls : Labels) where
    added-each :
        (ss : List Selector)
        → Does kernel
            (each kernel
              (λ s. if_so kernel (matches s ls) (do_call kernel (add_entry u s.ipset_name e)))
              ss)
            (with_sets u e (in_matching ls ss))
    unfolding each with_sets in_matching with_use
    added-each [] =
        Does-same kernel (nothing kernel) (λ h. h) (with_sets u e (in_matching ls []))
          (Does-nothing kernel) (λ h v m f. ground arith)
    added-each (s ∷ ss) =
        let first = if_so kernel (matches s ls) (do_call kernel (add_entry u s.ipset_name e)) in
        let rest =
          each kernel
            (λ s'. if_so kernel (matches s' ls) (do_call kernel (add_entry u s'.ipset_name e)))
            ss in
        let change : Uses → Uses =
          λ h v m f. if matches s ls then with_use u s.ipset_name e h v m f else h v m f in
        Does-same kernel (and_then kernel first rest)
          (λ h. with_sets u e (in_matching ls ss) (change h))
          (with_sets u e (in_matching ls (s ∷ ss)))
          (Does-and_then kernel first rest change (with_sets u e (in_matching ls ss))
            (Does-if_so kernel (matches s ls) (do_call kernel (add_entry u s.ipset_name e))
              (with_use u s.ipset_name e) (Does-add kernel u s.ipset_name e))
            (added-each ss)
            (λ g h same v m f.
              ap (λ (b : Bool). (v == u && (e == f && in_matching ls ss m)) || b) (same v m f)))
          (λ h v m f. ground arith)

    removed-each :
        (ss : List Selector)
        → Does kernel
            (each kernel
              (λ s. if_so kernel (matches s ls) (do_call kernel (del_entry u s.ipset_name e)))
              ss)
            (without_sets u e (in_matching ls ss))
    unfolding each without_sets in_matching without_use
    removed-each [] =
        Does-same kernel (nothing kernel) (λ h. h) (without_sets u e (in_matching ls []))
          (Does-nothing kernel) (λ h v m f. ground arith)
    removed-each (s ∷ ss) =
        let first = if_so kernel (matches s ls) (do_call kernel (del_entry u s.ipset_name e)) in
        let rest =
          each kernel
            (λ s'. if_so kernel (matches s' ls) (do_call kernel (del_entry u s'.ipset_name e)))
            ss in
        let change : Uses → Uses =
          λ h v m f. if matches s ls then without_use u s.ipset_name e h v m f else h v m f in
        Does-same kernel (and_then kernel first rest)
          (λ h. without_sets u e (in_matching ls ss) (change h))
          (without_sets u e (in_matching ls (s ∷ ss)))
          (Does-and_then kernel first rest change (without_sets u e (in_matching ls ss))
            (Does-if_so kernel (matches s ls) (do_call kernel (del_entry u s.ipset_name e))
              (without_use u s.ipset_name e) (Does-del kernel u s.ipset_name e))
            (removed-each ss)
            (λ g h same v m f.
              ap (λ (b : Bool). not (v == u && (e == f && in_matching ls ss m)) && b) (same v m f)))
          (λ h v m f. ground arith)

  module _ (pod : Pod) (ns : Ns) where
    abbrev adds : Bool → ℕ → Action kernel
    adds b set = if_so kernel b (do_call kernel (add_entry pod.uid set pod.pod_ip))

    abbrev added : Bool → ℕ → Uses → Uses
    added b set h v m f = if b then with_use pod.uid set pod.pod_ip h v m f else h v m f

    abbrev deletes : ℕ → Action kernel
    deletes set = do_call kernel (del_entry pod.uid set pod.pod_ip)

    Does-adds : (b : Bool) (set : ℕ) → Does kernel (adds b set) (added b set)
    Does-adds b set =
        Does-if_so kernel b (do_call kernel (add_entry pod.uid set pod.pod_ip))
          (with_use pod.uid set pod.pod_ip) (Does-add kernel pod.uid set pod.pod_ip)

    pub Does-add_pod_entries :
        Does kernel
          (add_pod_entries kernel matches pod ns)
          (with_sets pod.uid pod.pod_ip (in_sets pod ns))
    unfolding add_pod_entries add_to_matching with_sets with_use in_sets
    Does-add_pod_entries =
        let a = not (is_targeted matches ingress pod.labels ns ns.entries) in
        let b = not (is_targeted matches egress pod.labels ns ns.entries) in
        let first = add_to_matching kernel matches pod.uid pod.labels pod.pod_ip ns in
        let second = adds a ns.ingress_default_allow in
        let third = adds b ns.egress_default_allow in
        let matched = with_sets pod.uid pod.pod_ip (in_matching pod.labels ns.entries) in
        let into = added a ns.ingress_default_allow in
        let out = added b ns.egress_default_allow in
        Does-same kernel (add_pod_entries kernel matches pod ns) (λ h. out (into (matched h)))
          (with_sets pod.uid pod.pod_ip (in_sets pod ns))
          (Does-and_then kernel first (and_then kernel second third) matched (λ h. out (into h))
            (added-each pod.uid pod.pod_ip pod.labels ns.entries)
            (Does-and_then kernel second third into out (Does-adds a ns.ingress_default_allow)
              (Does-adds b ns.egress_default_allow) (λ g h same v m f. rw (same v m f) refl))
            (λ g h same v m f. rw (same v m f) refl))
          (λ h v m f. ground arith)

    pub Does-delete_pod_entries :
        Does kernel
          (delete_pod_entries kernel matches pod ns)
          (without_sets pod.uid pod.pod_ip (in_any_set pod ns))
    unfolding delete_pod_entries del_from_matching without_sets without_use in_any_set
    Does-delete_pod_entries =
        let first = deletes ns.ingress_default_allow in
        let second = deletes ns.egress_default_allow in
        let third = del_from_matching kernel matches pod.uid pod.labels pod.pod_ip ns in
        let into = without_use pod.uid ns.ingress_default_allow pod.pod_ip in
        let out = without_use pod.uid ns.egress_default_allow pod.pod_ip in
        let matched = without_sets pod.uid pod.pod_ip (in_matching pod.labels ns.entries) in
        Does-same kernel (delete_pod_entries kernel matches pod ns) (λ h. matched (out (into h)))
          (without_sets pod.uid pod.pod_ip (in_any_set pod ns))
          (Does-and_then kernel first (and_then kernel second third) into (λ h. matched (out h))
            (Does-del kernel pod.uid ns.ingress_default_allow pod.pod_ip)
            (Does-and_then kernel second third out matched
              (Does-del kernel pod.uid ns.egress_default_allow pod.pod_ip)
              (removed-each pod.uid pod.pod_ip pod.labels ns.entries)
              (λ g h same v m f. rw (same v m f) refl))
            (λ g h same v m f. rw (same v m f) refl))
          (λ h v m f. ground arith)
