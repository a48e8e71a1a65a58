-- ===== src/Npc/Pods/Targets.antt =====
-- The default-allow sets when a selector becomes a target or is one no more.
use weave.Base.{
  ℕ, ◌≡◌, refl, ap, ◌∙◌, Bool, true, false, not, ◌&&◌, ◌||◌, List, [], ◌∷◌, ◌==◌, if◌then◌else◌,
  arith, Bool-cases, inl, inr, ==→eq, ==_self,
}
use weave.Ipset.{Kernel, Users, add_entry, del_entry}
use weave.Npc.{PolicyType}
use weave.Npc.Pods.{
  Pod, Labels, Selector, Ns, Action, has_ip, and_then, nothing, if_so, each, do_call, is_targeted,
  default_allow,
}
use weave.Npc.Pods.Handlers.{
  on_new_target_pod_selector, on_destroy_target_pod_selector, add_to_default_allow_if_no_matching,
}
use weave.Npc.Pods.Effects.{
  Uses, uses, with_use, without_use, Does, Does-add, Does-del, Does-nothing, Does-and_then,
  Does-if_so, Does-same,
}

-- has a pod with this user and address, and with labels for which the test holds?
unfoldable pub some_pod : (Labels → Bool) → ℕ → ℕ → List Pod → Bool
unfolding has_ip
some_pod test v f [] = false
some_pod test v f (p ∷ ps) =
    (has_ip p && (test p.labels && (v == p.uid && p.pod_ip == f))) || some_pod test v f ps

module _ (kernel : Kernel) (set : ℕ) (test : Labels → Bool) where
  unfoldable with_pods : List Pod → Uses → Uses
  with_pods ps h v m f = (set == m && some_pod test v f ps) || h v m f

  unfoldable without_pods : List Pod → Uses → Uses
  without_pods ps h v m f = not (set == m && some_pod test v f ps) && h v m f

  abbrev deletes : Pod → Action kernel
  deletes p =
      if_so kernel (has_ip p && test p.labels) (do_call kernel (del_entry p.uid set p.pod_ip))

  deleted-each : (ps : List Pod) → Does kernel (each kernel deletes ps) (without_pods ps)
  unfolding each without_pods some_pod without_use
  deleted-each [] =
      Does-same kernel (nothing kernel) (λ h. h) (without_pods []) (Does-nothing kernel)
        (λ h v m f. ground arith)
  deleted-each (p ∷ ps) =
      let b = has_ip p && test p.labels in
      let change : Uses → Uses =
        λ h v m f. if b then without_use p.uid set p.pod_ip h v m f else h v m f in
      Does-same kernel (and_then kernel (deletes p) (each kernel deletes ps))
        (λ h. without_pods ps (change h)) (without_pods (p ∷ ps))
        (Does-and_then kernel (deletes p) (each kernel deletes ps) change (without_pods ps)
          (Does-if_so kernel b (do_call kernel (del_entry p.uid set p.pod_ip))
            (without_use p.uid set p.pod_ip) (Does-del kernel p.uid set p.pod_ip))
          (deleted-each ps) (λ g h same v m f. rw (same v m f) refl))
        (λ h v m f. ground arith)

  module _ (act : Pod → Action kernel)
      (does : (p : Pod)
        → Does kernel (act p) (λ h v m f.
          if has_ip p && test p.labels then with_use p.uid set p.pod_ip h v m f else h v m f)) where
    added-each : (ps : List Pod) → Does kernel (each kernel act ps) (with_pods ps)
    unfolding each with_pods some_pod with_use
    added-each [] =
        Does-same kernel (nothing kernel) (λ h. h) (with_pods []) (Does-nothing kernel)
          (λ h v m f. ground arith)
    added-each (p ∷ ps) =
        let change : Uses → Uses = λ h v m f.
          if has_ip p && test p.labels then with_use p.uid set p.pod_ip h v m f else h v m f in
        Does-same kernel (and_then kernel (act p) (each kernel act ps))
          (λ h. with_pods ps (change h)) (with_pods (p ∷ ps))
          (Does-and_then kernel (act p) (each kernel act ps) change (with_pods ps) (does p)
            (added-each ps) (λ g h same v m f. rw (same v m f) refl))
          (λ h v m f. ground arith)

-- is there a pod with this UID?
unfoldable pub has_pod : ℕ → List Pod → Bool
has_pod v [] = false
has_pod v (p ∷ ps) = v == p.uid || has_pod v ps

-- the pods have distinct UIDs, as they are keys
abbrev pub IsKeyed : List Pod → Type 0
IsKeyed [] = Unit
IsKeyed (p ∷ ps) = (has_pod p.uid ps ≡ false) × IsKeyed ps

some_pod-absent :
    (test : Labels → Bool) (v f : ℕ) (ps : List Pod)
    → has_pod v ps ≡ false
    → some_pod test v f ps ≡ false
unfolding some_pod has_pod
some_pod-absent test v f [] h = refl
some_pod-absent test v f (p ∷ ps) h = ground (arith, some_pod-absent test v f ps, h)

module _ (was is now : Labels → Bool) (v f : ℕ) where
  -- the pods that the test `is` selects come
  some_pod-more :
      (ps : List Pod)
      → ((ls : Labels) → was ls ≡ (is ls || now ls))
      → (some_pod (λ ls. is ls && not (now ls)) v f ps || some_pod (λ ls. not (was ls)) v f ps)
        ≡ some_pod (λ ls. not (now ls)) v f ps
  unfolding some_pod
  some_pod-more [] h = refl
  some_pod-more (p ∷ ps) h = let here = h p.labels in ground (arith, here, some_pod-more ps h)

  -- the pods that the test `is` selects go
  some_pod-less :
      (ps : List Pod)
      → IsKeyed ps
      → ((ls : Labels) → now ls ≡ (is ls || was ls))
      → (not (some_pod is v f ps) && some_pod (λ ls. not (was ls)) v f ps)
        ≡ some_pod (λ ls. not (now ls)) v f ps
  unfolding some_pod
  some_pod-less [] keyed h = refl
  some_pod-less (p ∷ ps) keyed h =
      let here = h p.labels in
      elim (Bool-cases (v == p.uid)) [
        | inr e ↦ rw e (ground (arith, some_pod-less ps keyed.1 h))
        | inl e ↦
            let absent : has_pod v ps ≡ false =
              ap (λ (i : ℕ). has_pod i ps) (==→eq v p.uid e) ∙ keyed.0 in
            rw
              (
                e,
                some_pod-absent is v f ps absent,
                some_pod-absent (λ ls. not (was ls)) v f ps absent,
                some_pod-absent (λ ls. not (now ls)) v f ps absent,
              )
              (ground (arith, here))
      ]

module _ (kernel : Kernel) (matches : Selector → Labels → Bool) (s : Selector) (type : PolicyType)
    (ns : Ns) where
  open kernel use {State}

  abbrev targeted : Labels → Bool
  targeted ls = is_targeted matches type ls ns ns.entries

  adds-pod :
      (p : Pod)
      → Does kernel
          (if_so kernel
            (has_ip p && matches s p.labels)
            (add_to_default_allow_if_no_matching kernel matches p type ns))
          (λ h v m f.
            if has_ip p && (matches s p.labels && not (targeted p.labels))
            then with_use p.uid (default_allow type ns) p.pod_ip h v m f
            else h v m f)
  unfolding add_to_default_allow_if_no_matching
  adds-pod p =
      let a = has_ip p && matches s p.labels in
      let b = not (targeted p.labels) in
      let act = do_call kernel (add_entry p.uid (default_allow type ns) p.pod_ip) in
      let used = with_use p.uid (default_allow type ns) p.pod_ip in
      Does-same kernel (if_so kernel a (if_so kernel b act))
        (λ h v m f. if a then (if b then used h v m f else h v m f) else h v m f)
        (λ h v m f. if has_ip p && (matches s p.labels && b) then used h v m f else h v m f)
        (Does-if_so kernel a (if_so kernel b act) (λ h v m f. if b then used h v m f else h v m f)
          (Does-if_so kernel b act used (Does-add kernel p.uid (default_allow type ns) p.pod_ip)))
        (λ h v m f. ground arith)

  -- the default-allow set of the type has the pods with an address whose labels do not pass the test
  abbrev pub Allows : (Labels → Bool) → Users → Type 0
  Allows test t =
      (v f : ℕ) → uses t v (default_allow type ns) f ≡ some_pod (λ ls. not (test ls)) v f ns.pods

  -- If the default-allow set of the type holds exactly the pods with an address whose labels do not pass the test
  -- `was`, the target selectors for the type are now those that made it and the selector, the pods have distinct
  -- UIDs, and onNewTargetPodSelector ends without an error, then the set holds exactly the pods with an address
  -- whose labels no target selector for the type matches.
  pub on_new_target_pod_selector-Allows :
      (was : Labels → Bool) (t : Users) (k : State)
      → IsKeyed ns.pods
      → Allows was t
      → ((ls : Labels) → targeted ls ≡ (matches s ls || was ls))
      → (on_new_target_pod_selector kernel matches s type ns t k).2 ≡ true
      → Allows targeted (on_new_target_pod_selector kernel matches s type ns t k).0
  unfolding on_new_target_pod_selector Does without_pods
  on_new_target_pod_selector-Allows was t k keyed allows more fine v f =
      let set = default_allow type ns in
      let done = deleted-each kernel set (matches s) ns.pods t k fine v set f in
      done
      ∙ rw (==_self set, allows v f) (some_pod-less was (matches s) targeted v f ns.pods keyed more)

  -- If the default-allow set of the type holds exactly the pods with an address whose labels do not pass the test
  -- `was`, this test passes what the target selectors for the type match and what the selector matches, and
  -- onDestroyTargetPodSelector ends without an error, then the set holds exactly the pods with an address whose
  -- labels no target selector for the type matches.
  pub on_destroy_target_pod_selector-Allows :
      (was : Labels → Bool) (t : Users) (k : State)
      → Allows was t
      → ((ls : Labels) → was ls ≡ (matches s ls || targeted ls))
      → (on_destroy_target_pod_selector kernel matches s type ns t k).2 ≡ true
      → Allows targeted (on_destroy_target_pod_selector kernel matches s type ns t k).0
  unfolding on_destroy_target_pod_selector add_to_default_allow_if_no_matching Does with_pods
  on_destroy_target_pod_selector-Allows was t k allows less fine v f =
      let set = default_allow type ns in
      let act = λ (p : Pod).
        if_so kernel (has_ip p && matches s p.labels)
          (add_to_default_allow_if_no_matching kernel matches p type ns) in
      let done =
        added-each kernel set (λ ls. matches s ls && not (targeted ls)) act adds-pod ns.pods t k
          fine v set f in
      done ∙ rw (==_self set, allows v f) (some_pod-more was (matches s) targeted v f ns.pods less)
