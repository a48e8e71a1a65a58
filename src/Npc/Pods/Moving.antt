-- ===== src/Npc/Pods/Moving.antt =====
-- updatePod when the pod's address changes.
use weave.Base.{
  ℕ, ◌≡◌, refl, ◌∙◌, Bool, true, false, not, ◌&&◌, ◌||◌, List, [], ◌∷◌, ◌==◌, arith, Bool-cases,
  inl, inr, ==_self,
}
use weave.Ipset.{Kernel, Users, add_entry, del_entry, exist_user}
use weave.Npc.{PolicyType, ingress, egress}
use weave.Npc.Pods.{
  Pod, Labels, Selector, Ns, Action, has_ip, and_then, nothing, if_so, each, do_call, is_targeted,
  default_allow, target_selector_exist, put_pod, delete_pod_of, equals,
}
use weave.Npc.Pods.Handlers.{
  update_pod, update_pod_entries, update_selector, add_or_remove_to_default_allow_ipset,
  update_default_allow_ipset_entry, add_to_default_allow_if_no_matching,
}
use weave.Npc.Pods.Effects.{uses, with_use, without_use, Does, Does-add, Does-del}

module _ (kernel : Kernel) (matches : Selector → Labels → Bool) (u n e : ℕ) where
  open kernel use {State}

  -- the action leaves the user's use of the entry of the set
  unfoldable pub Keeps : Action kernel → Type 0
  unfolding uses
  Keeps act =
      (t : Users) (k : State)
      → (act t k).2 ≡ true
      → uses t u n e ≡ true
      → uses (act t k).0 u n e ≡ true

  Keeps-add : (v m f : ℕ) → Keeps (do_call kernel (add_entry v m f))
  unfolding Keeps Does with_use
  Keeps-add v m f t k h used =
      let does = Does-add kernel v m f t k h u n e in does ∙ rw used (ground arith)

  Keeps-del : (v m f : ℕ) → (f == e) ≡ false → Keeps (do_call kernel (del_entry v m f))
  unfolding Keeps Does without_use
  Keeps-del v m f apart t k h used =
      let does = Does-del kernel v m f t k h u n e in does ∙ rw (used, apart) (ground arith)

  Keeps-nothing : Keeps (nothing kernel)
  unfolding Keeps nothing
  Keeps-nothing t k h used = used

  Keeps-and_then : (f g : Action kernel) → Keeps f → Keeps g → Keeps (and_then kernel f g)
  unfolding Keeps and_then
  Keeps-and_then f g first second t k h used = elim (Bool-cases (f t k).2) [
    | inr bad ↦ absurd (let b : false ≡ true = (rw bad at h) in cc)
    | inl fine ↦
        let (t', k', b) = f t k in rw fine (second t' k' (rw fine at h) (first t k fine used))
  ]

  Keeps-if_so : (b : Bool) (f : Action kernel) → Keeps f → Keeps (if_so kernel b f)
  unfolding Keeps if_so nothing
  Keeps-if_so true f keeps t k h used = keeps t k h used
  Keeps-if_so false f keeps t k h used = used

  Keeps-each :
      (f : Selector → Action kernel)
      → ((s : Selector) → Keeps (f s))
      → (ss : List Selector) → Keeps (each kernel f ss)
  unfolding each
  Keeps-each f keeps [] = Keeps-nothing
  Keeps-each f keeps (s ∷ ss) =
      Keeps-and_then (f s) (each kernel f ss) (keeps s) (Keeps-each f keeps ss)

  module _ (old new : Pod) (ns : Ns) (moved : (old.pod_ip == e) ≡ false) where
    Keeps-add_or_remove :
        (s : Selector) (a b : Bool) (type : PolicyType)
        → Keeps (add_or_remove_to_default_allow_ipset kernel matches s old new a b type ns)
    unfolding add_or_remove_to_default_allow_ipset add_to_default_allow_if_no_matching Keeps nothing
    Keeps-add_or_remove s a b type t k h used =
        elim (Bool-cases (target_selector_exist type s ns)) [
          | inr none ↦ rw none used
          | inl some ↦ elim (Bool-cases (not a && b)) [
            | inl c ↦
                rw (some, c)
                  (Keeps-del old.uid (default_allow type ns) old.pod_ip moved t k
                    (rw (some, c) at h) used)
            | inr c ↦
                let untargeted = not (is_targeted matches type new.labels ns ns.entries) in
                let act = do_call kernel (add_entry new.uid (default_allow type ns) new.pod_ip) in
                rw (some, c)
                  (Keeps-if_so (a && not b) (if_so kernel untargeted act)
                    (Keeps-if_so untargeted act
                      (Keeps-add new.uid (default_allow type ns) new.pod_ip))
                    t k (rw (some, c) at h) used)
          ]
        ]

    pub Keeps-update_selector : (s : Selector) → Keeps (update_selector kernel matches old new ns s)
    unfolding update_selector
    Keeps-update_selector s =
        let a = matches s old.labels in
        let b = matches s new.labels in
        let same = ((a && b) || (not a && not b)) && old.pod_ip == new.pod_ip in
        let first = if_so kernel a (do_call kernel (del_entry old.uid s.ipset_name old.pod_ip)) in
        let second = if_so kernel b (do_call kernel (add_entry new.uid s.ipset_name new.pod_ip)) in
        let third = add_or_remove_to_default_allow_ipset kernel matches s old new a b ingress ns in
        let fourth = add_or_remove_to_default_allow_ipset kernel matches s old new a b egress ns in
        Keeps-if_so (not same)
          (and_then kernel first (and_then kernel second (and_then kernel third fourth)))
          (Keeps-and_then first (and_then kernel second (and_then kernel third fourth))
            (Keeps-if_so a (do_call kernel (del_entry old.uid s.ipset_name old.pod_ip))
              (Keeps-del old.uid s.ipset_name old.pod_ip moved))
            (Keeps-and_then second (and_then kernel third fourth)
              (Keeps-if_so b (do_call kernel (add_entry new.uid s.ipset_name new.pod_ip))
                (Keeps-add new.uid s.ipset_name new.pod_ip))
              (Keeps-and_then third fourth (Keeps-add_or_remove s a b ingress)
                (Keeps-add_or_remove s a b egress))))

    pub Keeps-update_entry :
        (set : ℕ) → Keeps (update_default_allow_ipset_entry kernel matches old new set)
    unfolding update_default_allow_ipset_entry Keeps
    Keeps-update_entry set t k h used =
        let first = do_call kernel (del_entry old.uid set old.pod_ip) in
        let second = do_call kernel (add_entry new.uid set new.pod_ip) in
        Keeps-if_so (exist_user old.uid set old.pod_ip t) (and_then kernel first second)
          (Keeps-and_then first second (Keeps-del old.uid set old.pod_ip moved)
            (Keeps-add new.uid set new.pod_ip))
          t k h used

module _ (kernel : Kernel) (matches : Selector → Labels → Bool) (t : Users) (k : kernel.State)
    (u n e : ℕ) where
  -- after the action the user uses the entry of the set
  unfoldable pub Makes : Action kernel → Type 0
  unfolding uses
  Makes act = (act t k).2 ≡ true → uses (act t k).0 u n e ≡ true

  Makes-and_then :
      (f g : Action kernel) → Makes f → Keeps kernel matches u n e g → Makes (and_then kernel f g)
  unfolding Makes Keeps and_then
  Makes-and_then f g first second h = elim (Bool-cases (f t k).2) [
    | inr bad ↦ absurd (let b : false ≡ true = (rw bad at h) in cc)
    | inl fine ↦ let (t', k', b) = f t k in rw fine (second t' k' (rw fine at h) (first fine))
  ]

Makes-update_entry :
    (kernel : Kernel) (matches : Selector → Labels → Bool) (old new : Pod) (set : ℕ) (t : Users)
    (k : kernel.State)
    → uses t old.uid set old.pod_ip ≡ true
    → Makes kernel matches t k new.uid set new.pod_ip
        (update_default_allow_ipset_entry kernel matches old new set)
unfolding Makes update_default_allow_ipset_entry if_so and_then uses Does with_use
Makes-update_entry kernel matches old new set t k used h =
    elim (Bool-cases (do_call kernel (del_entry old.uid set old.pod_ip) t k).2) [
      | inr bad ↦ absurd (let b : false ≡ true = (rw (used, bad) at h) in cc)
      | inl fine ↦
          let (t', k', b) = do_call kernel (del_entry old.uid set old.pod_ip) t k in
          rw (used, fine)
            (Does-add kernel new.uid set new.pod_ip t' k' (rw (used, fine) at h) new.uid set
                new.pod_ip
              ∙ rw (==_self new.uid, ==_self set, ==_self new.pod_ip) refl)
    ]

-- If the pod's address changes, its old address is used in the ingress default-allow set, and updatePod ends
-- without an error, then its new address is used in this set, whatever the pod's new labels are: also if a target
-- selector for ingress matches them, where addPod of the new pod would not put it there.
pub update_pod-stays_allowed :
    (kernel : Kernel) (matches : Selector → Labels → Bool) (old new : Pod) (ns : Ns) (t : Users)
    (k : kernel.State)
    → has_ip old ≡ true
    → has_ip new ≡ true
    → (old.pod_ip == new.pod_ip) ≡ false
    → uses t old.uid ns.ingress_default_allow old.pod_ip ≡ true
    → ((update_pod kernel matches old new ns).1 t k).2 ≡ true
    → uses
        ((update_pod kernel matches old new ns).1 t k).0
        new.uid
        ns.ingress_default_allow
        new.pod_ip
      ≡ true
unfolding update_pod update_pod_entries put_pod delete_pod_of and_then if_so Makes
update_pod-stays_allowed kernel matches old new ns t k up up' moved used h =
    let ns' = put_pod new (delete_pod_of old.uid ns) in
    let first = update_default_allow_ipset_entry kernel matches old new ns.ingress_default_allow in
    let second = update_default_allow_ipset_entry kernel matches old new ns.egress_default_allow in
    let rest =
      if_so kernel (not (equals old.labels new.labels) || true)
        (each kernel (update_selector kernel matches old new ns') ns.entries) in
    let made =
      Makes-and_then kernel matches t k new.uid ns.ingress_default_allow new.pod_ip
        (and_then kernel first second) rest
        (Makes-and_then kernel matches t k new.uid ns.ingress_default_allow new.pod_ip first second
          (Makes-update_entry kernel matches old new ns.ingress_default_allow t k used)
          (Keeps-update_entry kernel matches new.uid ns.ingress_default_allow new.pod_ip old new ns
            moved ns.egress_default_allow))
        (Keeps-if_so kernel matches new.uid ns.ingress_default_allow new.pod_ip
          (not (equals old.labels new.labels) || true)
          (each kernel (update_selector kernel matches old new ns') ns.entries)
          (Keeps-each kernel matches new.uid ns.ingress_default_allow new.pod_ip
            (update_selector kernel matches old new ns')
            (Keeps-update_selector kernel matches new.uid ns.ingress_default_allow new.pod_ip old
              new ns' moved)
            ns.entries)) in
    rw (up, up', moved) (made (rw (up, up', moved) at h))
