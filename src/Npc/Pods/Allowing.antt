-- ===== src/Npc/Pods/Allowing.antt =====
-- addPod and deletePod: who uses which entries of the sets after them.
use weave.Base.{
  ℕ, ◌≡◌, refl, sym, ap, ◌∙◌, Bool, true, false, not, ◌&&◌, ◌||◌, ◌==◌, arith, Bool-cases, inl, inr,
}
use weave.Ipset.{Kernel, Users}
use weave.Npc.Pods.{
  Pod, Labels, Selector, Ns, has_ip, put_pod, delete_pod_of, and_then, if_so, nothing,
}
use weave.Npc.Pods.Handlers.{add_pod, delete_pod}
use weave.Npc.Pods.Effects.{uses, Does}
use weave.Npc.Pods.Matching.{
  in_sets, in_any_set, with_sets, without_sets, Does-add_pod_entries, Does-delete_pod_entries,
}

module _ (kernel : Kernel) (matches : Selector → Labels → Bool) (pod : Pod) (ns : Ns) where
  open kernel use {State}

  -- If addPod ends without an error, then the uses of entries are those before it and, if the pod has an address,
  -- the pod's use of this address in the set of each selector that matches the pod's labels and, for each of the
  -- two policy types that no target selector for it matches, in the default-allow set of the type.
  pub add_pod-uses :
      (t : Users) (k : State)
      → ((add_pod kernel matches pod ns).1 t k).2 ≡ true
      → (v m f : ℕ)
      → uses ((add_pod kernel matches pod ns).1 t k).0 v m f ≡ (
          (has_ip pod && (v == pod.uid && (pod.pod_ip == f && in_sets kernel matches pod ns m)))
          || uses t v m f)
  unfolding add_pod if_so nothing with_sets Does put_pod in_sets
  add_pod-uses t k h v m f = elim (Bool-cases (has_ip pod)) [
    | inr e ↦ rw e refl
    | inl e ↦ rw e (Does-add_pod_entries kernel matches pod (put_pod pod ns) t k (rw e at h) v m f)
  ]

  -- If deletePod ends without an error, then the uses of entries are those before it without, if the pod has an
  -- address, the pod's uses of this address in the default-allow sets and the sets of the selectors that match
  -- the pod's labels.
  pub delete_pod-uses :
      (t : Users) (k : State)
      → ((delete_pod kernel matches pod ns).1 t k).2 ≡ true
      → (v m f : ℕ)
      → uses ((delete_pod kernel matches pod ns).1 t k).0 v m f ≡ (
          not (
            has_ip pod && (v == pod.uid && (pod.pod_ip == f && in_any_set kernel matches pod ns m)))
          && uses t v m f)
  unfolding delete_pod if_so nothing without_sets Does delete_pod_of in_any_set
  delete_pod-uses t k h v m f = elim (Bool-cases (has_ip pod)) [
    | inr e ↦ rw e refl
    | inl e ↦ rw e (
        Does-delete_pod_entries kernel matches pod (delete_pod_of pod.uid ns) t k (rw e at h) v m f)
  ]

-- what addPod makes, deletePod takes away
in_sets-in_any_set :
    (kernel : Kernel) (matches : Selector → Labels → Bool) (pod : Pod) (ns : Ns) (m : ℕ)
    → in_any_set kernel matches pod ns m ≡ false
    → in_sets kernel matches pod ns m ≡ false
unfolding in_sets in_any_set
in_sets-in_any_set kernel matches pod ns m h = ground (arith, h)

-- If the pod's user uses the pod's address in none of the sets, and addPod and after it deletePod of the same pod
-- end without an error, then every user uses what it used before.
pub delete_pod-add_pod :
    (kernel : Kernel) (matches : Selector → Labels → Bool) (pod : Pod) (ns : Ns) (t : Users)
    (k : kernel.State)
    → ((m : ℕ) → uses t pod.uid m pod.pod_ip ≡ false)
    → (and_then kernel
        (add_pod kernel matches pod ns).1
        (delete_pod kernel matches pod (add_pod kernel matches pod ns).0).1
        t
        k).2
      ≡ true
    → (v m f : ℕ)
    → uses
        (and_then kernel
          (add_pod kernel matches pod ns).1
          (delete_pod kernel matches pod (add_pod kernel matches pod ns).0).1
          t
          k).0
        v
        m
        f
      ≡ uses t v m f
unfolding and_then add_pod put_pod in_any_set
delete_pod-add_pod kernel matches pod ns t k fresh h v m f =
    elim (Bool-cases ((add_pod kernel matches pod ns).1 t k).2) [
      | inr bad ↦ absurd (let b : false ≡ true = (rw bad at h) in cc)
      | inl fine ↦
          let (t', k', b) = (add_pod kernel matches pod ns).1 t k in
          let first = add_pod-uses kernel matches pod ns t k fine v m f in
          let second =
            delete_pod-uses kernel matches pod (put_pod pod ns) t' k' (rw fine at h) v m f in
          let part = in_sets-in_any_set kernel matches pod ns m in
          let unused : (v == pod.uid && pod.pod_ip == f) ≡ true → uses t v m f ≡ false = λ same.
            let user : v ≡ pod.uid = ground (arith, same) in
            let entry : pod.pod_ip ≡ f = ground (arith, same) in
            ap (λ (i : ℕ). uses t i m f) user
            ∙ (ap (λ (i : ℕ). uses t pod.uid m i) (sym entry) ∙ fresh m) in
          rw fine (second ∙ rw first (ground (arith, part, unused)))
    ]
