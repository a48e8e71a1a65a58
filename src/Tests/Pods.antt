-- ===== src/Tests/Pods.antt =====
-- Pods of a namespace with one policy.
use weave.Base.{ℕ, ◌≡◌, refl, Bool, true, false, not, ◌&&◌, ◌||◌, [], ◌∷◌, ◌==◌, arith}
use weave.Ipset.{
  Users, exist_user, users_of, put_users, drop_users, is_user, with_user, without_user, call,
  add_user, del_user, do_exec,
}
use weave.Npc.{ingress}
use weave.Npc.Pods.{
  Pod, Labels, Selector, Ns, other_phase, has_ip, and_then, nothing, if_so, each, do_call,
  is_targeted, default_allow, target_selector_exist, target_count, put_pod, delete_pod_of, drop_pod,
  add_to_matching, del_from_matching, equals, has_values_of, label_of, is_running, count_of,
}
use weave.Npc.Pods.Handlers.{
  add_pod, delete_pod, update_pod, add_pod_entries, delete_pod_entries, update_pod_entries,
  update_selector, update_default_allow_ipset_entry, add_or_remove_to_default_allow_ipset,
  add_to_default_allow_if_no_matching, on_new_target_pod_selector, on_destroy_target_pod_selector,
}
use weave.Npc.Pods.Effects.{uses}
use weave.Npc.Pods.Matching.{in_sets}
use weave.Npc.Pods.Allowing.{add_pod-uses, delete_pod-add_pod}
use weave.Npc.Pods.Moving.{update_pod-stays_allowed}
use weave.Npc.Pods.Targets.{
  has_pod, some_pod, on_new_target_pod_selector-Allows, on_destroy_target_pod_selector-Allows,
}
use weave.Tests.Ipsets.{kernel, without}

-- the selector of the key k selects the pods whose label 1 has the value k
abbrev matches : Selector → Labels → Bool
matches s ls = label_of 1 ls == s.key

abbrev backend : Selector
backend = record { key = 5; ipset_name = 40 }

abbrev pod : Pod
pod = record {
  uid = 7;
  labels = (1, 5) ∷ [];
  pod_ip = 100;
  phase = other_phase;
  host_network = false;
}

-- the pod before it had the label, at another address
abbrev unlabelled : Pod
unlabelled = record { uid = 7; labels = []; pod_ip = 99; phase = other_phase; host_network = false }

-- backend is a target for ingress
abbrev ns : Ns
ns = record {
  pods = [];
  entries = backend ∷ [];
  targets = (5, (1, 0)) ∷ [];
  ingress_default_allow = 20;
  egress_default_allow = 30;
}

-- the pod is in the set of backend and in the default-allow set for egress, not in the one for ingress
add_pod-pod :
    ((add_pod kernel matches pod ns).1 [] []).0 ≡ (40, 100, 7 ∷ []) ∷ (30, 100, 7 ∷ []) ∷ []
unfolding add_pod add_pod_entries add_to_matching has_ip is_running put_pod drop_pod and_then
    nothing if_so each do_call call add_user del_user do_exec users_of put_users drop_users is_user
    with_user without_user without uses exist_user is_targeted target_selector_exist target_count
    count_of label_of default_allow
add_pod-pod = refl

add_pod-uses_example : uses ((add_pod kernel matches pod ns).1 [] []).0 7 20 100 ≡ (
    (has_ip pod && (7 == 7 && (100 == 100 && in_sets kernel matches pod ns 20)))
    || uses [] 7 20 100)
unfolding add_pod add_pod_entries add_to_matching has_ip is_running put_pod drop_pod and_then
    nothing if_so each do_call call add_user del_user do_exec users_of put_users drop_users is_user
    with_user without_user without uses exist_user is_targeted target_selector_exist target_count
    count_of label_of default_allow
add_pod-uses_example = add_pod-uses kernel matches pod ns [] [] refl 7 20 100

delete_pod-add_pod_example :
    uses
      (and_then kernel
        (add_pod kernel matches pod ns).1
        (delete_pod kernel matches pod (add_pod kernel matches pod ns).0).1
        []
        []).0
      7
      40
      100
    ≡ uses [] 7 40 100
unfolding add_pod add_pod_entries add_to_matching has_ip is_running put_pod drop_pod delete_pod
    delete_pod_entries delete_pod_of del_from_matching and_then nothing if_so each do_call call
    add_user del_user do_exec users_of put_users drop_users is_user with_user without_user without
    uses exist_user is_targeted target_selector_exist target_count count_of label_of default_allow
delete_pod-add_pod_example =
    delete_pod-add_pod kernel matches pod ns [] [] (λ m. refl) refl 7 40 100

-- the address 99 is allowed before the update
abbrev allowed : Users
allowed = (20, 99, 7 ∷ []) ∷ (30, 99, 7 ∷ []) ∷ []

-- after the update to a pod that backend selects, its new address is allowed
update_pod-stays_allowed_example :
    uses
      ((update_pod kernel matches unlabelled pod ns).1 allowed ((20, 99) ∷ (30, 99) ∷ [])).0
      7
      20
      100
    ≡ true
unfolding add_pod add_pod_entries add_to_matching has_ip is_running put_pod drop_pod delete_pod
    delete_pod_entries delete_pod_of del_from_matching update_pod update_pod_entries update_selector
    update_default_allow_ipset_entry add_or_remove_to_default_allow_ipset
    add_to_default_allow_if_no_matching equals has_values_of and_then nothing if_so each do_call
    call add_user del_user do_exec users_of put_users drop_users is_user with_user without_user
    without uses exist_user is_targeted target_selector_exist target_count count_of label_of
    default_allow
update_pod-stays_allowed_example =
    update_pod-stays_allowed kernel matches unlabelled pod ns allowed ((20, 99) ∷ (30, 99) ∷ [])
      refl refl refl refl refl

-- backend becomes a target, and is one no more
abbrev with_pods : Ns
with_pods = record ns { pods = pod ∷ (record unlabelled { uid = 8 }) ∷ [] }

abbrev no_targets : Ns
no_targets = record with_pods { targets = (5, (0, 0)) ∷ [] }

abbrev all_allowed : Users
all_allowed = (20, 100, 7 ∷ []) ∷ (20, 99, 8 ∷ []) ∷ []

abbrev others_allowed : Users
others_allowed = (20, 99, 8 ∷ []) ∷ []

more :
    (ls : Labels)
    → is_targeted matches ingress ls with_pods (backend ∷ []) ≡ (matches backend ls || false)
unfolding is_targeted target_selector_exist target_count count_of label_of default_allow
more ls = ground arith

allows_all : (v f : ℕ) → uses all_allowed v 20 f ≡ some_pod (λ ls. not false) v f with_pods.pods
unfolding uses exist_user users_of is_user some_pod has_ip is_running
allows_all v f = ground arith

on_new_target_pod_selector-Allows_example :
    uses
      (on_new_target_pod_selector kernel matches backend ingress with_pods all_allowed
        ((20, 100) ∷ (20, 99) ∷ [])).0
      7
      20
      100
    ≡ some_pod
        (λ ls. not (is_targeted matches ingress ls with_pods (backend ∷ [])))
        7
        100
        with_pods.pods
unfolding default_allow on_new_target_pod_selector label_of has_pod has_ip is_running and_then
    nothing if_so each do_call call add_user del_user do_exec users_of put_users drop_users is_user
    with_user without_user without uses exist_user
on_new_target_pod_selector-Allows_example =
    on_new_target_pod_selector-Allows kernel matches backend ingress with_pods (λ ls. false)
      all_allowed ((20, 100) ∷ (20, 99) ∷ []) (refl, (refl, tt)) allows_all more refl 7 100

less :
    (ls : Labels)
    → matches backend ls
      ≡ (matches backend ls || is_targeted matches ingress ls no_targets (backend ∷ []))
unfolding is_targeted target_selector_exist target_count count_of
less ls = ground arith

allows_others :
    (v f : ℕ)
    → uses others_allowed v 20 f ≡ some_pod (λ ls. not (matches backend ls)) v f no_targets.pods
unfolding uses exist_user users_of is_user some_pod has_ip is_running label_of
allows_others v f = ground arith

on_destroy_target_pod_selector-Allows_example :
    uses
      (on_destroy_target_pod_selector kernel matches backend ingress no_targets others_allowed
        ((20, 99) ∷ [])).0
      7
      20
      100
    ≡ some_pod
        (λ ls. not (is_targeted matches ingress ls no_targets (backend ∷ [])))
        7
        100
        no_targets.pods
unfolding default_allow on_destroy_target_pod_selector add_to_default_allow_if_no_matching label_of
    has_ip is_running is_targeted target_selector_exist target_count count_of and_then nothing if_so
    each do_call call add_user del_user do_exec users_of put_users drop_users is_user with_user
    without_user without uses exist_user
on_destroy_target_pod_selector-Allows_example =
    on_destroy_target_pod_selector-Allows kernel matches backend ingress no_targets
      (matches backend) others_allowed ((20, 99) ∷ []) allows_others less refl 7 100
