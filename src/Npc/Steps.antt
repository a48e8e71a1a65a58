-- ===== src/Npc/Steps.antt =====
-- The bodies of the loops of provision and deprovision keep the rules those of the keys that are needed.
use weave.Base.{
  ℕ, ◌≡◌, refl, sym, ◌∙◌, Bool, true, false, List, [], ◌∷◌, ◌==◌, length, arith, Bool-cases,
  Option-cases, inl, inr, none, some, ==→eq, ==_self,
}
use weave.Ipset.{is_user, with_user, without_user}
use weave.Npc.{
  RuleSpec, Iptables, Users, find_users, put_users, remove_user, append_all, remove_all, ipt_chain,
  ipt_rule_specs, provision_found, provision_one, deprovision_one,
}
use weave.Npc.Users.{
  find-put, total-put, is_user-with_user, is_user-without_user, length-with_user, is_user-none,
}
use weave.Npc.Needs.{also, except, also-other, except-other}
use weave.Npc.Tracking.{append_all-count, remove_all-count, Tracks, Weighs, put-Tracks, drop-Tracks}

module _ (ipt : Iptables) (c : ℕ) (r : List ℕ) where
  open ipt use {State, count}

  module _ (base : ℕ) (weight : ℕ → ℕ) (needs : ℕ → ℕ → Bool) (user : ℕ) (spec : RuleSpec)
      (t : Users) (k : State) (tracks : Tracks ipt c r base weight needs t k)
      (weighs : Weighs ipt c r weight spec) where
    abbrev added : State × Bool
    added = append_all ipt (ipt_chain spec) (ipt_rule_specs spec) k

    abbrev removed : State × Bool
    removed = remove_all ipt (ipt_chain spec) (ipt_rule_specs spec) k

    nobody-needs : (v : ℕ) → find_users spec.key t ≡ none → needs v spec.key ≡ false
    unfolding is_user
    nobody-needs v e = let all = tracks.users spec.key v in sym (rw e at all)

    pub provision_one-Tracks :
        (provision_one ipt user spec t k).1.1 ≡ true
        → Tracks ipt c r base weight
            (also user spec.key needs)
            (provision_one ipt user spec t k).0
            (provision_one ipt user spec t k).1.0
    unfolding provision_one provision_found also is_user
    provision_one-Tracks h = elim (Option-cases (find_users spec.key t)) [
      | inr (us, e) ↦
          let all = tracks.users spec.key in
          let there : (v : ℕ)
              → is_user v (with_user user us) ≡ also user spec.key needs v spec.key =
            λ v.
              let known = all v in
              is_user-with_user v user us
              ∙ rw (==_self spec.key) (ground (arith, (rw e at known))) in
          let more = total-put weight spec.key (with_user user us) t in
          rw e (
            put-Tracks ipt c r base weight needs user spec t k tracks weighs
              (also user spec.key needs) (with_user user us) k (length-with_user user us) there
              (also-other user spec.key needs) (omega (arith, tracks.balanced, (rw e at more))))
      | inl e ↦ elim (Bool-cases added.1) [
        | inr bad ↦ absurd (let f : false ≡ true = (rw (e, bad) at h) in cc)
        | inl fine ↦
            let there : (v : ℕ) → is_user v (user ∷ []) ≡ also user spec.key needs v spec.key =
              λ v. rw (nobody-needs v e, ==_self spec.key) (ground arith) in
            let more = total-put weight spec.key (user ∷ []) t in
            let counted = append_all-count ipt c r (ipt_chain spec) (ipt_rule_specs spec) k fine in
            rw (e, fine)
              (put-Tracks ipt c r base weight needs user spec t k tracks weighs
                (also user spec.key needs) (user ∷ []) added.0 (omega arith) there
                (also-other user spec.key needs)
                (omega (arith, counted, weighs, tracks.balanced, (rw e at more))))
      ]
    ]

    pub deprovision_one-Tracks :
        needs user spec.key ≡ true
        → (deprovision_one ipt user spec t k).1.1 ≡ true
        → Tracks ipt c r base weight
            (except user spec.key needs)
            (deprovision_one ipt user spec t k).0
            (deprovision_one ipt user spec t k).1.0
    unfolding deprovision_one remove_user except
    deprovision_one-Tracks needed h = elim (Option-cases (find_users spec.key t)) [
      | inl e ↦ absurd (let unneeded = nobody-needs user e in cc)
      | inr (us, e) ↦
          let us' = without_user user us in
          let there : find_users spec.key (put_users spec.key us' t) ≡ some us' =
            rw (find-put spec.key spec.key us' t, ==_self spec.key) refl in
          let all = tracks.users spec.key in
          let left : (v : ℕ) → is_user v us' ≡ except user spec.key needs v spec.key = λ v.
            let known = all v in
            is_user-without_user v user us
            ∙ rw (==_self spec.key) (ground (arith, (rw e at known))) in
          elim (Bool-cases (length us' == 0)) [
            | inr some_left ↦
                let more = total-put weight spec.key us' t in
                rw (e, there, some_left)
                  (put-Tracks ipt c r base weight needs user spec t k tracks weighs
                    (except user spec.key needs) us' k (ground arith) left
                    (except-other user spec.key needs)
                    (omega (arith, tracks.balanced, (rw e at more))))
            | inl none_left ↦ elim (Bool-cases removed.1) [
              | inr bad ↦ absurd (let f : false ≡ true = (rw (e, there, none_left, bad) at h) in cc)
              | inl fine ↦
                  let nobody : (v : ℕ) → except user spec.key needs v spec.key ≡ false =
                    λ v. sym (left v) ∙ is_user-none v us' (==→eq (length us') 0 none_left) in
                  let counted =
                    remove_all-count ipt c r (ipt_chain spec) (ipt_rule_specs spec) k fine in
                  rw (e, there, none_left, fine)
                    (drop-Tracks ipt c r base weight needs user spec t k tracks weighs
                      (except user spec.key needs) us us' removed.0 e nobody
                      (except-other user spec.key needs) (omega (arith, counted, weighs)))
            ]
          ]
    ]
