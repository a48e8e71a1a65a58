-- ===== src/Tests/Policies.antt =====
-- Network policies: rules of two policies that share one.
use weave.Base.{
  ℕ, ◌+◌, ◌-◌, ◌≡◌, refl, sym, ap, ◌∙◌, Bool, true, false, ◌&&◌, List, [], ◌∷◌, ◌==◌, if◌then◌else◌,
  arith, Bool-cases, inl, inr, ltb,
}
use weave.Base.Texts.{text_eq, text_eq-eq}
use weave.Npc.{
  RuleSpec, Iptables, Users, ingress, egress, occurrences, times, ipt_chain, ipt_rule_specs,
  update_policy, provision, deprovision, each_not_in, provision_one, provision_found,
  deprovision_one, append_all, remove_all, find_users, put_users, drop_users, remove_user, has_key,
}
use weave.Ipset.{is_user, with_user, without_user}
use weave.Npc.Users.{total}
use weave.Npc.Needs.{Needs, renewed}
use weave.Npc.Tracking.{Tracks}
use weave.Npc.Loops.{update_policy-Tracks}

-- how often each rule is in each chain
abbrev Rules : Type 0
Rules = ℕ → List ℕ → ℕ

abbrev one_more : ℕ → List ℕ → Rules → Rules
one_more chain rule k c r = occurrences c r chain (rule ∷ []) + k c r

abbrev one_less : ℕ → List ℕ → Rules → Rules
one_less chain rule k c r = k c r - occurrences c r chain (rule ∷ [])

-- a rule that is not there cannot be removed
abbrev remove : ℕ → List ℕ → Rules → Rules × Bool
remove chain rule k = if ltb 0 (k chain rule) then (one_less chain rule k, true) else (k, false)

remove_law :
    (chain : ℕ) (rule : List ℕ) (k : Rules)
    → (remove chain rule k).1 ≡ true
    → (c : ℕ) (r : List ℕ) → (remove chain rule k).0 c r + occurrences c r chain (rule ∷ []) ≡ k c r
unfolding occurrences times
remove_law chain rule k h c r = elim (Bool-cases (ltb 0 (k chain rule))) [
  | inr e ↦ absurd (let b : false ≡ true = (rw e at h) in cc)
  | inl e ↦ elim (Bool-cases (chain == c && text_eq rule r)) [
    | inr apart ↦ rw e (ground (arith, apart))
    | inl same ↦
        let here : chain ≡ c = ground (arith, same) in
        let text : text_eq rule r ≡ true = ground (arith, same) in
        let there : k c r ≡ k chain rule =
          sym (ap (λ (i : ℕ). k i rule) here ∙ ap (k c) (text_eq-eq rule r text)) in
        rw e (ground (arith, same, there))
  ]
]

abbrev iptables : Iptables
iptables = record {
  State = Rules;
  append = λ chain rule k. (one_more chain rule k, true);
  remove = remove;
  count = λ c r k. k c r;
  append_law = λ chain rule k h c r. refl;
  remove_law = remove_law;
}

abbrev web : RuleSpec
web = record { key = 1; args = 50 ∷ []; policy_type = ingress }

abbrev dns : RuleSpec
dns = record { key = 2; args = 60 ∷ []; policy_type = egress }

-- the policies 7 and 8 need web, and 7 is to need dns in place of it
abbrev users : Users
users = (1, 7 ∷ 8 ∷ []) ∷ []

abbrev needs : Needs
needs v j = j == 1 && is_user v (7 ∷ 8 ∷ [])

abbrev rules : Rules
rules c r = occurrences c r 0 ((50 ∷ 0 ∷ 1 ∷ []) ∷ [])

-- the rule that marks what dns allows
abbrev marks : List ℕ
marks = 60 ∷ 0 ∷ 3 ∷ []

abbrev weight : ℕ → ℕ
weight j = if j == 2 then 1 else 0

tracks : Tracks iptables 1 marks 0 weight needs users rules
unfolding find_users is_user occurrences times total text_eq
tracks = record {
  keyed = (refl, tt);
  in_use = λ j us e. elim (Bool-cases (1 == j)) [
    | inl h ↦ let same : us ≡ 7 ∷ 8 ∷ [] = sym (ground (arith, e, h)) in rw same (omega arith)
    | inr h ↦ absurd (ground (arith, e, h))
  ];
  users = λ j v. ground arith;
  balanced = refl;
}

owned : (j : ℕ) → needs 7 j ≡ has_key j (web ∷ [])
unfolding has_key is_user
owned j = ground arith

update_policy-Tracks_example :
    Tracks iptables 1 marks 0 weight
      (renewed 7 (dns ∷ []) needs)
      (update_policy iptables 7 (web ∷ []) (dns ∷ []) users rules).0
      (update_policy iptables 7 (web ∷ []) (dns ∷ []) users rules).1.0
unfolding occurrences times ipt_chain ipt_rule_specs text_eq update_policy provision deprovision
    each_not_in provision_one provision_found deprovision_one append_all remove_all find_users
    put_users drop_users remove_user has_key is_user with_user without_user
update_policy-Tracks_example =
    update_policy-Tracks iptables 1 marks 0 weight 7 (web ∷ []) (dns ∷ []) needs users rules tracks
      owned (refl, tt) (refl, tt) (refl, tt) refl
