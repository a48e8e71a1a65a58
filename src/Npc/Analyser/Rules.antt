-- ===== src/Npc/Analyser/Rules.antt =====
-- The rules that a policy needs, against a description by peers and ports.
use weave.Base.{
  ℕ, ◌≡◌, refl, sym, ap, ◌∙◌, List, [], ◌∷◌, ◌++◌, Option, none, some, Bool-cases, inl, inr,
  append-nil, append_assoc,
}
use weave.Npc.Analyser.{
  if_no_error, pods_host, namespaces_host, Peer, PolicyPort, PolicyRule, Policy, RuleHost, pods_of,
  namespaces_of, block_of, Rule, Analysis, peer_host, each_peer, peers_of, each_rule,
  analyse_policy, ingress_rules_of, egress_rules_of, selector_only, add_rules,
  check_for_named_ports,
}

-- the key of a selector as a host
unfoldable pub pods_for : Option ℕ → Option RuleHost
pods_for none = none
pods_for (some k) = some (pods_of k)

unfoldable pub namespaces_for : Option ℕ → Option RuleHost
namespaces_for none = none
namespaces_for (some k) = some (namespaces_of k)

host_in : Option (Option RuleHost × Analysis) → Option RuleHost
host_in none = none
host_in (some (h, a)) = h

rules_in : Option (Option RuleHost × Analysis) → List Rule
rules_in none = []
rules_in (some (h, a)) = a.rules

rules_of_result : Option Analysis → List Rule
rules_of_result none = []
rules_of_result (some a) = a.rules

if_no_error-some {ℓ κ} :
    {A : Type ℓ} {B : Type κ} (o : Option A) (f : A → Option B) (b : B)
    → if_no_error o f ≡ some b
    → (a : A) × (o ≡ some a) × (f a ≡ some b)
unfolding if_no_error
if_no_error-some none f b e = absurd cc
if_no_error-some (some a) f b e = (a, refl, e)

module _ (a a' : Analysis) (h : Option RuleHost) where
  pods_host-rules :
      (o : Option ℕ) → pods_host o a ≡ some (h, a') → (h ≡ pods_for o) × (a'.rules ≡ a.rules)
  unfolding pods_host pods_for host_in rules_in
  pods_host-rules none e = absurd cc
  pods_host-rules (some k) e = (sym (ap host_in e), sym (ap rules_in e))

  namespaces_host-rules :
      (o : Option ℕ)
      → namespaces_host o a ≡ some (h, a')
      → (h ≡ namespaces_for o) × (a'.rules ≡ a.rules)
  unfolding namespaces_host namespaces_for host_in rules_in
  namespaces_host-rules none e = absurd cc
  namespaces_host-rules (some k) e = (sym (ap host_in e), sym (ap rules_in e))

module _ (parse : ℕ → Option ℕ) where
  -- the host that a peer stands for
  unfoldable pub host_of : Option ℕ → Option ℕ → Option ℕ → Option RuleHost
  unfolding pods_for namespaces_for
  host_of (some json) n b = pods_for (parse json)
  host_of none (some json) b = namespaces_for (parse json)
  host_of none none (some b) = some (block_of b)
  host_of none none none = none

  -- all rules of the peers, in order
  unfoldable pub rules_for : (Option RuleHost → List Rule) → List Peer → List Rule
  unfolding host_of
  rules_for rules_of [] = []
  rules_for rules_of (p ∷ ps) =
      rules_of (host_of p.pod_selector p.namespace_selector p.ip_block) ++ rules_for rules_of ps

  peer_host-rules :
      (p n b : Option ℕ) (a a' : Analysis) (h : Option RuleHost)
      → peer_host parse p n b a ≡ some (h, a')
      → (h ≡ host_of p n b) × (a'.rules ≡ a.rules)
  unfolding peer_host host_of host_in rules_in
  peer_host-rules (some json) n b a a' h e = pods_host-rules a a' h (parse json) e
  peer_host-rules none (some json) b a a' h e = namespaces_host-rules a a' h (parse json) e
  peer_host-rules none none (some b) a a' h e = (sym (ap host_in e), sym (ap rules_in e))
  peer_host-rules none none none a a' h e = (sym (ap host_in e), sym (ap rules_in e))

  each_peer-rules :
      (rules_of : Option RuleHost → List Rule) (ps : List Peer) (a a' : Analysis)
      → each_peer parse rules_of ps a ≡ some a'
      → a'.rules ≡ a.rules ++ rules_for rules_of ps
  unfolding each_peer rules_for add_rules rules_of_result
  each_peer-rules rules_of [] a a' e = sym (ap rules_of_result e) ∙ sym (append-nil a.rules)
  each_peer-rules rules_of (p ∷ ps) a a' e =
      let (found, f, g) =
        if_no_error-some (peer_host parse p.pod_selector p.namespace_selector p.ip_block a)
          (λ x. each_peer parse rules_of ps (add_rules (rules_of x.0) x.1)) a' e in
      let (host, rules) =
        peer_host-rules p.pod_selector p.namespace_selector p.ip_block a found.1 found.0 f in
      let rest = each_peer-rules rules_of ps (add_rules (rules_of found.0) found.1) a' g in
      rest
      ∙ rw (host, rules)
          (append_assoc a.rules (rules_of (host_of p.pod_selector p.namespace_selector p.ip_block))
            (rules_for rules_of ps))

  -- the rules of one rule of a policy: of no peers, those for all
  unfoldable pub rules_for_rule : (Option RuleHost → List Rule) → List Peer → List Rule
  unfolding rules_for
  rules_for_rule rules_of [] = rules_of none
  rules_for_rule rules_of (p ∷ ps) = rules_for rules_of (p ∷ ps)

  peers_of-rules :
      (rules_of : Option RuleHost → List Rule) (ps : List Peer) (a a' : Analysis)
      → peers_of parse rules_of ps a ≡ some a'
      → a'.rules ≡ a.rules ++ rules_for_rule rules_of ps
  unfolding peers_of rules_for_rule rules_of_result add_rules
  peers_of-rules rules_of [] a a' e = sym (ap rules_of_result e)
  peers_of-rules rules_of (p ∷ ps) a a' e = each_peer-rules rules_of (p ∷ ps) a a' e

  -- all rules of a list of rules of a policy
  unfoldable pub rules_for_all :
      (List PolicyPort → Option RuleHost → List Rule) → List PolicyRule → List Rule
  unfolding rules_for_rule
  rules_for_all rules_of [] = []
  rules_for_all rules_of (r ∷ rs) =
      rules_for_rule (rules_of r.ports) r.peers ++ rules_for_all rules_of rs

  each_rule-rules :
      (rules_of : List PolicyPort → Option RuleHost → List Rule) (rs : List PolicyRule)
      (a a' : Analysis)
      → each_rule parse rules_of rs a ≡ some a'
      → a'.rules ≡ a.rules ++ rules_for_all rules_of rs
  unfolding each_rule rules_for_all rules_of_result
  each_rule-rules rules_of [] a a' e = sym (ap rules_of_result e) ∙ sym (append-nil a.rules)
  each_rule-rules rules_of (r ∷ rs) a a' e = elim (Bool-cases (check_for_named_ports r.ports)) [
    | inl n ↦ absurd (let g : none ≡ some a' = (rw n at e) in cc)
    | inr n ↦
        let (b, f, g) =
          if_no_error-some (peers_of parse (rules_of r.ports) r.peers a)
            (each_rule parse rules_of rs) a' (rw n at e) in
        each_rule-rules rules_of rs b a' g
        ∙ rw (peers_of-rules (rules_of r.ports) r.peers a b f) (
            append_assoc a.rules (rules_for_rule (rules_of r.ports) r.peers)
              (rules_for_all rules_of rs))
  ]

  -- the rules by the code's functions for ingress and egress
  pub analyse_policy-split :
      (policy : Policy) (a : Analysis) (k : ℕ)
      → parse policy.pod_selector ≡ some k
      → analyse_policy parse policy ≡ some a
      → a.rules
        ≡ rules_for_all (ingress_rules_of (pods_of k)) policy.ingress_rules
          ++ rules_for_all (egress_rules_of (pods_of k)) policy.egress_rules
  unfolding analyse_policy if_no_error
  analyse_policy-split policy a k f e =
      let start : Analysis = record {
        rules = [];
        ns_selectors = [];
        pod_selectors = (k, policy.policy_types) ∷ [];
        ip_blocks = [];
      } in
      let (b, g, h) =
        if_no_error-some (each_rule parse (ingress_rules_of (pods_of k)) policy.ingress_rules start)
          (each_rule parse (egress_rules_of (pods_of k)) policy.egress_rules) a (rw f at e) in
      each_rule-rules (egress_rules_of (pods_of k)) policy.egress_rules b a h
      ∙ rw (each_rule-rules (ingress_rules_of (pods_of k)) policy.ingress_rules start b g) refl

  rules_for_all-append :
      (rules_of : List PolicyPort → Option RuleHost → List Rule) (rs ss : List PolicyRule)
      → rules_for_all rules_of (rs ++ ss) ≡ rules_for_all rules_of rs ++ rules_for_all rules_of ss
  unfolding rules_for_all
  rules_for_all-append rules_of [] ss = refl
  rules_for_all-append rules_of (r ∷ rs) ss = rw (rules_for_all-append rules_of rs ss) (
      sym (
        append_assoc (rules_for_rule (rules_of r.ports) r.peers) (rules_for_all rules_of rs)
          (rules_for_all rules_of ss)))

  -- the rules of a rule for ingress whose only peer is a block
  block-none :
      (target : RuleHost) (p : PolicyPort) (ps : List PolicyPort) (b : ℕ) (rest : List PolicyRule)
      → rules_for_all (ingress_rules_of target) (
          (record {
            ports = p ∷ ps;
            peers =
                (record { pod_selector = none; namespace_selector = none; ip_block = some b }) ∷ [];
          })
          ∷ rest)
        ≡ rules_for_all (ingress_rules_of target) ((record { ports = p ∷ ps; peers = [] }) ∷ rest)
  unfolding rules_for_all rules_for_rule rules_for host_of ingress_rules_of selector_only
  block-none target p ps b rest =
      ap (λ (rs : List Rule). rs ++ rules_for_all (ingress_rules_of target) rest)
        (append-nil (ingress_rules_of target (p ∷ ps) none))

  -- If one of a policy's rules for ingress, wherever it stands among them, has ports, and its only peer is an IP block, then the policy needs exactly the rules that it needs if that rule has no peers at all, that is with the rule's ports open to all sources. The condition is that both policies are analysed without an error.
  pub analyse_policy-block :
      (policy : Policy) (before rest : List PolicyRule) (p : PolicyPort) (ps : List PolicyPort)
      (b k : ℕ) (a a' : Analysis)
      → parse policy.pod_selector ≡ some k
      → analyse_policy parse (record policy {
        ingress_rules =
            before
            ++ (record {
              ports = p ∷ ps;
              peers =
                  (record { pod_selector = none; namespace_selector = none; ip_block = some b })
                  ∷ [];
            })
              ∷ rest;
      })
        ≡ some a
      → analyse_policy parse (record policy {
        ingress_rules = before ++ (record { ports = p ∷ ps; peers = [] }) ∷ rest;
      })
        ≡ some a'
      → a.rules ≡ a'.rules
  analyse_policy-block policy before rest p ps b k a a' f e e' =
      let with_block : PolicyRule = record {
        ports = p ∷ ps;
        peers = (record { pod_selector = none; namespace_selector = none; ip_block = some b }) ∷ [];
      } in
      let without : PolicyRule = record { ports = p ∷ ps; peers = [] } in
      let rules_of = ingress_rules_of (pods_of k) in
      let same : rules_for_all rules_of (before ++ with_block ∷ rest)
          ≡ rules_for_all rules_of (before ++ without ∷ rest) =
        rules_for_all-append rules_of before (with_block ∷ rest)
        ∙ ap (λ (rs : List Rule). rules_for_all rules_of before ++ rs)
            (block-none (pods_of k) p ps b rest)
        ∙ sym (rules_for_all-append rules_of before (without ∷ rest)) in
      analyse_policy-split (record policy { ingress_rules = before ++ with_block ∷ rest }) a k f e
      ∙ ap
          (λ (rs : List Rule).
            rs ++ rules_for_all (egress_rules_of (pods_of k)) policy.egress_rules)
          same
      ∙ sym (
          analyse_policy-split (record policy { ingress_rules = before ++ without ∷ rest }) a' k f
            e')
