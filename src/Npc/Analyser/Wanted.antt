-- ===== src/Npc/Analyser/Wanted.antt =====
-- The rules that a policy needs: each of its rules with the hosts that its peers stand for.
use weave.Base.{ℕ, ◌≡◌, refl, ap, ◌∙◌, List, [], ◌∷◌, ◌++◌, Option, none, some, All, map}
use mathlib.Core.Option
use weave.Npc.{PolicyType, ingress, egress}
use weave.Npc.Analyser.{
  Peer, PolicyPort, PolicyRule, Policy, RuleHost, pods_of, Rule, Analysis, analyse_policy,
  ingress_rules_of, egress_rules_of, port_rules, selector_only, PortWord, any_port, tcp, proto_of,
  port_of,
}
use weave.Npc.Analyser.Rules.{
  pods_for, namespaces_for, host_of, rules_for, rules_for_rule, rules_for_all, analyse_policy-split,
}

-- the rule for a port: of its protocol, or TCP if it names none, and of its number, or any if it has none
abbrev pub wanted_at : PolicyType → Option RuleHost → Option RuleHost → PolicyPort → Rule
wanted_at type src dst q = record {
  policy_type = type;
  proto = some (Option.get_or q.protocol tcp);
  src_host = src;
  dst_host = dst;
  dst_port = some (Option.get_or q.port any_port);
}

-- the rules for ports and hosts: one for all ports if none is named, else one for each of them
unfoldable pub wanted : PolicyType → List PolicyPort → Option RuleHost → Option RuleHost → List Rule
wanted type [] src dst =
    (record { policy_type = type; proto = none; src_host = src; dst_host = dst; dst_port = none })
    ∷ []
wanted type (p ∷ ps) src dst = map (wanted_at type src dst) (p ∷ ps)

proto_of-get_or : (o : Option ℕ) → proto_of o ≡ Option.get_or o tcp
unfolding proto_of
proto_of-get_or none = refl
proto_of-get_or (some p) = refl

port_of-get_or : (o : Option PortWord) → port_of o ≡ Option.get_or o any_port
unfolding port_of
port_of-get_or none = refl
port_of-get_or (some p) = refl

-- the code's rules for ports are one rule for each port, in order
port_rules-map :
    (type : PolicyType) (src dst : Option RuleHost) (ps : List PolicyPort)
    → port_rules type src dst ps ≡ map (wanted_at type src dst) ps
unfolding port_rules
port_rules-map type src dst [] = refl
port_rules-map type src dst (p ∷ ps) =
    rw (proto_of-get_or p.protocol, port_of-get_or p.port, port_rules-map type src dst ps) refl

-- there are no ports, or each peer is of pods or namespaces, or the code leaves it out
abbrev pub AreSelectors : List PolicyPort → List Peer → Type 0
AreSelectors [] peers = Unit
AreSelectors (p ∷ ps) [] = Unit
AreSelectors (p ∷ ps) (peer ∷ peers) = (peer.ip_block ≡ none) × AreSelectors (p ∷ ps) peers

selector_only-pods : (o : Option ℕ) → selector_only (pods_for o) ≡ pods_for o
unfolding selector_only pods_for
selector_only-pods none = refl
selector_only-pods (some k) = refl

selector_only-namespaces : (o : Option ℕ) → selector_only (namespaces_for o) ≡ namespaces_for o
unfolding selector_only namespaces_for
selector_only-namespaces none = refl
selector_only-namespaces (some k) = refl

module _ (parse : ℕ → Option ℕ) (target : RuleHost) where
  abbrev pub wanted_from : List PolicyPort → Option RuleHost → List Rule
  wanted_from ports host = wanted ingress ports host (some target)

  abbrev pub wanted_to : List PolicyPort → Option RuleHost → List Rule
  wanted_to ports host = wanted egress ports (some target) host

  egress_rules_of-wanted :
      (ports : List PolicyPort) (host : Option RuleHost)
      → egress_rules_of target ports host ≡ wanted_to ports host
  unfolding egress_rules_of wanted
  egress_rules_of-wanted [] host = refl
  egress_rules_of-wanted (p ∷ ps) host = port_rules-map egress (some target) host (p ∷ ps)

  rules_for-same :
      (f g : Option RuleHost → List Rule) (ps : List Peer)
      → ((h : Option RuleHost) → f h ≡ g h)
      → rules_for parse f ps ≡ rules_for parse g ps
  unfolding rules_for
  rules_for-same f g [] same = refl
  rules_for-same f g (p ∷ ps) same =
      rw
        (
          same (host_of parse p.pod_selector p.namespace_selector p.ip_block),
          rules_for-same f g ps same,
        )
        refl

  rules_for_rule-same :
      (f g : Option RuleHost → List Rule) (ps : List Peer)
      → ((h : Option RuleHost) → f h ≡ g h)
      → rules_for_rule parse f ps ≡ rules_for_rule parse g ps
  unfolding rules_for_rule
  rules_for_rule-same f g [] same = same none
  rules_for_rule-same f g (p ∷ ps) same = rules_for-same f g (p ∷ ps) same

  egress-all :
      (rs : List PolicyRule)
      → rules_for_all parse (egress_rules_of target) rs ≡ rules_for_all parse wanted_to rs
  unfolding rules_for_all
  egress-all [] = refl
  egress-all (r ∷ rs) =
      rw
        (
          rules_for_rule-same (egress_rules_of target r.ports) (wanted_to r.ports) r.peers
              (egress_rules_of-wanted r.ports),
          egress-all rs,
        )
        refl

  selector_only-host :
      (p n : Option ℕ) → selector_only (host_of parse p n none) ≡ host_of parse p n none
  unfolding host_of selector_only
  selector_only-host (some json) n = selector_only-pods (parse json)
  selector_only-host none (some json) = selector_only-namespaces (parse json)
  selector_only-host none none = refl

  ingress-peers :
      (p : PolicyPort) (ps : List PolicyPort) (peers : List Peer)
      → AreSelectors (p ∷ ps) peers
      → rules_for parse (ingress_rules_of target (p ∷ ps)) peers
        ≡ rules_for parse (wanted_from (p ∷ ps)) peers
  unfolding rules_for ingress_rules_of wanted
  ingress-peers p ps [] are = refl
  ingress-peers p ps (peer ∷ peers) are =
      let named = host_of parse peer.pod_selector peer.namespace_selector peer.ip_block in
      let host : selector_only named ≡ named =
        rw are.0 (selector_only-host peer.pod_selector peer.namespace_selector) in
      ap
        (λ (h : Option RuleHost).
          port_rules ingress h (some target) (p ∷ ps)
          ++ rules_for parse (ingress_rules_of target (p ∷ ps)) peers)
        host
      ∙ ap (λ (rs : List Rule). port_rules ingress named (some target) (p ∷ ps) ++ rs)
          (ingress-peers p ps peers are.1)
      ∙ ap (λ (rs : List Rule). rs ++ rules_for parse (wanted_from (p ∷ ps)) peers)
          (port_rules-map ingress named (some target) (p ∷ ps))

  ingress-rule :
      (ports : List PolicyPort) (peers : List Peer)
      → AreSelectors ports peers
      → rules_for_rule parse (ingress_rules_of target ports) peers
        ≡ rules_for_rule parse (wanted_from ports) peers
  unfolding rules_for_rule ingress_rules_of wanted
  ingress-rule [] peers are =
      rules_for_rule-same (ingress_rules_of target []) (wanted_from []) peers (λ h. refl)
  ingress-rule (p ∷ ps) [] are = port_rules-map ingress none (some target) (p ∷ ps)
  ingress-rule (p ∷ ps) (peer ∷ peers) are = ingress-peers p ps (peer ∷ peers) are

  ingress-all :
      (rs : List PolicyRule)
      → All (λ r. AreSelectors r.ports r.peers) rs
      → rules_for_all parse (ingress_rules_of target) rs ≡ rules_for_all parse wanted_from rs
  unfolding rules_for_all
  ingress-all [] are = refl
  ingress-all (r ∷ rs) are = rw (ingress-rule r.ports r.peers are.0, ingress-all rs are.1) refl

-- If a policy is analysed without an error, its pods being the target, then it needs, in the order of its rules for ingress and then for egress, of their peers and of their ports: for ingress a rule from the host that the peer stands for, or from anywhere if there are no peers, to the target, and for egress one from the target to the host. There is one such rule for each port, of the port, or any port if it has none, and its protocol, or TCP if it names none; and one with neither port nor protocol if there are no ports. The condition is that no rule for ingress has ports and a peer with an IP block.
pub analyse_policy_correct :
    (parse : ℕ → Option ℕ) (policy : Policy) (a : Analysis) (k : ℕ)
    → All (λ r. AreSelectors r.ports r.peers) policy.ingress_rules
    → parse policy.pod_selector ≡ some k
    → analyse_policy parse policy ≡ some a
    → a.rules
      ≡ rules_for_all parse (wanted_from parse (pods_of k)) policy.ingress_rules
        ++ rules_for_all parse (wanted_to parse (pods_of k)) policy.egress_rules
analyse_policy_correct parse policy a k are f e =
    analyse_policy-split parse policy a k f e
    ∙ rw
        (
          ingress-all parse (pods_of k) policy.ingress_rules are,
          egress-all parse (pods_of k) policy.egress_rules,
        )
        refl
