-- ===== src/Tests/Analysers.antt =====
-- The analysis of a policy with ports.
use weave.Base.{ℕ, ◌≡◌, refl, List, [], ◌∷◌, ◌++◌, Option, none, some}
use weave.Npc.{ingress, egress}
use weave.Npc.Analyser.{
  PolicyPort, number, Peer, Policy, pods_of, block_of, Rule, Analysis, analyse_policy, each_rule,
  peers_of, each_peer, peer_host, pods_host, namespaces_host, if_no_error, add_rules,
  add_if_not_exist, put_key, check_for_named_ports, is_named, port_rules, proto_of, port_of,
  selector_only, ingress_rules_of, egress_rules_of, all_ports_rule,
}
use weave.Npc.Analyser.Rules.{rules_for_all, analyse_policy-block}
use weave.Npc.Analyser.Wanted.{wanted_from, wanted_to, analyse_policy_correct}

-- every selector can be read, with itself as its key
abbrev parse : ℕ → Option ℕ
parse json = some json

abbrev http : PolicyPort
http = record { protocol = none; port = some (number 80) }

abbrev from_pods : Peer
from_pods = record { pod_selector = some 6; namespace_selector = none; ip_block = none }

abbrev to_block : Peer
to_block = record { pod_selector = none; namespace_selector = none; ip_block = some 9 }

-- the pods 5 may be reached from the pods 6 at port 80, and may reach the block 9 and all there at any port
abbrev web : Policy
web = record {
  pod_selector = 5;
  policy_types = ingress ∷ egress ∷ [];
  ingress_rules = (record { ports = http ∷ []; peers = from_pods ∷ [] }) ∷ [];
  egress_rules = (record { ports = []; peers = to_block ∷ [] }) ∷ [];
}

abbrev first_rule : Rule
first_rule = record {
  policy_type = ingress;
  proto = some 0;
  src_host = some (pods_of 6);
  dst_host = some (pods_of 5);
  dst_port = some (number 80);
}

abbrev web_analysis : Analysis
web_analysis = record {
  rules = first_rule ∷ all_ports_rule egress (some (pods_of 5)) (some (block_of 9)) ∷ [];
  ns_selectors = [];
  pod_selectors = (5, ingress ∷ egress ∷ []) ∷ (6, []) ∷ [];
  ip_blocks = 9 ∷ [];
}

analyse_policy-web : analyse_policy parse web ≡ some web_analysis
unfolding analyse_policy each_rule peers_of each_peer peer_host pods_host namespaces_host
    if_no_error add_rules add_if_not_exist put_key check_for_named_ports is_named port_rules
    proto_of port_of selector_only ingress_rules_of egress_rules_of
analyse_policy-web = refl

analyse_policy_correct_example :
    web_analysis.rules
    ≡ rules_for_all parse (wanted_from parse (pods_of 5)) web.ingress_rules
      ++ rules_for_all parse (wanted_to parse (pods_of 5)) web.egress_rules
analyse_policy_correct_example =
    analyse_policy_correct parse web web_analysis 5 ((refl, tt), tt) refl analyse_policy-web

-- the pods may be reached from the pods 6 and from the block 4 at port 80: the second rule is for all
-- sources, although the block is among the sets
abbrev open_rules : List Rule
open_rules =
    first_rule
    ∷ (record first_rule { src_host = none })
    ∷ all_ports_rule egress (some (pods_of 5)) (some (block_of 9))
    ∷ []

abbrev with_block : Analysis
with_block = record web_analysis { rules = open_rules; ip_blocks = 4 ∷ 9 ∷ [] }

abbrev without_peers : Analysis
without_peers = record web_analysis { rules = open_rules }

analyse_policy-block_example : with_block.rules ≡ without_peers.rules
unfolding analyse_policy each_rule peers_of each_peer peer_host pods_host namespaces_host
    if_no_error add_rules add_if_not_exist put_key check_for_named_ports is_named port_rules
    proto_of port_of selector_only ingress_rules_of egress_rules_of
analyse_policy-block_example =
    analyse_policy-block parse web web.ingress_rules [] http [] 4 5 with_block without_peers refl
      refl refl
