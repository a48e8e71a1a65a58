-- ===== src/Npc/Analyser.antt =====
-- npc/analyser.go: which rules and sets a policy needs. A rule is the call of newRuleSpec that makes it; the Go
-- map keeps one rule of those with the same words. Selectors, IP blocks, protocols and names of ports are
-- numbers. The library of Kubernetes that turns a policy's selector into one that matches is an argument, with
-- the selector's string, its key; the maps from keys are association lists.
pub mod Rules
pub mod Wanted
use weave.Base.{
  ℕ, ◌≡◌, Bool, true, false, List, [], ◌∷◌, ◌++◌, ◌==◌, if◌then◌else◌, Option, none, some,
}
use weave.Npc.{PolicyType, ingress, egress}

-- a port's number, its name, or any port, "0:65535"
pub data PortWord : Type 0 where
  number named : ℕ → PortWord
  any_port : PortWord

pub record PolicyPort : Type 0 where
  pub protocol : Option ℕ
  pub port : Option PortWord

pub record Peer : Type 0 where
  pub pod_selector : Option ℕ
  pub namespace_selector : Option ℕ
  pub ip_block : Option ℕ

-- an ingress or egress rule of a policy: `peers` is From or To
pub record PolicyRule : Type 0 where
  pub ports : List PolicyPort
  pub peers : List Peer

pub record Policy : Type 0 where
  pub pod_selector : ℕ
  pub policy_types : List PolicyType
  pub ingress_rules : List PolicyRule
  pub egress_rules : List PolicyRule

-- what a rule can name as its source or destination
pub data RuleHost : Type 0 where
  pods_of namespaces_of block_of : ℕ → RuleHost

-- the arguments of newRuleSpec
pub record Rule : Type 0 where
  pub policy_type : PolicyType
  pub proto : Option ℕ
  pub src_host : Option RuleHost
  pub dst_host : Option RuleHost
  pub dst_port : Option PortWord

-- the four maps; a pod selector has its policy types
pub record Analysis : Type 0 where
  pub rules : List Rule
  pub ns_selectors : List ℕ
  pub pod_selectors : List (ℕ × List PolicyType)
  pub ip_blocks : List ℕ

abbrev pub tcp : ℕ
tcp = 0

unfoldable pub proto_of : Option ℕ → ℕ
proto_of none = tcp
proto_of (some p) = p

unfoldable pub port_of : Option PortWord → PortWord
port_of none = any_port
port_of (some p) = p

unfoldable pub is_named : Option PortWord → Bool
is_named (some (named n)) = true
is_named (some (number n)) = false
is_named (some any_port) = false
is_named none = false

-- checkForNamedPorts: is there a port with a name?
unfoldable pub check_for_named_ports : List PolicyPort → Bool
unfolding is_named
check_for_named_ports [] = false
check_for_named_ports (p ∷ ps) = if is_named p.port then true else check_for_named_ports ps

unfoldable pub add_if_not_exist :
    ℕ → List PolicyType → List (ℕ × List PolicyType) → List (ℕ × List PolicyType)
add_if_not_exist k types [] = (k, types) ∷ []
add_if_not_exist k types ((j, old) ∷ ss) =
    if j == k then (j, old) ∷ ss else (j, old) ∷ add_if_not_exist k types ss

-- `m[key] = …`, in a map of which only the keys are kept
unfoldable pub put_key : ℕ → List ℕ → List ℕ
put_key k [] = k ∷ []
put_key k (j ∷ ks) = if j == k then j ∷ ks else j ∷ put_key k ks

-- withNormalisedProtoAndPort around newRuleSpec, and the call for all ports
unfoldable pub port_rules :
    PolicyType → Option RuleHost → Option RuleHost → List PolicyPort → List Rule
unfolding proto_of port_of
port_rules type src dst [] = []
port_rules type src dst (p ∷ ps) =
    (record {
      policy_type = type;
      proto = some (proto_of p.protocol);
      src_host = src;
      dst_host = dst;
      dst_port = some (port_of p.port);
    })
    ∷ port_rules type src dst ps

abbrev pub all_ports_rule : PolicyType → Option RuleHost → Option RuleHost → Rule
all_ports_rule type src dst = record {
  policy_type = type;
  proto = none;
  src_host = src;
  dst_host = dst;
  dst_port = none;
}

unfoldable pub add_rules : List Rule → Analysis → Analysis
add_rules rs a = record a { rules = a.rules ++ rs }

-- srcSelector, which is nil but for the two kinds of selectors
unfoldable pub selector_only : Option RuleHost → Option RuleHost
selector_only (some (pods_of k)) = some (pods_of k)
selector_only (some (namespaces_of k)) = some (namespaces_of k)
selector_only (some (block_of b)) = none
selector_only none = none

-- `if err != nil { return …, err }`, and then the rest
unfoldable pub if_no_error {ℓ κ} : {A : Type ℓ} {B : Type κ} → Option A → (A → Option B) → Option B
if_no_error none f = none
if_no_error (some a) f = f a

-- a peer with a selector, of which newSelectorSpec has made the key or an error
unfoldable pub pods_host : Option ℕ → Analysis → Option (Option RuleHost × Analysis)
unfolding add_if_not_exist
pods_host none a = none
pods_host (some k) a =
    some (some (pods_of k), record a { pod_selectors = add_if_not_exist k [] a.pod_selectors })

unfoldable pub namespaces_host : Option ℕ → Analysis → Option (Option RuleHost × Analysis)
unfolding put_key
namespaces_host none a = none
namespaces_host (some k) a =
    some (some (namespaces_of k), record a { ns_selectors = put_key k a.ns_selectors })

-- the rules of a peer: with no ports for all of them, else for each
unfoldable pub ingress_rules_of : RuleHost → List PolicyPort → Option RuleHost → List Rule
unfolding port_rules selector_only
ingress_rules_of target [] host = all_ports_rule ingress host (some target) ∷ []
ingress_rules_of target (p ∷ ps) host =
    port_rules ingress (selector_only host) (some target) (p ∷ ps)

unfoldable pub egress_rules_of : RuleHost → List PolicyPort → Option RuleHost → List Rule
unfolding port_rules
egress_rules_of target [] host = all_ports_rule egress (some target) host ∷ []
egress_rules_of target (p ∷ ps) host = port_rules egress (some target) host (p ∷ ps)

-- `parse json`: the key of the selector, or none for an error
module _ (parse : ℕ → Option ℕ) where
  -- srcRuleHost or dstRuleHost of a peer, and the maps with its selector or block
  unfoldable pub peer_host :
      Option ℕ → Option ℕ → Option ℕ → Analysis → Option (Option RuleHost × Analysis)
  unfolding pods_host namespaces_host put_key
  peer_host (some json) n b a = pods_host (parse json) a
  peer_host none (some json) b a = namespaces_host (parse json) a
  peer_host none none (some b) a =
      some (some (block_of b), record a { ip_blocks = put_key b a.ip_blocks })
  peer_host none none none a = some (none, a)

  -- the loop over From or To
  unfoldable pub each_peer : (Option RuleHost → List Rule) → List Peer → Analysis → Option Analysis
  unfolding peer_host add_rules if_no_error
  each_peer rules_of [] a = some a
  each_peer rules_of (p ∷ ps) a =
      if_no_error (peer_host p.pod_selector p.namespace_selector p.ip_block a)
        (λ found. each_peer rules_of ps (add_rules (rules_of found.0) found.1))

  -- a rule with no peers is for all sources or destinations
  unfoldable pub peers_of : (Option RuleHost → List Rule) → List Peer → Analysis → Option Analysis
  unfolding each_peer add_rules
  peers_of rules_of [] a = some (add_rules (rules_of none) a)
  peers_of rules_of (p ∷ ps) a = each_peer rules_of (p ∷ ps) a

  -- the loop over Ingress or Egress
  unfoldable pub each_rule :
      (List PolicyPort → Option RuleHost → List Rule) → List PolicyRule → Analysis → Option Analysis
  unfolding check_for_named_ports peers_of if_no_error
  each_rule rules_of [] a = some a
  each_rule rules_of (r ∷ rs) a =
      if check_for_named_ports r.ports
      then none
      else if_no_error (peers_of (rules_of r.ports) r.peers a) (each_rule rules_of rs)

  unfoldable pub analyse_policy : Policy → Option Analysis
  unfolding each_rule ingress_rules_of egress_rules_of if_no_error
  analyse_policy policy = if_no_error (parse policy.pod_selector) (λ k.
      if_no_error
        (each_rule (ingress_rules_of (pods_of k)) policy.ingress_rules (record {
          rules = [];
          ns_selectors = [];
          pod_selectors = (k, policy.policy_types) ∷ [];
          ip_blocks = [];
        }))
        (each_rule (egress_rules_of (pods_of k)) policy.egress_rules))
