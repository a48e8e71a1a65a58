-- ===== src/Npc.antt =====
-- The network policy controller (npc/): which rules and sets of addresses the policies need, and who needs
-- them. This file has npc/rule.go. Strings that the code only compares or joins (UIDs, keys, words of a
-- rule) are numbers, and so is a rule's key, the join of its words. The Go maps are association lists; of
-- those from keys to specs only the specs are kept, each of which has its key. The iptables library is an
-- argument, the record Iptables: its laws are what it documents of a command that succeeds.
pub mod Users
pub mod Loops
pub mod Needs
pub mod Pods
pub mod Analyser
pub mod Tracking
pub mod Steps
use weave.Base.{
  ℕ, ◌+◌, ◌≡◌, Bool, true, false, ◌&&◌, ◌||◌, List, [], ◌∷◌, ◌++◌, ◌==◌, if◌then◌else◌, length,
  Option, none, some,
}
use weave.Base.Texts.{text_eq}
use weave.Ipset.{is_user, with_user, without_user}

pub data PolicyType : Type 0 where
  ingress egress : PolicyType

-- the chains that rule.go names
abbrev pub ingress_chain : ℕ
ingress_chain = 0

abbrev pub egress_custom_chain : ℕ
egress_custom_chain = 1

-- the words "-j", "ACCEPT", "RETURN" and the name of the chain that marks
abbrev pub jump : ℕ
jump = 0

abbrev pub accept : ℕ
accept = 1

abbrev pub return_word : ℕ
return_word = 2

abbrev pub egress_mark_chain : ℕ
egress_mark_chain = 3

pub record RuleSpec : Type 0 where
  pub key : ℕ
  pub args : List ℕ
  pub policy_type : PolicyType

unfoldable pub chain_of : PolicyType → ℕ
chain_of ingress = ingress_chain
chain_of egress = egress_custom_chain

unfoldable pub ipt_chain : RuleSpec → ℕ
unfolding chain_of
ipt_chain spec = chain_of spec.policy_type

unfoldable pub rules_of : PolicyType → List ℕ → List (List ℕ)
rules_of ingress args = (args ++ (jump ∷ accept ∷ [])) ∷ []
rules_of egress args =
    (args ++ (jump ∷ egress_mark_chain ∷ [])) ∷ (args ++ (jump ∷ return_word ∷ [])) ∷ []

unfoldable pub ipt_rule_specs : RuleSpec → List (List ℕ)
unfolding rules_of
ipt_rule_specs spec = rules_of spec.policy_type spec.args

-- how often a rule is in a list of rules
unfoldable pub times : List ℕ → List (List ℕ) → ℕ
unfolding text_eq
times r [] = 0
times r (x ∷ xs) = (if text_eq x r then 1 else 0) + times r xs

unfoldable pub occurrences : ℕ → List ℕ → ℕ → List (List ℕ) → ℕ
unfolding times
occurrences c r chain xs = if chain == c then times r xs else 0

-- Append and Delete of github.com/coreos/go-iptables, with the new state and whether there was no error
pub record Iptables : Type 1 where
  pub State : Type 0
  pub append : ℕ → List ℕ → State → State × Bool
  pub remove : ℕ → List ℕ → State → State × Bool
  -- how often the rule is in the chain
  pub count : ℕ → List ℕ → State → ℕ
  pub append_law :
      (chain : ℕ) (rule : List ℕ) (k : State)
      → (append chain rule k).1 ≡ true
      → (c : ℕ) (r : List ℕ)
      → count c r (append chain rule k).0 ≡ occurrences c r chain (rule ∷ []) + count c r k
  pub remove_law :
      (chain : ℕ) (rule : List ℕ) (k : State)
      → (remove chain rule k).1 ≡ true
      → (c : ℕ) (r : List ℕ)
      → count c r (remove chain rule k).0 + occurrences c r chain (rule ∷ []) ≡ count c r k

-- the field `users`
abbrev pub Users : Type 0
Users = List (ℕ × List ℕ)

unfoldable pub find_users : ℕ → Users → Option (List ℕ)
find_users k [] = none
find_users k ((j, us) ∷ t) = if j == k then some us else find_users k t

unfoldable pub put_users : ℕ → List ℕ → Users → Users
put_users k us [] = (k, us) ∷ []
put_users k us ((j, vs) ∷ t) = if j == k then (j, us) ∷ t else (j, vs) ∷ put_users k us t

-- `delete(rs.users, key)`
unfoldable pub drop_users : ℕ → Users → Users
drop_users k [] = []
drop_users k ((j, vs) ∷ t) = if j == k then t else (j, vs) ∷ drop_users k t

-- `delete(rs.users[key], user)`, which does nothing to a map that is not there
unfoldable pub remove_user : ℕ → ℕ → Option (List ℕ) → Users → Users
unfolding without_user put_users
remove_user user k none t = t
remove_user user k (some us) t = put_users k (without_user user us) t

-- `rs.users[key]`, whose length is 0 if it is not there
abbrev pub or_empty : Option (List ℕ) → List ℕ
or_empty none = []
or_empty (some us) = us

unfoldable pub has_key : ℕ → List RuleSpec → Bool
has_key k [] = false
has_key k (spec ∷ specs) = if spec.key == k then true else has_key k specs

module _ (ipt : Iptables) where
  open ipt use {State, append, remove}

  -- the loops over iptRuleSpecs, which stop at an error
  unfoldable pub append_all : ℕ → List (List ℕ) → State → State × Bool
  append_all chain [] k = (k, true)
  append_all chain (r ∷ rs) k =
      let rest = append_all chain rs (append chain r k).0 in
      if (append chain r k).1 then rest else ((append chain r k).0, false)

  unfoldable pub remove_all : ℕ → List (List ℕ) → State → State × Bool
  remove_all chain [] k = (k, true)
  remove_all chain (r ∷ rs) k =
      let rest = remove_all chain rs (remove chain r k).0 in
      if (remove chain r k).1 then rest else ((remove chain r k).0, false)

  -- the users, the state of iptables, and whether there was no error
  abbrev pub Ended : Type 0
  Ended = Users × (State × Bool)

  -- the body of provision's loop, for a key that is not in `current`
  unfoldable pub provision_found : ℕ → RuleSpec → Option (List ℕ) → Users → State → Ended
  unfolding append_all ipt_chain ipt_rule_specs with_user put_users
  provision_found user spec (some us) t k = (put_users spec.key (with_user user us) t, (k, true))
  provision_found user spec none t k =
      let (k', fine) = append_all (ipt_chain spec) (ipt_rule_specs spec) k in
      if fine then (put_users spec.key (user ∷ []) t, (k', true)) else (t, (k', false))

  unfoldable pub provision_one : ℕ → RuleSpec → Users → State → Ended
  unfolding provision_found find_users
  provision_one user spec t k = provision_found user spec (find_users spec.key t) t k

  -- the body of deprovision's loop, for a key that is not in `desired`
  unfoldable pub deprovision_one : ℕ → RuleSpec → Users → State → Ended
  unfolding remove_all ipt_chain ipt_rule_specs remove_user find_users drop_users
  deprovision_one user spec t k =
      let t' = remove_user user spec.key (find_users spec.key t) t in
      let (k', fine) = remove_all (ipt_chain spec) (ipt_rule_specs spec) k in
      if length (or_empty (find_users spec.key t')) == 0
      then (if fine then (drop_users spec.key t', (k', true)) else (t', (k', false)))
      else (t', (k, true))

  -- a loop over the specs whose key is not among the others, up to the first error
  unfoldable pub each_not_in :
      (RuleSpec → Users → State → Ended) → List RuleSpec → List RuleSpec → Users → State → Ended
  unfolding has_key
  each_not_in f others [] t k = (t, (k, true))
  each_not_in f others (spec ∷ specs) t k =
      let (t', (k', fine)) = f spec t k in
      let rest = each_not_in f others specs t' k' in
      let skip = each_not_in f others specs t k in
      if has_key spec.key others then skip else if fine then rest else (t', (k', false))

  unfoldable pub provision : ℕ → List RuleSpec → List RuleSpec → Users → State → Ended
  unfolding each_not_in provision_one
  provision user current desired t k = each_not_in (provision_one user) current desired t k

  unfoldable pub deprovision : ℕ → List RuleSpec → List RuleSpec → Users → State → Ended
  unfolding each_not_in deprovision_one
  deprovision user current desired t k = each_not_in (deprovision_one user) desired current t k

  -- what updateNetworkPolicy does to the rules; of addNetworkPolicy and deleteNetworkPolicy it is the case
  -- that no rules are there before, and that none are wanted
  unfoldable pub update_policy : ℕ → List RuleSpec → List RuleSpec → Users → State → Ended
  unfolding provision deprovision
  update_policy uid old new t k =
      let (t', (k', fine)) = deprovision uid old new t k in
      if fine then provision uid old new t' k' else (t', (k', false))
