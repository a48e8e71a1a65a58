-- ===== src/Npc/Tracking.antt =====
-- What is true between the calls: the rules are those of the keys that some policy needs.
use weave.Base.{
  ℕ, ◌+◌, ◌<◌, ◌≡◌, refl, sym, ap, ◌∙◌, Bool, true, false, List, [], ◌∷◌, ◌==◌, length, arith,
  Bool-cases, inl, inr, none, some, ==→eq, ==_self,
}
use weave.Ipset.{is_user}
use weave.Npc.{
  RuleSpec, Iptables, Users, occurrences, find_users, put_users, drop_users, or_empty, append_all,
  remove_all, ipt_chain, ipt_rule_specs,
}
use weave.Npc.Users.{
  find-put, find-drop, IsKeyed, put-IsKeyed, drop-IsKeyed, total, total-put, total-drop,
}

module _ (ipt : Iptables) (c : ℕ) (r : List ℕ) where
  open ipt use {State, count, append_law, remove_law}

  pub append_all-count :
      (chain : ℕ) (rs : List (List ℕ)) (k : State)
      → (append_all ipt chain rs k).1 ≡ true
      → count c r (append_all ipt chain rs k).0 ≡ occurrences c r chain rs + count c r k
  unfolding append_all occurrences
  append_all-count chain [] k h = ground arith
  append_all-count chain (x ∷ rs) k h = elim (Bool-cases (ipt.append chain x k).1) [
    | inr e ↦ absurd (let f : false ≡ true = (rw e at h) in cc)
    | inl e ↦
        let first = append_law chain x k e c r in
        let rest = append_all-count chain rs (ipt.append chain x k).0 (rw e at h) in
        rw e (ground (arith, first, rest))
  ]

  pub remove_all-count :
      (chain : ℕ) (rs : List (List ℕ)) (k : State)
      → (remove_all ipt chain rs k).1 ≡ true
      → count c r (remove_all ipt chain rs k).0 + occurrences c r chain rs ≡ count c r k
  unfolding remove_all occurrences
  remove_all-count chain [] k h = ground arith
  remove_all-count chain (x ∷ rs) k h = elim (Bool-cases (ipt.remove chain x k).1) [
    | inr e ↦ absurd (let f : false ≡ true = (rw e at h) in cc)
    | inl e ↦
        let first = remove_law chain x k e c r in
        let rest = remove_all-count chain rs (ipt.remove chain x k).0 (rw e at h) in
        rw e (ground (arith, first, rest))
  ]

  -- `needs v k`: does the policy `v` need the rules of the key `k`? `weight k` is how often these hold the
  -- rule `r` for the chain `c`, and `base` how often it is there for other reasons
  pub record Tracks (base : ℕ) (weight : ℕ → ℕ) (needs : ℕ → ℕ → Bool) (t : Users) (k : State)
      : Type 0 where
    pub keyed : IsKeyed t
    pub in_use : (j : ℕ) (us : List ℕ) → find_users j t ≡ some us → 0 < length us
    pub users : (j v : ℕ) → is_user v (or_empty (find_users j t)) ≡ needs v j
    pub balanced : count c r k ≡ base + total weight t

  -- the rules of the spec weigh what its key does
  abbrev pub Weighs : (ℕ → ℕ) → RuleSpec → Type 0
  Weighs weight spec = occurrences c r (ipt_chain spec) (ipt_rule_specs spec) ≡ weight spec.key

  module _ (base : ℕ) (weight : ℕ → ℕ) (needs : ℕ → ℕ → Bool) (user : ℕ) (spec : RuleSpec)
      (t : Users) (k : State) (tracks : Tracks base weight needs t k)
      (weighs : Weighs weight spec) where
    -- the users of the spec's key change
    pub put-Tracks :
        (needs' : ℕ → ℕ → Bool) (us : List ℕ) (k' : State)
        → 0 < length us
        → ((v : ℕ) → is_user v us ≡ needs' v spec.key)
        → ((j v : ℕ) → (spec.key == j) ≡ false → needs' v j ≡ needs v j)
        → count c r k' ≡ base + total weight (put_users spec.key us t)
        → Tracks base weight needs' (put_users spec.key us t) k'
    put-Tracks needs' us k' some_user there others n = record {
      keyed = put-IsKeyed spec.key us t tracks.keyed;
      in_use = λ j vs e. elim (Bool-cases (spec.key == j)) [
        | inl h ↦
            let same : some us ≡ some vs = (rw (find-put spec.key j us t, h) at e) in
            let same_us : us ≡ vs = cc in (rw same_us at some_user)
        | inr h ↦ tracks.in_use j vs (rw (find-put spec.key j us t, h) at e)
      ];
      users = λ j v. elim (Bool-cases (spec.key == j)) [
        | inl h ↦ rw (find-put spec.key j us t, h) (there v ∙ ap (needs' v) (==→eq spec.key j h))
        | inr h ↦ rw (find-put spec.key j us t, h) (tracks.users j v ∙ sym (others j v h))
      ];
      balanced = n;
    }

    -- the spec's key goes, with its last user
    pub drop-Tracks :
        (needs' : ℕ → ℕ → Bool) (us us' : List ℕ) (k' : State)
        → find_users spec.key t ≡ some us
        → ((v : ℕ) → needs' v spec.key ≡ false)
        → ((j v : ℕ) → (spec.key == j) ≡ false → needs' v j ≡ needs v j)
        → count c r k' + weight spec.key ≡ count c r k
        → Tracks base weight needs' (drop_users spec.key (put_users spec.key us' t)) k'
    unfolding is_user
    drop-Tracks needs' us us' k' there nobody others n =
        let t' = put_users spec.key us' t in
        let keyed' = put-IsKeyed spec.key us' t tracks.keyed in
        let there' : find_users spec.key t' ≡ some us' =
          rw (find-put spec.key spec.key us' t, ==_self spec.key) refl in
        let more = total-put weight spec.key us' t in
        record {
          keyed = drop-IsKeyed spec.key t' keyed';
          in_use = λ j vs e. elim (Bool-cases (spec.key == j)) [
            | inl h ↦
                let none_some : none ≡ some vs = (rw (find-drop spec.key j t' keyed', h) at e) in
                absurd cc
            | inr h ↦
                tracks.in_use j vs
                  (rw (find-drop spec.key j t' keyed', h, find-put spec.key j us' t, h) at e)
          ];
          users = λ j v. elim (Bool-cases (spec.key == j)) [
            | inl h ↦
                rw (find-drop spec.key j t' keyed', h)
                  (sym (ap (needs' v) (sym (==→eq spec.key j h)) ∙ nobody v))
            | inr h ↦
                rw (find-drop spec.key j t' keyed', h, find-put spec.key j us' t, h)
                  (tracks.users j v ∙ sym (others j v h))
          ];
          balanced = omega (
            arith,
            n,
            tracks.balanced,
            total-drop weight spec.key us' t' there',
            (rw there at more),
          );
        }
