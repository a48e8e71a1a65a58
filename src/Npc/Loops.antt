-- ===== src/Npc/Loops.antt =====
-- provision, deprovision and updateNetworkPolicy keep the rules those of the keys that are needed.
use weave.Base.{
  ℕ, ◌≡◌, sym, ap, ◌∙◌, Bool, true, false, not, ◌&&◌, ◌||◌, List, [], ◌∷◌, ◌==◌, arith, Bool-cases,
  inl, inr, All,
}
use weave.Npc.{
  RuleSpec, Iptables, Users, has_key, each_not_in, provision_one, deprovision_one, provision,
  deprovision, update_policy,
}
use weave.Npc.Needs.{
  Needs, also, except, except-other, is_only_in, joined, parted, renewed, is_only_in-skip,
  joined-step, parted-step, joined-parted, has_key-head, has_key-tail, has_key-apart,
}
use weave.Npc.Tracking.{Tracks, Weighs}
use weave.Npc.Steps.{provision_one-Tracks, deprovision_one-Tracks}

-- the specs have distinct keys
abbrev pub IsDistinct : List RuleSpec → Type 0
IsDistinct [] = Unit
IsDistinct (spec ∷ specs) = (has_key spec.key specs ≡ false) × IsDistinct specs

module _ (ipt : Iptables) (c : ℕ) (r : List ℕ) (base : ℕ) (weight : ℕ → ℕ) where
  open ipt use {State}

  abbrev Held : Needs → Users × (State × Bool) → Type 0
  Held needs e = Tracks ipt c r base weight needs e.0 e.1.0

  Tracks-same :
      (needs needs' : Needs) (t : Users) (k : State)
      → ((v j : ℕ) → needs v j ≡ needs' v j)
      → Tracks ipt c r base weight needs t k
      → Tracks ipt c r base weight needs' t k
  Tracks-same needs needs' t k same tracks = record {
    keyed = tracks.keyed;
    in_use = tracks.in_use;
    users = λ j v. tracks.users j v ∙ same v j;
    balanced = tracks.balanced;
  }

  pub provision-Tracks :
      (user : ℕ) (others specs : List RuleSpec) (needs : Needs) (t : Users) (k : State)
      → Tracks ipt c r base weight needs t k
      → All (Weighs ipt c r weight) specs
      → (provision ipt user others specs t k).1.1 ≡ true
      → Held (joined user specs others needs) (provision ipt user others specs t k)
  unfolding provision each_not_in joined is_only_in has_key
  provision-Tracks user others [] needs t k tracks weigh h =
      Tracks-same needs (joined user [] others needs) t k (λ v j. ground arith) tracks
  provision-Tracks user others (spec ∷ specs) needs t k tracks weigh h =
      elim (Bool-cases (has_key spec.key others)) [
        | inl e ↦
            let (t', (k', fine)) = provision ipt user others specs t k in
            rw e (
              Tracks-same (joined user specs others needs) (joined user (spec ∷ specs) others needs)
                t' k'
                (λ v j.
                  ap (λ (b : Bool). needs v j || (v == user && b))
                    (sym (is_only_in-skip spec specs others j e)))
                (provision-Tracks user others specs needs t k tracks weigh.1 (rw e at h)))
        | inr e ↦ elim (Bool-cases (provision_one ipt user spec t k).1.1) [
          | inr bad ↦ absurd (let f : false ≡ true = (rw (e, bad) at h) in cc)
          | inl fine ↦
              let (t', (k', b)) = provision_one ipt user spec t k in
              let (t'', (k'', b')) = provision ipt user others specs t' k' in
              rw (e, fine)
                (Tracks-same (joined user specs others (also user spec.key needs))
                  (joined user (spec ∷ specs) others needs) t'' k''
                  (λ v j. joined-step user spec specs others needs v j e)
                  (provision-Tracks user others specs (also user spec.key needs) t' k'
                    (provision_one-Tracks ipt c r base weight needs user spec t k tracks weigh.0
                      fine)
                    weigh.1 (rw (e, fine) at h)))
        ]
      ]

  pub deprovision-Tracks :
      (user : ℕ) (specs others : List RuleSpec) (needs : Needs) (t : Users) (k : State)
      → Tracks ipt c r base weight needs t k
      → All (Weighs ipt c r weight) specs
      → IsDistinct specs
      → ((j : ℕ) → has_key j specs ≡ true → needs user j ≡ true)
      → (deprovision ipt user specs others t k).1.1 ≡ true
      → Held (parted user specs others needs) (deprovision ipt user specs others t k)
  unfolding deprovision each_not_in parted is_only_in has_key
  deprovision-Tracks user [] others needs t k tracks weigh apart needed h =
      Tracks-same needs (parted user [] others needs) t k (λ v j. ground arith) tracks
  deprovision-Tracks user (spec ∷ specs) others needs t k tracks weigh apart needed h =
      let still : (j : ℕ) → has_key j specs ≡ true → needs user j ≡ true =
        λ j found. needed j (has_key-tail spec specs j found) in
      let left : (j : ℕ) → has_key j specs ≡ true → except user spec.key needs user j ≡ true =
        λ j found.
          except-other user spec.key needs j user (has_key-apart spec.key j specs apart.0 found)
          ∙ still j found in
      elim (Bool-cases (has_key spec.key others)) [
        | inl e ↦
            let (t', (k', fine)) = deprovision ipt user specs others t k in
            rw e (
              Tracks-same (parted user specs others needs) (parted user (spec ∷ specs) others needs)
                t' k'
                (λ v j.
                  ap (λ (b : Bool). needs v j && not (v == user && b))
                    (sym (is_only_in-skip spec specs others j e)))
                (deprovision-Tracks user specs others needs t k tracks weigh.1 apart.1 still
                  (rw e at h)))
        | inr e ↦ elim (Bool-cases (deprovision_one ipt user spec t k).1.1) [
          | inr bad ↦ absurd (let f : false ≡ true = (rw (e, bad) at h) in cc)
          | inl fine ↦
              let (t', (k', b)) = deprovision_one ipt user spec t k in
              let (t'', (k'', b')) = deprovision ipt user specs others t' k' in
              rw (e, fine)
                (Tracks-same (parted user specs others (except user spec.key needs))
                  (parted user (spec ∷ specs) others needs) t'' k''
                  (λ v j. parted-step user spec specs others needs v j e)
                  (deprovision-Tracks user specs others (except user spec.key needs) t' k'
                    (deprovision_one-Tracks ipt c r base weight needs user spec t k tracks weigh.0
                      (needed spec.key (has_key-head spec specs)) fine)
                    weigh.1 apart.1 left (rw (e, fine) at h)))
        ]
      ]

  -- If updateNetworkPolicy ends without an error, then the policy needs the keys of its new rules and no others,
  -- who needs the rest is unchanged, and the users and iptables' rules are again those of the keys that some
  -- policy needs: each of these has users, and a rule is in a chain once for each key that needs it there, on
  -- top of the times it is there for other reasons. The conditions: this held before, the policy needed its
  -- old rules and no others, these have distinct keys, and specs with the same key hold the same rules.
  pub update_policy-Tracks :
      (uid : ℕ) (old new : List RuleSpec) (needs : Needs) (t : Users) (k : State)
      → Tracks ipt c r base weight needs t k
      → ((j : ℕ) → needs uid j ≡ has_key j old)
      → IsDistinct old
      → All (Weighs ipt c r weight) old
      → All (Weighs ipt c r weight) new
      → (update_policy ipt uid old new t k).1.1 ≡ true
      → Tracks ipt c r base weight
          (renewed uid new needs)
          (update_policy ipt uid old new t k).0
          (update_policy ipt uid old new t k).1.0
  unfolding update_policy
  update_policy-Tracks uid old new needs t k tracks own apart weigh weigh' h =
      elim (Bool-cases (deprovision ipt uid old new t k).1.1) [
        | inr bad ↦ absurd (let f : false ≡ true = (rw bad at h) in cc)
        | inl fine ↦
            let (t', (k', b)) = deprovision ipt uid old new t k in
            let (t'', (k'', b')) = provision ipt uid old new t' k' in
            let freed =
              deprovision-Tracks uid old new needs t k tracks weigh apart (λ j e. own j ∙ e) fine in
            rw fine (
              Tracks-same (joined uid new old (parted uid old new needs)) (renewed uid new needs)
                t'' k'' (λ v j. joined-parted uid old new needs v j own)
                (provision-Tracks uid old new (parted uid old new needs) t' k' freed weigh'
                  (rw fine at h)))
      ]
