-- ===== src/Npc/Needs.antt =====
-- Who needs which keys: the sums of the changes that the loops of provision and deprovision make.
use weave.Base.{
  ℕ, ◌≡◌, sym, ap, ◌∙◌, Bool, true, false, not, ◌&&◌, ◌||◌, List, ◌∷◌, ◌==◌, if◌then◌else◌, arith,
  Bool-cases, inl, inr, ==→eq,
}
use weave.Npc.{RuleSpec, has_key}

-- who needs which keys
abbrev pub Needs : Type 0
Needs = ℕ → ℕ → Bool

-- `user` needs the key `key` as well
unfoldable pub also : ℕ → ℕ → Needs → Needs
also user key needs v j = needs v j || (v == user && key == j)

-- `user` needs the key `key` no more
unfoldable pub except : ℕ → ℕ → Needs → Needs
except user key needs v j = needs v j && not (v == user && key == j)

pub also-other :
    (user key : ℕ) (needs : Needs) (j v : ℕ)
    → (key == j) ≡ false
    → also user key needs v j ≡ needs v j
unfolding also
also-other user key needs j v h = rw h (ground arith)

pub except-other :
    (user key : ℕ) (needs : Needs) (j v : ℕ)
    → (key == j) ≡ false
    → except user key needs v j ≡ needs v j
unfolding except
except-other user key needs j v h = rw h (ground arith)

-- is the key among the specs, and not among the others?
unfoldable pub is_only_in : List RuleSpec → List RuleSpec → ℕ → Bool
unfolding has_key
is_only_in specs others j = has_key j specs && not (has_key j others)

-- `user` needs the keys of the specs that are not among the others as well
unfoldable pub joined : ℕ → List RuleSpec → List RuleSpec → Needs → Needs
unfolding is_only_in
joined user specs others needs v j = needs v j || (v == user && is_only_in specs others j)

-- `user` needs the keys of the specs that are not among the others no more
unfoldable pub parted : ℕ → List RuleSpec → List RuleSpec → Needs → Needs
unfolding is_only_in
parted user specs others needs v j = needs v j && not (v == user && is_only_in specs others j)

-- the needs when `user` needs the keys of `new` and no others
unfoldable pub renewed : ℕ → List RuleSpec → Needs → Needs
unfolding has_key
renewed user new needs v j = if v == user then has_key j new else needs v j

has_key-same :
    (j k : ℕ) (specs : List RuleSpec) → (j == k) ≡ true → has_key k specs ≡ has_key j specs
has_key-same j k specs h = ap (λ (i : ℕ). has_key i specs) (sym (==→eq j k h))

-- a spec that is among the others adds nothing
pub is_only_in-skip :
    (spec : RuleSpec) (specs others : List RuleSpec) (j : ℕ)
    → has_key spec.key others ≡ true
    → is_only_in (spec ∷ specs) others j ≡ is_only_in specs others j
unfolding is_only_in
is_only_in-skip spec specs others j h = ground (arith, has_key-same spec.key j others, h)

pub is_only_in-step :
    (spec : RuleSpec) (specs others : List RuleSpec) (j : ℕ)
    → has_key spec.key others ≡ false
    → is_only_in (spec ∷ specs) others j ≡ ((spec.key == j) || is_only_in specs others j)
unfolding is_only_in
is_only_in-step spec specs others j h = ground (arith, has_key-same spec.key j others, h)

pub joined-step :
    (user : ℕ) (spec : RuleSpec) (specs others : List RuleSpec) (needs : Needs) (v j : ℕ)
    → has_key spec.key others ≡ false
    → joined user specs others (also user spec.key needs) v j
      ≡ joined user (spec ∷ specs) others needs v j
unfolding joined also
joined-step user spec specs others needs v j h =
    rw (is_only_in-step spec specs others j h) (ground arith)

pub parted-step :
    (user : ℕ) (spec : RuleSpec) (specs others : List RuleSpec) (needs : Needs) (v j : ℕ)
    → has_key spec.key others ≡ false
    → parted user specs others (except user spec.key needs) v j
      ≡ parted user (spec ∷ specs) others needs v j
unfolding parted except
parted-step user spec specs others needs v j h =
    rw (is_only_in-step spec specs others j h) (ground arith)

-- what was needed and goes, and what was not needed and comes
pub joined-parted :
    (user : ℕ) (old new : List RuleSpec) (needs : Needs) (v j : ℕ)
    → ((i : ℕ) → needs user i ≡ has_key i old)
    → joined user new old (parted user old new needs) v j ≡ renewed user new needs v j
unfolding joined parted renewed is_only_in
joined-parted user old new needs v j h = elim (Bool-cases (v == user)) [
  | inr e ↦ rw e (ground arith)
  | inl e ↦
      let same : needs v j ≡ has_key j old = ap (λ (i : ℕ). needs i j) (==→eq v user e) ∙ h j in
      rw (e, same) (ground arith)
]

pub has_key-head :
    (spec : RuleSpec) (specs : List RuleSpec) → has_key spec.key (spec ∷ specs) ≡ true
unfolding has_key
has_key-head spec specs = ground arith

pub has_key-tail :
    (spec : RuleSpec) (specs : List RuleSpec) (j : ℕ)
    → has_key j specs ≡ true
    → has_key j (spec ∷ specs) ≡ true
unfolding has_key
has_key-tail spec specs j h = ground (arith, h)

pub has_key-apart :
    (k j : ℕ) (specs : List RuleSpec)
    → has_key k specs ≡ false
    → has_key j specs ≡ true
    → (k == j) ≡ false
has_key-apart k j specs h h' = elim (Bool-cases (k == j)) [
  | inr e ↦ e
  | inl e ↦ absurd (let f : true ≡ false = sym h' ∙ has_key-same k j specs e ∙ h in cc)
]
