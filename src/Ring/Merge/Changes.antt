-- ===== src/Ring/Merge/Changes.antt =====
-- What a merge reports, and what it cannot change.
use weave.Base.{
  ℕ, suc, ◌≤◌, ◌≡◌, ◌≢◌, refl, Bool, true, false, List, [], ◌∷◌, ltb, ok, Option, none, some, arith,
  Bool-cases, inl, inr, ◌⊎◌, ap, ==_self, ltb→le, ◌∙◌,
}
use weave.Entries.{Entry}
use weave.Entries.Order.{IsSortedFrom, IsSortedFrom-mono, lookup, lookup_below, owner_from}
use weave.Ring.Merge.{splits, merge_entries}
use weave.Ring.Merge.Steps.{
  Merges, done, rest_mine, rest_theirs, mine_first, theirs_first, not_newer, newer,
  merge_entries-Merges,
}

-- Merging entries into themselves succeeds and changes nothing, whoever owns them.
pub merge_entries_self :
    (our : ℕ) (prev : Option ℕ) (es : List Entry) → merge_entries our prev es es ≡ ok (es, false)
unfolding merge_entries
merge_entries_self our prev [] = refl
merge_entries_self our prev (e ∷ es) = ground (arith, merge_entries_self our (some e.peer) es)

Merges-updated :
    {our : ℕ} {prev : Option ℕ} {es other res : List Entry} {u : Bool}
    → Merges our prev es other res u
    → ((u ≡ false) × (res ≡ es)) ⊎ ((u ≡ true) × (res ≢ es))
Merges-updated done = inl (refl, refl)
Merges-updated (rest_mine m es) = inl (refl, refl)
Merges-updated (rest_theirs t ns run) = inr (refl, λ h. cc)
Merges-updated (mine_first m t {es = es} {res = res} lt run) = elim (Merges-updated run) [
  | inl (f, e) ↦ inl (f, ap (◌∷◌ m) e)
  | inr (f, n) ↦ inr (f, λ h. n cc)
]
Merges-updated (theirs_first m t lt ns run) = inr (refl, λ h. ground arith)
Merges-updated (not_newer m t {es = es} {res = res} e v agree run) = elim (Merges-updated run) [
  | inl (f, g) ↦ inl (f, ap (◌∷◌ m) g)
  | inr (f, n) ↦ inr (f, λ h. n cc)
]
Merges-updated (newer m t e v theirs run) = inr (refl, λ h. ground arith)

-- A successful merge reports a change exactly if the result differs from the original entries.
pub merge_entries-updated :
    (our : ℕ) (prev : Option ℕ) (es other res : List Entry) (u : Bool)
    → merge_entries our prev es other ≡ ok (res, u)
    → ((u ≡ false) × (res ≡ es)) ⊎ ((u ≡ true) × (res ≢ es))
merge_entries-updated our prev es other res u h =
    Merges-updated (merge_entries-Merges our prev es other h)

-- no entry of `other` gives `our` a token that `es` does not have
abbrev pub NoNewTokens : ℕ → List Entry → List Entry → Type 0
NoNewTokens our es other =
    (k : ℕ) (t : Entry) → lookup k other ≡ some t → t.peer ≡ our → lookup k es ≢ none

-- a token that theirs inserts before ours cannot split a range of ours
no_split :
    {our : ℕ} {prev p : Option ℕ} (es other : List Entry) (t : Entry)
    → splits our prev t ≡ false
    → (p ≡ some our → prev ≡ some our)
    → NoNewTokens our es (t ∷ other)
    → lookup t.token es ≡ none
    → p ≢ some our
unfolding splits lookup
no_split {our} {prev} es other t ns h fresh missing e =
    let same : prev ≡ some our = h e in
    let mine : t.peer ≡ our = ground (arith, same) in fresh t.token t (rw ==_self) mine missing

tail-NoNewTokens :
    {our : ℕ} (es es' other other' : List Entry) (lo : ℕ)
    → IsSortedFrom lo other'
    → ((k : ℕ) → lo ≤ k → lookup k other ≡ lookup k other')
    → ((k : ℕ) → lo ≤ k → lookup k es ≡ lookup k es')
    → NoNewTokens our es other
    → NoNewTokens our es' other'
tail-NoNewTokens es es' other other' lo s f g h k t e mine n = elim (Bool-cases (ltb k lo)) [
  | inl lt ↦ absurd (ground (arith, lookup_below lo k other' s))
  | inr ge ↦ h k t (f k (ltb→le _ _ ge) ∙ e) mine (g k (ltb→le _ _ ge) ∙ n)
]

lookup_past :
    (e : Entry) (es : List Entry) (k : ℕ) → suc e.token ≤ k → lookup k (e ∷ es) ≡ lookup k es
unfolding lookup
lookup_past e es k h = ground arith

Merges-owner :
    {our : ℕ} {prev : Option ℕ} {es other res : List Entry} {u : Bool}
    → Merges our prev es other res u
    → (lo : ℕ) (p q : Option ℕ) → IsSortedFrom lo es
    → IsSortedFrom lo other
    → NoNewTokens our es other
    → (p ≡ some our → prev ≡ some our)
    → (p ≡ some our → q ≡ some our)
    → (x : ℕ) → owner_from p es x ≡ some our
    → owner_from q res x ≡ some our
unfolding owner_from lookup
Merges-owner done lo p q s r n f g x h = g h
Merges-owner (rest_mine m es) lo p q s r n f g x h = ground (arith, g)
Merges-owner {our} {prev} (rest_theirs t {other = other} ns run) lo p q s r n f g x h =
    absurd (no_split {our = our} {prev = prev} {p = p} [] other t ns f n refl h)
Merges-owner (mine_first m t {es = es} {other = other} {res = res} lt run) lo p q s r n f g x h =
    elim (Bool-cases (ltb x m.token)) [
      | inl below ↦ rw below (g (rw below at h))
      | inr at_least ↦
          let fresh =
            tail-NoNewTokens (m ∷ es) es (t ∷ other) (t ∷ other) (suc m.token) (omega arith, r.1)
              (λ k _. refl) (λ k l. lookup_past m es k l) n in
          rw at_least (
            Merges-owner run (suc m.token) (some m.peer) (some m.peer) s.1 (omega arith, r.1) fresh
              (λ e. e) (λ e. e) x (rw at_least at h))
    ]
Merges-owner {our} {prev} (theirs_first m t {es = es} {other = other} {res = res} lt ns run) lo p q
      s r n f g x h =
    let not_ours =
      no_split {our = our} {prev = prev} {p = p} (m ∷ es) other t ns f n
        (lookup_below (suc t.token) t.token (m ∷ es) (omega arith, s.1) (omega arith)) in
    let fresh =
      tail-NoNewTokens (m ∷ es) (m ∷ es) (t ∷ other) other (suc t.token) r.1
        (λ k l. lookup_past t other k l) (λ k _. refl) n in
    elim (Bool-cases (ltb x m.token)) [
      | inl below ↦ absurd (not_ours (rw below at h))
      | inr at_least ↦
          let past : ltb x t.token ≡ false = ground arith in
          rw past (
            Merges-owner run (suc t.token) p (some t.peer) (omega arith, s.1) r.1 fresh
              (λ e. absurd (not_ours e)) (λ e. absurd (not_ours e)) x h)
    ]
Merges-owner (not_newer m t {es = es} {other = other} {res = res} e v agree run) lo p q s r n f g x
      h =
    elim (Bool-cases (ltb x m.token)) [
      | inl below ↦ rw below (g (rw below at h))
      | inr at_least ↦
          let sorted = IsSortedFrom-mono {m = suc m.token} other (omega arith) r.1 in
          let fresh =
            tail-NoNewTokens (m ∷ es) es (t ∷ other) other (suc m.token) sorted
              (λ k l. lookup_past t other k (omega arith)) (λ k l. lookup_past m es k l) n in
          rw at_least (
            Merges-owner run (suc m.token) (some m.peer) (some m.peer) s.1 sorted fresh (λ e. e)
              (λ e. e) x (rw at_least at h))
    ]
Merges-owner (newer m t {es = es} {other = other} {res = res} e v theirs run) lo p q s r n f g x h =
    elim (Bool-cases (ltb x m.token)) [
      | inl below ↦
          let below' : ltb x t.token ≡ true = ground arith in rw below' (g (rw below at h))
      | inr at_least ↦
          let past : ltb x t.token ≡ false = ground arith in
          let sorted = IsSortedFrom-mono {m = suc m.token} other (omega arith) r.1 in
          let fresh =
            tail-NoNewTokens (m ∷ es) es (t ∷ other) other (suc m.token) sorted
              (λ k l. lookup_past t other k (omega arith)) (λ k l. lookup_past m es k l) n in
          rw past (
            Merges-owner run (suc m.token) (some m.peer) (some t.peer) s.1 sorted fresh
              (λ e. absurd (theirs (ground (arith, e)))) (λ e. absurd (theirs (ground (arith, e))))
              x (rw at_least at h))
    ]

-- After a successful merge of sorted entries, every address that our entries gave us is still ours, if the other side gives us no token that we do not have. (The addresses before the first token, which belong to the last entry, are not covered.)
pub merge_entries_keep_ours :
    (our : ℕ) (es other res : List Entry) (u : Bool) (x : ℕ)
    → IsSortedFrom 0 es
    → IsSortedFrom 0 other
    → NoNewTokens our es other
    → merge_entries our none es other ≡ ok (res, u)
    → owner_from none es x ≡ some our
    → owner_from none res x ≡ some our
merge_entries_keep_ours our es other res u x s r n e h =
    Merges-owner (merge_entries-Merges our none es other e) 0 none none s r n (λ e. e) (λ e. e) x h
