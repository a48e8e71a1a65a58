-- ===== src/Nameserver/Authority.antt =====
-- receiveGossip: a name server has the last word on its own entries.
use weave.Base.{
  ℕ, ◌<◌, ◌≡◌, refl, sym, ap, ◌∙◌, true, false, ◌&&◌, arith, List, [], ◌∷◌, ◌==◌, Bool-cases, inl,
  inr, if◌then◌else◌, All, Option, some, none,
}
use weave.Base.Texts.{text_eq-eq, text_eq_comm, text_lt_connected}
use weave.Nameserver.{
  Entry, equal, insensitive_less, less_below, bury, find_equal, equal_first, merge_entry,
}
use weave.Nameserver.Order.{
  IsStrict, Above, Coherent, insensitive_less_trans, insensitive_less_same, equal-less,
}
use weave.Nameserver.Keys.{SamePlace, SamePlace-refl, less-SamePlace}
use weave.Nameserver.Adding.{AllCoherent, from}
use weave.Nameserver.Places.{above}
use weave.Nameserver.Union.{AreCoherent, AreCoherent-tail, newer, union, union-nil}
use weave.Nameserver.News.{union-before, union-new, union-both}
use weave.Nameserver.Server.{override, override_all, override_found, override_with}

override_with-SamePlace :
    (x e : Entry) → Coherent x e → equal x e ≡ true → SamePlace e (override_with x e).0
unfolding override_with equal
override_with-SamePlace x e c k = ground (
  arith,
  text_eq-eq x.container_id e.container_id,
  text_eq-eq x.hostname e.hostname,
  text_eq-eq x.l_hostname e.l_hostname,
)

-- what is below the first of ascending entries is below them all
less_all :
    (x e : Entry) (es : List Entry)
    → insensitive_less x e ≡ true
    → Above e es
    → IsStrict es
    → All (λ (f : Entry). insensitive_less x f ≡ true) (e ∷ es)
less_all x e [] h a s = (h, tt)
less_all x e (f ∷ es) h a s = (h, less_all x f es (insensitive_less_trans x e f h a) s.0 s.1)

less_same_all :
    (x e : Entry) (es : List Entry)
    → insensitive_less x e ≡ false
    → insensitive_less e x ≡ false
    → Above e es
    → IsStrict es
    → All (λ (f : Entry). insensitive_less x f ≡ true) es
less_same_all x e [] h k a s = tt
less_same_all x e (f ∷ es) h k a s = less_all x f es (insensitive_less_same x e f h k ∙ a) s.0 s.1

same_origin :
    (x e : Entry)
    → insensitive_less x e ≡ false
    → insensitive_less e x ≡ false
    → x.origin ≡ e.origin
unfolding insensitive_less less_below
same_origin x e h k =
    ground
      (arith, text_eq_comm x.l_hostname e.l_hostname, text_lt_connected x.l_hostname e.l_hostname)

-- what a name server says of its own containers: its entries that are not deleted, whatever their
-- version
unfoldable pub own_live : ℕ → List Entry → List Entry
own_live our [] = []
own_live our (x ∷ es) =
    if x.origin == our && x.tombstone == 0
    then record x { version = 0 } ∷ own_live our es
    else own_live our es

module _ (our now : ℕ) where
  own_live-cons :
      (x : Entry) (es fs : List Entry)
      → own_live our es ≡ own_live our fs
      → own_live our (x ∷ es) ≡ own_live our (x ∷ fs)
  unfolding own_live
  own_live-cons x es fs h = rw h refl

  -- the entry of `rest` in the place of `e`
  abbrev pub at : Entry → List Entry → Option Entry
  at e rest = equal_first e (above (from e) rest)

  override_found-SamePlace :
      (e : Entry) (rest : List Entry)
      → AllCoherent rest e
      → SamePlace e (override_found now (at e rest) e).0
  unfolding override_found above equal_first
  override_found-SamePlace e [] c = ground arith
  override_found-SamePlace e (x ∷ rest) c = elim (Bool-cases (insensitive_less x e)) [
    | inl h ↦ rw h (override_found-SamePlace e rest c.1)
    | inr h ↦ elim (Bool-cases (equal x e)) [
      | inl k ↦ rw (h, k) (override_with-SamePlace x e c.0 k)
      | inr k ↦ rw (h, k) (ground arith)
    ]
  ]

  module _ (all : List Entry) where
    pub override-SamePlace :
        (e : Entry) (rest : List Entry)
        → AllCoherent rest e
        → find_equal all e ≡ at e rest
        → SamePlace e (override our now all e).0
    unfolding override
    override-SamePlace e rest c h = elim (Bool-cases (e.origin == our)) [
      | inl y ↦ rw (y, h) (override_found-SamePlace e rest c)
      | inr n ↦ rw n (SamePlace-refl e)
    ]

    -- an entry of ours that we do not have is not live afterwards
    own_live-none :
        (e : Entry) (es : List Entry)
        → 0 < now
        → find_equal all e ≡ none
        → own_live our ((override our now all e).0 ∷ es) ≡ own_live our es
    unfolding own_live override override_found bury
    own_live-none e es pos h = rw h (ground arith)

    -- one that we have is live if it was
    own_live-some :
        (x e : Entry) (es fs : List Entry)
        → find_equal all e ≡ some x
        → x.origin ≡ e.origin
        → own_live our es ≡ own_live our fs
        → own_live our (newer x (override our now all e).0 ∷ es) ≡ own_live our (x ∷ fs)
    unfolding own_live override override_found newer merge_entry override_with
    own_live-some x e es fs h o rest = rw h (ground arith)

    -- the entries of ours in the places of the incoming ones are all in `rest`
    abbrev pub Found : List Entry → List Entry → Type 0
    Found rest incoming = All (λ (e : Entry). find_equal all e ≡ at e rest) incoming

    at-skip :
        (x f : Entry) (rest : List Entry)
        → insensitive_less x f ≡ true
        → at f (x ∷ rest) ≡ at f rest
    unfolding above
    at-skip x f rest h = rw h refl

    Found-skip :
        (x : Entry) (rest incoming : List Entry)
        → All (λ (f : Entry). insensitive_less x f ≡ true) incoming
        → Found (x ∷ rest) incoming
        → Found rest incoming
    Found-skip x rest [] l h = tt
    Found-skip x rest (e ∷ incoming) l h =
        (h.0 ∙ at-skip x e rest l.0, Found-skip x rest incoming l.1 h.1)

    at-here :
        (x e : Entry) (rest : List Entry)
        → Coherent x e
        → insensitive_less x e ≡ false
        → at e (x ∷ rest) ≡ (if insensitive_less e x then none else some x)
    unfolding above equal_first
    at-here x e rest c h = elim (Bool-cases (insensitive_less e x)) [
      | inl k ↦ rw (h, equal-less x e c, h, k) refl
      | inr k ↦ rw (h, equal-less x e c, h, k) refl
    ]

    pub AllCoherent-head :
        (rest : List Entry) (e : Entry) (incoming : List Entry)
        → AreCoherent rest (e ∷ incoming)
        → AllCoherent rest e
    AllCoherent-head [] e incoming c = tt
    AllCoherent-head (x ∷ rest) e incoming c = (c.0.0, AllCoherent-head rest e incoming c.1)

    at_nil : (e : Entry) → at e [] ≡ none
    unfolding above equal_first
    at_nil e = refl

    pub own_live-union :
        (incoming rest : List Entry)
        → 0 < now
        → IsStrict incoming
        → AreCoherent rest incoming
        → Found rest incoming
        → own_live our (union rest (override_all our now all incoming).0) ≡ own_live our rest
    unfolding own_live union override_all
    own_live-union [] rest pos s c h = ap (own_live our) (union-nil rest)
    own_live-union (e ∷ incoming) [] pos s c h =
        own_live-none e (override_all our now all incoming).0 pos (h.0 ∙ at_nil e)
        ∙ own_live-union incoming [] pos s.1 tt h.1
    own_live-union (e ∷ incoming) (x ∷ rest) pos s c h =
        let e' = (override our now all e).0 in
        let done = (override_all our now all incoming).0 in
        let p = override-SamePlace e (x ∷ rest) (AllCoherent-head (x ∷ rest) e incoming c) h.0 in
        let over = less-SamePlace x x e e' (SamePlace-refl x) p in
        let under = less-SamePlace e e' x x p (SamePlace-refl x) in
        elim (Bool-cases (insensitive_less x e)) [
          | inl l ↦
              let later = less_all x e incoming l s.0 s.1 in
              let found = Found-skip x rest (e ∷ incoming) later h in
              ap (own_live our) (union-before e' x done rest (sym over ∙ l))
              ∙ own_live-cons x (union rest (e' ∷ done)) rest
                  (own_live-union (e ∷ incoming) rest pos s c.1 found)
          | inr l ↦ elim (Bool-cases (insensitive_less e x)) [
            | inl k ↦
                let gone = h.0 ∙ at-here x e rest c.0.0 l ∙ rw k refl in
                let tails = AreCoherent-tail (x ∷ rest) e incoming c in
                ap (own_live our) (union-new e' x done rest (sym over ∙ l) (sym under ∙ k))
                ∙ own_live-none e (union (x ∷ rest) done) pos gone
                ∙ own_live-union incoming (x ∷ rest) pos s.1 tails h.1
            | inr k ↦
                let there = h.0 ∙ at-here x e rest c.0.0 l ∙ rw k refl in
                let later = less_same_all x e incoming l k s.0 s.1 in
                let tails = AreCoherent-tail rest e incoming c.1 in
                ap (own_live our) (union-both e' x done rest (sym over ∙ l) (sym under ∙ k))
                ∙ own_live-some x e (union rest done) rest there (same_origin x e l k) (
                    own_live-union incoming rest pos s.1 tails
                      (Found-skip x rest incoming later h.1))
          ]
        ]
