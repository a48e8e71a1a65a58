-- ===== src/Nameserver/Received.antt =====
-- receiveGossip as a whole.
use weave.Base.{
  ℕ, ◌<◌, ◌≡◌, refl, sym, ap, ◌∙◌, Bool, true, false, List, [], ◌∷◌, Bool-cases, inl, inr, ok, All,
  some,
}
use weave.Base.Texts.{text_eq}
use weave.Nameserver.{
  Entry, GossipData, insensitive_less, filter, filter_all, check_and_panic, merge_from,
}
use weave.Nameserver.Order.{IsValid, IsStrict, IsLowered, Above, Coherent, insensitive_less_trans}
use weave.Nameserver.Keys.{SamePlaces, IsValid-SamePlaces}
use weave.Nameserver.Merging.{check-IsValid, merge-ok, IsValid-union}
use weave.Nameserver.Adding.{find_equal-above}
use weave.Nameserver.Union.{AreCoherent, AreCoherent-tail, union}
use weave.Nameserver.Authority.{
  own_live, own_live-union, override-SamePlace, Found, AllCoherent-head,
}
use weave.Nameserver.Server.{
  Nameserver, Received, receive_gossip, is_skewed, override_all, broadcast_entries, news_of,
}

Above-trans :
    (x y : Entry) (es : List Entry) → insensitive_less x y ≡ true → Above y es → Above x es
Above-trans x y [] h a = tt
Above-trans x y (z ∷ es) h a = insensitive_less_trans x y z h a

Above-filter :
    (f : Entry → Bool) (x : Entry) (es : List Entry)
    → Above x es
    → IsStrict es
    → Above x (filter f es)
unfolding filter
Above-filter f x [] a s = tt
Above-filter f x (y ∷ es) a s = elim (Bool-cases (f y)) [
  | inl h ↦ rw h a
  | inr h ↦ rw h (Above-filter f x es (Above-trans x y es a s.0) s.1)
]

IsStrict-filter : (f : Entry → Bool) (es : List Entry) → IsStrict es → IsStrict (filter f es)
unfolding filter
IsStrict-filter f [] s = tt
IsStrict-filter f (x ∷ es) s = elim (Bool-cases (f x)) [
  | inl h ↦ rw h (Above-filter f x es s.0 s.1, IsStrict-filter f es s.1)
  | inr h ↦ rw h (IsStrict-filter f es s.1)
]

All-filter {κ} :
    (P : Entry → Type κ) (f : Entry → Bool) (es : List Entry) → All P es → All P (filter f es)
unfolding filter
All-filter P f [] a = tt
All-filter P f (x ∷ es) a = elim (Bool-cases (f x)) [
  | inl h ↦ rw h (a.0, All-filter P f es a.1)
  | inr h ↦ rw h (All-filter P f es a.1)
]

pub IsValid-filter : (f : Entry → Bool) (es : List Entry) → IsValid es → IsValid (filter f es)
IsValid-filter f es v = record {
  strict = IsStrict-filter f es v.strict;
  lowered = All-filter IsLowered f es v.lowered;
}

pub filter_all-ok :
    {E : Type 0} (f : Entry → Bool) (es : List Entry)
    → IsValid es
    → filter_all {E = E} f es ≡ ok (filter f es)
unfolding filter_all
filter_all-ok f es v =
    rw (check-IsValid es v, check-IsValid (filter f es) (IsValid-filter f es v)) refl

AreCoherent-filter :
    (f : Entry → Bool) (xs es : List Entry) → AreCoherent xs es → AreCoherent xs (filter f es)
AreCoherent-filter f [] es c = tt
AreCoherent-filter f (x ∷ xs) es c =
    (All-filter (λ (y : Entry). Coherent x y) f es c.0, AreCoherent-filter f xs es c.1)

All-SamePlaces :
    (x : Entry) (ys zs : List Entry)
    → SamePlaces ys zs
    → All (λ (y : Entry). Coherent x y) ys
    → All (λ (y : Entry). Coherent x y) zs
All-SamePlaces x [] [] p c = tt
All-SamePlaces x [] (z ∷ zs) p c = absurd p
All-SamePlaces x (y ∷ ys) [] p c = absurd p
All-SamePlaces x (y ∷ ys) (z ∷ zs) p c = (
  ap (text_eq x.hostname) (sym p.0.hostname) ∙ c.0 ∙ ap (text_eq x.l_hostname) p.0.l_hostname,
  All-SamePlaces x ys zs p.1 c.1,
)

AreCoherent-SamePlaces :
    (xs ys zs : List Entry) → SamePlaces ys zs → AreCoherent xs ys → AreCoherent xs zs
AreCoherent-SamePlaces [] ys zs p c = tt
AreCoherent-SamePlaces (x ∷ xs) ys zs p c =
    (All-SamePlaces x ys zs p c.0, AreCoherent-SamePlaces xs ys zs p c.1)

module _ (our now : ℕ) (es : List Entry) (s : IsStrict es) where
  override_all-SamePlaces :
      (incoming : List Entry)
      → AreCoherent es incoming
      → SamePlaces incoming (override_all our now es incoming).0
  unfolding override_all
  override_all-SamePlaces [] c = tt
  override_all-SamePlaces (e ∷ incoming) c = (
    override-SamePlace our now es e es (AllCoherent-head our now es es e incoming c)
        (find_equal-above e es s),
    override_all-SamePlaces incoming (AreCoherent-tail es e incoming c),
  )

  everything-Found : (incoming : List Entry) → Found our now es es incoming
  everything-Found [] = tt
  everything-Found (e ∷ incoming) = (find_equal-above e es s, everything-Found incoming)

-- receiveGossip of a decoded message whose clock is not skewed, at a time past 0, does not panic where the
-- entries of both sides are valid and their host names coherent. The entries become the union of
-- those that were there and those that it passes on, and are valid. Whatever the message says, the
-- entries of the name server's own containers that are not deleted are, but for their versions, the ones before.
pub receive_gossip_correct :
    (is_known : ℕ → Bool) (n : Nameserver) (now : ℕ) (g : GossipData)
    → IsValid n.entries
    → IsValid g.entries
    → AreCoherent n.entries g.entries
    → 0 < now
    → is_skewed now g.timestamp ≡ false
    → (r : Received) × (receive_gossip is_known n now (some g) ≡ ok r)
      × (r.server.entries ≡ union n.entries r.merged.entries)
      × IsValid r.server.entries
      × (own_live n.our_name r.server.entries ≡ own_live n.our_name n.entries)
unfolding receive_gossip check_and_panic
receive_gossip_correct is_known n now g v w c pos fresh =
    let f = λ (e : Entry). is_known e.origin in
    let known = filter f g.entries in
    let coherent = AreCoherent-filter f n.entries g.entries c in
    let valid = IsValid-filter f g.entries w in
    let over = override_all n.our_name now n.entries known in
    let places = override_all-SamePlaces n.our_name now n.entries v.strict known coherent in
    let valid' = IsValid-SamePlaces known over.0 places valid in
    let coherent' = AreCoherent-SamePlaces n.entries known over.0 places coherent in
    let joined = union n.entries over.0 in
    (
      record {
        server = record n { entries = joined };
        sent = broadcast_entries n now over.1;
        news = news_of now (merge_from over.0 n.entries).1;
        merged = record g { entries = over.0 };
      },
      rw
          (
            fresh,
            filter_all-ok f g.entries w,
            check-IsValid known valid,
            check-IsValid over.0 valid',
            merge-ok n.entries over.0 v valid' coherent',
          )
          refl,
      refl,
      IsValid-union n.entries over.0 v valid',
      own_live-union n.our_name now n.entries known n.entries pos valid.strict coherent
          (everything-Found n.our_name now n.entries v.strict known),
    )
