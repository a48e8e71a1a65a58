-- ===== src/Nameserver/Answers.antt =====
-- What Lookup answers after AddEntry, ContainerDied and Delete.
use weave.Base.{
  ℕ, ◌<◌, ◌≡◌, refl, ap, ◌∙◌, Bool, true, false, not, ◌&&◌, ◌||◌, arith, List, [], ◌∷◌, ◌==◌,
  Bool-cases, inl, inr, ok,
}
use weave.Base.Texts.{
  Text, text_eq, to_lower, text_eq_self, text_eq-eq, text_eq_comm, text_lt_connected,
}
use weave.Nameserver.{
  Entry, GossipData, insensitive_less, less_below, filter, new_entry, revive, bury, bury_all,
  tombstone_all,
}
use weave.Nameserver.Order.{IsValid}
use weave.Nameserver.Merging.{check-IsValid}
use weave.Nameserver.Keys.{SamePlace, SamePlaces, SamePlace-refl, IsValid-SamePlaces}
use weave.Nameserver.Adding.{with_entry, AllCoherent, add_correct}
use weave.Nameserver.Lookups.{lookup_correct}
use weave.Nameserver.Server.{
  Nameserver, live_addresses, lookup, add_entry, broadcast_entries, tombstone_ours,
}

abbrev pub named : Text → Entry → Bool
named hostname x = text_eq x.l_hostname (to_lower hostname)

-- the answer of Lookup, by a scan
unfoldable pub answers : Text → List Entry → List ℕ
unfolding live_addresses filter
answers hostname es = live_addresses (filter (named hostname) es)

pub lookup-answers :
    {E : Type 0} (n : Nameserver) (hostname : Text)
    → IsValid n.entries
    → lookup {E = E} n hostname ≡ ok (answers hostname n.entries)
unfolding lookup answers
lookup-answers n hostname v = rw (lookup_correct n.entries hostname v) refl

unfoldable pub has_address : ℕ → List ℕ → Bool
has_address a [] = false
has_address a (b ∷ bs) = a == b || has_address a bs

same_place :
    (x e : Entry)
    → insensitive_less x e ≡ false
    → insensitive_less e x ≡ false
    → (x.l_hostname ≡ e.l_hostname) × (x.addr ≡ e.addr)
unfolding insensitive_less less_below
same_place x e h k = ground (
  arith,
  text_eq-eq x.l_hostname e.l_hostname,
  text_eq_comm x.l_hostname e.l_hostname,
  text_eq_comm x.container_id e.container_id,
  text_lt_connected x.l_hostname e.l_hostname,
  text_lt_connected x.container_id e.container_id,
)

module _ (hostname : Text) (e : Entry) (there : e.tombstone ≡ 0)
    (l : e.l_hostname ≡ to_lower hostname) where
  is_named : named hostname e ≡ true
  is_named = rw l (text_eq_self (to_lower hostname))

  answers-revive :
      (x : Entry) (es : List Entry) (b : ℕ)
      → x.l_hostname ≡ e.l_hostname
      → x.addr ≡ e.addr
      → has_address b (answers hostname (revive x ∷ es))
        ≡ b == e.addr || has_address b (answers hostname (x ∷ es))
  unfolding answers has_address revive
  answers-revive x es b p q =
      ground (arith, is_named, ap (λ (t : Text). text_eq t (to_lower hostname)) p)

  answers-with_entry :
      (es : List Entry) (b : ℕ)
      → has_address b (answers hostname (with_entry e es))
        ≡ b == e.addr || has_address b (answers hostname es)
  unfolding answers has_address with_entry
  answers-with_entry [] b = ground (arith, is_named)
  answers-with_entry (x ∷ es) b = elim (Bool-cases (insensitive_less x e)) [
    | inl h ↦ rw h (ground (arith, answers-with_entry es b))
    | inr h ↦ elim (Bool-cases (insensitive_less e x)) [
      | inl k ↦ rw (h, k) (ground (arith, is_named))
      | inr k ↦ let same = same_place x e h k in rw (h, k) (answers-revive x es b same.0 same.1)
    ]
  ]

new_tombstone : (h c : Text) (o a : ℕ) → (new_entry h c o a).tombstone ≡ 0
unfolding new_entry
new_tombstone h c o a = refl

new_l_hostname : (h c : Text) (o a : ℕ) → (new_entry h c o a).l_hostname ≡ to_lower h
unfolding new_entry
new_l_hostname h c o a = refl

new_addr : (h c : Text) (o a : ℕ) → (new_entry h c o a).addr ≡ a
unfolding new_entry
new_addr h c o a = refl

-- AddEntry on a valid name server with coherent host names does not panic and leaves it valid. Then
-- Lookup of the host name answers with the new address and with those that it answered with before.
pub lookup-add_entry :
    {E : Type 0} (n : Nameserver) (now : ℕ) (hostname containerid : Text) (origin addr : ℕ)
    → IsValid n.entries
    → AllCoherent n.entries (new_entry hostname containerid origin addr)
    → (n' : Nameserver) × (sent : List GossipData) × (before : List ℕ) × (after : List ℕ)
      × (add_entry {E = E} n now hostname containerid origin addr ≡ ok (n', sent))
      × IsValid n'.entries
      × (lookup {E = E} n hostname ≡ ok before)
      × (lookup {E = E} n' hostname ≡ ok after)
      × ((b : ℕ) → has_address b after ≡ b == addr || has_address b before)
unfolding add_entry
lookup-add_entry {E} n now hostname containerid origin addr v c =
    let e = new_entry hostname containerid origin addr in
    let (at, run, valid, found, live) =
      add_correct {E = E} n.entries hostname containerid origin addr v c in
    let n' = record n { entries = with_entry e n.entries } in
    (
      n',
      broadcast_entries n now (at ∷ []),
      answers hostname n.entries,
      answers hostname (with_entry e n.entries),
      rw run refl,
      valid,
      lookup-answers n hostname v,
      lookup-answers n' hostname valid,
      λ b.
          answers-with_entry hostname e (new_tombstone hostname containerid origin addr)
            (new_l_hostname hostname containerid origin addr) n.entries b
          ∙ rw (new_addr hostname containerid origin addr) refl,
    )

module _ (now ours : ℕ) (f : Entry → Bool) where
  bury-SamePlace : (e : Entry) → SamePlace e (bury now e).0
  unfolding bury
  bury-SamePlace e = ground arith

  bury_all-SamePlaces : (es : List Entry) → SamePlaces es (bury_all now ours f es).0
  unfolding bury_all
  bury_all-SamePlaces [] = tt
  bury_all-SamePlaces (e ∷ es) = elim (Bool-cases (f e && (e.origin == ours && (bury now e).1))) [
    | inl h ↦ rw h (bury-SamePlace e, bury_all-SamePlaces es)
    | inr h ↦ rw h (SamePlace-refl e, bury_all-SamePlaces es)
  ]

  answers-bury_all :
      (hostname : Text) (es : List Entry)
      → 0 < now
      → answers hostname (bury_all now ours f es).0
        ≡ live_addresses
            (filter (λ (x : Entry). named hostname x && not (f x && x.origin == ours)) es)
  unfolding answers bury_all
  answers-bury_all hostname [] pos = refl
  answers-bury_all hostname (e ∷ es) pos = ground (arith, answers-bury_all hostname es pos)

-- Tombstoning the entries that a test selects, as ContainerDied and Delete do, on a valid name server at
-- a time past 0 does not panic and leaves it valid. Lookup then answers with the addresses of the entries
-- that it answered with before, less those of our own that the test selects.
pub tombstone_ours_correct :
    {E : Type 0} (n : Nameserver) (now : ℕ) (f : Entry → Bool) (hostname : Text)
    → IsValid n.entries
    → 0 < now
    → (n' : Nameserver) × (sent : List GossipData) × (tombstone_ours {E = E} n now f
        ≡ ok (n', sent))
      × IsValid n'.entries
      × (lookup {E = E} n' hostname
          ≡ ok (
              live_addresses (
                filter
                  (λ (x : Entry). named hostname x && not (f x && x.origin == n.our_name))
                  n.entries)))
unfolding tombstone_ours tombstone_all
tombstone_ours_correct {E} n now f hostname v pos =
    let r = bury_all now n.our_name f n.entries in
    let n' = record n { entries = r.0 } in
    let valid =
      IsValid-SamePlaces n.entries r.0 (bury_all-SamePlaces now n.our_name f n.entries) v in
    (
      n',
      broadcast_entries n now r.1,
      rw (check-IsValid n.entries v, check-IsValid r.0 valid) refl,
      valid,
      lookup-answers {E = E} n' hostname valid
          ∙ ap ok (answers-bury_all now n.our_name f hostname n.entries pos),
    )
