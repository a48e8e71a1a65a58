-- ===== src/Tests/Names.antt =====
-- nameserver at concrete entries.
use weave.Base.{
  ℕ, ◌≡◌, ◌↔◌, refl, Bool, true, false, List, [], ◌∷◌, arith, some, ok, ◌>>=◌, ◌||◌, ◌==◌, ◌&&◌,
  not,
}
use weave.Base.Texts.{Text, text_eq, text_lt, to_lower}
use weave.Nameserver.{
  merge_entry, check_and_panic, filter_all, place_of, search_entries, Entry, GossipData,
  insensitive_less, equal, merge, add, new_entry, filter, find_equal,
}
use weave.Nameserver.Adding.{AllCoherent}
use weave.Nameserver.Answers.{has_address, lookup-add_entry, tombstone_ours_correct, named}
use weave.Nameserver.Authority.{own_live}
use weave.Nameserver.News.{entries_merge_correct, entries_merge_converge}
use weave.Nameserver.Order.{IsValid}
use weave.Nameserver.Received.{receive_gossip_correct}
use weave.Nameserver.Server.{
  Nameserver, Received, add_entry, tombstone_ours, live_addresses, receive_gossip, override_all,
  broadcast_entries, news_of, is_skewed, lookup as lookup_addresses,
}
use weave.Nameserver.Union.{AreCoherent, union}
use weave.Nameserver.Variants.{merge_again, merge_variants}

-- "Web", "db" and "web"
abbrev web : Text
web = b'W' ∷ b'e' ∷ b'b' ∷ []

abbrev db : Text
db = b'd' ∷ b'b' ∷ []

abbrev lower_web : Text
lower_web = b'w' ∷ b'e' ∷ b'b' ∷ []

abbrev entry_of : Text → Text → ℕ → ℕ → ℕ → ℕ → Entry
entry_of name lower origin addr version tombstone = record {
  container_id = b'c' ∷ [];
  origin = origin;
  addr = addr;
  hostname = name;
  l_hostname = lower;
  version = version;
  tombstone = tombstone;
}

-- what peer 1 knows: a database of its own and a web server of peer 2
abbrev known : List Entry
known = entry_of db db 1 10 0 0 ∷ entry_of web lower_web 2 20 3 0 ∷ []

-- what it hears: its database is gone, and so is the web server; another one is up
abbrev heard : List Entry
heard =
    entry_of db db 1 10 1 500
    ∷ entry_of web lower_web 2 20 4 600
    ∷ entry_of web lower_web 2 21 0 0
    ∷ []

known-IsValid : IsValid known
unfolding insensitive_less to_lower text_eq text_lt
known-IsValid = record { strict = (refl, (tt, tt)); lowered = (refl, (refl, tt)) }

heard-IsValid : IsValid heard
unfolding insensitive_less to_lower text_eq text_lt
heard-IsValid = record { strict = (refl, (refl, (tt, tt))); lowered = (refl, (refl, (refl, tt))) }

coherent : AreCoherent known heard
unfolding text_eq
coherent = ((refl, (refl, (refl, tt))), ((refl, (refl, (refl, tt))), tt))

coherent_back : AreCoherent heard known
unfolding text_eq
coherent_back = ((refl, (refl, tt)), ((refl, (refl, tt)), ((refl, (refl, tt)), tt)))

abbrev server : Nameserver
server = record { our_name = 1; domain = []; gossiping = true; entries = known }

abbrev message : GossipData
message = record { timestamp = 1000; entries = heard }

receive-heard :
    receive_gossip (λ p. true) server 1000 (some message)
    ≡ ok (record {
      server = record server {
        entries =
            entry_of db db 1 10 2 0
            ∷ entry_of web lower_web 2 20 4 600
            ∷ entry_of web lower_web 2 21 0 0
            ∷ [];
      };
      sent = record { timestamp = 1000; entries = entry_of db db 1 10 2 0 ∷ [] } ∷ [];
      news = some (record {
        timestamp = 1000;
        entries =
            entry_of db db 1 10 2 0
            ∷ entry_of web lower_web 2 20 4 600
            ∷ entry_of web lower_web 2 21 0 0
            ∷ [];
      });
      merged = record message {
        entries =
            entry_of db db 1 10 2 0
            ∷ entry_of web lower_web 2 20 4 600
            ∷ entry_of web lower_web 2 21 0 0
            ∷ [];
      };
    })
unfolding receive_gossip merge_entry check_and_panic filter_all merge override_all place_of
    search_entries insensitive_less equal text_eq text_lt find_equal broadcast_entries news_of
receive-heard = refl

entries_merge_correct_example :
    (news : List Entry) × (merge {E = ℕ} known heard ≡ ok (union known heard, news))
    × IsValid (union known heard)
    × ((news ≡ []) ↔ (union known heard ≡ known))
    × (merge {E = ℕ} (union known heard) heard ≡ ok (union known heard, []))
entries_merge_correct_example =
    entries_merge_correct known heard known-IsValid heard-IsValid coherent

entries_merge_converge_example :
    (merge {E = ℕ} known heard >>= λ r. ok r.0) ≡ (merge {E = ℕ} heard known >>= λ r. ok r.0)
entries_merge_converge_example =
    entries_merge_converge known heard known-IsValid heard-IsValid coherent coherent_back

new_coherent : AllCoherent known (new_entry web (b'd' ∷ []) 1 30)
unfolding new_entry text_eq to_lower
new_coherent = (refl, (refl, tt))

lookup-add_entry_example :
    (n' : Nameserver) × (sent : List GossipData) × (before : List ℕ) × (after : List ℕ) × (add_entry
        {E = ℕ} server 1000 web
        (b'd' ∷ [])
        1
        30
      ≡ ok (n', sent))
    × IsValid n'.entries
    × (lookup_addresses {E = ℕ} server web ≡ ok before)
    × (lookup_addresses {E = ℕ} n' web ≡ ok after)
    × ((b : ℕ) → has_address b after ≡ b == 30 || has_address b before)
lookup-add_entry_example =
    lookup-add_entry server 1000 web (b'd' ∷ []) 1 30 known-IsValid new_coherent

abbrev of_container : Text → Entry → Bool
of_container ident e = text_eq e.container_id ident

tombstone_ours_correct_example :
    (n' : Nameserver) × (sent : List GossipData) × (tombstone_ours {E = ℕ} server 1000
        (of_container (b'c' ∷ []))
      ≡ ok (n', sent))
    × IsValid n'.entries
    × (lookup_addresses {E = ℕ} n' db
        ≡ ok (
            live_addresses (
              filter
                (λ (x : Entry).
                  named db x && not (of_container (b'c' ∷ []) x && x.origin == server.our_name))
                server.entries)))
tombstone_ours_correct_example =
    tombstone_ours_correct server 1000 (of_container (b'c' ∷ [])) db known-IsValid (omega arith)

in_time : is_skewed 1000 message.timestamp ≡ false
unfolding is_skewed
in_time = refl

receive_gossip_correct_example :
    (r : Received) × (receive_gossip (λ p. true) server 1000 (some message) ≡ ok r)
    × (r.server.entries ≡ union server.entries r.merged.entries)
    × IsValid r.server.entries
    × (own_live server.our_name r.server.entries ≡ own_live server.our_name server.entries)
receive_gossip_correct_example =
    receive_gossip_correct (λ p. true) server 1000 message known-IsValid heard-IsValid coherent
      (omega arith) in_time

abbrev upper : Entry
upper = entry_of web lower_web 1 10 0 0

abbrev lower : Entry
lower = entry_of lower_web lower_web 1 10 0 0

not_before : insensitive_less upper lower ≡ false
unfolding insensitive_less text_eq
not_before = refl

not_after : insensitive_less lower upper ≡ false
unfolding insensitive_less text_eq
not_after = refl

spelled_differently : equal upper lower ≡ false
unfolding equal text_eq
spelled_differently = refl

merge_variants_example :
    merge_again {E = ℕ} (upper ∷ lower ∷ []) 2 (upper ∷ lower ∷ [])
    ≡ ok (lower ∷ upper ∷ lower ∷ upper ∷ lower ∷ [], upper ∷ lower ∷ [])
merge_variants_example = merge_variants upper lower not_before not_after spelled_differently 1

-- adding a name that is there in two spellings
abbrev twice : List Entry
twice = upper ∷ lower ∷ []

add-twice : add {E = ℕ} twice lower_web (b'c' ∷ []) 1 10 ≡ ok (lower ∷ upper ∷ lower ∷ [], lower)
unfolding add place_of search_entries insensitive_less equal text_eq new_entry to_lower
add-twice = refl
