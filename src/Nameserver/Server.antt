-- ===== src/Nameserver/Server.antt =====
-- nameserver/nameserver.go: the name server around its entries.
-- The lock makes each method one step. A broadcast is a value of the result, in the order of the
-- calls; `now` is the clock's answer; what mesh knows of peers and what the DNS library does with
-- names are arguments. Log messages, the timer and the goroutine that it drives are left out.
use weave.Base.{
  ℕ, ◌+◌, Bool, true, false, not, ◌&&◌, ◌||◌, List, [], ◌∷◌, ltb, leb, ◌==◌, if◌then◌else◌, Run, ok,
  err, ◌>>=◌, ◌>>◌, Option, none, some,
}
use weave.Base.Texts.{Text, text_eq}
use weave.Nameserver.{
  Entry, GossipData, add, bury, filter_all, find_equal, first, merge, tombstone_all,
  check_and_panic, lookup as lookup_entries,
}

pub record Nameserver : Type 0 where
  pub our_name : ℕ
  pub domain : Text
  -- is there a gossip channel?
  pub gossiping : Bool
  pub entries : List Entry

-- in seconds: tombstoneTimeout and gossipWindow
abbrev pub tombstone_timeout : ℕ
tombstone_timeout = 1800

abbrev pub gossip_window : ℕ
gossip_window = 900

unfoldable pub new : (Text → Text) → ℕ → Text → Nameserver
new fqdn our_name domain = record {
  our_name = our_name;
  domain = fqdn domain;
  gossiping = false;
  entries = [];
}

unfoldable pub set_gossip : Nameserver → Nameserver
set_gossip n = record n { gossiping = true }

unfoldable pub broadcast_entries : Nameserver → ℕ → List Entry → List GossipData
broadcast_entries n now [] = []
broadcast_entries n now (e ∷ es) =
    if n.gossiping then record { timestamp = now; entries = e ∷ es } ∷ [] else []

unfoldable pub add_entry :
    {E : Type 0} → Nameserver → ℕ → Text → Text → ℕ → ℕ → Run E (Nameserver × List GossipData)
unfolding broadcast_entries
add_entry n now hostname containerid origin addr =
    add n.entries hostname containerid origin addr >>= λ r.
    ok (record n { entries = r.0 }, broadcast_entries n now (r.1 ∷ []))

unfoldable pub add_entry_fqdn :
    {E : Type 0}
    → (Text → Text)
    → (Text → Text → Bool)
    → Nameserver
    → ℕ
    → Text
    → Text
    → ℕ
    → ℕ
    → Run E (Nameserver × List GossipData)
unfolding add_entry
add_entry_fqdn fqdn is_sub_domain n now name containerid origin addr =
    let hostname = fqdn name in
    if not (is_sub_domain n.domain hostname)
    then ok (n, [])
    else add_entry n now hostname containerid origin addr

-- the addresses of entries that are not deleted
unfoldable pub live_addresses : List Entry → List ℕ
live_addresses [] = []
live_addresses (e ∷ es) =
    if ltb 0 e.tombstone then live_addresses es else e.addr ∷ live_addresses es

unfoldable pub lookup : {E : Type 0} → Nameserver → Text → Run E (List ℕ)
unfolding live_addresses
lookup n hostname = lookup_entries n.entries hostname >>= λ es. ok (live_addresses es)

-- "Not found" is `none`
unfoldable pub reverse_lookup : {E : Type 0} → Nameserver → ℕ → Run E (Option Text)
unfolding first
reverse_lookup n ip = first n.entries (λ (e : Entry). e.tombstone == 0 && e.addr == ip) >>= λ m.
    ok (elim m [ none ↦ none | some e ↦ some e.hostname ])

-- the entries that satisfy the test are tombstoned if they are ours, and broadcast
unfoldable pub tombstone_ours :
    {E : Type 0} → Nameserver → ℕ → (Entry → Bool) → Run E (Nameserver × List GossipData)
unfolding broadcast_entries
tombstone_ours n now f = tombstone_all now n.our_name f n.entries >>= λ r.
    ok (record n { entries = r.0 }, broadcast_entries n now r.1)

unfoldable pub container_died :
    {E : Type 0} → Nameserver → ℕ → Text → Run E (Nameserver × List GossipData)
unfolding tombstone_ours
container_died n now ident = tombstone_ours n now (λ (e : Entry). text_eq e.container_id ident)

unfoldable pub peer_gone : {E : Type 0} → Nameserver → ℕ → Run E Nameserver
peer_gone n peer = filter_all (λ (e : Entry). not (e.origin == peer)) n.entries >>= λ es.
    ok (record n { entries = es })

-- a pattern of Delete, where "*" stands for anything
unfoldable pub fits : Text → Text → Bool
fits pattern s = text_eq pattern (b'*' ∷ []) || text_eq s pattern

unfoldable pub delete_selects : Text → Text → Text → ℕ → Entry → Bool
unfolding fits
delete_selects hostname containerid ip_str ip e =
    if not (fits hostname e.hostname)
    then false
    else if not (fits containerid e.container_id)
    then false
    else text_eq ip_str (b'*' ∷ []) || e.addr == ip

unfoldable pub delete :
    {E : Type 0} → Nameserver → ℕ → Text → Text → Text → ℕ → Run E (Nameserver × List GossipData)
unfolding tombstone_ours delete_selects
delete n now hostname containerid ip_str ip =
    tombstone_ours n now (delete_selects hostname containerid ip_str ip)

-- a tombstone of the future is kept: the code's difference is negative there
unfoldable pub is_kept : ℕ → Entry → Bool
is_kept now e = e.tombstone == 0 || leb now (e.tombstone + tombstone_timeout)

unfoldable pub delete_tombstones : {E : Type 0} → Nameserver → ℕ → Run E Nameserver
unfolding is_kept
delete_tombstones n now =
    filter_all (is_kept now) n.entries >>= λ es. ok (record n { entries = es })

unfoldable pub gossip : Nameserver → ℕ → GossipData
gossip n now = record { timestamp = now; entries = n.entries }

-- what is made of an incoming entry of ours that we have: whether we must override it
unfoldable pub override_with : Entry → Entry → Entry × Bool
override_with ours e =
    if ltb ours.version e.version
      || (ours.version == e.version && not (ours.tombstone == e.tombstone))
    then (record ours { version = e.version + 1 }, true)
    else (e, false)

-- the callback on the incoming entries, with the entry of ours that is equal, if any
unfoldable pub override_found : ℕ → Option Entry → Entry → Entry × Bool
unfolding override_with bury
override_found now none e = bury now e
override_found now (some ours) e = override_with ours e

unfoldable pub override : ℕ → ℕ → List Entry → Entry → Entry × Bool
unfolding override_found
override our_name now es e =
    if e.origin == our_name then override_found now (find_equal es e) e else (e, false)

-- the loop over the incoming entries: as they are merged, and those that are to be broadcast
unfoldable pub override_all : ℕ → ℕ → List Entry → List Entry → List Entry × List Entry
unfolding override
override_all our_name now es [] = ([], [])
override_all our_name now es (e ∷ incoming) =
    let (done, overridden) = override_all our_name now es incoming in
    let (e', changed) = override our_name now es e in
    (e' ∷ done, if changed then e' ∷ overridden else overridden)

pub data GossipError : Type 0 where
  undecodable : GossipError
  clock_skew : GossipError

-- what receiveGossip leaves: the name server, its broadcasts, the news if any, and the gossip as merged
pub record Received : Type 0 where
  pub server : Nameserver
  pub sent : List GossipData
  pub news : Option GossipData
  pub merged : GossipData

unfoldable pub news_of : ℕ → List Entry → Option GossipData
news_of now [] = none
news_of now (e ∷ es) = some (record { timestamp = now; entries = e ∷ es })

unfoldable pub is_skewed : ℕ → ℕ → Bool
is_skewed now timestamp = ltb (now + gossip_window) timestamp || ltb (timestamp + gossip_window) now

-- receiveGossip on the decoded message, `none` if it cannot be decoded
unfoldable pub receive_gossip :
    (ℕ → Bool) → Nameserver → ℕ → Option GossipData → Run GossipError Received
unfolding is_skewed
receive_gossip is_known n now none = err undecodable
receive_gossip is_known n now (some g) = if is_skewed now g.timestamp then err clock_skew else do
  known ← filter_all (λ (e : Entry). is_known e.origin) g.entries
  check_and_panic known
  let (incoming, overridden) = override_all n.our_name now n.entries known
  check_and_panic incoming
  r ← merge n.entries incoming
  ok (record {
    server = record n { entries = r.0 };
    sent = broadcast_entries n now overridden;
    news = news_of now r.1;
    merged = record g { entries = incoming };
  })
