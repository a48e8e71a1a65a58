-- ===== src/Lib.antt =====
-- Weave: IP address management (which peer owns which addresses of the allocation range, and which of
-- its own addresses a peer has handed out to containers), the name server that gossips the containers'
-- names, the bookkeeping of MAC addresses and of the kernel's IP sets, and the network policies' rules
-- and pods.
--
-- The parts, from the bottom up, and the Go code that each of them models:
--   Address (net/address/address.go): addresses as numbers below 2^32, their checked arithmetic,
--     ranges [start, end), and BiggestCIDRRange, the block that a donation takes.
--   Boundaries (ipam/space/space.go): the sorted slices of boundaries that a Space is made of, with
--     contains, addSub, add and subtract. Even positions start a range and odd ones end it.
--   Space (ipam/space/space.go): the two slices `ours` (in use) and `free` of one peer, with Allocate,
--     Claim, Free, Donate, OwnedRanges, UpdateRanges and the counts.
--   Entries (ipam/ring/entry.go): the sorted entries of a ring, with the searches, insert and get.
--   Ring (ipam/ring/ring.go): the ring CRDT that all peers gossip. Its child modules hold Merge
--     (Ring/Merge), ClaimForPeers (Ring/Claim), the ranges of a peer and the tracking of updates
--     (Ring/Ranges), Owner, Transfer, ReportFree and the choice of an heir (Ring/Transfer) and
--     GrantRangeToHost (Ring/Grant).
--   Paxos (ipam/paxos/paxos.go): a node and what it knows of every node's claims. Propose, Think and
--     Consensus are in Paxos/Think; Update, which merges gossip, is in Paxos. Paxos/Network has nodes
--     that think, propose and hear old or new states of each other in any order, a list of moves; what
--     any node has accepted is a log beside the nodes, which the code does not keep. Paxos/Network/Split
--     is about Consensus.
--   Nameserver (nameserver/entry.go): the name server's entries with add, merge, tombstone, filter and
--     lookup; Nameserver/Server (nameserver/nameserver.go) has the name server around them, its gossip
--     included.
--   MacCache (router/mac_cache.go): behind which peer a MAC address was last seen.
--   Ipset (net/ipset/ipset.go): the users of the entries of the kernel's sets of addresses.
--   Allocator (ipam/allocator.go): which container owns which addresses of the Space, and the containers
--     that have died. Allocator/Try has the operations of ipam/allocate.go and ipam/claim.go on an
--     established ring, Allocator/Actor the pending queues and the rounds of the goroutine, with the
--     checks after each.
--   Npc (npc/rule.go): which policies need which rules, and the rules given to iptables, which is a
--     parameter with the laws of its commands. Npc/Pods (npc/selector.go, npc/namespace.go): the pods of
--     a namespace, with the sets of Ipset that they are in, and its handlers in Npc/Pods/Handlers.
--     Npc/Analyser (npc/analyser.go): the rules, selectors and IP blocks that a policy needs.
--   Tests runs the definitions on small inputs, and applies the theorems.
-- The allocator (ipam/allocator.go) owns one Ring and one Space. It keeps the Space's ranges equal to
-- the ranges that the Ring gives the peer: it calls UpdateRanges with OwnedRanges whenever the Ring
-- changes, and what Donate takes out of the Space goes to another peer by GrantRangeToHost. The
-- theorems on the two sides speak of the same ranges, as sets of addresses. An empty Ring is first
-- divided by ClaimForPeers among the peers of the value that Paxos agrees on.
--
-- How the code is written here:
--   A method on *Space or *Ring is a function that takes the state and returns the new one; the fields
--   of the records are those of the structs. `Run E A` is how a call ends: `ok` with a value, `err`
--   with a returned error, or `panic` (a failed assertion, an index out of range, an explicit panic).
--   Arithmetic on uint32 is written with its wrap-around, `% word` with word = 2^32; address.Subtract
--   and address.Length panic where the code asserts.
--   A peer name is a number, UnknownPeerName is the answer `none`. The onUpdate callback is the flag
--   `tracked` of the ring and the list of the calls made of it, with their arguments.
--   entries.merge builds its result from the back, as a returned error drops it. The slices that Go
--   updates in place are new lists; no two of the modelled objects share a slice that is written to.
--   Texts of the name server (container ids, host names) are lists of bytes; peers, set names, entries,
--   UIDs and the identifiers that the allocator files addresses under are numbers, as the code only
--   compares them. strings.ToLower is that of ASCII.
--   A method under a lock is one step; the clock's answer is an argument, a broadcast or callback a value
--   of the result. The DNS library's two functions, what mesh knows of peers, and the ipset program with
--   the laws of its manual are parameters.
--   The map of Paxos, like the tables of the MAC cache and of the IP sets, is an association list, and a
--   loop over it runs in the list's order, whatever that is: the theorems hold for every order. The
--   rounds of proposals have 64 bits, and a network makes fewer than 2^64 moves, each of which raises
--   the highest round by one at most.
--
-- Fuel: sort.Search runs on the length of the list and finds the position by the theorems of
-- Base/Search; subdivide runs on the number of peers, each half having fewer peers than the whole
-- until one is left; the check of GrantRangeToHost for foreign tokens runs on the number of entries,
-- of which it visits each once.
--
-- Not modelled: the String methods and the JSON and gob forms, ChoosePeersToAskForSpace (a weighted
-- random choice on floating-point numbers), FprintWithNicknames, the observer of
-- ipam/paxos/participant.go, the timers and goroutines of the name server and the MAC cache, the listing
-- of IP sets; of the allocator how its ring is established and updated, its messages to other peers, Shutdown and
-- what it persists; outside these packages the overlays, the DNS protocol, the proxy,
-- and the plugins; of the network policy controller the reference counts of selectors and IP blocks, the
-- handlers of namespaces, the words of the rules, the watch loops and the metrics.
pub mod Base
pub mod Address
pub mod Boundaries
pub mod Space
pub mod Entries
pub mod Ring
pub mod Npc
pub mod Paxos
pub mod Nameserver
pub mod MacCache
pub mod Allocator
pub mod Ipset
pub mod Tests
