-- ===== src/Allocator.antt =====
-- ipam/allocator.go: which container owns which addresses, over the Space of this peer.
-- Identifiers of containers are numbers; the map `owned` is an association list, of which put_owned
-- makes no second entry for an identifier, and a loop over it in Go's arbitrary order is one over the
-- list. What is written to the database and to the log is left out, and so are the channels to the
-- single goroutine that runs the operations. Times are numbers of nanoseconds; `now` is an argument.
pub mod Owned
pub mod Backed
pub mod Prune
pub mod Try
pub mod Filing
pub mod Requests
pub mod Claimed
pub mod Handover
pub mod Claims
pub mod Actor
pub mod Kept
pub mod Checks
pub mod Reporting
pub mod Joined
pub mod Reported
pub mod Events
pub mod Deletes
use weave.Base.{
  ℕ, ◌+◌, ◌*◌, ◌^◌, Bool, true, false, not, ◌&&◌, ◌||◌, List, [], ◌∷◌, ◌++◌, ltb, ◌==◌,
  if◌then◌else◌, length, Run, ok, err, panic, Option, none, some,
}
use weave.Address
use weave.Address.{Range, Cidr}
use weave.Space
use weave.Space.{Space, SpaceError}

pub record OwnedData : Type 0 where
  pub is_container : Bool
  pub cidrs : List Cidr

abbrev pub Owned : Type 0
Owned = List (ℕ × OwnedData)

-- the containers that are known to be dead, and since when
abbrev pub Dead : Type 0
Dead = List (ℕ × ℕ)

-- the fields that the operations on owned addresses use
pub record Allocator : Type 0 where
  pub universe : Range
  pub space : Space
  pub owned : Owned
  pub dead : Dead

-- the fields that NewAllocator sets; its ring and its paxos participant are made elsewhere
unfoldable pub new_allocator : Range → Allocator
unfolding Space.new
new_allocator universe = record { universe = universe; space = Space.new; owned = []; dead = [] }

-- `alloc.owned[ident]`, which is the zero value if there is none
unfoldable pub owned_data : ℕ → Owned → OwnedData
owned_data ident [] = record { is_container = false; cidrs = [] }
owned_data ident ((i, d) ∷ t) = if i == ident then d else owned_data ident t

unfoldable pub put_owned : ℕ → OwnedData → Owned → Owned
put_owned ident d [] = (ident, d) ∷ []
put_owned ident d ((i, e) ∷ t) = if i == ident then (i, d) ∷ t else (i, e) ∷ put_owned ident d t

-- `delete(alloc.owned, ident)`
unfoldable pub drop_owned : ℕ → Owned → Owned
drop_owned ident [] = []
drop_owned ident ((i, d) ∷ t) = if i == ident then t else (i, d) ∷ drop_owned ident t

unfoldable pub has_owned_by_container : ℕ → Allocator → Bool
unfolding owned_data
has_owned_by_container ident alloc = (owned_data ident alloc.owned).is_container

unfoldable pub add_owned : ℕ → Cidr → Bool → Allocator → Allocator
unfolding owned_data put_owned
add_owned ident cidr is_container alloc =
    let d = owned_data ident alloc.owned in
    let d' : OwnedData = record { is_container = is_container; cidrs = d.cidrs ++ (cidr ∷ []) } in
    record alloc { owned = put_owned ident d' alloc.owned }

unfoldable pub remove_all_owned : ℕ → Allocator → Allocator × List Cidr
unfolding owned_data drop_owned
remove_all_owned ident alloc =
    (record alloc { owned = drop_owned ident alloc.owned }, (owned_data ident alloc.owned).cidrs)

-- the loop of removeOwned: is the address there, and what is left without it?
unfoldable pub has_addr : ℕ → List Cidr → Bool
has_addr a [] = false
has_addr a (c ∷ cs) = c.addr == a || has_addr a cs

unfoldable pub without_addr : ℕ → List Cidr → List Cidr
without_addr a [] = []
without_addr a (c ∷ cs) = if c.addr == a then cs else c ∷ without_addr a cs

unfoldable pub remove_owned : ℕ → ℕ → Allocator → Allocator × Bool
unfolding owned_data put_owned drop_owned has_addr without_addr
remove_owned ident a alloc =
    let d = owned_data ident alloc.owned in
    let left = record d { cidrs = without_addr a d.cidrs } in
    let owned' =
      if length d.cidrs == 1
      then drop_owned ident alloc.owned
      else put_owned ident left alloc.owned in
    if has_addr a d.cidrs then (record alloc { owned = owned' }, true) else (alloc, false)

unfoldable pub cidrs_in_range : Range → List Cidr → List Cidr
unfolding Address.contains
cidrs_in_range r [] = []
cidrs_in_range r (c ∷ cs) =
    let rest = cidrs_in_range r cs in if Address.contains r c.addr then c ∷ rest else rest

unfoldable pub owned_in_range : ℕ → Range → Allocator → List Cidr
unfolding owned_data cidrs_in_range
owned_in_range ident r alloc = cidrs_in_range r (owned_data ident alloc.owned).cidrs

-- findOwner, whose "" is `none`
unfoldable pub holder : ℕ → Owned → Option ℕ
unfolding has_addr
holder a [] = none
holder a ((i, d) ∷ t) = if has_addr a d.cidrs then some i else holder a t

unfoldable pub find_owner : ℕ → Allocator → Option ℕ
unfolding holder
find_owner a alloc = holder a alloc.owned

-- `alloc.space.Free(addr)` with its error dropped; it does not panic
unfoldable pub or_same : Space → Run SpaceError Space → Space
or_same s (ok t) = t
or_same s (err e) = s
or_same s panic = s

unfoldable pub give_back : ℕ → Space → Space
unfolding or_same
give_back a s = or_same s (Space.release s a)

unfoldable pub give_back_all : List Cidr → Space → Space
unfolding give_back
give_back_all [] s = s
give_back_all (c ∷ cs) s = give_back_all cs (give_back c.addr s)

-- delete, and whether there was no error
unfoldable pub delete : ℕ → Allocator → Allocator × Bool
unfolding remove_all_owned give_back_all
delete ident alloc =
    let (rest, cidrs) = remove_all_owned ident alloc in
    if length cidrs == 0
    then (rest, false)
    else (record rest { space = give_back_all cidrs rest.space }, true)

-- Free, and whether there was no error
unfoldable pub free : ℕ → ℕ → Allocator → Allocator × Bool
unfolding remove_owned give_back
free ident a alloc =
    let (rest, found) = remove_owned ident a alloc in
    if found then (record rest { space = give_back a rest.space }, true) else (alloc, false)

unfoldable pub is_among : ℕ → List ℕ → Bool
is_among i [] = false
is_among i (j ∷ js) = i == j || is_among i js

-- the loop of pruneOwned
unfoldable pub prune_loop : List ℕ → Owned → Space → Owned × Space
unfolding is_among give_back_all
prune_loop ids [] s = ([], s)
prune_loop ids ((i, d) ∷ t) s =
    let kept = not d.is_container || is_among i ids in
    let (t', s') = prune_loop ids t (if kept then s else give_back_all d.cidrs s) in
    (if kept then (i, d) ∷ t' else t', s')

unfoldable pub prune_owned : List ℕ → Allocator → Allocator
unfolding prune_loop
prune_owned ids alloc =
    let (t, s) = prune_loop ids alloc.owned alloc.space in record alloc { owned = t; space = s }

unfoldable pub time_of_death : ℕ → Dead → Option ℕ
time_of_death ident [] = none
time_of_death ident ((i, t) ∷ d) = if i == ident then some t else time_of_death ident d

unfoldable pub put_dead : ℕ → ℕ → Dead → Dead
put_dead ident now [] = (ident, now) ∷ []
put_dead ident now ((i, t) ∷ d) = if i == ident then (i, now) ∷ d else (i, t) ∷ put_dead ident now d

unfoldable pub drop_dead : ℕ → Dead → Dead
drop_dead ident [] = []
drop_dead ident ((i, t) ∷ d) = if i == ident then d else (i, t) ∷ drop_dead ident d

-- ContainerDied, but for the pending operations that it cancels
unfoldable pub container_died : ℕ → ℕ → Allocator → Allocator
unfolding has_owned_by_container put_dead
container_died now ident alloc =
    if has_owned_by_container ident alloc
    then record alloc { dead = put_dead ident now alloc.dead }
    else alloc

unfoldable pub container_destroyed : ℕ → Allocator → Allocator
unfolding has_owned_by_container delete drop_dead
container_destroyed ident alloc =
    let rest = (delete ident alloc).0 in
    if has_owned_by_container ident alloc
    then record rest { dead = drop_dead ident rest.dead }
    else alloc

unfoldable pub container_started : ℕ → Allocator → Allocator
unfolding drop_dead
container_started ident alloc = record alloc { dead = drop_dead ident alloc.dead }

-- thirty seconds
abbrev pub container_died_timeout : ℕ
container_died_timeout = 30 * 10 ^ 9

-- the loop of removeDeadContainers, on the entries that are left
unfoldable pub dead_loop : ℕ → Dead → Allocator → Allocator
unfolding delete drop_dead
dead_loop now [] alloc = alloc
dead_loop now ((i, t) ∷ d) alloc =
    let rest = (delete i alloc).0 in
    let gone : Allocator = record rest { dead = drop_dead i rest.dead } in
    dead_loop now d (if ltb (t + container_died_timeout) now then gone else alloc)

unfoldable pub remove_dead_containers : ℕ → Allocator → Allocator
unfolding dead_loop
remove_dead_containers now alloc = dead_loop now alloc.dead alloc
