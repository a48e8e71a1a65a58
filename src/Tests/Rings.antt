-- ===== src/Tests/Rings.antt =====
-- ipam/ring at concrete rings.
use weave.Base.{ℕ, ◌≡◌, ◌↔◌, refl, true, false, List, [], ◌∷◌, arith, ok, err, none, some}
use weave.Address.{Range}
use weave.Entries.{Entry}
use weave.Entries.Order.{IsSortedFrom, lookup, owner_from}
use weave.Ring.{Ring, Update, check_entries, distance, next_token, entry_in_my_range, newer_version}
use weave.Ring.Claim.{claim_for_peers, subdivide}
use weave.Ring.Claim.Tiles.{Tiles}
use weave.Ring.Claim.Whole.{claim_for_peers_correct}
use weave.Ring.Grant.{grant_entries}
use weave.Ring.Merge.{Outcome, merge, merge_entries}
use weave.Ring.Merge.Changes.{merge_entries_keep_ours, NoNewTokens}
use weave.Ring.Merge.Join.{Agrees, join, merge_entries-join, merge_entries_converge}
use weave.Ring.Merge.Whole.{Concludes, merge_correct}
use weave.Ring.Owner.{IsValid, owner_of, owner_correct, updates_of}
use weave.Ring.Transfer.{owner}
use weave.Ring.Valid.{AreValid, first_or, check_entries_iff}

abbrev at : ℕ → ℕ → ℕ → ℕ → Entry
at token peer version free = record { token = token; peer = peer; version = version; free = free }

-- peer 1 owns 0 to 100, peer 2 the rest
abbrev ours : List Entry
ours = at 0 1 1 50 ∷ at 100 2 0 20 ∷ []

-- peer 2 has given the upper part of its range to peer 3
abbrev theirs : List Entry
theirs = at 0 1 1 50 ∷ at 100 2 1 10 ∷ at 200 3 0 56 ∷ []

abbrev ring_of : List Entry → Ring
ring_of es = record { start = 0; end = 256; peer = 1; entries = es; seeds = []; tracked = false }

merge-theirs : merge_entries 1 none ours theirs ≡ ok (theirs, true)
unfolding merge_entries
merge-theirs = refl

-- a token inside our range, and a newer version of ours
merge-split :
    merge_entries 1 none ours (at 0 1 1 50 ∷ at 40 3 0 9 ∷ [])
    ≡ err (entry_in_my_range (at 40 3 0 9))
unfolding merge_entries
merge-split = refl

merge-newer :
    merge_entries 1 none ours (at 0 3 2 50 ∷ []) ≡ err (newer_version (at 0 1 1 50) (at 0 3 2 50))
unfolding merge_entries
merge-newer = refl

-- the range before the first token belongs to the last entry, and merge does not guard it
merge-wrapped :
    merge_entries 2 none (at 100 2 0 0 ∷ []) (at 50 3 0 0 ∷ [])
    ≡ ok (at 50 3 0 0 ∷ at 100 2 0 0 ∷ [], true)
unfolding merge_entries
merge-wrapped = refl

claim-three :
    subdivide {E = ⊥} 3 [] 0 256 (1 ∷ 2 ∷ 3 ∷ [])
    ≡ ok (at 0 1 0 128 ∷ at 128 2 0 64 ∷ at 192 3 0 64 ∷ [])
unfolding subdivide
claim-three = refl

grant-middle :
    grant_entries {E = ⊥} (ring_of ours) 20 40 3 1
    ≡ ok (at 0 1 2 20 ∷ at 20 3 0 20 ∷ at 40 1 0 60 ∷ at 100 2 0 20 ∷ [])
unfolding grant_entries
grant-middle = refl

ours-AreValid : AreValid 0 256 ours
unfolding distance next_token first_or
ours-AreValid = omega arith

merge_correct_example :
    (o : Outcome) × (t : Ring) × (prev : List Range) × (merge {E = ⊥}
        (ring_of ours)
        (ring_of theirs)
      ≡ ok (o, t, updates_of t t.peer prev))
    × IsValid t
    × Concludes (ring_of ours) (ring_of theirs) t o
merge_correct_example = merge_correct {E = ⊥} (ring_of ours) (ring_of theirs) ours-AreValid

fresh_for_1 : NoNewTokens 1 ours theirs
unfolding lookup
fresh_for_1 k t h mine missing = ground arith

merge_entries_keep_ours_example : owner_from none theirs 30 ≡ some 1
unfolding owner_from
merge_entries_keep_ours_example =
    merge_entries_keep_ours 1 ours theirs theirs true 30 (omega arith) (omega arith) fresh_for_1
      merge-theirs refl

merge-back : merge_entries 2 none theirs ours ≡ ok (theirs, false)
unfolding merge_entries
merge-back = refl

merge_entries_converge_example : Agrees (lookup 200 theirs) (lookup 200 theirs)
merge_entries_converge_example =
    merge_entries_converge 1 2 ours theirs theirs theirs true false (omega arith) (omega arith)
      merge-theirs merge-back 200

merge_entries-join_example :
    IsSortedFrom 0 theirs × ((k : ℕ) → lookup k theirs ≡ join (lookup k ours) (lookup k theirs))
merge_entries-join_example =
    merge_entries-join 1 none ours theirs theirs true (omega arith) (omega arith) merge-theirs

claim_for_peers_correct_example :
    (t : Ring) × (us : List Update) × (claim_for_peers {E = ⊥} (ring_of []) (7 ∷ 8 ∷ 9 ∷ [])
      ≡ ok (t, us))
    × IsValid t
    × Tiles 0 256 t.entries
    × (t.seeds ≡ 7 ∷ 8 ∷ 9 ∷ [])
claim_for_peers_correct_example =
    claim_for_peers_correct {E = ⊥} (ring_of []) (7 ∷ 8 ∷ 9 ∷ []) refl (omega arith) (omega arith)
      (omega arith)

owner_correct_example : owner {E = ⊥} (ring_of ours) 120 ≡ ok (owner_of ours 120)
owner_correct_example =
    owner_correct {E = ⊥} (ring_of ours) 120 ours-AreValid (omega arith) (omega arith)

check_entries_iff_example : (check_entries 0 256 ours ≡ ok tt) ↔ AreValid 0 256 ours
check_entries_iff_example = check_entries_iff 0 256 ours
