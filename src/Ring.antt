-- ===== src/Ring.antt =====
-- ipam/ring/ring.go: which peer owns which range of addresses, as a CRDT.
pub mod Ranges
pub mod Merge
pub mod Claim
pub mod Transfer
pub mod Grant
pub mod Pieces
pub mod Fits
pub mod Reports
pub mod Valid
pub mod Owner
use weave.Base.{
  ℕ, ◌+◌, ◌-◌, ◌%◌, Bool, false, not, ◌||◌, List, [], ◌∷◌, ltb, leb, ◌==◌, if◌then◌else◌, word, Run,
  ok, err, panic, ◌>>=◌, ◌>>◌, assert, fail_if,
}
use weave.Address.{Range}
use weave.Entries
use weave.Entries.{Entry}

pub record Ring : Type 0 where
  pub start : ℕ
  pub end : ℕ
  pub peer : ℕ
  pub entries : List Entry
  pub seeds : List ℕ
  -- whether an onUpdate callback is set
  pub tracked : Bool

-- the errors that checkEntries and Merge return, with the values that their messages name
pub data RingError : Type 0 where
  not_sorted token_repeated token_out_of_range different_seeds different_range : RingError
  too_much_free : Entry → ℕ → RingError
  inconsistent_entry newer_version : Entry → Entry → RingError
  entry_in_my_range : Entry → RingError
  merge_causes : RingError → RingError

-- one call of onUpdate
pub record Update : Type 0 where
  pub prev : List Range
  pub curr : List Range
  pub local : Bool

unfoldable pub new : {E : Type 0} → ℕ → ℕ → ℕ → Bool → Run E Ring
new start end peer tracked =
    assert (ltb start end)
    >> ok (record {
      start = start;
      end = end;
      peer = peer;
      entries = [];
      seeds = [];
      tracked = tracked;
    })

unfoldable pub range : Ring → Range
range r = record { start = r.start; end = r.end }

-- the distance between two tokens, also across the origin
unfoldable pub distance : ℕ → ℕ → ℕ → ℕ → ℕ
distance ring_start ring_end start end =
    if ltb start end
    then end - start
    else ((ring_end + word - start) % word + (end + word - ring_start) % word) % word

-- for i := 1; ...; i++: is the token of an entry that of the one before it?
unfoldable pub repeats : List Entry → Bool
repeats [] = false
repeats (x ∷ []) = false
repeats (x ∷ y ∷ es) = x.token == y.token || repeats (y ∷ es)

-- the token after an entry, where `first` is the token of entry 0 and `es` are the entries behind
unfoldable pub next_token : ℕ → List Entry → ℕ
next_token first [] = first
next_token first (e ∷ es) = e.token

-- the check of the free space of each entry
unfoldable pub check_free : ℕ → ℕ → ℕ → List Entry → Run RingError (Unit {0})
unfolding next_token distance
check_free start end first [] = ok tt
check_free start end first (e ∷ es) =
    let d = distance start end e.token (next_token first es) in
    let rest = check_free start end first es in fail_if (ltb d e.free) (too_much_free e d) >> rest

unfoldable pub check_range : ℕ → ℕ → List Entry → Run RingError (Unit {0})
unfolding Entries.entry Entries.entry_before check_free
check_range start end [] = ok tt
check_range start end (e ∷ es) = do
  first ← Entries.entry (e ∷ es) 0
  fail_if (ltb first.token start) token_out_of_range
  last ← Entries.entry_before (e ∷ es) 0
  fail_if (leb end last.token) token_out_of_range
  check_free start end first.token (e ∷ es)

unfoldable pub check_entries : ℕ → ℕ → List Entry → Run RingError (Unit {0})
unfolding Entries.is_sorted repeats check_range
check_entries start end es =
    fail_if (not (Entries.is_sorted es)) not_sorted
    >> (fail_if (repeats es) token_repeated >> check_range start end es)

unfoldable pub check_invariants : Ring → Run RingError (Unit {0})
unfolding check_entries
check_invariants r = check_entries r.start r.end r.entries

unfoldable pub or_die {ℓ} : {E F : Type 0} {A : Type ℓ} → Run E A → Run F A
or_die (ok a) = ok a
or_die (err e) = panic
or_die panic = panic

unfoldable pub assert_invariants : {E : Type 0} → Ring → Run E (Unit {0})
unfolding check_invariants or_die
assert_invariants r = or_die (check_invariants r)
