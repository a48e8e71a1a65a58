-- ===== src/Allocator/Reported.antt =====
-- reportFreeSpace never panics, and leaves the ranges of the ring as they are.
use mathlib.Core.Path.{subst}
use weave.Base.Calls.{>>=-eq-ok}
use weave.Base.{
  ℕ, ◌<◌, ◌≡◌, refl, ◌∙◌, sym, ap, Bool, true, not, List, [], ◌∷◌, ◌==◌, length, arith, Bool-cases,
  inl, inr, word, ok,
}
use weave.Address.{Range}
use weave.Space.Invariant
use weave.Entries.{Entry}
use weave.Ring.{Ring}
use weave.Ring.Owner
use weave.Ring.Owner.{assert_invariants-ok, peer_ranges}
use weave.Ring.Valid.{AreValid, first_or}
use weave.Ring.Ranges.{first_token, entry_ranges, split_ranges_over_zero}
use weave.Ring.Transfer.{join_origin, report_free, report_all}
use weave.Ring.Pieces.{pieces, entry_ranges-pieces}
use weave.Ring.Fits.{Same, both, Same-refl, IsSortedFrom-Same, below-Same}
use weave.Ring.Reports.{report_all-ok}
use weave.Allocator.{Allocator}
use weave.Allocator.Actor.{free_spaces, report_free_space}
use weave.Allocator.Checks.{owned_ranges-ok}
use weave.Allocator.Joined.{AllFit, reports-fit}

first_or-Same :
    (d : ℕ) (e : Entry) (es fs : List Entry) → Same (e ∷ es) fs → first_or d fs ≡ e.token
unfolding first_or
first_or-Same d e es fs (both f g t p s) = sym t

first_token-cons : (e : Entry) (es : List Entry) → first_token (e ∷ es) ≡ e.token
unfolding first_token
first_token-cons e es = refl

first_or-cons : (d : ℕ) (e : Entry) (es : List Entry) → first_or d (e ∷ es) ≡ e.token
unfolding first_or
first_or-cons d e es = refl

pub peer_ranges-pieces :
    (r : Ring) (e : Entry) (es : List Entry)
    → r.entries ≡ e ∷ es
    → AreValid r.start r.end (e ∷ es)
    → peer_ranges r r.peer ≡ pieces r.start r.end r.peer e es
unfolding first_token
peer_ranges-pieces r e es entries v =
    ap
      (λ (l : List Entry).
        split_ranges_over_zero r.start r.end (entry_ranges r.peer (first_token l) l))
      entries
    ∙ entry_ranges-pieces r.start r.end r.peer e es v.sorted.0 v.sorted.1

module _ {E : Type 0} (r : Ring) (e : Entry) (es : List Entry) (entries : r.entries ≡ e ∷ es)
    (v : Owner.IsValid r) where
  -- reports that fit when joined are accepted, and so are the entries afterwards
  report_free-ok :
      (m m' : List (ℕ × ℕ))
      → join_origin {E = E} r m ≡ ok m'
      → AllFit r e es m'
      → (fs : List Entry) × (changed : Bool) × (report_free {E = E} r m
          ≡ ok (changed, record r { entries = fs }))
        × Same r.entries fs
        × AreValid r.start r.end fs
  unfolding report_free first_or first_token
  report_free-ok m m' joined all =
      let v' : AreValid r.start r.end (e ∷ es) =
        subst (λ (l : List Entry). AreValid r.start r.end l) entries v in
      let first = first_token-cons e es in
      let (fs, changed, run, same, fits) =
        report_all-ok {E = E} r m' r.start (e ∷ es) v'.sorted
          (rw (first, ← first_or-cons r.start e es) v'.fits) (rw first all) in
      let valid : AreValid r.start r.end fs = record {
        sorted = IsSortedFrom-Same r.start same v'.sorted;
        below_end = below-Same r.end same v'.below_end;
        fits = rw (first_or-Same r.start e es fs same, ← first) fits;
      } in
      let some_entry : not (length r.entries == 0) ≡ true = rw entries (ground arith) in
      let run' : report_all {E = E} r m' r.entries ≡ ok (fs, changed) =
        ap (report_all {E = E} r m') entries ∙ run in
      (
        fs,
        changed,
        rw
            (
              assert_invariants-ok {E = E} r v,
              some_entry,
              joined,
              run',
              assert_invariants-ok {E = E} (record r { entries = fs }) valid,
            )
            refl,
        subst (λ (l : List Entry). Same l fs) (sym entries) same,
        valid,
      )

-- ReportFree of what is free in the ranges of a valid ring is accepted, and so is the ring afterwards
pub report_free_space-ok :
    {E : Type 0} (r : Ring) (x : Allocator) (e : Entry) (es : List Entry)
    → r.entries ≡ e ∷ es
    → Owner.IsValid r
    → r.end < word
    → Invariant.IsValid x.space
    → (fs : List Entry) × (report_free_space {E = E} r x ≡ ok (record r { entries = fs }))
      × Same r.entries fs
      × AreValid r.start r.end fs
unfolding report_free_space
report_free_space-ok {E} r x e es entries v small w =
    elim (Bool-cases (length (peer_ranges r r.peer) == 0)) [
      | inl none_ours ↦
          (r.entries, rw (owned_ranges-ok {E = E} r v, none_ours) refl, Same-refl r.entries, v)
      | inr ours ↦
          let v' : AreValid r.start r.end (e ∷ es) =
            subst (λ (l : List Entry). AreValid r.start r.end l) entries v in
          let (m', run, all) = reports-fit {E = E} r e es entries v' small x.space w in
          let (m, filled, joined) =
            >>=-eq-ok (free_spaces {E = E} x.space (pieces r.start r.end r.peer e es) [])
              (join_origin {E = E} r) run in
          let (fs, changed, report, same, valid) =
            report_free-ok {E = E} r e es entries v m m' joined all in
          let filled' : free_spaces {E = E} x.space (peer_ranges r r.peer) [] ≡ ok m =
            ap (λ (rs : List Range). free_spaces {E = E} x.space rs [])
              (peer_ranges-pieces r e es entries v')
            ∙ filled in
          (fs, rw (owned_ranges-ok {E = E} r v, ours, filled', report) refl, same, valid)
    ]
