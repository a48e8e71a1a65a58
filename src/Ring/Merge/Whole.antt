-- ===== src/Ring/Merge/Whole.antt =====
-- Merge as a whole: its checks, its outcome and the ring that it leaves.
use weave.Base.{
  ℕ, ◌≡◌, refl, Bool, true, false, not, ◌&&◌, List, [], ◌∷◌, ltb, leb, ◌==◌, Run, ok, err, panic,
  ◌>>=◌, ◌>>◌, fail_if, arith, Bool-cases, inl, inr, Option, none, some,
}
use weave.Entries.Search.{last}
use weave.Address.{Range}
use weave.Entries
use weave.Entries.{Entry}
use weave.Ring.{
  Ring, RingError, distance, next_token, repeats, check_free, check_range, check_entries,
}
use weave.Ring.Merge.{
  Merged, Outcome, updated, failed, splits, keeping, adding, merge_entries, merge_causing,
  merge_checked, conclude, merge, seeds_differ,
}
use weave.Ring.Valid.{check_entries_iff, check_range-cons}
use weave.Ring.Owner.{IsValid, assert_invariants-ok, ranges_before-ok, updates_after-ok, updates_of}

-- the run does not panic, and what it returns satisfies `P`
data Ends {A : Type 0} (P : A → Type 0) : Run RingError A → Type 0 where
  ends_ok : {a : A} → P a → Ends P (ok a)
  ends_err : {e : RingError} → Ends P (err e)

abbrev Any : {A : Type 0} → A → Type 0
Any a = Unit

module _ {A : Type 0} {P : A → Type 0} where
  Ends-bind :
      {B : Type 0} {m : Run RingError B} {f : B → Run RingError A}
      → Ends Any m
      → ((b : B) → m ≡ ok b → Ends P (f b))
      → Ends P (m >>= f)
  Ends-bind (ends_ok t) k = k _ refl
  Ends-bind ends_err k = ends_err

  Ends-guard :
      (b : Bool) (e : RingError) {m : Run RingError A} → Ends P m → Ends P (fail_if b e >> m)
  Ends-guard true e h = ends_err
  Ends-guard false e h = h

check_free-Ends : (start end first : ℕ) (es : List Entry) → Ends Any (check_free start end first es)
unfolding check_free
check_free-Ends start end first [] = ends_ok tt
check_free-Ends start end first (e ∷ es) =
    Ends-guard (ltb (distance start end e.token (next_token first es)) e.free) _
      (check_free-Ends start end first es)

check_range-Ends : (start end : ℕ) (es : List Entry) → Ends Any (check_range start end es)
check_range-Ends start end [] = unfold check_range in (ends_ok tt)
check_range-Ends start end (e ∷ es) = rw (check_range-cons start end e es) (
    Ends-guard (ltb e.token start) _
      (Ends-guard (leb end (last e es).token) _ (check_free-Ends start end e.token (e ∷ es))))

check_entries-Ends : (start end : ℕ) (es : List Entry) → Ends Any (check_entries start end es)
unfolding check_entries
check_entries-Ends start end es =
    Ends-guard (not (Entries.is_sorted es)) _
      (Ends-guard (repeats es) _ (check_range-Ends start end es))

keeping-Ends : (e : Entry) {m : Merged} → Ends Any m → Ends Any (keeping e m)
unfolding keeping
keeping-Ends e (ends_ok t) = ends_ok tt
keeping-Ends e ends_err = ends_err

adding-Ends : (e : Entry) {m : Merged} → Ends Any m → Ends Any (adding e m)
unfolding adding
adding-Ends e (ends_ok t) = ends_ok tt
adding-Ends e ends_err = ends_err

merge_entries-Ends :
    (our : ℕ) (prev : Option ℕ) (es other : List Entry) → Ends Any (merge_entries our prev es other)
unfolding merge_entries
merge_entries-Ends our prev [] [] = ends_ok tt
merge_entries-Ends our prev (m ∷ es) [] = ends_ok tt
merge_entries-Ends our prev [] (t ∷ other) =
    Ends-guard (splits our prev t) _ (adding-Ends t (merge_entries-Ends our none [] other))
merge_entries-Ends our prev (m ∷ es) (t ∷ other) = elim (Bool-cases (ltb m.token t.token)) [
  | inl lt ↦ rw lt (keeping-Ends m (merge_entries-Ends our (some m.peer) es (t ∷ other)))
  | inr ge ↦ elim (Bool-cases (ltb t.token m.token)) [
    | inl gt ↦
        rw (ge, gt)
          (Ends-guard (splits our prev t) _
            (adding-Ends t (merge_entries-Ends our none (m ∷ es) other)))
    | inr le ↦ elim (Bool-cases (leb t.version m.version)) [
      | inl old ↦
          rw (ge, le, old)
            (Ends-guard (m.version == t.version && not (Entries.equal m t)) _
              (keeping-Ends m (merge_entries-Ends our (some m.peer) es other)))
      | inr new ↦
          rw (ge, le, new)
            (Ends-guard (m.peer == our) _ (adding-Ends t (merge_entries-Ends our none es other)))
    ]
  ]
]

merge_causing-ok :
    (m : Run RingError (Unit {0})) {u : Unit {0}} → merge_causing m ≡ ok u → m ≡ ok tt
unfolding merge_causing
merge_causing-ok (ok v) h = refl
merge_causing-ok (err e) h = cc
merge_causing-ok panic h = cc

merge_causing-Ends : {m : Run RingError (Unit {0})} → Ends Any m → Ends Any (merge_causing m)
unfolding merge_causing
merge_causing-Ends (ends_ok t) = ends_ok tt
merge_causing-Ends ends_err = ends_err

-- the ring `t` and the answer `u` of a successful Merge of `g` into `r`
pub record Accepts (r g : Ring) (u : Bool) (t : Ring) : Type 0 where
  pub sender_valid : IsValid g
  pub same_range : (g.start ≡ r.start) × (g.end ≡ r.end)
  pub merged : merge_entries r.peer none r.entries g.entries ≡ ok (t.entries, u)
  pub valid : IsValid t
  pub kept : (t.start ≡ r.start) × (t.end ≡ r.end) × (t.peer ≡ r.peer)

merge_checked-Ends : (r g : Ring) → Ends (λ a. Accepts r g a.0 a.1) (merge_checked r g)
unfolding merge_checked
merge_checked-Ends r g = Ends-bind (check_entries-Ends g.start g.end g.entries) λ u sender.
    Ends-guard (seeds_differ g.seeds r.seeds) _
      (elim (Bool-cases (r.start == g.start && r.end == g.end)) [
        | inr other ↦ rw other ends_err
        | inl same ↦ rw same (
            Ends-bind (merge_entries-Ends r.peer none r.entries g.entries) λ a run.
              Ends-bind (merge_causing-Ends (check_entries-Ends r.start r.end a.0)) λ w checked.
                ends_ok (record {
                  sender_valid = (check_entries_iff g.start g.end g.entries).0 sender;
                  same_range = (ground arith, ground arith);
                  merged = run;
                  valid =
                      (check_entries_iff r.start r.end a.0).0
                        (merge_causing-ok (check_entries r.start r.end a.0) checked);
                  kept = (refl, refl, refl);
                }))
      ])

-- what an outcome says of the ring that Merge leaves
abbrev pub Concludes : Ring → Ring → Ring → Outcome → Type 0
Concludes r g t (updated u) = Accepts r g u t
Concludes r g t (failed e) = t ≡ r

conclude-ok :
    {E : Type 0} (r g : Ring) (prev : List Range) {m : Run RingError (Bool × Ring)}
    → IsValid r
    → Ends (λ a. Accepts r g a.0 a.1) m
    → (o : Outcome) × (t : Ring) × (conclude {E = E} r prev m ≡ ok (o, t, updates_of t t.peer prev))
      × IsValid t
      × Concludes r g t o
unfolding conclude
conclude-ok {E} r g prev v (ends_ok {a = (u, t)} h) =
    (updated u, t, rw (updates_after-ok {E = E} t t.peer prev h.valid), h.valid, h)
conclude-ok {E} r g prev v (ends_err {e = e}) =
    (failed e, r, rw (updates_after-ok {E = E} r r.peer prev v), v, refl)

-- Merge into a valid ring never panics, and leaves a valid ring: on an error the ring that it was, and otherwise one with the same bounds and peer, whose entries are the merge of the two sides' and whose sender was valid over the same range. The callback, if there is one, is called once, also on an error.
pub merge_correct :
    {E : Type 0} (r g : Ring)
    → IsValid r
    → (o : Outcome) × (t : Ring) × (prev : List Range) × (merge {E = E} r g
        ≡ ok (o, t, updates_of t t.peer prev))
      × IsValid t
      × Concludes r g t o
unfolding merge
merge_correct {E} r g v =
    let (prev, e) = ranges_before-ok {E = E} r r.peer v in
    let (o, t, f, w, c) = conclude-ok {E = E} r g prev v (merge_checked-Ends r g) in
    (o, t, prev, rw (assert_invariants-ok {E = E} r v, e, f), w, c)
