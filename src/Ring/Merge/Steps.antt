-- ===== src/Ring/Merge/Steps.antt =====
-- The successful runs of merge, as a relation with one rule for each case of the loop.
use weave.Base.{
  ℕ, ◌≤◌, ◌<◌, ◌≡◌, ◌≢◌, refl, Bool, true, false, not, ◌&&◌, List, [], ◌∷◌, ltb, leb, ◌==◌, Run, ok,
  err, ◌>>◌, fail_if, Option, none, some, arith, Bool-cases, inl, inr, ltb→lt, leb→le, leb→lt,
}
use weave.Entries
use weave.Entries.{Entry}
use weave.Ring.{RingError}
use weave.Ring.Merge.{Merged, splits, keeping, adding, merge_entries}

pub data Merges (our : ℕ) : Option ℕ → List Entry → List Entry → List Entry → Bool → Type 0 where
  done : {prev : Option ℕ} → Merges our prev [] [] [] false
  rest_mine :
      {prev : Option ℕ} (m : Entry) (es : List Entry) → Merges our prev (m ∷ es) [] (m ∷ es) false
  rest_theirs :
      {prev : Option ℕ} (t : Entry) {other res : List Entry} {u : Bool}
      → splits our prev t ≡ false
      → Merges our none [] other res u
      → Merges our prev [] (t ∷ other) (t ∷ res) true
  mine_first :
      {prev : Option ℕ} (m t : Entry) {es other res : List Entry} {u : Bool}
      → m.token < t.token
      → Merges our (some m.peer) es (t ∷ other) res u
      → Merges our prev (m ∷ es) (t ∷ other) (m ∷ res) u
  theirs_first :
      {prev : Option ℕ} (m t : Entry) {es other res : List Entry} {u : Bool}
      → t.token < m.token
      → splits our prev t ≡ false
      → Merges our none (m ∷ es) other res u
      → Merges our prev (m ∷ es) (t ∷ other) (t ∷ res) true
  not_newer :
      {prev : Option ℕ} (m t : Entry) {es other res : List Entry} {u : Bool}
      → m.token ≡ t.token
      → t.version ≤ m.version
      → (m.version ≡ t.version → m.peer ≡ t.peer)
      → Merges our (some m.peer) es other res u
      → Merges our prev (m ∷ es) (t ∷ other) (m ∷ res) u
  newer :
      {prev : Option ℕ} (m t : Entry) {es other res : List Entry} {u : Bool}
      → m.token ≡ t.token
      → m.version < t.version
      → m.peer ≢ our
      → Merges our none es other res u
      → Merges our prev (m ∷ es) (t ∷ other) (t ∷ res) true

fail_if-ok :
    {A : Type 0} (b : Bool) (e : RingError) (m : Run RingError A) {a : A}
    → (fail_if b e >> m) ≡ ok a
    → (b ≡ false) × (m ≡ ok a)
fail_if-ok true e m h = cc
fail_if-ok false e m h = (refl, h)

keeping-ok :
    (e : Entry) (m : Merged) {res : List Entry} {u : Bool}
    → keeping e m ≡ ok (res, u)
    → (res' : List Entry) × (m ≡ ok (res', u)) × (res ≡ e ∷ res')
unfolding keeping
keeping-ok e (ok (res', u')) h = (res', cc, cc)
keeping-ok e (err x) h = cc
keeping-ok e Run.panic h = cc

adding-ok :
    (e : Entry) (m : Merged) {res : List Entry} {u : Bool}
    → adding e m ≡ ok (res, u)
    → (res' : List Entry) × (u' : Bool) × (m ≡ ok (res', u')) × (res ≡ e ∷ res') × (u ≡ true)
unfolding adding
adding-ok e (ok (res', u')) h = (res', u', refl, cc, cc)
adding-ok e (err x) h = cc
adding-ok e Run.panic h = cc

not_newer_agrees :
    (m t : Entry)
    → (m.version == t.version && not (Entries.equal m t)) ≡ false
    → m.version ≡ t.version
    → m.peer ≡ t.peer
unfolding Entries.equal
not_newer_agrees m t h e = ground arith

-- every successful merge is such a run
pub merge_entries-Merges :
    (our : ℕ) (prev : Option ℕ) (es other : List Entry) {res : List Entry} {u : Bool}
    → merge_entries our prev es other ≡ ok (res, u)
    → Merges our prev es other res u
unfolding merge_entries
merge_entries-Merges our prev [] [] {res} {u} h =
    let e : res ≡ [] = cc in let f : u ≡ false = cc in rw (e, f) done
merge_entries-Merges our prev (m ∷ es) [] {res} {u} h =
    let e : res ≡ m ∷ es = cc in let f : u ≡ false = cc in rw (e, f) (rest_mine m es)
merge_entries-Merges our prev [] (t ∷ other) {res} {u} h =
    let (ns, k) = fail_if-ok (splits our prev t) _ _ h in
    let (res', u', run, e, f) = adding-ok t _ k in
    rw (e, f) (rest_theirs t ns (merge_entries-Merges our none [] other run))
merge_entries-Merges our prev (m ∷ es) (t ∷ other) {res} {u} h =
    elim (Bool-cases (ltb m.token t.token)) [
      | inl lt ↦
          let (res', run, e) = keeping-ok m _ (rw lt at h) in
          rw e (
            mine_first m t (ltb→lt _ _ lt)
              (merge_entries-Merges our (some m.peer) es (t ∷ other) run))
      | inr ge ↦ elim (Bool-cases (ltb t.token m.token)) [
        | inl gt ↦
            let (ns, k) = fail_if-ok (splits our prev t) _ _ (rw (ge, gt) at h) in
            let (res', u', run, e, f) = adding-ok t _ k in
            rw (e, f)
              (theirs_first m t (ltb→lt _ _ gt) ns
                (merge_entries-Merges our none (m ∷ es) other run))
        | inr le ↦ elim (Bool-cases (leb t.version m.version)) [
          | inl old ↦
              let (agree, k) = fail_if-ok _ _ _ (rw (ge, le, old) at h) in
              let (res', run, e) = keeping-ok m _ k in
              rw e (
                not_newer m t (ground arith) (leb→le _ _ old) (not_newer_agrees m t agree)
                  (merge_entries-Merges our (some m.peer) es other run))
          | inr new ↦
              let (not_ours, k) = fail_if-ok (m.peer == our) _ _ (rw (ge, le, new) at h) in
              let (res', u', run, e, f) = adding-ok t _ k in
              rw (e, f)
                (newer m t (ground arith) (leb→lt _ _ new) (λ q. ground arith)
                  (merge_entries-Merges our none es other run))
        ]
      ]
    ]
